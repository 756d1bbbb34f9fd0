-- ===== src/Common/Text/Fields.antt =====
-- Texts joined by a separator are read back where it does not stand in them.
use Prim.Native.Nat.{ℕ, zero, suc, ◌+◌, ◌/◌, ◌<◌, ◌%◌}
use Prim.Native.String.{String}
use mathlib.Core.Path.{◌≡◌, refl, sym, ap, ◌∙◌}
use mathlib.Core.Logic.{◌≢◌, inl, inr}
use nautilus_messaging_relay.Common.Tests.{ltb, ltb→lt, Bool-cases}
use mathlib.Core.Option.{some}
use mathlib.Core.List.{List, [], ◌∷◌, ◌++◌}
use native.Mathlib.Omega.{arith}
use mathlib.Core.Path.{subst}
use nautilus_messaging_relay.Common.Int.{ℤ, pos, negsuc, InI64}
use nautilus_messaging_relay.Common.Lists.{All}
use nautilus_messaging_relay.Common.Text.{codes, ◌+s◌, show_int, show_nat, show_from, parse_i64}
use nautilus_messaging_relay.Common.Text.Decimal.{
  codes-append, show_from_step, show_from_digit, parse_i64-show_int,
}
use nautilus_messaging_relay.Common.Text.Utf8.{codes-injective}

module _ (c : ℕ) where
  abbrev pub Lacks : List ℕ → Type 0
  Lacks = All (λ x. x ≢ c)

  Lacks-middle : (xs ys : List ℕ) → Lacks (xs ++ c ∷ ys) → ⊥
  Lacks-middle [] ys (p, a) = p refl
  Lacks-middle (x ∷ xs) ys (p, a) = Lacks-middle xs ys a

  -- The last separator splits a list in one way.
  split_last :
      (xs xs' ys ys' : List ℕ)
      → Lacks ys
      → Lacks ys'
      → xs ++ c ∷ ys ≡ xs' ++ c ∷ ys'
      → (xs ≡ xs') × (ys ≡ ys')
  split_last [] [] ys ys' a a' e = (refl, cc)
  split_last [] (x ∷ xs') ys ys' a a' e =
      let same : ys ≡ xs' ++ c ∷ ys' = cc in absurd (Lacks-middle xs' ys' (subst Lacks same a))
  split_last (x ∷ xs) [] ys ys' a a' e =
      let same : xs ++ c ∷ ys ≡ ys' = cc in absurd (Lacks-middle xs ys (subst Lacks (sym same) a'))
  split_last (x ∷ xs) (y ∷ xs') ys ys' a a' e =
      let same : x ≡ y = cc in
      let rest : xs ++ c ∷ ys ≡ xs' ++ c ∷ ys' = cc in
      let (p, q) = split_last xs xs' ys ys' a a' rest in (λ i. same i ∷ p i, q)

  -- So does the first one.
  split_first :
      (xs xs' ys ys' : List ℕ)
      → Lacks xs
      → Lacks xs'
      → xs ++ c ∷ ys ≡ xs' ++ c ∷ ys'
      → (xs ≡ xs') × (ys ≡ ys')
  split_first [] [] ys ys' a a' e = (refl, cc)
  split_first [] (x ∷ xs') ys ys' a (p, a') e = let same : c ≡ x = cc in absurd (p (sym same))
  split_first (x ∷ xs) [] ys ys' (p, a) a' e = let same : x ≡ c = cc in absurd (p same)
  split_first (x ∷ xs) (y ∷ xs') ys ys' (p, a) (p', a') e =
      let same : x ≡ y = cc in
      let rest : xs ++ c ∷ ys ≡ xs' ++ c ∷ ys' = cc in
      let (q, r) = split_first xs xs' ys ys' a a' rest in (λ i. same i ∷ q i, r)

-- No colon stands in the text.
abbrev pub NoColon : String → Type 0
NoColon s = Lacks b':' (codes s)

codes-colon : (s t : String) → codes (s +s ":" +s t) ≡ codes s ++ b':' ∷ codes t
codes-colon s t = codes-append s (":" +s t) ∙ ap (λ x. codes s ++ x) (codes-append ":" t)

module _ (s s' t t' : String) (e : s +s ":" +s t ≡ s' +s ":" +s t') where
  joined : codes s ++ b':' ∷ codes t ≡ codes s' ++ b':' ∷ codes t'
  joined = sym (codes-colon s t) ∙ ap codes e ∙ codes-colon s' t'

  pub split_last_colon : NoColon t → NoColon t' → (s ≡ s') × (t ≡ t')
  split_last_colon a a' =
      let (p, q) = split_last b':' (codes s) (codes s') (codes t) (codes t') a a' joined in
      (codes-injective s s' p, codes-injective t t' q)

  pub split_first_colon : NoColon s → NoColon s' → (s ≡ s') × (t ≡ t')
  split_first_colon a a' =
      let (p, q) = split_first b':' (codes s) (codes s') (codes t) (codes t') a a' joined in
      (codes-injective s s' p, codes-injective t t' q)

Lacks-append : (c : ℕ) (xs ys : List ℕ) → Lacks c xs → Lacks c ys → Lacks c (xs ++ ys)
Lacks-append c [] ys a b = b
Lacks-append c (x ∷ xs) ys (p, a) b = (p, Lacks-append c xs ys a b)

show_from-NoColon : (fuel n : ℕ) → NoColon (show_from fuel n)
unfolding show_from
show_from-NoColon zero n = tt
show_from-NoColon (suc fuel) n = elim (Bool-cases (ltb n 10)) [
  | inl small ↦
      subst (Lacks b':') (sym (show_from_digit fuel n small)) (below n (ltb→lt n 10 small), tt)
  | inr big ↦ subst (Lacks b':') (sym (show_from_step fuel n big)) (
      Lacks-append b':' (codes (show_from fuel (n / 10))) ((b'0' + n % 10) ∷ [])
        (show_from-NoColon fuel (n / 10)) (below (n % 10) (omega arith), tt))
]
  where
    below : (d : ℕ) → d < 10 → b'0' + d ≢ b':'
    below d h e = omega arith

pub show_int-NoColon : (z : ℤ) → NoColon (show_int z)
unfolding show_int show_nat
show_int-NoColon (pos n) = show_from-NoColon (suc n) n
show_int-NoColon (negsuc n) =
    subst (Lacks b':') (sym (codes-append "-" (show_nat (suc n))))
      ((λ e. absurd (omega arith)), show_from-NoColon (suc (suc n)) (suc n))

some-injective : {a b : ℤ} → some a ≡ some b → a ≡ b
some-injective e = cc

pub show_int-injective : (z z' : ℤ) → InI64 z → InI64 z' → show_int z ≡ show_int z' → z ≡ z'
show_int-injective z z' (h, k) (h', k') e =
    some-injective (sym (parse_i64-show_int z h k) ∙ ap parse_i64 e ∙ parse_i64-show_int z' h' k')
