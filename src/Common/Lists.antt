-- ===== src/Common/Lists.antt =====
-- Lists measured by native numbers, with the predicates and the membership that proofs split on.
use Prim.Native.Nat.{ℕ, zero, suc, ◌+◌, ◌-◌, ◌≤◌, min}
use mathlib.Core.Path.{◌≡◌, refl, ap}
use mathlib.Core.Logic.{◌⊎◌, inl, inr, ◌↔◌}
use mathlib.Core.Bool.{Bool, true, false}
use mathlib.Core.List.{List, [], ◌∷◌, ◌++◌}
use mathlib.Core.Option.{Option, none, some}
use native.Mathlib.Omega.{arith}
use nautilus_messaging_relay.Common.Tests.{if◌then◌else◌, Bool-cases}

module _ {ℓ} {A : Type ℓ} where
  abbrev pub length : List A → ℕ
  length [] = 0
  length (x ∷ xs) = suc (length xs)

  abbrev pub is_empty : List A → Bool
  is_empty [] = true
  is_empty (x ∷ xs) = false

  abbrev pub take : ℕ → List A → List A
  take zero xs = []
  take (suc n) [] = []
  take (suc n) (x ∷ xs) = x ∷ take n xs

  abbrev pub drop : ℕ → List A → List A
  drop zero xs = xs
  drop (suc n) [] = []
  drop (suc n) (x ∷ xs) = drop n xs

  abbrev pub filter : (A → Bool) → List A → List A
  filter p [] = []
  filter p (x ∷ xs) = if p x then x ∷ filter p xs else filter p xs

  abbrev pub find : (A → Bool) → List A → Option A
  find p [] = none
  find p (x ∷ xs) = if p x then some x else find p xs

  pub length-append : (xs ys : List A) → length (xs ++ ys) ≡ length xs + length ys
  length-append [] ys = omega arith
  length-append (x ∷ xs) ys = omega (arith, length-append xs ys)

  pub length-take : (n : ℕ) (xs : List A) → length (take n xs) ≡ min n (length xs)
  length-take zero xs = omega arith
  length-take (suc n) [] = omega arith
  length-take (suc n) (x ∷ xs) = omega (arith, length-take n xs)

  pub length-drop : (n : ℕ) (xs : List A) → length (drop n xs) ≡ length xs - n
  length-drop zero xs = omega arith
  length-drop (suc n) [] = omega arith
  length-drop (suc n) (x ∷ xs) = omega (arith, length-drop n xs)

  pub take-append-drop : (n : ℕ) (xs : List A) → take n xs ++ drop n xs ≡ xs
  take-append-drop zero xs = refl
  take-append-drop (suc n) [] = refl
  take-append-drop (suc n) (x ∷ xs) = ap (◌∷◌ x) (take-append-drop n xs)

  pub take_all : (n : ℕ) (xs : List A) → length xs ≤ n → take n xs ≡ xs
  take_all zero [] h = refl
  take_all zero (x ∷ xs) h = absurd (omega arith)
  take_all (suc n) [] h = refl
  take_all (suc n) (x ∷ xs) h = ap (◌∷◌ x) (take_all n xs (omega arith))

module _ {A : Type 0} where
  -- `x` occurs in the list.
  abbrev pub In : A → List A → Type 0
  In x [] = ⊥
  In x (y ∷ ys) = (x ≡ y) ⊎ In x ys

  pub In-append : (x : A) (xs ys : List A) → In x (xs ++ ys) ↔ (In x xs ⊎ In x ys)
  In-append x [] ys = (inr, λ h. elim h [ inl p ↦ absurd p | inr q ↦ q ])
  In-append x (y ∷ xs) ys =
      let (to, from) = In-append x xs ys in
      (
        λ h. elim h [
          | inl p ↦ inl (inl p)
          | inr q ↦ elim (to q) [ inl a ↦ inl (inr a) | inr b ↦ inr b ]
        ],
        λ h. elim h [
          | inl p ↦ elim p [ inl a ↦ inl a | inr b ↦ inr (from (inl b)) ]
          | inr q ↦ inr (from (inr q))
        ],
      )

  pub In-take : (n : ℕ) (x : A) (xs : List A) → In x (take n xs) → In x xs
  In-take zero x xs h = absurd h
  In-take (suc n) x [] h = absurd h
  In-take (suc n) x (y ∷ ys) h = elim h [ inl p ↦ inl p | inr q ↦ inr (In-take n x ys q) ]

  -- A filter keeps exactly the elements that pass its test.
  pub In-filter→ :
      (p : A → Bool) (x : A) (xs : List A) → In x (filter p xs) → In x xs × (p x ≡ true)
  In-filter→ p x [] h = absurd h
  In-filter→ p x (y ∷ ys) h = elim (Bool-cases (p y)) [
    | inl e ↦ elim (rw e at h) [
      | inl q ↦ (inl q, rw q e)
      | inr r ↦ let t = In-filter→ p x ys r in (inr t.0, t.1)
    ]
    | inr e ↦ let t = In-filter→ p x ys (rw e at h) in (inr t.0, t.1)
  ]

  pub In→filter : (p : A → Bool) (x : A) (xs : List A) → In x xs → p x ≡ true → In x (filter p xs)
  In→filter p x [] h t = absurd h
  In→filter p x (y ∷ ys) h t = elim (Bool-cases (p y)) [
    | inl e ↦ rw e (elim h [ inl q ↦ inl q | inr r ↦ inr (In→filter p x ys r t) ])
    | inr e ↦ rw e (elim h [ inl q ↦ absurd (cc) | inr r ↦ In→filter p x ys r t ])
  ]

module _ {ℓ κ} {A : Type ℓ} (P : A → Type κ) where
  abbrev pub All : List A → Type κ
  All [] = Unit
  All (x ∷ xs) = P x × All xs
