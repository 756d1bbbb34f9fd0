-- ===== src/Common/Text/Decimal.antt =====
-- A number is read back from its decimal digits.
use Prim.Native.Char.{code}
use Prim.Native.Nat.{ℕ, zero, suc, ◌+◌, ◌/◌, ◌%◌, ◌^◌, ◌≤◌, ◌<◌}
use Prim.Native.String.append
use Prim.Native.String.{String}
use mathlib.Core.Path.{◌≡◌, refl, sym, ap, ◌∙◌}
use mathlib.Core.Logic.{inl, inr}
use mathlib.Core.Bool.{true, false}
use mathlib.Core.Option.{some}
use mathlib.Core.List.{List, [], ◌∷◌, ◌++◌, append_assoc, append-nil}
use native.Mathlib.Omega.{arith}
use native.Mathlib.Decide.{ℕ_discrete}
use nautilus_messaging_relay.Common.Int.{ℤ, pos, negsuc, pos_part, neg_part}
use nautilus_messaging_relay.Common.Tests.{
  ltb, ◌==◌, nat_eq, ltb→lt, lt→ltb, Bool-cases, ==_ne, ==_refl,
}
use nautilus_messaging_relay.Common.Text.{
  codes, ◌+s◌, digit, show_from, show_nat, show_int, digits_value, number, parse_unsigned,
  parse_i64,
}

pub codes-append : (s t : String) → codes (s +s t) ≡ codes s ++ codes t
codes-append String.[] t = ap codes (append.nil t)
codes-append (String.◌∷◌ c s) t =
    ap codes (append.cons c s t) ∙ ap (◌∷◌ (code c)) (codes-append s t)

codes-digit : (d : ℕ) → d < 10 → codes (digit d) ≡ (b'0' + d) ∷ []
unfolding ℕ_discrete
codes-digit zero h = refl
codes-digit (suc zero) h = refl
codes-digit (suc (suc zero)) h = refl
codes-digit (suc (suc (suc zero))) h = refl
codes-digit (suc (suc (suc (suc zero)))) h = refl
codes-digit (suc (suc (suc (suc (suc zero))))) h = refl
codes-digit (suc (suc (suc (suc (suc (suc zero)))))) h = refl
codes-digit (suc (suc (suc (suc (suc (suc (suc zero))))))) h = refl
codes-digit (suc (suc (suc (suc (suc (suc (suc (suc zero)))))))) h = refl
codes-digit (suc (suc (suc (suc (suc (suc (suc (suc (suc zero))))))))) h = refl
codes-digit (suc (suc (suc (suc (suc (suc (suc (suc (suc (suc d)))))))))) h = absurd (omega arith)

pub show_from_step :
    (fuel n : ℕ)
    → (ltb n 10 ≡ false)
    → codes (show_from (suc fuel) n) ≡ codes (show_from fuel (n / 10)) ++ (b'0' + n % 10) ∷ []
unfolding show_from
show_from_step fuel n big = rw big (
    codes-append (show_from fuel (n / 10)) (digit (n % 10))
    ∙ ap (λ cs. codes (show_from fuel (n / 10)) ++ cs) (codes-digit (n % 10) (omega arith)))

pub show_from_digit :
    (fuel n : ℕ) → ltb n 10 ≡ true → codes (show_from (suc fuel) n) ≡ (b'0' + n) ∷ []
unfolding show_from
show_from_digit fuel n small = rw small (codes-digit n (ltb→lt n 10 small))

-- Reading the digits of `n` first leaves `n` to go on with.
digits_value-show_from :
    (fuel n : ℕ) (rest : List ℕ)
    → n < fuel
    → digits_value 0 (codes (show_from fuel n) ++ rest) ≡ digits_value n rest
unfolding digits_value
digits_value-show_from zero n rest h = absurd (omega arith)
digits_value-show_from (suc fuel) n rest h = elim (Bool-cases (ltb n 10)) [
  | inl small ↦ rw (show_from_digit fuel n small) (ground arith)
  | inr big ↦
      rw
        (
          show_from_step fuel n big,
          append_assoc (codes (show_from fuel (n / 10))) ((b'0' + n % 10) ∷ []) rest,
        )
        (digits_value-show_from fuel (n / 10) ((b'0' + n % 10) ∷ rest) (ground arith)
          ∙ ground arith)
]

-- The digits of a number begin with a digit.
starts :
    (fuel n : ℕ)
    → n < fuel
    → (c : ℕ) × (cs : List ℕ) × (codes (show_from fuel n) ≡ c ∷ cs) × (b'0' ≤ c) × (c ≤ b'9')
starts zero n h = absurd (omega arith)
starts (suc fuel) n h = elim (Bool-cases (ltb n 10)) [
  | inl small ↦
      let lt = ltb→lt n 10 small in
      (b'0' + n, [], show_from_digit fuel n small, omega arith, omega arith)
  | inr big ↦
      let (c, cs, e, lo, hi) = starts fuel (n / 10) (ground arith) in
      (
        c,
        cs ++ (b'0' + n % 10) ∷ [],
        show_from_step fuel n big ∙ ap (λ ds. ds ++ (b'0' + n % 10) ∷ []) e,
        lo,
        hi,
      )
]

pub show_nat-starts :
    (n : ℕ) → (c : ℕ) × (cs : List ℕ) × (codes (show_nat n) ≡ c ∷ cs) × (b'0' ≤ c) × (c ≤ b'9')
unfolding show_nat
show_nat-starts n = starts (suc n) n (omega arith)

number-show_nat : (n : ℕ) → number (codes (show_nat n)) ≡ some n
unfolding show_nat digits_value
number-show_nat n =
    let (c, cs, e, lo, hi) = show_nat-starts n in
    let value : digits_value 0 (codes (show_nat n)) ≡ some n =
      ap (digits_value 0) (sym (append-nil (codes (show_nat n))))
      ∙ digits_value-show_from (suc n) n [] (omega arith) in
    rw e (sym (ap (digits_value 0) e) ∙ value)

-- A number of `w` bits is read back.
pub parse_unsigned-show_nat : (w n : ℕ) → n < 2 ^ w → parse_unsigned w (show_nat n) ≡ some n
unfolding parse_unsigned
parse_unsigned-show_nat w n h =
    let (c, cs, e, lo, hi) = show_nat-starts n in
    let plain : (c == b'+') ≡ false = ==_ne c b'+' (λ p. absurd (omega arith)) in
    let value : number (c ∷ cs) ≡ some n = ap number (sym e) ∙ number-show_nat n in
    rw (e, plain, value, lt→ltb n (2 ^ w) h) refl

-- A signed number of 64 bits is read back.
pub parse_i64-show_int :
    (z : ℤ) → pos_part z < 2 ^ 63 → neg_part z ≤ 2 ^ 63 → parse_i64 (show_int z) ≡ some z
unfolding parse_i64 show_int
parse_i64-show_int (pos n) h k =
    let (c, cs, e, lo, hi) = show_nat-starts n in
    let plus : (c == b'+') ≡ false = ==_ne c b'+' (λ p. absurd (omega arith)) in
    let minus : (c == b'-') ≡ false = ==_ne c b'-' (λ p. absurd (omega arith)) in
    let value : number (c ∷ cs) ≡ some n = ap number (sym e) ∙ number-show_nat n in
    rw (e, minus, plus, value, lt→ltb n (2 ^ 63) h) refl
parse_i64-show_int (negsuc n) h k =
    rw
      (
        codes-append "-" (show_nat (suc n)),
        ==_refl {A = ℕ} b'-',
        number-show_nat (suc n),
        lt→ltb n (2 ^ 63) (omega arith),
      )
      refl
