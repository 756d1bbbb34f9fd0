-- ===== src/Common/Fallible.antt =====
-- `Result<T, E>` of the source, and its `?` as a bind.
use mathlib.Core.Path.{◌≡◌, refl}
use mathlib.Core.Logic.{◌⊎◌, inl, inr}
use mathlib.Core.Bool.{Bool, true, false}
use mathlib.Core.Option.{Option, none, some}

pub data Result {ℓ κ} (E : Type κ) (A : Type ℓ) : Type (ℓ ⊔ κ) where
  ok : A → Result E A
  err : E → Result E A

module _ {κ} {E : Type κ} where
  infixl 5 ◌>>=◌ ◌>>◌
  abbrev pub ◌>>=◌ {ℓ ℓ'} : {A : Type ℓ} {B : Type ℓ'} → Result E A → (A → Result E B) → Result E B
  err x >>= next = err x
  ok a >>= next = next a

  abbrev pub ◌>>◌ {ℓ} : {B : Type ℓ} → Result E (Unit {0}) → Result E B → Result E B
  err x >> next = err x
  ok _ >> next = next

  -- `if fails { return Err(e) }`
  abbrev pub refuse_if : Bool → E → Result E (Unit {0})
  refuse_if true e = err e
  refuse_if false e = ok tt

module _ {ℓ κ} {E : Type κ} {A : Type ℓ} where
  pub ok-injective : {a b : A} → ◌≡◌ {A = Result E A} (ok a) (ok b) → a ≡ b
  ok-injective h = cc

  -- `Option::ok_or`
  abbrev pub ok_or : E → Option A → Result E A
  ok_or e none = err e
  ok_or e (some a) = ok a

  -- `Result::map_err`
  abbrev pub map_err {κ'} : {E' : Type κ'} → (E → E') → Result E A → Result E' A
  map_err f (ok a) = ok a
  map_err f (err e) = err (f e)

  abbrev pub is_ok : Result E A → Bool
  is_ok (ok a) = true
  is_ok (err e) = false

  pub Result-cases : (r : Result E A) → ((a : A) × (r ≡ ok a)) ⊎ ((e : E) × (r ≡ err e))
  Result-cases (ok a) = inl (a, refl)
  Result-cases (err e) = inr (e, refl)
