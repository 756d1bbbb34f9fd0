-- ===== src/Common/Tests.antt =====
-- Boolean tests: orders of native numbers, the conditional, and the equality of types that decide it.
use Prim.Native.Nat.{ℕ, ◌≤◌, ◌<◌, compare, Ordering}
use Prim.Native.String.{String}
use mathlib.Core.Path.{◌≡◌, refl}
use mathlib.Core.Logic.{◌↔◌, ◌⊎◌, ◌≢◌, inl, inr}
use mathlib.Core.Bool.{Bool, true, false}
use mathlib.Core.Option.{Option, none, some}
use mathlib.Core.List.{List}
use native.Mathlib.Decide.{ℕ_discrete}
use native.Mathlib.Omega.{arith}
use text.Mathlib.Text.{◌==◌ as str_eq}
use text.Mathlib.TextEquality.{eq_iff}

abbrev pub ltb : ℕ → ℕ → Bool
ltb a b = elim (compare a b) [ Ordering.lt ↦ true | _ ↦ false ]

abbrev pub leb : ℕ → ℕ → Bool
leb a b = elim (compare a b) [ Ordering.gt ↦ false | _ ↦ true ]

infix 1 if◌then◌else◌
abbrev pub if◌then◌else◌ {ℓ} : {A : Type ℓ} → Bool → A → A → A
if true then x else y = x
if false then x else y = y

pub ltb→lt : (a b : ℕ) → ltb a b ≡ true → a < b
ltb→lt a b h = ground arith

pub lt→ltb : (a b : ℕ) → a < b → ltb a b ≡ true
lt→ltb a b h = ground arith

pub leb→le : (a b : ℕ) → leb a b ≡ true → a ≤ b
leb→le a b h = ground arith

pub ruleset tests = (arith, ltb→lt, lt→ltb, leb→le)

-- To split on a computed value and keep the equation.
pub Bool-cases : (b : Bool) → (b ≡ true) ⊎ (b ≡ false)
Bool-cases true = inl refl
Bool-cases false = inr refl

pub Option-cases {ℓ} : {A : Type ℓ} (o : Option A) → (o ≡ none) ⊎ ((a : A) × (o ≡ some a))
Option-cases none = inl refl
Option-cases (some a) = inr (a, refl)

-- `Eq` of the source: a type whose values are compared by `==`.
pub record Eq {ℓ} (A : Type ℓ) : Type ℓ where
  pub dec : Discrete A

infix 50 ◌==◌
abbrev pub ◌==◌ {ℓ} : {A : Type ℓ} ⦃e : Eq A⦄ → A → A → Bool
◌==◌ ⦃e⦄ a b = elim (e.dec a b) [ yes _ ↦ true | no _ ↦ false ]

decide_by {ℓ} : {A : Type ℓ} (a b : A) (t : Bool) → (t ≡ true) ↔ (a ≡ b) → Dec (a ≡ b)
decide_by a b true h = yes (h.0 refl)
decide_by a b false h = no (λ p. differ (h.1 p))
  where
    differ : false ≡ true → ⊥
    differ e = cc

unfoldable pub String-discrete : Discrete String
unfolding decide_by
String-discrete s t = decide_by s t (str_eq s t) (eq_iff s t)

unfoldable pub Bytes-discrete : Discrete (List ℕ)
Bytes-discrete = hlevel ℕ_discrete

instance abbrev pub nat_eq : Eq ℕ
nat_eq = record { dec = ℕ_discrete }

instance abbrev pub string_eq : Eq String
string_eq = record { dec = String-discrete }

instance abbrev pub bytes_eq : Eq (List ℕ)
bytes_eq = record { dec = Bytes-discrete }

module _ {ℓ} {A : Type ℓ} ⦃e : Eq A⦄ where
  pub ==_refl : (a : A) → (a == a) ≡ true
  ==_refl a = ground arith

  pub ==→eq : (a b : A) → (a == b) ≡ true → a ≡ b
  ==→eq a b h = ground arith

  pub ==_ne : (a b : A) → a ≢ b → (a == b) ≡ false
  ==_ne a b h = ground arith
