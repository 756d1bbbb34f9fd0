-- ===== src/Common/Int.antt =====
-- Signed integers over the native numbers, and `i64`: a signed integer that wraps at 64 bits.
use Prim.Native.Nat.{ℕ, suc, ◌+◌, ◌-◌, ◌%◌, ◌^◌, ◌≤◌, ◌<◌}
use mathlib.Core.Path.{◌≡◌}
use mathlib.Core.Bool.{Bool}
use native.Mathlib.Decide.{ℕ_discrete}
use native.Mathlib.Omega.{arith}
use nautilus_messaging_relay.Common.Tests.{ltb, leb, if◌then◌else◌, Eq}

-- `negsuc n` is -(n + 1).
pub data ℤ : Type 0 where
  pos : ℕ → ℤ
  negsuc : ℕ → ℤ

abbrev pub pos_part : ℤ → ℕ
pos_part (pos n) = n
pos_part (negsuc n) = 0

abbrev pub neg_part : ℤ → ℕ
neg_part (pos n) = 0
neg_part (negsuc n) = suc n

abbrev pub sub_ℕ : ℕ → ℕ → ℤ
sub_ℕ a b = if leb b a then pos (a - b) else negsuc (b - a - 1)

infixl 65 ◌+ℤ◌ ◌-ℤ◌
infix 50 ◌≤ℤ◌ ◌<ℤ◌
abbrev pub ◌+ℤ◌ : ℤ → ℤ → ℤ
a +ℤ b = sub_ℕ (pos_part a + pos_part b) (neg_part a + neg_part b)

abbrev pub ◌-ℤ◌ : ℤ → ℤ → ℤ
a -ℤ b = sub_ℕ (pos_part a + neg_part b) (neg_part a + pos_part b)

abbrev pub ◌≤ℤ◌ : ℤ → ℤ → Type 0
a ≤ℤ b = pos_part a + neg_part b ≤ pos_part b + neg_part a

abbrev pub ◌<ℤ◌ : ℤ → ℤ → Type 0
a <ℤ b = pos_part a + neg_part b < pos_part b + neg_part a

abbrev pub ltb_ℤ : ℤ → ℤ → Bool
ltb_ℤ a b = ltb (pos_part a + neg_part b) (pos_part b + neg_part a)

abbrev pub leb_ℤ : ℤ → ℤ → Bool
leb_ℤ a b = leb (pos_part a + neg_part b) (pos_part b + neg_part a)

pub eq_of_parts : (a b : ℤ) → pos_part a + neg_part b ≡ pos_part b + neg_part a → a ≡ b
eq_of_parts a b h = ground arith

unfoldable pub ℤ-discrete : Discrete ℤ
ℤ-discrete = hlevel ℕ_discrete

instance abbrev pub int_eq : Eq ℤ
int_eq = record { dec = ℤ-discrete }

-- The value that 64 bits hold, read as a signed number: what an operation on `i64` returns when
-- overflow checks are off, as they are in the release profile.
abbrev pub half_range : ℕ
half_range = 2 ^ 63

unfoldable pub wrap_i64 : ℤ → ℤ
wrap_i64 (pos n) = let m = n % 2 ^ 64 in if ltb m (2 ^ 63) then pos m else negsuc (2 ^ 64 - 1 - m)
wrap_i64 (negsuc n) =
    let m = n % 2 ^ 64 in if ltb m (2 ^ 63) then negsuc m else pos (2 ^ 64 - 1 - m)

-- `i64` values: -2^63 up to 2^63 - 1.
abbrev pub IsI64 : ℤ → Type 0
IsI64 z = (pos_part z < 2 ^ 63) × (neg_part z ≤ 2 ^ 63)

-- Nothing wraps within the range.
pub wrap_i64_id : (z : ℤ) → IsI64 z → wrap_i64 z ≡ z
unfolding wrap_i64
wrap_i64_id (pos n) h = ground arith
wrap_i64_id (negsuc n) h = ground arith

-- A wrapped value is an `i64`.
pub wrap_i64-IsI64 : (z : ℤ) → IsI64 (wrap_i64 z)
unfolding wrap_i64
wrap_i64-IsI64 (pos n) = ground arith
wrap_i64-IsI64 (negsuc n) = ground arith

-- `i64::abs`, which wraps at the least value.
unfoldable pub abs_i64 : ℤ → ℤ
unfolding wrap_i64
abs_i64 z = if ltb_ℤ z (pos 0) then wrap_i64 (pos 0 -ℤ z) else z

-- The range of `i64`.
abbrev pub InI64 : ℤ → Type 0
InI64 z = (pos_part z < 2 ^ 63) × (neg_part z ≤ 2 ^ 63)
