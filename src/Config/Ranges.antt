-- ===== src/Config/Ranges.antt =====
-- What reading an optional number (src/relayer/src/config.rs) gives, and its range.
use nautilus_messaging_relay.Common.{
  InI64, ℤ, pos, ℕ, ◌^◌, ◌<◌, String, Option, none, some, ◌==◌, string_eq, ◌≡◌, refl, arith,
  Option-cases, inl, inr, Bool-cases, negsuc, suc, zero, List, [], ◌∷◌, nat_eq,
}
use nautilus_messaging_relay.Common.Text.{
  parse_unsigned, parse_i64, within, unsigned, number, codes, as_i64, as_negative_i64, signed,
}
use nautilus_messaging_relay.Config.{parsed_or}

-- An optional number that is not set, or whose text does not parse.
abbrev pub Unusable {ℓ} : {A : Type ℓ} → (String → Option A) → Option String → Type ℓ
Unusable parse none = Unit
Unusable parse (some v) = parse v ≡ none

pub parsed_or-Unusable {ℓ} :
    {A : Type ℓ} (parse : String → Option A) (fallback : A) (v : Option String)
    → Unusable parse v
    → parsed_or parse fallback v ≡ fallback
unfolding parsed_or
parsed_or-Unusable parse fallback none u = refl
parsed_or-Unusable parse fallback (some v) u = rw (parsed_or, u) refl

pub parsed_or-some {ℓ} :
    {A : Type ℓ} (parse : String → Option A) (fallback a : A) (v : String)
    → parse v ≡ some a
    → parsed_or parse fallback (some v) ≡ a
unfolding parsed_or
parsed_or-some parse fallback a v e = rw (parsed_or, e) refl

within_lt : (w n : ℕ) (o : Option ℕ) → within w o ≡ some n → n < 2 ^ w
within_lt w n none h = absurd (cc)
within_lt w n (some m) h = ground arith

unsigned_lt : (w n : ℕ) (cs : List ℕ) → unsigned w cs ≡ some n → n < 2 ^ w
unsigned_lt w n [] h = absurd (cc)
unsigned_lt w n (c ∷ cs) h = elim (Bool-cases (c == b'+')) [
  | inl e ↦ within_lt w n (number cs) (rw e at h)
  | inr e ↦ within_lt w n (number (c ∷ cs)) (rw e at h)
]

-- Every number that an unsigned type of `w` bits reads lies in its range.
parse_unsigned_lt : (w n : ℕ) (s : String) → parse_unsigned w s ≡ some n → n < 2 ^ w
unfolding parse_unsigned
parse_unsigned_lt w n s h = unsigned_lt w n (codes s) h

pub parsed_or-unsigned_lt :
    (w fallback : ℕ) (v : Option String)
    → fallback < 2 ^ w
    → parsed_or (parse_unsigned w) fallback v < 2 ^ w
unfolding parsed_or
parsed_or-unsigned_lt w fallback none h = h
parsed_or-unsigned_lt w fallback (some v) h = elim (Option-cases (parse_unsigned w v)) [
  | inl e ↦ rw (parsed_or, e) h
  | inr (n, e) ↦ rw (parsed_or, e) (parse_unsigned_lt w n v e)
]

as_i64-InI64 : (o : Option ℕ) (z : ℤ) → as_i64 o ≡ some z → InI64 z
as_i64-InI64 none z h = absurd (cc)
as_i64-InI64 (some n) (pos k) h = ground arith
as_i64-InI64 (some n) (negsuc k) h = ground arith

as_negative_i64-InI64 : (o : Option ℕ) (z : ℤ) → as_negative_i64 o ≡ some z → InI64 z
as_negative_i64-InI64 none z h = absurd (cc)
as_negative_i64-InI64 (some zero) (pos k) h = ground arith
as_negative_i64-InI64 (some zero) (negsuc k) h = absurd (cc)
as_negative_i64-InI64 (some (suc n)) (pos k) h = ground arith
as_negative_i64-InI64 (some (suc n)) (negsuc k) h = ground arith

signed-InI64 : (cs : List ℕ) (z : ℤ) → signed cs ≡ some z → InI64 z
signed-InI64 [] z h = absurd (cc)
signed-InI64 (c ∷ cs) z h = elim (Bool-cases (c == b'-')) [
  | inl e ↦ as_negative_i64-InI64 (number cs) z (rw e at h)
  | inr e ↦ elim (Bool-cases (c == b'+')) [
    | inl p ↦ as_i64-InI64 (number cs) z (rw (e, p) at h)
    | inr p ↦ as_i64-InI64 (number (c ∷ cs)) z (rw (e, p) at h)
  ]
]

pub parsed_or-InI64 :
    (fallback : ℤ) (v : Option String) → InI64 fallback → InI64 (parsed_or parse_i64 fallback v)
unfolding parsed_or
parsed_or-InI64 fallback none h = h
parsed_or-InI64 fallback (some v) h = elim (Option-cases (parse_i64 v)) [
  | inl e ↦ rw (parsed_or, e) h
  | inr (z, e) ↦ rw (parsed_or, e) (unfold parse_i64 in signed-InI64 (codes v) z e)
]
