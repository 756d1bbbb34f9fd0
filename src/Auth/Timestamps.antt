-- ===== src/Auth/Timestamps.antt =====
-- Which timestamps `validate_timestamp` (src/relayer/src/auth/signature.rs) accepts.
use nautilus_messaging_relay.Common.{
  ℤ, pos, pos_part, neg_part, IsI64, wrap_i64, abs_i64, ℕ, ◌+◌, ◌^◌, ◌≤◌, ◌<◌, ok, ◌≡◌, ◌↔◌, ◌⊎◌,
  arith,
}
use nautilus_messaging_relay.Auth.Signature.{validate_timestamp}

-- The clock and the timestamp are at most `ttl` seconds apart.
abbrev pub IsWithin : ℕ → ℤ → ℕ → Type 0
IsWithin now timestamp ttl =
    (now + neg_part timestamp ≤ pos_part timestamp + ttl)
    × (pos_part timestamp ≤ now + neg_part timestamp + ttl)

-- For a clock and a time to live of less than 2^62 seconds and every `i64` timestamp, a timestamp is
-- accepted exactly if it is at most the time to live away from the clock, or if it is 2^63 seconds
-- before the clock: there the difference and its absolute value wrap to a negative number.
pub validate_timestamp_iff :
    (now : ℕ) (timestamp : ℤ) (ttl : ℕ)
    → now < 2 ^ 62
    → ttl < 2 ^ 62
    → IsI64 timestamp
    → (validate_timestamp (pos now) timestamp (pos ttl) ≡ ok tt)
      ↔ (IsWithin now timestamp ttl ⊎ (now + neg_part timestamp ≡ pos_part timestamp + 2 ^ 63))
unfolding validate_timestamp wrap_i64 abs_i64
validate_timestamp_iff now (pos t) ttl h k r = ground arith
validate_timestamp_iff now (ℤ.negsuc t) ttl h k r = ground arith
