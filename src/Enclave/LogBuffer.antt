-- ===== src/Enclave/LogBuffer.antt =====
-- src/relayer/src/enclave.rs: the ring buffer of recent log lines, and `GET /logs`.
use nautilus_messaging_relay.Common.{
  ℕ, String, Option, none, some, List, [], ◌∷◌, ◌++◌, leb, if◌then◌else◌, length, take, drop, min,
}
use mathlib.Core.List.{reverse}

-- The oldest line stands at the head.
pub record LogBuffer : Type 0 where
  pub lines : List String
  pub capacity : ℕ

abbrev pub new : ℕ → LogBuffer
new capacity = record { lines = []; capacity = capacity }

unfoldable pub push : String → LogBuffer → LogBuffer
push line b = record b {
  lines = (if leb b.capacity (length b.lines) then drop 1 b.lines else b.lines) ++ line ∷ [];
}

-- `buf.iter().rev().take(n).rev()`
unfoldable pub recent : ℕ → LogBuffer → List String
recent n b = reverse (take n (reverse b.lines))

pub record LogsResponse : Type 0 where
  pub lines : List String
  pub count : ℕ

unfoldable pub get_logs : Option ℕ → LogBuffer → LogsResponse
unfolding recent
get_logs requested logs =
    let n = min (elim requested [ none ↦ 100 | some n ↦ n ]) 1000 in
    let lines = recent n logs in record { count = length lines; lines = lines }
