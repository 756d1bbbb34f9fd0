-- ===== src/Storage/Invariant.antt =====
-- The invariant of the store in memory (src/relayer/src/storage/memory.rs).
use nautilus_messaging_relay.Common.{
  ℤ, pos, ℕ, ◌≤◌, ◌<◌, ◌^◌, String, true, some, nat_eq, string_eq, bytes_eq, ◌≡◌,
}
use nautilus_messaging_relay.Common.Map.{lookup, contains, DistinctKeys}
use nautilus_messaging_relay.Models.Message.{Uuid, Bytes, Message}
use nautilus_messaging_relay.Storage.Memory.{InMemoryStorage, new}

-- The message that is stored under an identifier.
abbrev pub Stored : InMemoryStorage → Uuid → Message → Type 0
Stored s k m = lookup k s.messages ≡ some m

pub Stored_unique :
    (s : InMemoryStorage) (j k : Uuid) (w m : Message) → j ≡ k → Stored s j w → Stored s k m → w ≡ m
Stored_unique s j k w m p h h' = cc

-- The order `o` has been given out in the group.
abbrev pub Issued : InMemoryStorage → String → ℕ → Type 0
Issued s g o = (c : ℕ) × (lookup g s.group_orders ≡ some (pos c)) × (1 ≤ o) × (o ≤ c)

pub record IsValid (s : InMemoryStorage) : Type 0 where
  pub distinct : DistinctKeys s.messages
  pub keyed : (k : Uuid) (m : Message) → Stored s k m → m.id ≡ k
  pub nonce_known : (k : Uuid) (m : Message) → Stored s k m → contains m.nonce s.nonces ≡ true
  pub nonce_used :
      (n : Bytes)
      → contains n s.nonces ≡ true
      → (k : Uuid) × (m : Message) × Stored s k m × (m.nonce ≡ n)
  pub nonce_unique :
      (k k' : Uuid) (m m' : Message) → Stored s k m → Stored s k' m' → m.nonce ≡ m'.nonce → k ≡ k'
  pub counted :
      (g : String) (z : ℤ) → lookup g s.group_orders ≡ some z → (c : ℕ) × (z ≡ pos c) × (c < 2 ^ 63)
  pub ordered :
      (k : Uuid) (m : Message)
      → Stored s k m
      → (o : ℕ) × (m.order ≡ some (pos o)) × Issued s m.group_id o
  pub order_unique :
      (k k' : Uuid) (m m' : Message)
      → Stored s k m
      → Stored s k' m'
      → m.group_id ≡ m'.group_id
      → m.order ≡ m'.order
      → k ≡ k'

pub new-IsValid : IsValid new
unfolding lookup contains
new-IsValid = record {
  distinct = tt;
  keyed = λ k m h. cc;
  nonce_known = λ k m h. cc;
  nonce_used = λ n h. absurd (cc);
  nonce_unique = λ k k' m m' h h' e. cc;
  counted = λ g z h. absurd (cc);
  ordered = λ k m h. absurd (cc);
  order_unique = λ k k' m m' h h' e e'. cc;
}
