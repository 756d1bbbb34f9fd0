-- ===== src/Storage/Creation.antt =====
-- What `create_message` (src/relayer/src/storage/memory.rs) returns and leaves.
use nautilus_messaging_relay.Common.{
  pos, ℕ, List, suc, ◌≡◌, ◌≢◌, refl, sym, ◌∙◌, ap, none, some, ok, err, String, ◌<◌, ◌⊎◌, inl, inr,
  arith, nat_eq, string_eq, bytes_eq,
}
use nautilus_messaging_relay.Common.Map.{lookup, insert, lookup-insert, set_insert}
use nautilus_messaging_relay.Models.Message
use nautilus_messaging_relay.Models.Message.{Uuid, Bytes, Message}
use nautilus_messaging_relay.Storage.Adapter.{StorageResult, duplicate_id, duplicate_nonce}
use nautilus_messaging_relay.Storage.Invariant.{Stored, IsValid}
use nautilus_messaging_relay.Storage.Memory.{
  InMemoryStorage, order_after, next_order, create_message, get_message, insert_message,
}
use nautilus_messaging_relay.Storage.Ordering.{HasRoom, CounterIs, next_order_lem}
use nautilus_messaging_relay.Storage.Outcomes.{insert_message-cases}
use nautilus_messaging_relay.Storage.Writing.{written}

-- The store after a creation that was refused: only the counters may differ.
abbrev pub Untouched : InMemoryStorage → InMemoryStorage → Type 0
Untouched s s' = (s'.messages ≡ s.messages) × (s'.nonces ≡ s.nonces)

-- The store after the message `m` was stored: it is found under its identifier, and what was found
-- under the others still is.
abbrev pub Added : InMemoryStorage → Message → InMemoryStorage → Type 0
Added s m s' =
    (get_message m.id s' ≡ ok m) × ((k : Uuid) → k ≢ m.id → get_message k s' ≡ get_message k s)

-- The store with the group's counter one up.
abbrev counted_up : InMemoryStorage → String → ℕ → InMemoryStorage
counted_up s g c = record s { group_orders = insert g (pos (suc c)) s.group_orders }

insert_message-orders :
    (m : Message) (s : InMemoryStorage) → (insert_message m s).0.group_orders ≡ s.group_orders
unfolding insert_message
insert_message-orders m s = ground arith

create_message-eq :
    (s : InMemoryStorage) (m : Message) (c : ℕ)
    → order_after (lookup m.group_id s.group_orders) ≡ pos (suc c)
    → create_message m s
      ≡ insert_message (Message.set_order (pos (suc c)) m) (counted_up s m.group_id c)
unfolding create_message next_order
create_message-eq s m c e =
    ap
      (λ o.
        insert_message (Message.set_order o m)
          (record s { group_orders = insert m.group_id o s.group_orders }))
      e

pub written-Added :
    (s : InMemoryStorage) (m : Message) (ns : List Bytes) → Added s m (written s m.id m ns)
unfolding get_message
written-Added s m ns = (
  ground (arith, lookup-insert m.id m.id m s.messages),
  λ k d. ground (arith, lookup-insert m.id k m s.messages),
)

-- A stored order is not above the counter.
below :
    (s : InMemoryStorage) (g : String) (c : ℕ)
    → IsValid s
    → CounterIs s g c
    → (k : Uuid) (w : Message) (o : ℕ) → Stored s k w
    → w.group_id ≡ g
    → w.order ≡ some (pos o)
    → o < suc c
below s g c v prev k w o q g' o' =
    let (o1, p, (c', r, lo, hi)) = v.ordered k w q in
    let r' : lookup g s.group_orders ≡ some (pos c') =
      ap (λ (x : String). lookup x s.group_orders) (sym g') ∙ r in
    ground arith

-- What a creation returns and leaves, with the counter at `c` before it.
abbrev pub IsOutcome : InMemoryStorage → Message → ℕ → Type 0
IsOutcome s m c =
    (((old : Message) × Stored s m.id old)
      × ((create_message m s).1 ≡ err (duplicate_id m.id))
      × Untouched s (create_message m s).0)
    ⊎ ((((k : Uuid) × (w : Message) × Stored s k w × (w.nonce ≡ m.nonce))
          × (lookup m.id s.messages ≡ none)
          × ((create_message m s).1 ≡ err duplicate_nonce)
          × Untouched s (create_message m s).0)
        ⊎ (((k : Uuid) (w : Message) → Stored s k w → (k ≢ m.id) × (w.nonce ≢ m.nonce))
            × ((create_message m s).1 ≡ ok (Message.set_order (pos (suc c)) m))
            × ((k : Uuid) (w : Message) (o : ℕ)
                → Stored s k w
                → w.group_id ≡ m.group_id
                → w.order ≡ some (pos o)
                → o < suc c)
            × Added s (Message.set_order (pos (suc c)) m) (create_message m s).0))

-- `create_message` on a valid store below the limit of the counter: the group's counter goes up by
-- one, whether the message is stored or not. A stored message has the new counter for its order,
-- which is above every order stored in the group; a message is refused exactly for an identifier or
-- a nonce that a stored message has, and then the messages and the nonces are as before.
pub create_message-IsOutcome :
    (s : InMemoryStorage) (m : Message)
    → IsValid s
    → HasRoom s m.group_id
    → (c : ℕ) × CounterIs s m.group_id c
      × CounterIs (create_message m s).0 m.group_id (suc c)
      × IsOutcome s m c
unfolding get_message
create_message-IsOutcome s m v room =
    let (c, e, lt, prev) = next_order_lem m.group_id s v room in
    let m1 = Message.set_order (pos (suc c)) m in
    (
      c,
      prev,
      inr (
          ap (λ (t : InMemoryStorage × StorageResult Message). lookup m.group_id t.0.group_orders)
            (create_message-eq s m c e)
          ∙ ap (lookup m.group_id) (insert_message-orders m1 (counted_up s m.group_id c))
          ∙ ground (arith, lookup-insert m.group_id m.group_id (pos (suc c)) s.group_orders)),
      elim (insert_message-cases m1 (counted_up s m.group_id c)) [
        | inl (old, h, p) ↦ rw (create_message-eq s m c e ∙ p) (inl ((old, h), refl, (refl, refl)))
        | inr (inl (h, used, p)) ↦
            rw (create_message-eq s m c e ∙ p)
              (inr (inl (v.nonce_used m.nonce used, h, refl, (refl, refl))))
        | inr (inr (h, free, p)) ↦ rw (create_message-eq s m c e ∙ p) (
            inr (
              inr (
                (λ k w q. ((λ t. cc), λ t. cc (v.nonce_known k w q))),
                refl,
                (λ k w o q g' o'. below s m.group_id c v prev k w o q g' o'),
                written-Added (counted_up s m.group_id c) m1 (set_insert m.nonce s.nonces),
              )))
      ],
    )
