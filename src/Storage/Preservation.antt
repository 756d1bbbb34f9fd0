-- ===== src/Storage/Preservation.antt =====
-- Every method of the store in memory (src/relayer/src/storage/memory.rs) keeps the invariant.
use nautilus_messaging_relay.Common.{
  ℤ, ◌≡◌, refl, true, false, none, Option, List, nat_eq, string_eq, bytes_eq, sym, ◌∙◌, ap, ◌≢◌,
  arith, inl, inr, ◌==◌, not, ◌&&◌, String,
}
use nautilus_messaging_relay.Common.Map.{
  lookup, contains, set_insert, set_remove, contains-set_insert, contains-set_remove,
}
use nautilus_messaging_relay.Models.Message
use nautilus_messaging_relay.Models.Message.{Uuid, Bytes, DateTime, Attachment, Message, SyncStatus}
use nautilus_messaging_relay.Storage.Invariant.{Stored, Stored_unique, IsValid}
use nautilus_messaging_relay.Storage.Memory.{
  InMemoryStorage, next_order, insert_message, create_message, update_message, delete_message,
  update_sync_status,
}
use nautilus_messaging_relay.Storage.Outcomes.{
  insert_message-cases, update_message-cases, delete_message-cases, with_status,
  update_sync_status-cases,
}
use nautilus_messaging_relay.Storage.Ordering.{
  HasRoom, IsFresh, next_order-IsFresh, next_order-IsValid,
}
use nautilus_messaging_relay.Storage.Writing.{Fits, written, written-IsValid}

-- Whatever is inserted, the invariant holds if the order is fresh.
insert_message-Fits :
    (s : InMemoryStorage) (m : Message)
    → IsValid s
    → IsFresh s m
    → lookup m.id s.messages ≡ none
    → contains m.nonce s.nonces ≡ false
    → Fits s m.id m (set_insert m.nonce s.nonces)
insert_message-Fits s m v f absent free = record {
  own = refl;
  given = f.given;
  order_unused = λ j w d h g. f.unused j w h g;
  nonce_unused = λ j w d h p. ground (arith, v.nonce_known j w h);
  listed = λ n h. elim (bytes_eq.dec n m.nonce) [
    | yes p ↦ inl p
    | no p ↦
        let (j, w, q, r) =
          v.nonce_used n (ground (arith, contains-set_insert n m.nonce s.nonces)) in
        inr (j, w, (λ t. cc), q, r)
  ];
  own_listed = ground (arith, contains-set_insert m.nonce m.nonce s.nonces);
  others_listed =
      λ j w d h. ground (arith, v.nonce_known j w h, contains-set_insert w.nonce m.nonce s.nonces);
}

pub insert_message-IsValid :
    (s : InMemoryStorage) (m : Message) → IsValid s → IsFresh s m → IsValid (insert_message m s).0
insert_message-IsValid s m v f = elim (insert_message-cases m s) [
  | inl (old, h, e) ↦ rw e v
  | inr (inl (h, used, e)) ↦ rw e v
  | inr (inr (h, free, e)) ↦ rw e (
      written-IsValid s m.id m (set_insert m.nonce s.nonces) v (insert_message-Fits s m v f h free))
]

pub create_message-IsValid :
    (s : InMemoryStorage) (m : Message)
    → IsValid s
    → HasRoom s m.group_id
    → IsValid (create_message m s).0
unfolding create_message
create_message-IsValid s m v room =
    insert_message-IsValid (next_order m.group_id s).0
      (Message.set_order (next_order m.group_id s).1 m) (next_order-IsValid m.group_id s v room)
      (next_order-IsFresh s m v room)

-- A stored message may be rewritten as long as its identifier, group, order and nonce stay.
module _ (s : InMemoryStorage) (k : Uuid) (m m' : Message) (v : IsValid s) (h : Stored s k m) where
  rewritten-IsValid :
      m'.id ≡ m.id
      → m'.group_id ≡ m.group_id
      → m'.order ≡ m.order
      → m'.nonce ≡ m.nonce
      → IsValid (written s k m' s.nonces)
  rewritten-IsValid i g o n = written-IsValid s k m' s.nonces v (record {
    own = i ∙ v.keyed k m h;
    given = let (c, p, is) = v.ordered k m h in (c, o ∙ p, rw g is);
    order_unused = λ j w d q g' o'. d (v.order_unique j k w m q h (g' ∙ g) (o' ∙ o));
    nonce_unused = λ j w d q n'. d (v.nonce_unique j k w m q h (n' ∙ n));
    listed = λ x used.
        let (j, w, q, r) = v.nonce_used x used in
        elim (nat_eq.dec j k) [
          | yes p ↦
              inl (sym r ∙ ap (λ (y : Message). y.nonce) (Stored_unique s j k w m p q h) ∙ sym n)
          | no p ↦ inr (j, w, p, q, r)
        ];
    own_listed = rw n (v.nonce_known k m h);
    others_listed = λ j w d q. v.nonce_known j w q;
  })

pub delete_message-IsValid :
    (s : InMemoryStorage) (now : DateTime) (id : Uuid)
    → IsValid s
    → IsValid (delete_message now id s).0
delete_message-IsValid s now id v = elim (delete_message-cases now id s) [
  | inl (h, e) ↦ rw e v
  | inr (m, h, e) ↦
      rw e (rewritten-IsValid s id m (Message.mark_for_deletion now m) v h refl refl refl refl)
]

pub update_sync_status-IsValid :
    (s : InMemoryStorage) (now : DateTime) (id : Uuid) (status : SyncStatus) (patch : Option String)
    → IsValid s
    → IsValid (update_sync_status now id status patch s).0
update_sync_status-IsValid s now id status patch v =
    elim (update_sync_status-cases now id status patch s) [
      | inl (h, e) ↦ rw e v
      | inr (m, h, e) ↦
          rw e (rewritten-IsValid s id m (with_status now status patch m) v h refl refl refl refl)
    ]

-- The content of a stored message may change, if the new nonce is its own or no message's.
update_message-Fits :
    (s : InMemoryStorage) (now : DateTime) (id : Uuid) (em n : Bytes) (kv : ℤ)
    (ats : List Attachment) (sg pk : Bytes) (m : Message)
    → IsValid s
    → Stored s id m
    → not (m.nonce == n) && contains n s.nonces ≡ false
    → Fits s id
        (Message.update_content now em n kv ats sg pk m)
        (set_insert n (set_remove m.nonce s.nonces))
update_message-Fits s now id em n kv ats sg pk m v h free = record {
  own = v.keyed id m h;
  given = v.ordered id m h;
  order_unused = λ j w d q g' o'. d (v.order_unique j id w m q h g' o');
  nonce_unused = λ j w d q n'. ground (arith, v.nonce_known j w q, d, v.nonce_unique j id w m q h);
  listed = λ x used. elim (bytes_eq.dec x n) [
    | yes p ↦ inl p
    | no p ↦
        let kept : (contains x s.nonces ≡ true) × (x ≢ m.nonce) = ground (
          arith,
          contains-set_insert x n (set_remove m.nonce s.nonces),
          contains-set_remove x m.nonce s.nonces,
        ) in
        let (j, w, q, r) = v.nonce_used x kept.0 in
        inr (
          j,
          w,
          (λ t. kept.1 (sym r ∙ ap (λ (y : Message). y.nonce) (Stored_unique s j id w m t q h))),
          q,
          r,
        )
  ];
  own_listed = ground (arith, contains-set_insert n n (set_remove m.nonce s.nonces));
  others_listed = λ j w d q. ground (
    arith,
    d,
    v.nonce_known j w q,
    v.nonce_unique j id w m q h,
    contains-set_insert w.nonce n (set_remove m.nonce s.nonces),
    contains-set_remove w.nonce m.nonce s.nonces,
  );
}

-- An update of a message keeps the store valid, whether it is made or refused.
pub update_message-IsValid :
    (s : InMemoryStorage) (now : DateTime) (id : Uuid) (em n : Bytes) (kv : ℤ)
    (ats : List Attachment) (sg pk : Bytes)
    → IsValid s
    → IsValid (update_message now id em n kv ats sg pk s).0
update_message-IsValid s now id em n kv ats sg pk v =
    elim (update_message-cases now id em n kv ats sg pk s) [
      | inl (h, e) ↦ rw e v
      | inr (m, h, inl (used, e)) ↦ rw e v
      | inr (m, h, inr (free, e)) ↦ rw e (
          written-IsValid s id (Message.update_content now em n kv ats sg pk m)
            (set_insert n (set_remove m.nonce s.nonces)) v
            (update_message-Fits s now id em n kv ats sg pk m v h free))
    ]
