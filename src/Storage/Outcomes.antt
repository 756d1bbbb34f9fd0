-- ===== src/Storage/Outcomes.antt =====
-- What the methods of the store in memory (src/relayer/src/storage/memory.rs) return and leave, branch by
-- branch.
use nautilus_messaging_relay.Common.{
  ℤ, ◌≡◌, true, false, none, List, ok, err, nat_eq, bytes_eq, not, ◌&&◌, arith, inl, inr, ◌⊎◌,
  Option-cases, Bool-cases, ◌==◌, Option, String,
}
use nautilus_messaging_relay.Common.Map.{lookup, contains, set_insert, set_remove}
use nautilus_messaging_relay.Models.Message
use nautilus_messaging_relay.Models.Message.{Uuid, Bytes, DateTime, Attachment, Message, SyncStatus}
use nautilus_messaging_relay.Storage.Adapter.{not_found, duplicate_id, duplicate_nonce}
use nautilus_messaging_relay.Storage.Invariant.{Stored}
use nautilus_messaging_relay.Storage.Memory.{
  InMemoryStorage, insert_message, update_message, delete_message, update_sync_status, patch_or,
}
use nautilus_messaging_relay.Storage.Writing.{written}

-- An identifier in use, a nonce in use, or the message is stored.
pub insert_message-cases :
    (m : Message) (s : InMemoryStorage)
    → ((old : Message) × Stored s m.id old × (insert_message m s ≡ (s, err (duplicate_id m.id))))
      ⊎ (((lookup m.id s.messages ≡ none)
            × (contains m.nonce s.nonces ≡ true)
            × (insert_message m s ≡ (s, err duplicate_nonce)))
          ⊎ ((lookup m.id s.messages ≡ none)
              × (contains m.nonce s.nonces ≡ false)
              × (insert_message m s ≡ (written s m.id m (set_insert m.nonce s.nonces), ok m))))
unfolding insert_message
insert_message-cases m s = elim (Option-cases (lookup m.id s.messages)) [
  | inr (old, e) ↦ inl (old, e, ground arith)
  | inl e ↦ elim (Bool-cases (contains m.nonce s.nonces)) [
    | inl used ↦ inr (inl (e, used, ground arith))
    | inr free ↦ inr (inr (e, free, ground arith))
  ]
]

-- No such message, a nonce that another message uses, or the message has the new content.
pub update_message-cases :
    (now : DateTime) (id : Uuid) (em n : Bytes) (kv : ℤ) (ats : List Attachment) (sg pk : Bytes)
    (s : InMemoryStorage)
    → ((lookup id s.messages ≡ none)
        × (update_message now id em n kv ats sg pk s ≡ (s, err (not_found id))))
      ⊎ ((m : Message) × Stored s id m
          × (((not (m.nonce == n) && contains n s.nonces ≡ true)
                × (update_message now id em n kv ats sg pk s ≡ (s, err duplicate_nonce)))
              ⊎ ((not (m.nonce == n) && contains n s.nonces ≡ false)
                  × (update_message now id em n kv ats sg pk s ≡ (
                    written s id
                        (Message.update_content now em n kv ats sg pk m)
                        (set_insert n (set_remove m.nonce s.nonces)),
                    ok (Message.update_content now em n kv ats sg pk m),
                  )))))
unfolding update_message
update_message-cases now id em n kv ats sg pk s = elim (Option-cases (lookup id s.messages)) [
  | inl e ↦ inl (e, ground arith)
  | inr (m, e) ↦ elim (Bool-cases (not (m.nonce == n) && contains n s.nonces)) [
    | inl used ↦ inr (m, e, inl (used, ground arith))
    | inr free ↦ inr (m, e, inr (free, ground arith))
  ]
]

pub delete_message-cases :
    (now : DateTime) (id : Uuid) (s : InMemoryStorage)
    → ((lookup id s.messages ≡ none) × (delete_message now id s ≡ (s, err (not_found id))))
      ⊎ ((m : Message) × Stored s id m
          × (delete_message now id s ≡ (
            written s id (Message.mark_for_deletion now m) s.nonces,
            ok (Message.mark_for_deletion now m),
          )))
unfolding delete_message
delete_message-cases now id s = elim (Option-cases (lookup id s.messages)) [
  | inl e ↦ inl (e, ground arith)
  | inr (m, e) ↦ inr (m, e, ground arith)
]

-- The message that `update_sync_status` leaves.
abbrev pub with_status : DateTime → SyncStatus → Option String → Message → Message
with_status now status patch m = record m {
  sync_status = status;
  updated_at = now;
  quilt_patch_id = patch_or patch m.quilt_patch_id;
}

pub update_sync_status-cases :
    (now : DateTime) (id : Uuid) (status : SyncStatus) (patch : Option String) (s : InMemoryStorage)
    → ((lookup id s.messages ≡ none)
        × (update_sync_status now id status patch s ≡ (s, err (not_found id))))
      ⊎ ((m : Message) × Stored s id m
          × (update_sync_status now id status patch s ≡ (
            written s id (with_status now status patch m) s.nonces,
            ok (with_status now status patch m),
          )))
unfolding update_sync_status
update_sync_status-cases now id status patch s = elim (Option-cases (lookup id s.messages)) [
  | inl e ↦ inl (e, ground arith)
  | inr (m, e) ↦ inr (m, e, ground arith)
]
