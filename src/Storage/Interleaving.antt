-- ===== src/Storage/Interleaving.antt =====
-- Handlers that run at once, as interleavings of the critical sections of
-- src/relayer/src/storage/memory.rs. `create_message` gives up the lock on the order counters before
-- it takes the locks on the messages and the nonces: between the two another handler may run.
use nautilus_messaging_relay.Common.{
  ℤ, ◌≡◌, ◌≢◌, List, [], ◌∷◌, ◌++◌, All, String, Option, string_eq, nat_eq, bytes_eq,
}
use nautilus_messaging_relay.Models.Message
use nautilus_messaging_relay.Models.Message.{Uuid, Bytes, DateTime, Attachment, Message, SyncStatus}
use nautilus_messaging_relay.Storage.Invariant.{IsValid}
use nautilus_messaging_relay.Storage.Memory.{
  InMemoryStorage, next_order, insert_message, update_message, delete_message, update_sync_status,
}
use nautilus_messaging_relay.Storage.Ordering.{HasRoom, IsFresh}

-- The store, and the messages of the calls of `create_message` that have their order and have not
-- yet taken the locks on the messages and the nonces.
pub record Running : Type 0 where
  pub store : InMemoryStorage
  pub pending : List Message

pub data Step : Running → Running → Type 0 where
  take_order :
      (s : InMemoryStorage) (ps : List Message) (m : Message)
      → HasRoom s m.group_id
      → Step
          (record { store = s; pending = ps })
          (record {
            store = (next_order m.group_id s).0;
            pending = Message.set_order (next_order m.group_id s).1 m ∷ ps;
          })
  finish :
      (s : InMemoryStorage) (ps qs : List Message) (m : Message)
      → Step
          (record { store = s; pending = ps ++ m ∷ qs })
          (record { store = (insert_message m s).0; pending = ps ++ qs })
  update :
      (s : InMemoryStorage) (ps : List Message) (now : DateTime) (id : Uuid) (em n : Bytes) (kv : ℤ)
      (ats : List Attachment) (sg pk : Bytes)
      → Step
          (record { store = s; pending = ps })
          (record { store = (update_message now id em n kv ats sg pk s).0; pending = ps })
  delete :
      (s : InMemoryStorage) (ps : List Message) (now : DateTime) (id : Uuid)
      → Step
          (record { store = s; pending = ps })
          (record { store = (delete_message now id s).0; pending = ps })
  set_status :
      (s : InMemoryStorage) (ps : List Message) (now : DateTime) (id : Uuid) (status : SyncStatus)
      (patch : Option String)
      → Step
          (record { store = s; pending = ps })
          (record { store = (update_sync_status now id status patch s).0; pending = ps })

pub data Reach (r : Running) : Running → Type 0 where
  here : Reach r r
  next : {t u : Running} → Reach r t → Step t u → Reach r u

-- Two messages do not have one order in one group.
abbrev pub Apart : Message → Message → Type 0
Apart m w = m.group_id ≡ w.group_id → m.order ≢ w.order

abbrev pub AllApart : List Message → Type 0
AllApart [] = Unit
AllApart (m ∷ ms) = All (Apart m) ms × AllApart ms

-- The store is valid, and each pending message has an order that no stored and no other pending
-- message of its group has.
pub record IsSound (r : Running) : Type 0 where
  pub valid : IsValid r.store
  pub fresh : All (IsFresh r.store) r.pending
  pub apart : AllApart r.pending
