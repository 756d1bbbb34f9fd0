-- ===== src/Services/WalrusUploads.antt =====
-- What an upload of src/relayer/src/services/walrus_sync.rs leaves in the store.
use nautilus_messaging_relay.Common.{
  ℕ, String, ◌≡◌, refl, ◌∙◌, ap, Bool, false, ◌||◌, Option, none, some, List, [], ◌∷◌,
  if◌then◌else◌, ◌==◌, nat_eq, string_eq, is_empty, Result, Option-cases, Bool-cases, Result-cases,
  arith, inl, inr, ==→eq, take, filter,
}
use nautilus_messaging_relay.Common.Map.{lookup, lookup-insert}
use nautilus_messaging_relay.Models.Message.{
  Uuid, Bytes, DateTime, Message, SyncStatus, sync_pending, synced, update_pending, updated,
  delete_pending, deleted,
}
use nautilus_messaging_relay.Storage.Invariant.{IsValid}
use nautilus_messaging_relay.Storage.Memory.{
  InMemoryStorage, values, status_eq, get_messages_by_sync_status, update_sync_status,
}
use nautilus_messaging_relay.Storage.Outcomes.{update_sync_status-cases, with_status}
use nautilus_messaging_relay.Storage.Preservation.{update_sync_status-IsValid}
use nautilus_messaging_relay.Walrus.Types.{
  WalrusError, QuiltStoreResponse, QuiltPatchMetadata, get_patch_id,
}
use nautilus_messaging_relay.Services.WalrusSync.{
  identifier_of, record_patches, sync_messages, sync_cycle, patches_of,
}

-- One of the messages has the identifier.
abbrev pub any_id : Uuid → List Message → Bool
any_id k [] = false
any_id k (m ∷ ms) = k == m.id || any_id k ms

module _ (show_uuid : Uuid → String) (now : Uuid → DateTime) (to_status : SyncStatus)
    (response : QuiltStoreResponse) where
  -- What becomes of the message under `k` that has a patch.
  abbrev pub settled : Uuid → Message → Message
  settled k m = elim (get_patch_id (identifier_of show_uuid k) response) [
    | none ↦ m
    | some patch_id ↦ with_status (now k) to_status (some patch_id) m
  ]

  abbrev pub settled_in : List Message → Uuid → Option Message → Option Message
  settled_in messages k none = none
  settled_in messages k (some m) = some (if any_id k messages then settled k m else m)

  abbrev with_patch : Uuid → Uuid → String → Option Message → Option Message
  with_patch id k patch_id none = none
  with_patch id k patch_id (some m) =
      some (if k == id then with_status (now id) to_status (some patch_id) m else m)

  update_sync_status-lookup :
      (s : InMemoryStorage) (id k : Uuid) (patch_id : String)
      → lookup k (update_sync_status (now id) id to_status (some patch_id) s).0.messages
        ≡ with_patch id k patch_id (lookup k s.messages)
  update_sync_status-lookup s id k patch_id =
      elim (update_sync_status-cases (now id) id to_status (some patch_id) s) [
        | inl (h, e) ↦ elim (Option-cases (lookup k s.messages)) [
          | inl q ↦ ground arith
          | inr (w, q) ↦ ground arith
        ]
        | inr (m, h, e) ↦ elim (Option-cases (lookup k s.messages)) [
          | inl q ↦ ground (
            arith,
            lookup-insert id k (with_status (now id) to_status (some patch_id) m) s.messages,
          )
          | inr (w, q) ↦ ground (
            arith,
            lookup-insert id k (with_status (now id) to_status (some patch_id) m) s.messages,
          )
        ]
      ]

  settled_skip :
      (msg : Message) (messages : List Message) (k : Uuid)
      → get_patch_id (identifier_of show_uuid msg.id) response ≡ none
      → (o : Option Message) → settled_in messages k o ≡ settled_in (msg ∷ messages) k o
  settled_skip msg messages k e none = refl
  settled_skip msg messages k e (some m) = elim (Bool-cases (k == msg.id)) [
    | inr b ↦ ground arith
    | inl b ↦
        let q : get_patch_id (identifier_of show_uuid k) response ≡ none =
          ap (λ (x : Uuid). get_patch_id (identifier_of show_uuid x) response) (==→eq k msg.id b)
          ∙ e in
        ground arith
  ]

  settled_step :
      (msg : Message) (messages : List Message) (k : Uuid) (p : String)
      → get_patch_id (identifier_of show_uuid msg.id) response ≡ some p
      → (o : Option Message)
      → settled_in messages k (with_patch msg.id k p o) ≡ settled_in (msg ∷ messages) k o
  settled_step msg messages k p e none = refl
  settled_step msg messages k p e (some m) = elim (Bool-cases (k == msg.id)) [
    | inr b ↦ ground arith
    | inl b ↦
        let i : k ≡ msg.id = ==→eq k msg.id b in
        let q : get_patch_id (identifier_of show_uuid k) response ≡ some p =
          ap (λ (x : Uuid). get_patch_id (identifier_of show_uuid x) response) i ∙ e in
        elim (Bool-cases (any_id k messages)) [ inl a ↦ ground arith | inr a ↦ ground arith ]
  ]

  -- After the statuses of the messages were written back, under every identifier stands what stood
  -- there, but that one of these messages with a patch in the answer has the new status and the
  -- patch: whatever the store held under it by then. No message is removed, whatever the new status.
  pub record_patches-lookup :
      (messages : List Message) (s : InMemoryStorage) (k : Uuid)
      → lookup k (record_patches show_uuid now to_status response messages s).messages
        ≡ settled_in messages k (lookup k s.messages)
  unfolding record_patches
  record_patches-lookup [] s k = elim (Option-cases (lookup k s.messages)) [
    | inl q ↦ rw q refl
    | inr (w, q) ↦ rw q refl
  ]
  record_patches-lookup (msg ∷ messages) s k =
      elim (Option-cases (get_patch_id (identifier_of show_uuid msg.id) response)) [
        | inl e ↦
            rw (e, record_patches)
              (record_patches-lookup messages s k
                ∙ settled_skip msg messages k e (lookup k s.messages))
        | inr (p, e) ↦
            rw (e, record_patches)
              (record_patches-lookup messages _ k
                ∙ ap (settled_in messages k) (update_sync_status-lookup s msg.id k p)
                ∙ settled_step msg messages k p e (lookup k s.messages))
      ]

  record_patches-IsValid :
      (messages : List Message) (s : InMemoryStorage)
      → IsValid s
      → IsValid (record_patches show_uuid now to_status response messages s)
  unfolding record_patches
  record_patches-IsValid [] s v = v
  record_patches-IsValid (msg ∷ messages) s v =
      elim (Option-cases (get_patch_id (identifier_of show_uuid msg.id) response)) [
        | inl e ↦ rw e (record_patches-IsValid messages s v)
        | inr (p, e) ↦ rw e (
            record_patches-IsValid messages _
              (update_sync_status-IsValid s (now msg.id) msg.id to_status (some p) v))
      ]

module _ (show_uuid : Uuid → String) (to_vec : Message → Result String Bytes)
    (store_quilt : List (String × Bytes)
      → List QuiltPatchMetadata
      → Result WalrusError QuiltStoreResponse)
    (now : Uuid → DateTime) (batch_size : ℕ) where
  pub sync_messages-IsValid :
      (from_status to_status : SyncStatus) (s : InMemoryStorage)
      → IsValid s
      → IsValid
          (sync_messages show_uuid to_vec store_quilt now batch_size from_status to_status s).0
  unfolding sync_messages get_messages_by_sync_status
  sync_messages-IsValid from_status to_status s v =
      let messages =
        take batch_size (filter (λ m. m.sync_status == from_status) (values s.messages)) in
      let (patches, metadata) = patches_of show_uuid to_vec to_status messages in
      elim (Bool-cases (is_empty messages || is_empty patches)) [
        | inl b ↦ rw b v
        | inr b ↦ elim (Result-cases (store_quilt patches metadata)) [
          | inl (r, q) ↦ rw (b, q) (record_patches-IsValid show_uuid now to_status r messages s v)
          | inr (e, q) ↦ rw (b, q) v
        ]
      ]

  -- A cycle of the three uploads keeps the store valid, whatever the publisher answers.
  pub sync_cycle-IsValid :
      (s : InMemoryStorage)
      → IsValid s
      → IsValid (sync_cycle show_uuid to_vec store_quilt now batch_size s)
  unfolding sync_cycle
  sync_cycle-IsValid s v = sync_messages-IsValid delete_pending deleted _ (
      sync_messages-IsValid update_pending updated _
        (sync_messages-IsValid sync_pending synced s v))
