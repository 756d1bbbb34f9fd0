-- ===== src/Services/WalrusFrame.antt =====
-- The worker of src/relayer/src/services/walrus_sync.rs leaves all but the messages of the store alone.
use nautilus_messaging_relay.Common.{
  ℤ, ℕ, String, ◌||◌, some, List, [], ◌∷◌, is_empty, Result, ◌≡◌, refl, ◌∙◌, ap, inl, inr, Option,
  Result-cases, Bool-cases, Option-cases, filter, take, ◌==◌,
}
use nautilus_messaging_relay.Models.Message.{
  Uuid, Bytes, DateTime, Message, SyncStatus, sync_pending, synced, update_pending, updated,
  delete_pending, deleted,
}
use nautilus_messaging_relay.Storage.Memory.{
  InMemoryStorage, values, status_eq, get_messages_by_sync_status, update_sync_status,
}
use nautilus_messaging_relay.Storage.Outcomes.{update_sync_status-cases}
use nautilus_messaging_relay.Walrus.Types.{
  WalrusError, QuiltStoreResponse, QuiltPatchMetadata, get_patch_id,
}
use nautilus_messaging_relay.Services.WalrusSync.{
  identifier_of, patches_of, record_patches, sync_messages, sync_cycle,
}

-- The counters of the groups, and the nonces.
abbrev pub besides : InMemoryStorage → List (String × ℤ) × List Bytes
besides s = (s.group_orders, s.nonces)

update_sync_status-besides :
    (now : DateTime) (id : Uuid) (status : SyncStatus) (patch : Option String) (s : InMemoryStorage)
    → besides (update_sync_status now id status patch s).0 ≡ besides s
update_sync_status-besides now id status patch s =
    elim (update_sync_status-cases now id status patch s) [
      | inl (h, e) ↦ ap (λ r. besides r.0) e
      | inr (m, h, e) ↦ ap (λ r. besides r.0) e
    ]

module _ (show_uuid : Uuid → String) (now : Uuid → DateTime) (to_status : SyncStatus)
    (response : QuiltStoreResponse) where
  record_patches-besides :
      (messages : List Message) (s : InMemoryStorage)
      → besides (record_patches show_uuid now to_status response messages s) ≡ besides s
  unfolding record_patches
  record_patches-besides [] s = refl
  record_patches-besides (msg ∷ messages) s =
      elim (Option-cases (get_patch_id (identifier_of show_uuid msg.id) response)) [
        | inl e ↦ rw (record_patches, e) (record_patches-besides messages s)
        | inr (p, e) ↦
            rw (record_patches, e)
              (record_patches-besides messages _
                ∙ update_sync_status-besides (now msg.id) msg.id to_status (some p) s)
      ]

module _ (show_uuid : Uuid → String) (to_vec : Message → Result String Bytes)
    (store_quilt : List (String × Bytes)
      → List QuiltPatchMetadata
      → Result WalrusError QuiltStoreResponse)
    (now : Uuid → DateTime) (batch_size : ℕ) where
  sync_messages-besides :
      (from_status to_status : SyncStatus) (s : InMemoryStorage)
      → besides
          (sync_messages show_uuid to_vec store_quilt now batch_size from_status to_status s).0
        ≡ besides s
  unfolding sync_messages get_messages_by_sync_status
  sync_messages-besides from_status to_status s =
      let messages =
        take batch_size (filter (λ m. m.sync_status == from_status) (values s.messages)) in
      let (patches, metadata) = patches_of show_uuid to_vec to_status messages in
      elim (Bool-cases (is_empty messages || is_empty patches)) [
        | inl b ↦ rw b refl
        | inr b ↦ elim (Result-cases (store_quilt patches metadata)) [
          | inl (r, q) ↦ rw (b, q) (record_patches-besides show_uuid now to_status r messages s)
          | inr (e, q) ↦ rw (b, q) refl
        ]
      ]

  pub sync_cycle-besides :
      (s : InMemoryStorage)
      → besides (sync_cycle show_uuid to_vec store_quilt now batch_size s) ≡ besides s
  unfolding sync_cycle
  sync_cycle-besides s =
      sync_messages-besides delete_pending deleted _
      ∙ sync_messages-besides update_pending updated _
      ∙ sync_messages-besides sync_pending synced s
