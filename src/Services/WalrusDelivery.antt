-- ===== src/Services/WalrusDelivery.antt =====
-- The worker of src/relayer/src/services/walrus_sync.rs with the client of
-- src/relayer/src/walrus/client.rs: no status changes without an upload that succeeded.
use nautilus_messaging_relay.Common.{
  ℕ, ◌≤◌, ◌<◌, String, ◌||◌, some, List, is_empty, Result, ok, ◌≡◌, ◌⊎◌, refl, inl, inr,
  Result-cases, Bool-cases, filter, take, ◌==◌,
}
use nautilus_messaging_relay.Models.Message.{Uuid, Bytes, DateTime, Message, SyncStatus}
use nautilus_messaging_relay.Storage.Memory.{
  InMemoryStorage, values, status_eq, get_messages_by_sync_status,
}
use nautilus_messaging_relay.Walrus.Types.{WalrusError, QuiltStoreResponse, QuiltPatchMetadata}
use nautilus_messaging_relay.Walrus.Client.{Http, WalrusClient, store_quilt}
use nautilus_messaging_relay.Walrus.Uploads.{quilt_request, store_quilt_iff}
use nautilus_messaging_relay.Services.WalrusSync.{patches_of, record_patches, sync_messages}

module _ (http : Http) (client : WalrusClient) (epochs : ℕ) (show_uuid : Uuid → String)
    (to_vec : Message → Result String Bytes) (now : Uuid → DateTime) (batch_size : ℕ) where
  -- `self.walrus_client.store_quilt(patches, Some(metadata), self.storage_epochs)`
  abbrev pub upload :
      List (String × Bytes) → List QuiltPatchMetadata → Result WalrusError QuiltStoreResponse
  upload patches metadata = store_quilt http client patches (some metadata) epochs

  -- An upload leaves the store as it is, or else the publisher answered the request for the patches of
  -- the first messages of the status with a status from 200 to 299 and a result, and the statuses of
  -- these messages are written back by that result.
  pub sync_messages-upload :
      (from_status to_status : SyncStatus) (s : InMemoryStorage)
      → ((sync_messages show_uuid to_vec upload now batch_size from_status to_status s).0 ≡ s)
        ⊎ ((messages : List Message) × (json : String) × (response : http.Response)
            × (r : QuiltStoreResponse) × (get_messages_by_sync_status from_status batch_size s
                ≡ ok messages)
            × (http.send (
                  quilt_request http client
                    (patches_of show_uuid to_vec to_status messages).0
                    json
                    epochs)
                ≡ ok response)
            × (200 ≤ http.status response)
            × (http.status response < 300)
            × (http.json_quilt response ≡ ok r)
            × ((sync_messages show_uuid to_vec upload now batch_size from_status to_status s).0
                ≡ record_patches show_uuid now to_status r messages s))
  unfolding sync_messages get_messages_by_sync_status
  sync_messages-upload from_status to_status s =
      let messages =
        take batch_size (filter (λ m. m.sync_status == from_status) (values s.messages)) in
      let (patches, metadata) = patches_of show_uuid to_vec to_status messages in
      elim (Bool-cases (is_empty messages || is_empty patches)) [
        | inl b ↦ inl (rw b refl)
        | inr b ↦ elim (Result-cases (upload patches metadata)) [
          | inr (e, q) ↦ inl (rw (b, q) refl)
          | inl (r, q) ↦
              let (ne, json, response, a, sent, lo, hi, d) =
                (store_quilt_iff http client patches metadata epochs r).0 q in
              inr (messages, json, response, r, refl, sent, lo, hi, d, rw (b, q) refl)
        ]
      ]
