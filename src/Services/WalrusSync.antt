-- ===== src/Services/WalrusSync.antt =====
-- src/relayer/src/services/walrus_sync.rs: the worker that uploads messages to Walrus.
--
-- One upload is two steps of the store with the publisher's answer between them: the messages of a
-- status are read (`get_messages_by_sync_status`), and the statuses are written back
-- (`record_patches`). The JSON of a message (`serde_json`), the answer of the publisher to the patches
-- and their metadata, the texts of identifiers and the clock are parameters.
use nautilus_messaging_relay.Common.{
  ℕ, ◌+◌, ◌%◌, ◌^◌, min, String, Bool, false, ◌||◌, none, some, List, [], ◌∷◌, if◌then◌else◌, ◌==◌,
  nat_eq, string_eq, ltb, is_empty, Result, ok, err,
}
use nautilus_messaging_relay.Common.Map.{insert}
use nautilus_messaging_relay.Common.Text.{◌+s◌, show_int}
use nautilus_messaging_relay.Models.Message.{
  Uuid, Bytes, DateTime, Message, SyncStatus, status_to_string, sync_pending, synced,
  update_pending, updated, delete_pending, deleted,
}
use nautilus_messaging_relay.Storage.Adapter.{StorageError}
use nautilus_messaging_relay.Storage.Memory.{
  InMemoryStorage, get_messages_by_sync_status, update_sync_status,
}
use nautilus_messaging_relay.Walrus.Types.{
  WalrusError, QuiltStoreResponse, QuiltPatchMetadata, get_patch_id,
}

abbrev pub msg_prefix : String
msg_prefix = "msg-"

abbrev pub source_tag : String
source_tag = "sui-messaging-relayer"

-- The boxed errors of a cycle.
pub data SyncError : Type 0 where
  storage_error : StorageError → SyncError
  walrus_error : WalrusError → SyncError

-- `batch_size` as the service is built
abbrev pub service_batch_size : ℕ → ℕ
service_batch_size configured = min configured 666

abbrev pub tags_of : SyncStatus → Message → List (String × String)
tags_of to_status msg =
    insert "order" (elim msg.order [ none ↦ "" | some o ↦ show_int o ])
      (insert "sync_status" (status_to_string to_status) (
        insert "sender" msg.sender_wallet_addr
          (insert "group_id" msg.group_id (insert "source" source_tag []))))

module _ (show_uuid : Uuid → String) where
  abbrev pub identifier_of : Uuid → String
  identifier_of id = msg_prefix +s show_uuid id

  -- The patches and their metadata, without the messages that cannot be serialized.
  unfoldable pub patches_of :
      (Message → Result String Bytes)
      → SyncStatus
      → List Message
      → List (String × Bytes) × List QuiltPatchMetadata
  patches_of to_vec to_status [] = ([], [])
  patches_of to_vec to_status (msg ∷ messages) =
      let (patches, metadata) = patches_of to_vec to_status messages in
      elim (to_vec (record msg { sync_status = to_status })) [
        | ok bytes ↦ (
          (identifier_of msg.id, bytes) ∷ patches,
          (record { identifier = identifier_of msg.id; tags = tags_of to_status msg }) ∷ metadata,
        )
        | err e ↦ (patches, metadata)
      ]

  -- Step 4. A message that has no patch, or is no longer stored, is passed over.
  unfoldable pub record_patches :
      (Uuid → DateTime)
      → SyncStatus
      → QuiltStoreResponse
      → List Message
      → InMemoryStorage
      → InMemoryStorage
  record_patches now to_status response [] s = s
  record_patches now to_status response (msg ∷ messages) s =
      record_patches now to_status response messages
        (elim (get_patch_id (identifier_of msg.id) response) [
          | none ↦ s
          | some patch_id ↦ (update_sync_status (now msg.id) msg.id to_status (some patch_id) s).0
        ])

  module _ (to_vec : Message → Result String Bytes)
      (store_quilt : List (String × Bytes)
        → List QuiltPatchMetadata
        → Result WalrusError QuiltStoreResponse)
      (now : Uuid → DateTime) (batch_size : ℕ) where
    unfoldable pub sync_messages :
        SyncStatus → SyncStatus → InMemoryStorage → InMemoryStorage × Result SyncError (Unit {0})
    sync_messages from_status to_status s =
        elim (get_messages_by_sync_status from_status batch_size s) [
          | err e ↦ (s, err (storage_error e))
          | ok messages ↦
              let (patches, metadata) = patches_of to_vec to_status messages in
              if is_empty messages || is_empty patches
              then (s, ok tt)
              else elim (store_quilt patches metadata) [
                | err e ↦ (s, err (walrus_error e))
                | ok response ↦ (record_patches now to_status response messages s, ok tt)
              ]
        ]

    -- The three uploads of a cycle; an error is logged, and the next one runs.
    unfoldable pub sync_cycle : InMemoryStorage → InMemoryStorage
    unfolding sync_messages
    sync_cycle s =
        let s1 = (sync_messages sync_pending synced s).0 in
        let s2 = (sync_messages update_pending updated s1).0 in
        (sync_messages delete_pending deleted s2).0

-- What the loop of `run` wakes up for: the timer, a notification, or the closed channel.
pub data Wake : Type 0 where
  tick notified closed : Wake

pub record Worker : Type 0 where
  pub storage : InMemoryStorage
  pub message_count : ℕ
  pub running : Bool

module _ (cycle : InMemoryStorage → InMemoryStorage) (message_threshold : ℕ) where
  abbrev pub run_cycle : Worker → Worker
  run_cycle w = record w { storage = cycle w.storage; message_count = 0 }

  -- One turn of the loop
  unfoldable pub turn : Wake → Worker → Worker
  turn tick w = run_cycle w
  turn notified w =
      let message_count = (w.message_count + 1) % 2 ^ 64 in
      if message_threshold == 0 || ltb message_count message_threshold
      then record w { message_count = message_count }
      else run_cycle w
  turn closed w = record w { running = false }

  unfoldable pub run : List Wake → Worker → Worker
  unfolding turn
  run [] w = w
  run (wake ∷ wakes) w = if w.running then run wakes (turn wake w) else w
