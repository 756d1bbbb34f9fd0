-- ===== src/Services/WalrusProgress.antt =====
-- The worker of src/relayer/src/services/walrus_sync.rs empties its backlog.
use nautilus_messaging_relay.Common.{
  ℕ, zero, suc, ◌+◌, ◌*◌, ◌≤◌, String, List, Result, ◌≢◌, arith, nat_eq,
}
use nautilus_messaging_relay.Models.Message.{
  Uuid, Bytes, DateTime, Message, SyncStatus, sync_pending, synced, update_pending, updated,
  delete_pending, deleted,
}
use nautilus_messaging_relay.Storage.Counting.{count, count_pos}
use nautilus_messaging_relay.Storage.Invariant.{Stored, IsValid}
use nautilus_messaging_relay.Storage.Memory.{InMemoryStorage, status_eq}
use nautilus_messaging_relay.Walrus.Types.{WalrusError, QuiltStoreResponse, QuiltPatchMetadata}
use nautilus_messaging_relay.Services.WalrusSync.{sync_messages, sync_cycle}
use nautilus_messaging_relay.Services.WalrusTriggers.{repeated}
use nautilus_messaging_relay.Services.WalrusUploads.{sync_messages-IsValid, sync_cycle-IsValid}
use nautilus_messaging_relay.Services.WalrusBatches.{Works, sync_messages-kept, sync_messages-taken}

module _ (show_uuid : Uuid → String) (to_vec : Message → Result String Bytes)
    (store_quilt : List (String × Bytes)
      → List QuiltPatchMetadata
      → Result WalrusError QuiltStoreResponse)
    (now : Uuid → DateTime) (batch_size : ℕ) where
  abbrev cycle : InMemoryStorage → InMemoryStorage
  cycle = sync_cycle show_uuid to_vec store_quilt now batch_size

  -- At most `n` stored messages wait for each of the three uploads.
  abbrev pub Backlog : ℕ → InMemoryStorage → Type 0
  Backlog n s =
      (count sync_pending s.messages ≤ n)
      × (count update_pending s.messages ≤ n)
      × (count delete_pending s.messages ≤ n)

  module _ (works : Works show_uuid to_vec store_quilt now batch_size) where
    -- A cycle takes a full batch from each of the three backlogs, or the whole of it.
    sync_cycle-Backlog :
        (n : ℕ) (s : InMemoryStorage) → IsValid s → Backlog (n + batch_size) s → Backlog n (cycle s)
    unfolding sync_cycle
    sync_cycle-Backlog n s v (a, b, c) =
        let s1 =
          (sync_messages show_uuid to_vec store_quilt now batch_size sync_pending synced s).0 in
        let s2 =
          (sync_messages show_uuid to_vec store_quilt now batch_size update_pending updated s1).0 in
        let v1 : IsValid s1 =
          sync_messages-IsValid show_uuid to_vec store_quilt now batch_size sync_pending synced s
            v in
        let v2 : IsValid s2 =
          sync_messages-IsValid show_uuid to_vec store_quilt now batch_size update_pending updated
            s1 v1 in
        let kept1 = λ (q : SyncStatus) (ne : q ≢ synced).
          sync_messages-kept show_uuid to_vec store_quilt now batch_size works synced sync_pending q
            s v ne in
        let kept2 = λ (q : SyncStatus) (ne : q ≢ updated).
          sync_messages-kept show_uuid to_vec store_quilt now batch_size works updated
            update_pending q s1 v1 ne in
        let kept3 = λ (q : SyncStatus) (ne : q ≢ deleted).
          sync_messages-kept show_uuid to_vec store_quilt now batch_size works deleted
            delete_pending q s2 v2 ne in
        (
          omega (
            arith,
            sync_messages-taken show_uuid to_vec store_quilt now batch_size works synced
                sync_pending s v (λ e. cc),
            kept2 sync_pending (λ e. cc) (λ e. cc),
            kept3 sync_pending (λ e. cc) (λ e. cc),
          ),
          omega (
            arith,
            kept1 update_pending (λ e. cc) (λ e. cc),
            sync_messages-taken show_uuid to_vec store_quilt now batch_size works updated
                update_pending s1 v1 (λ e. cc),
            kept3 update_pending (λ e. cc) (λ e. cc),
          ),
          omega (
            arith,
            kept1 delete_pending (λ e. cc) (λ e. cc),
            kept2 delete_pending (λ e. cc) (λ e. cc),
            sync_messages-taken show_uuid to_vec store_quilt now batch_size works deleted
                delete_pending s2 v2 (λ e. cc),
          ),
        )

    repeated-Backlog :
        (n : ℕ) (s : InMemoryStorage)
        → IsValid s
        → Backlog (n * batch_size) s
        → Backlog 0 (repeated n cycle s)
    repeated-Backlog zero s v (a, b, c) = (grind arith, grind arith, grind arith)
    repeated-Backlog (suc n) s v (a, b, c) =
        repeated-Backlog n (cycle s)
          (sync_cycle-IsValid show_uuid to_vec store_quilt now batch_size s v)
          (sync_cycle-Backlog (n * batch_size) s v (grind arith, grind arith, grind arith))

    -- When every message can be serialized and the publisher answers each request with a patch for
    -- every message sent, no stored message of a valid store still waits for an upload (has the status
    -- `sync_pending`, `update_pending` or `delete_pending`) after `n` cycles, where `n` batches hold
    -- each of the three backlogs.
    pub sync_cycle-drains :
        (n : ℕ) (s : InMemoryStorage)
        → IsValid s
        → Backlog (n * batch_size) s
        → (id : Uuid) (m : Message)
        → Stored (repeated n (sync_cycle show_uuid to_vec store_quilt now batch_size) s) id m
        → (m.sync_status ≢ sync_pending)
          × (m.sync_status ≢ update_pending)
          × (m.sync_status ≢ delete_pending)
    sync_cycle-drains n s v backlog id m st =
        let (a, b, c) = repeated-Backlog n s v backlog in
        let es = (repeated n cycle s).messages in
        (
          (λ e. absurd (omega (arith, count_pos sync_pending id m es st e))),
          (λ e. absurd (omega (arith, count_pos update_pending id m es st e))),
          (λ e. absurd (omega (arith, count_pos delete_pending id m es st e))),
        )
