-- ===== src/Tests/Walrus.antt =====
-- Concrete runs of the Walrus client and of the worker behind it (src/relayer/src/walrus/client.rs).
use nautilus_messaging_relay.Common.{
  ℕ, ◌≤◌, ◌<◌, String, none, some, List, [], ◌∷◌, map, Result, ok, err, ◌≡◌, ◌≢◌, ◌↔◌, ◌⊎◌, refl,
  arith, nat_eq, string_eq, String-discrete, In, inl, inr, find, ◌==◌, Bool-cases, pos,
  if◌then◌else◌,
}
use native.Mathlib.Decide.{ℕ_discrete}
use nautilus_messaging_relay.Models.Message.{
  Bytes, Message, sync_pending, update_pending, delete_pending, synced,
}
use nautilus_messaging_relay.Storage.Memory.{
  InMemoryStorage, get_messages_by_sync_status, update_sync_status,
}
use nautilus_messaging_relay.Storage.Invariant.{Stored}
use nautilus_messaging_relay.Walrus.Types.{
  WalrusError, StoredQuiltPatch, QuiltStoreResponse, QuiltPatchMetadata, get_patch_id,
}
use nautilus_messaging_relay.Walrus.Client.{
  Http, WalrusClient, get, put, store_quilt, read_by_patch_id,
}
use nautilus_messaging_relay.Walrus.Uploads.{
  quilt_request, patch_request, store_quilt_iff, read_by_patch_id_iff,
}
use nautilus_messaging_relay.Services.WalrusSync.{
  patches_of, record_patches, sync_messages, sync_cycle,
}
use nautilus_messaging_relay.Services.WalrusDelivery.{upload, sync_messages-upload}
use nautilus_messaging_relay.Services.WalrusBatches.{Works}
use nautilus_messaging_relay.Services.WalrusProgress.{Backlog, sync_cycle-drains}
use nautilus_messaging_relay.Services.WalrusTriggers.{repeated}
use nautilus_messaging_relay.Services.WalrusFrame.{besides}
use nautilus_messaging_relay.Services.WalrusTransitions.{Progress, sync_cycle-Progress}
use nautilus_messaging_relay.Models.Message.{set_order, SyncStatus-discrete}
use nautilus_messaging_relay.Common.Map.{lookup, insert}
use nautilus_messaging_relay.Tests.Store.{hello, one, one-IsValid}

-- A publisher that stores a patch under each name.
abbrev stored_patch : String × Bytes → StoredQuiltPatch
stored_patch p = record { identifier = p.0; quilt_patch_id = "patch"; range = none }

abbrev stored_all : List (String × Bytes) → QuiltStoreResponse
stored_all patches = record {
  blob_store_result = record { newly_created = none; already_certified = none };
  stored_quilt_blobs = map stored_patch patches;
}

abbrev publisher :
    List (String × Bytes) → List QuiltPatchMetadata → Result WalrusError QuiltStoreResponse
publisher patches metadata = ok (stored_all patches)

stored_patch_found :
    (name : String) (b : Bytes) (patches : List (String × Bytes))
    → In (name, b) patches
    → (p : StoredQuiltPatch) × (find
          (λ (q : StoredQuiltPatch). q.identifier == name)
          (map stored_patch patches)
        ≡ some p)
stored_patch_found name b [] i = absurd i
stored_patch_found name b (q ∷ patches) i = elim (Bool-cases (q.0 == name)) [
  | inl here ↦ (stored_patch q, rw here refl)
  | inr away ↦ elim i [
    | inl e ↦ absurd (ground arith)
    | inr j ↦ let (p, f) = stored_patch_found name b patches j in (p, rw away f)
  ]
]

publisher-Works : Works (λ id. "id") (λ m. ok []) publisher (λ id. 300) 1
unfolding get_patch_id
publisher-Works = record {
  serializes = λ m. ([], refl);
  answers = λ patches metadata ne. (
    stored_all patches,
    refl,
    λ name b i.
        let (p, f) = stored_patch_found name b patches i in
        (p.quilt_patch_id, rw (get_patch_id, f) refl),
  );
}

abbrev uploaded : InMemoryStorage
uploaded = repeated 1 (sync_cycle (λ id. "id") (λ m. ok []) publisher (λ id. 300) 1) one

abbrev hello_uploaded : Message
hello_uploaded = record (set_order (pos 1) hello) {
  sync_status = synced;
  quilt_patch_id = some "patch";
  updated_at = 300;
}

uploaded_lookup : Stored uploaded 1 hello_uploaded
unfolding sync_cycle lookup SyncStatus-discrete get_messages_by_sync_status patches_of
    record_patches sync_messages get_patch_id update_sync_status insert String-discrete ℕ_discrete
uploaded_lookup = refl

one-Backlog : Backlog (λ id. "id") (λ m. ok []) publisher (λ id. 300) 1 1 one
unfolding SyncStatus-discrete
one-Backlog = (omega arith, omega arith, omega arith)

sync_cycle-drains_example :
    (hello_uploaded.sync_status ≢ sync_pending)
    × (hello_uploaded.sync_status ≢ update_pending)
    × (hello_uploaded.sync_status ≢ delete_pending)
sync_cycle-drains_example =
    sync_cycle-drains (λ id. "id") (λ m. ok []) publisher (λ id. 300) 1 publisher-Works 1 one
      one-IsValid one-Backlog 1 hello_uploaded uploaded_lookup

sync_cycle-Progress_example :
    (besides (sync_cycle (λ id. "id") (λ m. ok []) publisher (λ id. 300) 1 one) ≡ besides one)
    × (((lookup 1 one.messages ≡ none)
          × (lookup 1 (sync_cycle (λ id. "id") (λ m. ok []) publisher (λ id. 300) 1 one).messages
              ≡ none))
        ⊎ ((m : Message) × (m' : Message) × Stored one 1 m
            × Stored (sync_cycle (λ id. "id") (λ m. ok []) publisher (λ id. 300) 1 one) 1 m'
            × Progress (λ id. "id") (λ m. ok []) publisher (λ id. 300) 1 1 m m'))
sync_cycle-Progress_example =
    sync_cycle-Progress (λ id. "id") (λ m. ok []) publisher (λ id. 300) 1 one 1 one-IsValid

-- An answer is a status and a body.
abbrev aggregator : Http
aggregator = record {
  Response = ℕ × Bytes;
  send = λ r. elim r [
    | get url body ↦
        if url == "http://a/v1/blobs/by-quilt-patch-id/p" then ok (200, 9 ∷ []) else ok (404, [])
    | put url body ↦ ok (200, [])
  ];
  status = λ r. r.0;
  text = λ r. "";
  bytes = λ r. ok r.1;
  json_quilt = λ r. ok (stored_all (("msg-id", []) ∷ []));
  json_blob = λ r. err "no blob";
  json_patches = λ r. ok [];
  metadata_to_string = λ m. ok "[]";
}

abbrev client : WalrusClient
client = record { publisher_url = "http://p"; aggregator_url = "http://a" }

abbrev patches : List (String × Bytes)
patches = ("msg-id", []) ∷ []

store_quilt_iff_example :
    (store_quilt aggregator client patches (some []) 5 ≡ ok (stored_all patches)) ↔ (
      (patches ≢ [])
      × (json : String) × (response : ℕ × Bytes) × (aggregator.metadata_to_string [] ≡ ok json)
      × (aggregator.send (quilt_request aggregator client patches json 5) ≡ ok response)
      × (200 ≤ aggregator.status response)
      × (aggregator.status response < 300)
      × (aggregator.json_quilt response ≡ ok (stored_all patches)))
store_quilt_iff_example = store_quilt_iff aggregator client patches [] 5 (stored_all patches)

read_by_patch_id_iff_example :
    ((b : Bytes)
      → (read_by_patch_id aggregator client "q" ≡ ok b) ↔ (
          (response : ℕ × Bytes) × (aggregator.send (patch_request aggregator client "q")
            ≡ ok response)
          × (200 ≤ aggregator.status response)
          × (aggregator.status response < 300)
          × (aggregator.bytes response ≡ ok b)))
    × ((name : String)
        → (read_by_patch_id aggregator client "q" ≡ err (WalrusError.not_found name)) ↔ (
            (response : ℕ × Bytes) × (aggregator.send (patch_request aggregator client "q")
              ≡ ok response)
            × (aggregator.status response ≡ 404)
            × (name ≡ "q")))
read_by_patch_id_iff_example = read_by_patch_id_iff aggregator client "q"

abbrev sent : InMemoryStorage
sent =
    (sync_messages (λ id. "id") (λ m. ok [])
      (upload aggregator client 5 (λ id. "id") (λ m. ok []) (λ id. 300) 1) (λ id. 300) 1
      sync_pending synced one).0

sync_messages-upload_example :
    (sent ≡ one)
    ⊎ ((messages : List Message) × (json : String) × (response : ℕ × Bytes)
        × (r : QuiltStoreResponse) × (get_messages_by_sync_status sync_pending 1 one ≡ ok messages)
        × (aggregator.send (
              quilt_request aggregator client
                (patches_of (λ id. "id") (λ m. ok []) synced messages).0
                json
                5)
            ≡ ok response)
        × (200 ≤ aggregator.status response)
        × (aggregator.status response < 300)
        × (aggregator.json_quilt response ≡ ok r)
        × (sent ≡ record_patches (λ id. "id") (λ id. 300) synced r messages one))
sync_messages-upload_example =
    sync_messages-upload aggregator client 5 (λ id. "id") (λ m. ok []) (λ id. 300) 1 sync_pending
      synced one
