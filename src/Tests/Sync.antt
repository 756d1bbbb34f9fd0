-- ===== src/Tests/Sync.antt =====
-- Concrete runs of the services (src/relayer/src/services).
use nautilus_messaging_relay.Common.{◌≡◌, none, some, [], ◌∷◌, ◌++◌, arith, nat_eq, ◌+◌, ◌*◌, map}
use nautilus_messaging_relay.Common.Map.{lookup}
use nautilus_messaging_relay.Common.Text.{codes}
use nautilus_messaging_relay.Models.Message.{deleted}
use nautilus_messaging_relay.Auth.Membership
use nautilus_messaging_relay.Auth.View.{view}
use nautilus_messaging_relay.Walrus.Types.{QuiltStoreResponse}
use nautilus_messaging_relay.Services.EventParser.{Decoder, Event, Chars}
use nautilus_messaging_relay.Services.MembershipSync.{
  CheckpointResponse, response, failure, SyncState, run, process_checkpoint,
}
use nautilus_messaging_relay.Services.MembershipReplay.{
  meanings, parsed_checkpoint, view-process_checkpoint, run-reconnect,
}
use nautilus_messaging_relay.Services.WalrusSync
use nautilus_messaging_relay.Services.WalrusSync.{record_patches, sync_cycle}
use nautilus_messaging_relay.Services.WalrusUploads.{settled_in, record_patches-lookup}
use nautilus_messaging_relay.Services.WalrusTriggers.{
  notifications, repeated, waiting, run-notifications,
}
use nautilus_messaging_relay.Tests.Store.{hello, one}

-- Every event is one about the member "0x1" of the group "0x1".
abbrev decoder : Decoder
decoder = record {
  hex_encode = λ b. "1";
  member_event = λ b. some (record { group_id = b; member = b });
  permissions_event = λ b.
      some
        (record { group_id = b; member = b; permissions = codes "0x1::a::MessagingReader" ∷ [] });
}

abbrev groups_package : Chars
groups_package = codes "0x1"

abbrev added : Event
added = record { event_type = some (codes "0x1::g::MemberAdded<T>"); contents = some (some []) }

abbrev granted : Event
granted = record {
  event_type = some (codes "0x1::g::PermissionsGranted<T>");
  contents = some (some []);
}

abbrev first : CheckpointResponse
first = record { cursor = some 1; checkpoint = some (some (added ∷ []) ∷ []) }

abbrev second : CheckpointResponse
second = record { cursor = some 2; checkpoint = some (some (granted ∷ []) ∷ []) }

abbrev start : SyncState
start = record { membership_store = Membership.new; last_cursor = none }

run-reconnect_example :
    run decoder groups_package
      ((map response (first ∷ []) ++ failure ∷ [])
        ∷ (map response (first ∷ []) ++ response second ∷ [])
        ∷ [])
      start
    ≡ run decoder groups_package ((map response (first ∷ []) ++ response second ∷ []) ∷ []) start
run-reconnect_example =
    run-reconnect decoder groups_package (first ∷ []) (first ∷ []) (response second ∷ []) start
      (λ q i. i)

view-process_checkpoint_example :
    view
      (process_checkpoint decoder groups_package (some (added ∷ granted ∷ []) ∷ []) Membership.new)
    ≡ meanings
        (parsed_checkpoint decoder groups_package (some (added ∷ granted ∷ []) ∷ []))
        (view Membership.new)
view-process_checkpoint_example =
    view-process_checkpoint decoder groups_package (some (added ∷ granted ∷ []) ∷ []) Membership.new

abbrev stored_quilt : QuiltStoreResponse
stored_quilt = record {
  blob_store_result = record { newly_created = none; already_certified = none };
  stored_quilt_blobs =
      (record { identifier = "msg-id"; quilt_patch_id = "patch"; range = none }) ∷ [];
}

record_patches-lookup_example :
    lookup 1
      (record_patches (λ id. "id") (λ id. 300) deleted stored_quilt (hello ∷ []) one).messages
    ≡ settled_in
        (λ id. "id")
        (λ id. 300)
        deleted
        stored_quilt
        (hello ∷ [])
        1
        (lookup 1 one.messages)
record_patches-lookup_example =
    record_patches-lookup (λ id. "id") (λ id. 300) deleted stored_quilt (hello ∷ []) one 1

run-notifications_example :
    WalrusSync.run (λ s. s) 3 (notifications (2 * 3 + 1)) (waiting (λ s. s) one 0)
    ≡ waiting (λ s. s) (repeated 2 (λ s. s) one) 1
run-notifications_example =
    run-notifications (λ s. s) 3 (omega arith) (omega arith) one 2 1 (omega arith)
