-- ===== src/Services/MembershipSync.antt =====
-- src/relayer/src/services/membership_sync.rs: the service that follows the checkpoints of the chain and
-- keeps the store of memberships.
--
-- A subscription is the list of what its stream yields before it ends. Connecting, waiting before a
-- new connection and logging are not modelled; the count of processed events serves a log line only.
use nautilus_messaging_relay.Common.{
  ℕ, Option, none, some, List, [], ◌∷◌, leb, if◌then◌else◌, Bool, false,
}
use nautilus_messaging_relay.Auth.Membership.{
  InMemoryMembershipStore, add_member, remove_member, grant_permissions, revoke_permissions,
}
use nautilus_messaging_relay.Services.EventParser.{
  Chars, Decoder, Event, GroupsEvent, member_added, member_removed, permissions_granted,
  permissions_revoked, parse_sui_event,
}

-- An error of a grant or a revocation is logged and dropped.
unfoldable pub apply_event : GroupsEvent → InMemoryMembershipStore → InMemoryMembershipStore
apply_event (member_added group_id member) s = add_member group_id member [] s
apply_event (member_removed group_id member) s = remove_member group_id member s
apply_event (permissions_granted group_id member permissions) s =
    (grant_permissions group_id member permissions s).0
apply_event (permissions_revoked group_id member permissions) s =
    (revoke_permissions group_id member permissions s).0

-- `if let Some(groups_event) = parse_sui_event(..) { self.apply_event(&groups_event); }`
abbrev pub apply_parsed : Option GroupsEvent → InMemoryMembershipStore → InMemoryMembershipStore
apply_parsed none s = s
apply_parsed (some groups_event) s = apply_event groups_event s

-- The events of a transaction, where it has any.
abbrev pub Transaction : Type 0
Transaction = Option (List Event)

pub record CheckpointResponse : Type 0 where
  pub cursor : Option ℕ
  pub checkpoint : Option (List Transaction)

-- What the stream yields: a response or an error.
pub data StreamItem : Type 0 where
  response : CheckpointResponse → StreamItem
  failure : StreamItem

pub record SyncState : Type 0 where
  pub membership_store : InMemoryMembershipStore
  pub last_cursor : Option ℕ

-- `checkpoint_response.cursor.unwrap_or(0)`
abbrev pub cursor_of : CheckpointResponse → ℕ
cursor_of r = elim r.cursor [ none ↦ 0 | some c ↦ c ]

-- `cursor <= last`, where there is a last cursor
abbrev pub already_processed : Option ℕ → ℕ → Bool
already_processed none cursor = false
already_processed (some last) cursor = leb cursor last

module _ (d : Decoder) (groups_package_id : Chars) where
  unfoldable pub process_events : List Event → InMemoryMembershipStore → InMemoryMembershipStore
  process_events [] s = s
  process_events (event ∷ events) s =
      process_events events (apply_parsed (parse_sui_event d event groups_package_id) s)

  unfoldable pub process_checkpoint :
      List Transaction → InMemoryMembershipStore → InMemoryMembershipStore
  unfolding process_events
  process_checkpoint [] s = s
  process_checkpoint (none ∷ transactions) s = process_checkpoint transactions s
  process_checkpoint (some events ∷ transactions) s =
      process_checkpoint transactions (process_events events s)

  abbrev pub process_present :
      Option (List Transaction) → InMemoryMembershipStore → InMemoryMembershipStore
  process_present none s = s
  process_present (some checkpoint) s = process_checkpoint checkpoint s

  -- One round of the loop over the stream, for a response.
  unfoldable pub handle_response : CheckpointResponse → SyncState → SyncState
  handle_response r st = if already_processed st.last_cursor (cursor_of r) then st else record {
    membership_store = process_present r.checkpoint st.membership_store;
    last_cursor = some (cursor_of r);
  }

  -- `response?` ends the subscription at an error.
  unfoldable pub run_subscription : List StreamItem → SyncState → SyncState
  run_subscription [] st = st
  run_subscription (failure ∷ items) st = st
  run_subscription (response r ∷ items) st = run_subscription items (handle_response r st)

  -- `run`: one subscription after the other, on the same state.
  unfoldable pub run : List (List StreamItem) → SyncState → SyncState
  run [] st = st
  run (stream ∷ streams) st = run streams (run_subscription stream st)
