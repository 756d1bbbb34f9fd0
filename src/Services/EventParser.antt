-- ===== src/Services/EventParser.antt =====
-- src/relayer/src/services/event_parser.rs: from events of the chain to events of the Groups SDK.
--
-- An event type and a package identifier are the lists of their characters. The decoding of an
-- event's contents (the crate `bcs`) and `hex::encode` are parameters. Identifiers on the chain are
-- ASCII, so `to_lowercase` is the mapping of the ASCII letters.
use nautilus_messaging_relay.Common.{
  ℕ, ◌+◌, String, Bool, true, false, not, ◌&&◌, ◌||◌, Option, none, some, List, [], ◌∷◌, ◌++◌, map,
  if◌then◌else◌, ◌==◌, nat_eq, leb,
}
use nautilus_messaging_relay.Common.Text.{codes, ◌+s◌}
use nautilus_messaging_relay.Models.Message.{Bytes}
use nautilus_messaging_relay.Auth.Permissions.{MessagingPermission, from_type_name}

abbrev pub Chars : Type 0
Chars = List ℕ

pub data GroupsEvent : Type 0 where
  member_added member_removed : (group_id member : String) → GroupsEvent
  permissions_granted permissions_revoked :
      (group_id member : String) → List MessagingPermission → GroupsEvent

pub record MemberEventBcs : Type 0 where
  pub group_id : Bytes
  pub member : Bytes

pub record PermissionsEventBcs : Type 0 where
  pub group_id : Bytes
  pub member : Bytes
  pub permissions : List Chars

-- `Event` of the `sui_rpc` crate, the fields that are read
pub record Event : Type 0 where
  pub event_type : Option Chars
  pub contents : Option (Option Bytes)

unfoldable pub starts_with : Chars → Chars → Bool
starts_with s [] = true
starts_with [] (p ∷ ps) = false
starts_with (c ∷ s) (p ∷ ps) = c == p && starts_with s ps

unfoldable pub contains_text : Chars → Chars → Bool
unfolding starts_with
contains_text [] p = starts_with [] p
contains_text (c ∷ s) p = starts_with (c ∷ s) p || contains_text s p

-- `trim_start_matches("0x")`: the prefix goes as often as it stands there.
unfoldable pub trim_0x : Chars → Chars
trim_0x [] = []
trim_0x (c ∷ []) = c ∷ []
trim_0x (c ∷ d ∷ s) = let rest = trim_0x s in if c == b'0' && d == b'x' then rest else c ∷ d ∷ s

abbrev lower : ℕ → ℕ
lower c = if leb b'A' c && leb c b'Z' then c + 32 else c

unfoldable pub to_lowercase : Chars → Chars
to_lowercase = map lower

-- `iter().filter_map(|tn| MessagingPermission::from_type_name(&tn.name)).collect()`
unfoldable pub known_permissions : List Chars → List MessagingPermission
unfolding from_type_name
known_permissions [] = []
known_permissions (n ∷ ns) =
    let rest = known_permissions ns in elim (from_type_name n) [ none ↦ rest | some p ↦ p ∷ rest ]

-- The event type is one of the package: its lower-case form starts with the identifier.
unfoldable pub is_from_package : Chars → Chars → Bool
unfolding starts_with trim_0x to_lowercase
is_from_package event_type groups_package_id =
    let normalized_pkg = to_lowercase (trim_0x groups_package_id) in
    let event_type_lower = to_lowercase event_type in
    starts_with event_type_lower (codes "0x" ++ normalized_pkg)
    || starts_with event_type_lower normalized_pkg

-- The crates `hex` and `bcs`; `none` is an error.
pub record Decoder : Type 0 where
  pub hex_encode : Bytes → String
  pub member_event : Bytes → Option MemberEventBcs
  pub permissions_event : Bytes → Option PermissionsEventBcs

module _ (d : Decoder) where
  abbrev address : Bytes → String
  address bytes = "0x" +s d.hex_encode bytes

  unfoldable pub parse_permissions_granted : Bytes → Option GroupsEvent
  unfolding known_permissions
  parse_permissions_granted bcs_bytes = elim (d.permissions_event bcs_bytes) [
    | none ↦ none
    | some e ↦ some (
        permissions_granted (address e.group_id) (address e.member)
          (known_permissions e.permissions))
  ]

  unfoldable pub parse_permissions_revoked : Bytes → Option GroupsEvent
  unfolding known_permissions
  parse_permissions_revoked bcs_bytes = elim (d.permissions_event bcs_bytes) [
    | none ↦ none
    | some e ↦ some (
        permissions_revoked (address e.group_id) (address e.member)
          (known_permissions e.permissions))
  ]

  unfoldable pub parse_member_added : Bytes → Option GroupsEvent
  parse_member_added bcs_bytes = elim (d.member_event bcs_bytes) [
    | none ↦ none
    | some e ↦ some (member_added (address e.group_id) (address e.member))
  ]

  unfoldable pub parse_member_removed : Bytes → Option GroupsEvent
  parse_member_removed bcs_bytes = elim (d.member_event bcs_bytes) [
    | none ↦ none
    | some e ↦ some (member_removed (address e.group_id) (address e.member))
  ]

  -- The tests of the event type, in their order.
  unfoldable pub parse_by_type : Chars → Bytes → Option GroupsEvent
  unfolding contains_text parse_permissions_granted parse_permissions_revoked parse_member_added
      parse_member_removed
  parse_by_type event_type bcs_bytes =
      if contains_text event_type (codes "::PermissionsGranted<")
      then parse_permissions_granted bcs_bytes
      else if contains_text event_type (codes "::PermissionsRevoked<")
      then parse_permissions_revoked bcs_bytes
      else if contains_text event_type (codes "::MemberAdded<")
      then parse_member_added bcs_bytes
      else if contains_text event_type (codes "::MemberRemoved<")
      then parse_member_removed bcs_bytes
      else none

  unfoldable pub parse_sui_event : Event → Chars → Option GroupsEvent
  unfolding is_from_package parse_by_type
  parse_sui_event event groups_package_id = elim event.event_type [
    | none ↦ none
    | some event_type ↦
        if not (is_from_package event_type groups_package_id) then none else elim event.contents [
          | none ↦ none
          | some value ↦ elim value [
            | none ↦ none
            | some bcs_bytes ↦ parse_by_type event_type bcs_bytes
          ]
        ]
  ]
