-- ===== src/Auth/Membership.antt =====
-- src/relayer/src/auth/membership.rs: the store of memberships in memory. Its lock is held through each
-- method, so a method is one step.
use nautilus_messaging_relay.Common.{
  String, Bool, false, not, Option, none, some, List, [], ◌∷◌, Result, ok, err, string_eq, is_empty,
}
use nautilus_messaging_relay.Common.Map.{lookup, insert, remove, contains, set_insert, set_remove}
use nautilus_messaging_relay.Auth.Permissions.{MessagingPermission, permission_eq}

pub data MembershipError : Type 0 where
  member_not_found : (group_id address : String) → MembershipError

abbrev pub PermissionSet : Type 0
PermissionSet = List MessagingPermission

abbrev pub GroupMembers : Type 0
GroupMembers = List (String × PermissionSet)

pub record InMemoryMembershipStore : Type 0 where
  pub members : List (String × GroupMembers)

-- `InMemoryMembershipStore::new`
abbrev pub new : InMemoryMembershipStore
new = record { members = [] }

-- `members.get(group_id).and_then(|group_members| group_members.get(address))`
unfoldable pub permissions_of : String → String → InMemoryMembershipStore → Option PermissionSet
permissions_of group_id address s = elim (lookup group_id s.members) [
  | none ↦ none
  | some group_members ↦ lookup address group_members
]

unfoldable pub has_permission :
    String → String → MessagingPermission → InMemoryMembershipStore → Bool
has_permission group_id address permission s = elim (permissions_of group_id address s) [
  | none ↦ false
  | some perms ↦ contains permission perms
]

unfoldable pub is_member : String → String → InMemoryMembershipStore → Bool
is_member group_id address s = elim (permissions_of group_id address s) [
  | none ↦ false
  | some perms ↦ not (is_empty perms)
]

unfoldable pub get_permissions :
    String → String → InMemoryMembershipStore → List MessagingPermission
get_permissions group_id address s = elim (permissions_of group_id address s) [
  | none ↦ []
  | some perms ↦ perms
]

-- `for perm in permissions { member_perms.insert(perm); }`
unfoldable pub insert_all : List MessagingPermission → PermissionSet → PermissionSet
insert_all [] perms = perms
insert_all (p ∷ ps) perms = insert_all ps (set_insert p perms)

-- `for perm in permissions { member_perms.remove(&perm); }`
unfoldable pub remove_all : List MessagingPermission → PermissionSet → PermissionSet
remove_all [] perms = perms
remove_all (p ∷ ps) perms = remove_all ps (set_remove p perms)

-- The look-ups that `grant_permissions` and `revoke_permissions` share, and a change of the set.
unfoldable pub change_permissions :
    (PermissionSet → PermissionSet)
    → String
    → String
    → InMemoryMembershipStore
    → InMemoryMembershipStore × Result MembershipError (Unit {0})
change_permissions change group_id address s = elim (lookup group_id s.members) [
  | none ↦ (s, err (member_not_found group_id address))
  | some group_members ↦ elim (lookup address group_members) [
    | none ↦ (s, err (member_not_found group_id address))
    | some member_perms ↦ (
      record s {
        members = insert group_id (insert address (change member_perms) group_members) s.members;
      },
      ok tt,
    )
  ]
]

unfoldable pub grant_permissions :
    String
    → String
    → List MessagingPermission
    → InMemoryMembershipStore
    → InMemoryMembershipStore × Result MembershipError (Unit {0})
grant_permissions group_id address permissions =
    change_permissions (insert_all permissions) group_id address

unfoldable pub revoke_permissions :
    String
    → String
    → List MessagingPermission
    → InMemoryMembershipStore
    → InMemoryMembershipStore × Result MembershipError (Unit {0})
revoke_permissions group_id address permissions =
    change_permissions (remove_all permissions) group_id address

-- `members.entry(group_id).or_default()`
abbrev pub members_or_default : Option GroupMembers → GroupMembers
members_or_default none = []
members_or_default (some group_members) = group_members

unfoldable pub add_member :
    String → String → List MessagingPermission → InMemoryMembershipStore → InMemoryMembershipStore
add_member group_id address initial_permissions s =
    let group_members = members_or_default (lookup group_id s.members) in
    record s {
      members =
          insert group_id (insert address (insert_all initial_permissions []) group_members)
            s.members;
    }

unfoldable pub remove_member : String → String → InMemoryMembershipStore → InMemoryMembershipStore
remove_member group_id address s = elim (lookup group_id s.members) [
  | none ↦ s
  | some group_members ↦ record s {
    members = insert group_id (remove address group_members) s.members;
  }
]

-- `for (address, permissions) in members_with_perms { group_members.insert(address, perm_set); }`
unfoldable pub collect_members :
    List (String × List MessagingPermission) → GroupMembers → GroupMembers
collect_members [] group_members = group_members
collect_members ((address, permissions) ∷ more) group_members =
    collect_members more (insert address (insert_all permissions []) group_members)

unfoldable pub set_group_members :
    String
    → List (String × List MessagingPermission)
    → InMemoryMembershipStore
    → InMemoryMembershipStore
set_group_members group_id members_with_perms s = record s {
  members = insert group_id (collect_members members_with_perms []) s.members;
}
