-- ===== src/Auth/View.antt =====
-- The store of memberships (src/relayer/src/auth/membership.rs) seen from outside: for each group and
-- address, no member, or which permissions it has. Each method is a function of that view.
use nautilus_messaging_relay.Common.{
  String, Bool, false, not, ◌&&◌, ◌||◌, Option, none, some, List, [], string_eq, ◌==◌,
  if◌then◌else◌, ◌≡◌, refl, arith,
}
use nautilus_messaging_relay.Common.Map.{lookup, contains}
use nautilus_messaging_relay.Auth.Membership.{
  PermissionSet, InMemoryMembershipStore, permissions_of, has_permission,
}
use nautilus_messaging_relay.Auth.Permissions.{MessagingPermission, permission_eq}

-- What is known of a member: which permissions it has.
abbrev pub Rights : Type 0
Rights = MessagingPermission → Bool

abbrev pub View : Type 0
View = String → String → Option Rights

abbrev pub rights : Option PermissionSet → Option Rights
rights none = none
rights (some perms) = some (λ p. contains p perms)

abbrev pub view : InMemoryMembershipStore → View
view s g a = rights (permissions_of g a s)

abbrev pub listed : List MessagingPermission → Rights
listed ps p = contains p ps

abbrev pub mapped : (PermissionSet → PermissionSet) → Option PermissionSet → Option PermissionSet
mapped change none = none
mapped change (some perms) = some (change perms)

pub lookup_nil : (a : String) → lookup {V = PermissionSet} a [] ≡ none
unfolding lookup
lookup_nil a = refl

-- The view with another entry for one member of one group.
abbrev pub with_entry : String → String → Option Rights → View → View
with_entry g a e v g' a' = if g' == g && a' == a then e else v g' a'

abbrev pub granted : List MessagingPermission → Option Rights → Option Rights
granted ps none = none
granted ps (some r) = some (λ p. listed ps p || r p)

abbrev pub revoked : List MessagingPermission → Option Rights → Option Rights
revoked ps none = none
revoked ps (some r) = some (λ p. not (listed ps p) && r p)

-- `has_permission` is a question to the view.
pub has_permission-view :
    (g a : String) (p : MessagingPermission) (s : InMemoryMembershipStore)
    → has_permission g a p s ≡ elim (view s g a) [ none ↦ false | some r ↦ r p ]
unfolding has_permission
has_permission-view g a p s = ground arith
