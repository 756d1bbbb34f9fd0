-- ===== src/Auth/Assignment.antt =====
-- What `set_group_members` (src/relayer/src/auth/membership.rs) makes of the members of a group.
use nautilus_messaging_relay.Common.{
  String, Option, none, some, List, [], ◌∷◌, string_eq, ◌==◌, if◌then◌else◌, ◌≡◌, refl, ◌∙◌, ap,
  arith,
}
use nautilus_messaging_relay.Common.Map.{lookup, insert, lookup-insert}
use nautilus_messaging_relay.Auth.Membership.{
  GroupMembers, InMemoryMembershipStore, permissions_of, insert_all, collect_members,
  set_group_members,
}
use nautilus_messaging_relay.Auth.Members.{rights-if, rights-new}
use nautilus_messaging_relay.Auth.Permissions.{MessagingPermission}
use nautilus_messaging_relay.Auth.View.{Rights, rights, view, listed, lookup_nil}

-- What a row of members and permissions gives an address: the last entry for it counts.
abbrev pub assigned :
    List (String × List MessagingPermission) → Option Rights → String → Option Rights
assigned [] r a = r
assigned ((b, ps) ∷ more) r a = assigned more (if a == b then some (listed ps) else r) a

rights-collect_members :
    (ms : List (String × List MessagingPermission)) (members : GroupMembers) (a : String)
    → rights (lookup a (collect_members ms members)) ≡ assigned ms (rights (lookup a members)) a
unfolding collect_members
rights-collect_members [] members a = refl
rights-collect_members ((b, ps) ∷ more) members a =
    rights-collect_members more (insert b (insert_all ps []) members) a
    ∙ ap (λ r. assigned more r a)
        (ap rights (lookup-insert b a (insert_all ps []) members)
          ∙ rights-if (a == b) (some (insert_all ps [])) (lookup a members)
          ∙ ap (λ r. if a == b then r else rights (lookup a members)) (rights-new ps))

permissions_of-set_group_members :
    (g : String) (ms : List (String × List MessagingPermission)) (s : InMemoryMembershipStore)
    (g' a : String)
    → permissions_of g' a (set_group_members g ms s)
      ≡ (if g' == g then lookup a (collect_members ms []) else permissions_of g' a s)
unfolding permissions_of set_group_members
permissions_of-set_group_members g ms s g' a =
    ground (arith, lookup-insert g g' (collect_members ms []) s.members)

-- `set_group_members` makes the members of the group exactly the listed ones, each with the
-- permissions of its last entry in the list, and changes no other group.
pub view-set_group_members :
    (g : String) (ms : List (String × List MessagingPermission)) (s : InMemoryMembershipStore)
    (g' a : String)
    → view (set_group_members g ms s) g' a ≡ (if g' == g then assigned ms none a else view s g' a)
view-set_group_members g ms s g' a =
    ap rights (permissions_of-set_group_members g ms s g' a)
    ∙ rights-if (g' == g) (lookup a (collect_members ms [])) (permissions_of g' a s)
    ∙ ap (λ r. if g' == g then r else view s g' a)
        (rights-collect_members ms [] a ∙ ap (λ o. assigned ms (rights o) a) (lookup_nil a))
