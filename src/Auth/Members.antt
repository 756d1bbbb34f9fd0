-- ===== src/Auth/Members.antt =====
-- Each method of the store of memberships (src/relayer/src/auth/membership.rs) changes one entry of its
-- view, and says whether the member was known.
use nautilus_messaging_relay.Common.{
  String, Bool, true, false, not, ◌&&◌, ◌||◌, Option, none, some, List, [], ◌∷◌, string_eq, ◌==◌,
  if◌then◌else◌, ◌≡◌, refl, ◌∙◌, ap, arith, Option-cases, inl, inr,
}
use mathlib.Core.Bool.{or-false}
use mathlib.Core.Path.{fun_ext}
use nautilus_messaging_relay.Common.Map.{
  lookup, insert, remove, contains, set_insert, set_remove, lookup-insert, lookup-remove,
  contains-set_insert, contains-set_remove,
}
use nautilus_messaging_relay.Auth.Membership.{
  PermissionSet, InMemoryMembershipStore, permissions_of, insert_all, remove_all,
  change_permissions, members_or_default, grant_permissions, revoke_permissions, add_member,
  remove_member,
}
use nautilus_messaging_relay.Auth.View.{
  rights, view, listed, with_entry, granted, revoked, mapped, lookup_nil,
}
use nautilus_messaging_relay.Auth.Permissions.{MessagingPermission, permission_eq}

contains-insert_all :
    (p : MessagingPermission) (ps perms : List MessagingPermission)
    → contains p (insert_all ps perms) ≡ (contains p ps || contains p perms)
unfolding insert_all contains
contains-insert_all p [] perms = refl
contains-insert_all p (q ∷ ps) perms =
    ground (arith, contains-insert_all p ps (set_insert q perms), contains-set_insert p q perms)

contains-remove_all :
    (p : MessagingPermission) (ps perms : List MessagingPermission)
    → contains p (remove_all ps perms) ≡ (not (contains p ps) && contains p perms)
unfolding remove_all contains
contains-remove_all p [] perms = refl
contains-remove_all p (q ∷ ps) perms =
    ground (arith, contains-remove_all p ps (set_remove q perms), contains-set_remove p q perms)

permissions_of-add_member :
    (g a : String) (ps : List MessagingPermission) (s : InMemoryMembershipStore) (g' a' : String)
    → permissions_of g' a' (add_member g a ps s)
      ≡ (if g' == g && a' == a then some (insert_all ps []) else permissions_of g' a' s)
unfolding permissions_of add_member
permissions_of-add_member g a ps s g' a' =
    let old = members_or_default (lookup g s.members) in
    ground (
      arith,
      lookup-insert g g' (insert a (insert_all ps []) old) s.members,
      lookup-insert a a' (insert_all ps []) old,
      lookup_nil a',
    )

permissions_of-remove_member :
    (g a : String) (s : InMemoryMembershipStore) (g' a' : String)
    → permissions_of g' a' (remove_member g a s)
      ≡ (if g' == g && a' == a then none else permissions_of g' a' s)
unfolding permissions_of remove_member
permissions_of-remove_member g a s g' a' = elim (Option-cases (lookup g s.members)) [
  | inl e ↦ ground arith
  | inr (old, e) ↦
      ground (arith, lookup-insert g g' (remove a old) s.members, lookup-remove a a' old)
]

-- Where the member is not known the store stays and the error names it; otherwise its set changes.
permissions_of-change_permissions :
    (change : PermissionSet → PermissionSet) (g a : String) (s : InMemoryMembershipStore)
    (g' a' : String)
    → permissions_of g' a' (change_permissions change g a s).0 ≡ (
        if g' == g && a' == a then mapped change (permissions_of g a s) else permissions_of g' a' s)
unfolding permissions_of change_permissions
permissions_of-change_permissions change g a s g' a' = elim (Option-cases (lookup g s.members)) [
  | inl e ↦ ground arith
  | inr (old, e) ↦ elim (Option-cases (lookup a old)) [
    | inl q ↦ ground arith
    | inr (perms, q) ↦ ground (
      arith,
      lookup-insert g g' (insert a (change perms) old) s.members,
      lookup-insert a a' (change perms) old,
    )
  ]
]

pub rights-if :
    (b : Bool) (x y : Option PermissionSet)
    → rights (if b then x else y) ≡ (if b then rights x else rights y)
rights-if true x y = refl
rights-if false x y = refl

view_changed :
    (s s' : InMemoryMembershipStore) (g a : String) (e : Option PermissionSet)
    → ((g' a' : String)
        → permissions_of g' a' s' ≡ (if g' == g && a' == a then e else permissions_of g' a' s))
    → view s' ≡ with_entry g a (rights e) (view s)
view_changed s s' g a e h = fun_ext λ g'.
    fun_ext λ a'. ap rights (h g' a') ∙ rights-if (g' == g && a' == a) e (permissions_of g' a' s)

rights-insert_all :
    (ps perms : List MessagingPermission)
    → rights (some (insert_all ps perms)) ≡ some (λ p. listed ps p || listed perms p)
rights-insert_all ps perms = ap some (fun_ext λ p. contains-insert_all p ps perms)

rights-remove_all :
    (ps perms : List MessagingPermission)
    → rights (some (remove_all ps perms)) ≡ some (λ p. not (listed ps p) && listed perms p)
rights-remove_all ps perms = ap some (fun_ext λ p. contains-remove_all p ps perms)

rights-grant :
    (ps : List MessagingPermission) (o : Option PermissionSet)
    → rights (mapped (insert_all ps) o) ≡ granted ps (rights o)
rights-grant ps none = refl
rights-grant ps (some perms) = rights-insert_all ps perms

rights-revoke :
    (ps : List MessagingPermission) (o : Option PermissionSet)
    → rights (mapped (remove_all ps) o) ≡ revoked ps (rights o)
rights-revoke ps none = refl
rights-revoke ps (some perms) = rights-remove_all ps perms

-- A new member has exactly the listed permissions.
pub rights-new :
    (ps : List MessagingPermission) → rights (some (insert_all ps [])) ≡ some (listed ps)
unfolding contains
rights-new ps = ap some (fun_ext λ p. contains-insert_all p ps [] ∙ or-false (contains p ps))

-- `add_member` gives the member exactly the listed permissions in the group, also one that had others,
-- and changes nothing for any other.
pub view-add_member :
    (g a : String) (ps : List MessagingPermission) (s : InMemoryMembershipStore)
    → view (add_member g a ps s) ≡ with_entry g a (some (listed ps)) (view s)
view-add_member g a ps s =
    view_changed s (add_member g a ps s) g a _ (permissions_of-add_member g a ps s)
    ∙ ap (λ r. with_entry g a r (view s)) (rights-new ps)

pub view-remove_member :
    (g a : String) (s : InMemoryMembershipStore)
    → view (remove_member g a s) ≡ with_entry g a none (view s)
view-remove_member g a s =
    view_changed s (remove_member g a s) g a none (permissions_of-remove_member g a s)

-- A grant adds the listed permissions to those of a known member of the group, and changes nothing
-- for an unknown one or for any other.
pub view-grant_permissions :
    (g a : String) (ps : List MessagingPermission) (s : InMemoryMembershipStore)
    → view (grant_permissions g a ps s).0 ≡ with_entry g a (granted ps (view s g a)) (view s)
unfolding grant_permissions
view-grant_permissions g a ps s =
    view_changed s _ g a _ (permissions_of-change_permissions (insert_all ps) g a s)
    ∙ ap (λ r. with_entry g a r (view s)) (rights-grant ps (permissions_of g a s))

pub view-revoke_permissions :
    (g a : String) (ps : List MessagingPermission) (s : InMemoryMembershipStore)
    → view (revoke_permissions g a ps s).0 ≡ with_entry g a (revoked ps (view s g a)) (view s)
unfolding revoke_permissions
view-revoke_permissions g a ps s =
    view_changed s _ g a _ (permissions_of-change_permissions (remove_all ps) g a s)
    ∙ ap (λ r. with_entry g a r (view s)) (rights-revoke ps (permissions_of g a s))
