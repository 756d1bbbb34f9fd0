-- ===== src/Auth/Permissions.antt =====
-- src/relayer/src/auth/permissions.rs: the permissions of the Groups SDK.
use nautilus_messaging_relay.Common.{
  ℕ, String, ◌&&◌, Option, none, some, List, [], ◌∷◌, if◌then◌else◌, Eq, ◌==◌, nat_eq, bytes_eq,
}
use nautilus_messaging_relay.Common.Text.{codes}

pub data MessagingPermission : Type 0 where
  messaging_sender messaging_reader messaging_editor messaging_deleter : MessagingPermission

pub MessagingPermission-discrete : Discrete MessagingPermission
MessagingPermission-discrete = hlevel

instance abbrev pub permission_eq : Eq MessagingPermission
permission_eq = record { dec = MessagingPermission-discrete }

-- `split("::").last()`: what stands behind the last separator, where separators are found from the
-- left; `best` is what stands behind the last one so far.
unfoldable pub last_segment : List ℕ → List ℕ → List ℕ
last_segment best [] = best
last_segment best (c ∷ []) = best
last_segment best (c ∷ d ∷ r) =
    let behind = last_segment r r in
    let further = last_segment best (d ∷ r) in if c == b':' && d == b':' then behind else further

unfoldable pub as_str : MessagingPermission → String
as_str messaging_sender = "MessagingSender"
as_str messaging_reader = "MessagingReader"
as_str messaging_editor = "MessagingEditor"
as_str messaging_deleter = "MessagingDeleter"

unfoldable pub of_permission_name : List ℕ → Option MessagingPermission
of_permission_name permission_name =
    if permission_name == codes "MessagingSender"
    then some messaging_sender
    else if permission_name == codes "MessagingReader"
    then some messaging_reader
    else if permission_name == codes "MessagingEditor"
    then some messaging_editor
    else if permission_name == codes "MessagingDeleter"
    then some messaging_deleter
    else none

-- A type name is given by its characters.
unfoldable pub from_type_name : List ℕ → Option MessagingPermission
unfolding last_segment of_permission_name
from_type_name type_name = of_permission_name (last_segment type_name type_name)
