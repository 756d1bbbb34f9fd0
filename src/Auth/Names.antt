-- ===== src/Auth/Names.antt =====
-- The flags of the schemes (src/relayer/src/auth/schemes.rs) and the names of the permissions
-- (src/relayer/src/auth/permissions.rs) identify them.
use nautilus_messaging_relay.Common.{
  ℕ, List, [], ◌∷◌, ◌++◌, some, ◌≡◌, ◌≢◌, ◌↔◌, refl, ◌∙◌, ap, arith, nat_eq, bytes_eq,
}
use native.Mathlib.Decide.{ℕ_discrete}
use nautilus_messaging_relay.Common.Tests.{Bytes-discrete}
use nautilus_messaging_relay.Common.Text.{codes}
use nautilus_messaging_relay.Auth.Permissions.{
  MessagingPermission, messaging_sender, messaging_reader, messaging_editor, messaging_deleter,
  last_segment, of_permission_name, as_str, from_type_name,
}
use nautilus_messaging_relay.Auth.Schemes.{
  SignatureScheme, ed25519, secp256k1, secp256r1, from_flag, flag,
}

-- A byte is read as a scheme exactly if it is the scheme's flag.
pub from_flag_iff : (n : ℕ) (s : SignatureScheme) → (from_flag n ≡ some s) ↔ (n ≡ flag s)
unfolding from_flag flag
from_flag_iff n ed25519 = ground arith
from_flag_iff n secp256k1 = ground arith
from_flag_iff n secp256r1 = ground arith

-- The last character is not a colon.
abbrev pub EndsPlain : List ℕ → Type 0
EndsPlain [] = Unit
EndsPlain (c ∷ []) = c ≢ b':'
EndsPlain (c ∷ d ∷ r) = EndsPlain (d ∷ r)

-- No character is a colon.
abbrev pub NoColon : List ℕ → Type 0
NoColon [] = Unit
NoColon (c ∷ cs) = (c ≢ b':') × NoColon cs

last_segment-NoColon : (best cs : List ℕ) → NoColon cs → last_segment best cs ≡ best
unfolding last_segment
last_segment-NoColon best [] h = refl
last_segment-NoColon best (c ∷ []) h = refl
last_segment-NoColon best (c ∷ d ∷ r) (a, h) = ground (arith, last_segment-NoColon best (d ∷ r) h)

EndsPlain-tail : (d : ℕ) (r : List ℕ) → EndsPlain (d ∷ r) → EndsPlain r
EndsPlain-tail d [] h = tt
EndsPlain-tail d (e ∷ r) h = h

-- Behind the separator stands the name, whatever stands before.
last_segment-append :
    (best prefix name : List ℕ)
    → EndsPlain prefix
    → NoColon name
    → last_segment best (prefix ++ b':' ∷ b':' ∷ name) ≡ name
unfolding last_segment ℕ_discrete
last_segment-append best [] name h k = last_segment-NoColon name name k
last_segment-append best (c ∷ []) name h k = ground (arith, last_segment-append best [] name tt k)
last_segment-append best (c ∷ d ∷ r) name h k = ground (
  arith,
  last_segment-append (r ++ b':' ∷ b':' ∷ name) r name (EndsPlain-tail d r h) k,
  last_segment-append best (d ∷ r) name h k,
)

of_permission_name-as_str :
    (p : MessagingPermission) → of_permission_name (codes (as_str p)) ≡ some p
unfolding of_permission_name as_str Bytes-discrete ℕ_discrete
of_permission_name-as_str messaging_sender = refl
of_permission_name-as_str messaging_reader = refl
of_permission_name-as_str messaging_editor = refl
of_permission_name-as_str messaging_deleter = refl

as_str-NoColon : (p : MessagingPermission) → NoColon (codes (as_str p))
unfolding as_str
as_str-NoColon messaging_sender = omega arith
as_str-NoColon messaging_reader = omega arith
as_str-NoColon messaging_editor = omega arith
as_str-NoColon messaging_deleter = omega arith

-- A permission's name behind any path of modules whose last character is no colon, and the separator
-- `::`, is read as the permission.
pub from_type_name-as_str :
    (path : List ℕ) (p : MessagingPermission)
    → EndsPlain path
    → from_type_name (path ++ b':' ∷ b':' ∷ codes (as_str p)) ≡ some p
unfolding from_type_name
from_type_name-as_str path p h =
    ap of_permission_name (last_segment-append _ path (codes (as_str p)) h (as_str-NoColon p))
    ∙ of_permission_name-as_str p
