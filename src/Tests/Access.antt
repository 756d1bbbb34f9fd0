-- ===== src/Tests/Access.antt =====
-- Concrete runs of the access control (src/relayer/src/auth).
use nautilus_messaging_relay.Common.{
  pos, ◌≡◌, refl, none, some, String, Bool, false, [], ◌∷◌, ◌++◌, ok, err, arith, inl, inr, ◌==◌,
  string_eq, Option, ◌&&◌, nat_eq, Result, String-discrete, if◌then◌else◌, ◌⊎◌, wrap_i64, abs_i64,
}
use native.Mathlib.Decide.{ℕ_discrete}
use nautilus_messaging_relay.Common.Text.{as_bytes, codes, trim}
use nautilus_messaging_relay.Models.Message.{Bytes}
use nautilus_messaging_relay.Auth.Crypto.{Crypto}
use nautilus_messaging_relay.Auth.Schemes.{ed25519, from_flag, public_key_length}
use nautilus_messaging_relay.Auth.Signature.{validate_timestamp, verify_signature}
use nautilus_messaging_relay.Auth.Types.{AuthContext, not_group_member}
use nautilus_messaging_relay.Auth.Middleware.{
  Request, Method, BodyAuthFields, Credentials, credentials, auth_middleware, required_permission,
  auth_error_response, claim_of_body, scheme_of_key,
}
use nautilus_messaging_relay.Auth.Permissions.{
  MessagingPermission, messaging_sender, messaging_editor, as_str, from_type_name,
  messaging_deleter,
}
use nautilus_messaging_relay.Auth.Admission.{IsProven, IsEntitled, auth_middleware_iff}
use nautilus_messaging_relay.Auth.MethodReuse.{auth_middleware-method}
use nautilus_messaging_relay.Auth.Rejections.{auth_middleware-status, forbidden}
use nautilus_messaging_relay.Auth.Timestamps.{validate_timestamp_iff}
use nautilus_messaging_relay.Auth.Names.{from_type_name-as_str}
use nautilus_messaging_relay.Auth.Membership
use nautilus_messaging_relay.Auth.Membership.{add_member, grant_permissions, set_group_members}
use nautilus_messaging_relay.Auth.Members.{view-add_member, view-grant_permissions}
use nautilus_messaging_relay.Auth.Assignment.{assigned, view-set_group_members}
use nautilus_messaging_relay.Auth.View.{view, with_entry, listed, granted}

-- Texts stand for themselves in place of hexadecimal digits, every signature is accepted, and every
-- key has the same address.
abbrev pub crypto : Crypto
crypto = record {
  hex_decode = λ t. ok (as_bytes t);
  hex_encode = λ b. "a";
  blake2b256 = λ b. b;
  UserSignature = Bytes;
  signature_from_bytes = λ b. ok b;
  verify_personal_message = λ m u. ok tt;
}

abbrev pub signature_text : String
signature_text = "0123456789012345678901234567890123456789012345678901234567890123"

-- The flag of Ed25519 is the byte 0, and the key has 32 bytes.
abbrev pub key : Bytes
key = as_bytes "01234567890123456789012345678901"

abbrev pub body_bytes : Bytes
body_bytes = 1 ∷ []

abbrev pub parse_body : Bytes → Result String BodyAuthFields
parse_body b = ok (record { group_id = "team"; sender_address = "0xa"; timestamp = pos 1000 })

abbrev header : String → Option String
header name =
    if name == "x-signature"
    then some signature_text
    else if name == "x-public-key"
    then some "\001234567890123456789012345678901"
    else none

abbrev pub posted : Request
posted = record { method = Method.post; header = header; body = some body_bytes }

abbrev pub only_sender : String → String → MessagingPermission → Bool
only_sender g a messaging_sender = g == "team" && a == "0xa"
only_sender g a p = false

abbrev pub posted_credentials : Credentials
posted_credentials = record {
  signature_bytes = as_bytes signature_text;
  scheme = ed25519;
  public_key_bytes = key;
  claim = record {
    group_id = "team";
    sender_address = "0xa";
    timestamp = pos 1000;
    message_bytes = body_bytes;
  };
  body_bytes = body_bytes;
}

abbrev pub ann : AuthContext
ann = record {
  sender_address = "0xa";
  public_key = key;
  scheme = ed25519;
  authorized_group = some "team";
}

credentials_of_posted : credentials crypto parse_body posted ≡ ok posted_credentials
unfolding credentials String-discrete scheme_of_key as_bytes trim ℕ_discrete from_flag
    public_key_length claim_of_body
credentials_of_posted = refl

proven : IsProven crypto (pos 1001) (pos 900) posted_credentials
unfolding validate_timestamp wrap_i64 abs_i64 verify_signature public_key_length as_bytes ℕ_discrete
proven = record { timely = refl; signed = refl; key_length = refl; own_address = refl }

entitled : IsEntitled crypto only_sender (pos 1001) (pos 900) messaging_sender posted_credentials
unfolding String-discrete
entitled = record { proven = proven; permitted = refl }

auth_middleware_iff_example :
    auth_middleware crypto parse_body only_sender (pos 1001) (pos 900) posted
    ≡ ok (record { body = some body_bytes; context = some ann })
unfolding required_permission
auth_middleware_iff_example =
    (auth_middleware_iff crypto parse_body only_sender (pos 1001) (pos 900) posted
        (record { body = some body_bytes; context = some ann })).1
      (inr (messaging_sender, posted_credentials, refl, credentials_of_posted, entitled, refl))

auth_middleware-method_example :
    auth_middleware crypto parse_body only_sender
      (pos 1001)
      (pos 900)
      (record posted { method = Method.delete })
    ≡ (if only_sender "team" "0xa" messaging_deleter
        then ok (record { body = some body_bytes; context = some ann })
        else err (auth_error_response 403 (not_group_member "0xa" "team")))
unfolding required_permission
auth_middleware-method_example =
    auth_middleware-method crypto parse_body only_sender (pos 1001) (pos 900) posted
      (some body_bytes) ann "team" Method.delete messaging_deleter auth_middleware_iff_example refl
      refl

deleted_by_ann :
    auth_middleware crypto parse_body only_sender
      (pos 1001)
      (pos 900)
      (record posted { method = Method.delete })
    ≡ err (auth_error_response 403 (not_group_member "0xa" "team"))
deleted_by_ann = auth_middleware-method_example

auth_middleware-status_example :
    (((auth_error_response 403 (not_group_member "0xa" "team")).status ≡ 400)
      ⊎ ((auth_error_response 403 (not_group_member "0xa" "team")).status ≡ 401))
    ⊎ ((p : MessagingPermission) × (k : Credentials) × (required_permission Method.delete ≡ some p)
        × (credentials crypto parse_body (record posted { method = Method.delete }) ≡ ok k)
        × IsProven crypto (pos 1001) (pos 900) k
        × (only_sender k.claim.group_id k.claim.sender_address p ≡ false)
        × (auth_error_response 403 (not_group_member "0xa" "team")
            ≡ forbidden crypto parse_body only_sender (pos 1001) (pos 900) k))
auth_middleware-status_example =
    auth_middleware-status crypto parse_body only_sender (pos 1001) (pos 900)
      (record posted { method = Method.delete })
      (auth_error_response 403 (not_group_member "0xa" "team")) deleted_by_ann

validate_timestamp_iff_example : validate_timestamp (pos 1001) (pos 1000) (pos 900) ≡ ok tt
validate_timestamp_iff_example =
    (validate_timestamp_iff 1001 (pos 1000) 900 (omega arith) (omega arith) (ground arith)).1
      (inl (ground arith))

from_type_name-as_str_example :
    from_type_name (codes "0x1::messaging" ++ b':' ∷ b':' ∷ codes (as_str messaging_editor))
    ≡ some messaging_editor
from_type_name-as_str_example =
    from_type_name-as_str (codes "0x1::messaging") messaging_editor (omega arith)

view-add_member_example :
    view (add_member "team" "ann" (messaging_sender ∷ []) Membership.new)
    ≡ with_entry "team" "ann" (some (listed (messaging_sender ∷ []))) (view Membership.new)
view-add_member_example = view-add_member "team" "ann" (messaging_sender ∷ []) Membership.new

view-grant_permissions_example :
    view
      (grant_permissions "team" "ann"
        (messaging_editor ∷ [])
        (add_member "team" "ann" [] Membership.new)).0
    ≡ with_entry "team" "ann"
        (granted
          (messaging_editor ∷ [])
          (view (add_member "team" "ann" [] Membership.new) "team" "ann"))
        (view (add_member "team" "ann" [] Membership.new))
view-grant_permissions_example =
    view-grant_permissions "team" "ann" (messaging_editor ∷ [])
      (add_member "team" "ann" [] Membership.new)

view-set_group_members_example :
    view
      (set_group_members "team"
        (("ann", messaging_sender ∷ []) ∷ ("ann", messaging_editor ∷ []) ∷ [])
        Membership.new)
      "team"
      "ann"
    ≡ assigned (("ann", messaging_sender ∷ []) ∷ ("ann", messaging_editor ∷ []) ∷ []) none "ann"
unfolding String-discrete
view-set_group_members_example =
    view-set_group_members "team"
      (("ann", messaging_sender ∷ []) ∷ ("ann", messaging_editor ∷ []) ∷ []) Membership.new "team"
      "ann"
