-- ===== src/Auth/Middleware.antt =====
-- src/relayer/src/auth/middleware.rs: the checks that every request for messages passes.
--
-- The middleware answers with a rejection or hands the request on. A header is what the `http` crate
-- gives for its name as a text, and the body is `none` where it cannot be read. The parsing of the
-- body's JSON (`serde_json`), the look-up in the membership store and the server's clock are
-- parameters.
use nautilus_messaging_relay.Common.{
  ℤ, ℕ, String, Bool, not, Option, none, some, [], ◌∷◌, if◌then◌else◌, ◌==◌, nat_eq, Result, ok,
  err, ◌>>=◌, ◌>>◌, refuse_if, ok_or, map_err, length, is_empty,
}
use nautilus_messaging_relay.Common.Text.{
  ◌+s◌, as_bytes, parse_i64, show_byte, show_int, show_nat, trim,
}
use nautilus_messaging_relay.Models.Message.{Bytes}
use nautilus_messaging_relay.Auth.Crypto.{Crypto}
use nautilus_messaging_relay.Auth.Permissions.{
  MessagingPermission, messaging_sender, messaging_reader, messaging_editor, messaging_deleter,
}
use nautilus_messaging_relay.Auth.Schemes.{
  SignatureScheme, from_flag, public_key_length, scheme_to_string,
}
use nautilus_messaging_relay.Auth.Signature.{
  validate_timestamp, verify_signature, verify_address_matches_pubkey,
}
use nautilus_messaging_relay.Auth.Types.{
  AuthContext, AuthError, missing_signature, missing_public_key, missing_timestamp,
  invalid_timestamp, request_expired, invalid_signature_format, invalid_public_key_format,
  signature_verification_failed, address_mismatch, not_group_member, error_to_string,
}

pub data Method : Type 0 where
  get post put delete : Method
  other : String → Method

pub record Request : Type 0 where
  pub method : Method
  pub header : String → Option String
  pub body : Option Bytes

pub record BodyAuthFields : Type 0 where
  pub group_id : String
  pub sender_address : String
  pub timestamp : ℤ

-- A status code, and the fields of `AuthErrorResponse`.
pub record Rejection : Type 0 where
  pub status : ℕ
  pub error : String
  pub code : String

abbrev pub error_response : ℕ → String → String → Rejection
error_response status message code = record { status = status; error = message; code = code }

unfoldable pub error_code : AuthError → String
error_code (request_expired _ _ _) = "REQUEST_EXPIRED"
error_code (invalid_signature_format _) = "INVALID_SIGNATURE_FORMAT"
error_code (invalid_public_key_format _) = "INVALID_PUBLIC_KEY_FORMAT"
error_code (signature_verification_failed _) = "SIGNATURE_VERIFICATION_FAILED"
error_code (address_mismatch _ _) = "ADDRESS_MISMATCH"
error_code (not_group_member _ _) = "NOT_GROUP_MEMBER"
error_code missing_signature = "MISSING_SIGNATURE"
error_code missing_public_key = "MISSING_PUBLIC_KEY"
error_code missing_timestamp = "MISSING_TIMESTAMP"
error_code (invalid_timestamp _) = "INVALID_TIMESTAMP"

abbrev pub auth_error_response : ℕ → AuthError → Rejection
auth_error_response status error = error_response status (error_to_string error) (error_code error)

-- `none` where the method needs no permission.
unfoldable pub required_permission : Method → Option MessagingPermission
required_permission get = some messaging_reader
required_permission post = some messaging_sender
required_permission put = some messaging_editor
required_permission delete = some messaging_deleter
required_permission (other _) = none

abbrev pub get_header : Request → String → Option String
get_header request name = elim (request.header name) [ none ↦ none | some v ↦ some (trim v) ]

abbrev required_header : Request → String → String → String → Result Rejection String
required_header request name message code =
    ok_or (error_response 401 message code) (get_header request name)

-- Steps 6: the claimed group, sender and time, and the bytes that were signed.
pub record Claim : Type 0 where
  pub group_id : String
  pub sender_address : String
  pub timestamp : ℤ
  pub message_bytes : Bytes

-- "timestamp:sender_address:group_id"
unfoldable pub canonical_message : ℤ → String → String → Bytes
canonical_message timestamp sender_address group_id =
    as_bytes (show_int timestamp +s ":" +s sender_address +s ":" +s group_id)

unfoldable pub claim_of_headers : Request → Result Rejection Claim
claim_of_headers request = do
  sender_address ←
      required_header request "x-sender-address" "Missing X-Sender-Address header"
        "MISSING_SENDER_ADDRESS"
  timestamp_str ←
      required_header request "x-timestamp" "Missing X-Timestamp header" "MISSING_TIMESTAMP"
  group_id ← required_header request "x-group-id" "Missing X-Group-Id header" "MISSING_GROUP_ID"
  timestamp ←
      ok_or
        (error_response 400 "Invalid X-Timestamp header: must be a unix timestamp"
          "INVALID_TIMESTAMP")
        (parse_i64 timestamp_str)
  ok (record {
    group_id = group_id;
    sender_address = sender_address;
    timestamp = timestamp;
    message_bytes = canonical_message timestamp sender_address group_id;
  })

-- Step 3: the first byte of the key is the flag of the scheme.
unfoldable pub scheme_of_key : Bytes → Result Rejection (SignatureScheme × Bytes)
scheme_of_key [] = err (auth_error_response 401 (invalid_public_key_format "Empty public key"))
scheme_of_key (scheme_flag ∷ public_key_bytes) = do
  scheme ←
      ok_or
        (auth_error_response 401 (
          invalid_public_key_format ("Unknown signature scheme flag: 0x" +s show_byte scheme_flag)))
        (from_flag scheme_flag)
  refuse_if (not (length public_key_bytes == public_key_length scheme)) (
      auth_error_response 401 (
        invalid_public_key_format (
          "Expected "
          +s show_nat (public_key_length scheme)
          +s " bytes for "
          +s scheme_to_string scheme
          +s ", got "
          +s show_nat (length public_key_bytes))))
  ok (scheme, public_key_bytes)

-- Steps 1 to 6: the signature, the scheme, the key, the claim and the body that was read.
pub record Credentials : Type 0 where
  pub signature_bytes : Bytes
  pub scheme : SignatureScheme
  pub public_key_bytes : Bytes
  pub claim : Claim
  pub body_bytes : Bytes

-- What the middleware passes on: the body and the context, where it made one.
pub record Forwarded : Type 0 where
  pub body : Option Bytes
  pub context : Option AuthContext

module _ (c : Crypto) (parse_body : Bytes → Result String BodyAuthFields) where
  open c use {hex_decode}

  unfoldable pub claim_of_body : Bytes → Result Rejection Claim
  claim_of_body body_bytes = do
    body_auth ←
        map_err (λ e. error_response 400 ("Invalid request body: " +s e) "INVALID_BODY")
          (parse_body body_bytes)
    ok (record {
      group_id = body_auth.group_id;
      sender_address = body_auth.sender_address;
      timestamp = body_auth.timestamp;
      message_bytes = body_bytes;
    })

  unfoldable pub credentials : Request → Result Rejection Credentials
  credentials request = do
    signature_hex ←
        required_header request "x-signature" "Missing X-Signature header" "MISSING_SIGNATURE"
    public_key_hex ←
        required_header request "x-public-key" "Missing X-Public-Key header" "MISSING_PUBLIC_KEY"
    public_key_with_flag ←
        map_err (λ e. auth_error_response 401 (invalid_public_key_format e))
          (hex_decode public_key_hex)
    (scheme, public_key_bytes) ← scheme_of_key public_key_with_flag
    signature_bytes ←
        map_err (λ e. auth_error_response 401 (invalid_signature_format e))
          (hex_decode signature_hex)
    body_bytes ←
        ok_or (error_response 400 "Failed to read request body" "BODY_READ_ERROR") request.body
    claim ← (if is_empty body_bytes then claim_of_headers request else claim_of_body body_bytes)
    ok (record {
      signature_bytes = signature_bytes;
      scheme = scheme;
      public_key_bytes = public_key_bytes;
      claim = claim;
      body_bytes = body_bytes;
    })

module _ (c : Crypto) (has_permission : String → String → MessagingPermission → Bool)
    (now request_ttl_seconds : ℤ) where
  -- Steps 7 to 10.
  unfoldable pub authorize : MessagingPermission → Credentials → Result Rejection AuthContext
  authorize permission k = do
    map_err (auth_error_response 401) (validate_timestamp now k.claim.timestamp request_ttl_seconds)
    map_err (auth_error_response 401)
        (verify_signature c k.claim.message_bytes k.signature_bytes k.public_key_bytes k.scheme)
    derived ←
        map_err (auth_error_response 401)
          (verify_address_matches_pubkey c k.claim.sender_address k.public_key_bytes k.scheme)
    refuse_if (not (has_permission k.claim.group_id k.claim.sender_address permission))
        (auth_error_response 403 (not_group_member k.claim.sender_address k.claim.group_id))
    ok (record {
      sender_address = k.claim.sender_address;
      public_key = k.public_key_bytes;
      scheme = k.scheme;
      authorized_group = some k.claim.group_id;
    })

module _ (c : Crypto) (parse_body : Bytes → Result String BodyAuthFields)
    (has_permission : String → String → MessagingPermission → Bool)
    (now request_ttl_seconds : ℤ) where
  unfoldable pub auth_middleware : Request → Result Rejection Forwarded
  unfolding required_permission
  auth_middleware request = elim (required_permission request.method) [
    | none ↦ ok (record { body = request.body; context = none })
    | some permission ↦ do
      k ← credentials c parse_body request
      context ← authorize c has_permission now request_ttl_seconds permission k
      ok (record { body = some k.body_bytes; context = some context })
  ]
