-- ===== src/Auth/Types.antt =====
-- src/relayer/src/auth/types.rs: the context of an authenticated request, and the authentication errors.
use nautilus_messaging_relay.Common.{ℤ, String, Option}
use nautilus_messaging_relay.Common.Text.{show_int, ◌+s◌}
use nautilus_messaging_relay.Models.Message.{Bytes}
use nautilus_messaging_relay.Auth.Schemes.{SignatureScheme}

pub record AuthContext : Type 0 where
  pub sender_address : String
  pub public_key : Bytes
  pub scheme : SignatureScheme
  pub authorized_group : Option String

pub data AuthError : Type 0 where
  missing_signature missing_public_key missing_timestamp : AuthError
  invalid_timestamp : String → AuthError
  request_expired : (timestamp server_time ttl_seconds : ℤ) → AuthError
  invalid_signature_format : String → AuthError
  invalid_public_key_format : String → AuthError
  signature_verification_failed : String → AuthError
  address_mismatch : (expected got : String) → AuthError
  not_group_member : (address group_id : String) → AuthError

-- `Display for AuthError`
unfoldable pub error_to_string : AuthError → String
error_to_string missing_signature = "Missing X-Signature header"
error_to_string missing_public_key = "Missing X-Public-Key header"
error_to_string missing_timestamp = "Missing timestamp"
error_to_string (invalid_timestamp e) = "Invalid timestamp: " +s e
error_to_string (request_expired timestamp server_time ttl_seconds) =
    "Request expired: timestamp "
    +s show_int timestamp
    +s " is more than "
    +s show_int ttl_seconds
    +s "s from server time "
    +s show_int server_time
error_to_string (invalid_signature_format e) = "Invalid signature format: " +s e
error_to_string (invalid_public_key_format e) = "Invalid public key format: " +s e
error_to_string (signature_verification_failed e) = "Signature verification failed: " +s e
error_to_string (address_mismatch expected got) =
    "Address mismatch: expected " +s expected +s ", got " +s got
error_to_string (not_group_member address group_id) =
    "Address " +s address +s " is not a member of group " +s group_id
