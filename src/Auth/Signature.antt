-- ===== src/Auth/Signature.antt =====
-- src/relayer/src/auth/signature.rs: timestamps, signatures and the addresses of public keys.
use nautilus_messaging_relay.Common.{
  ℤ, ◌-ℤ◌, ltb_ℤ, wrap_i64, abs_i64, String, not, ◌∷◌, ◌++◌, if◌then◌else◌, ◌==◌, nat_eq, string_eq,
  Result, ok, err, ◌>>=◌, ◌>>◌, refuse_if, map_err, length,
}
use nautilus_messaging_relay.Common.Text.{show_nat, ◌+s◌}
use nautilus_messaging_relay.Models.Message.{Bytes}
use nautilus_messaging_relay.Auth.Crypto.{Crypto}
use nautilus_messaging_relay.Auth.Schemes.{
  SignatureScheme, flag, public_key_length, scheme_to_string,
}
use nautilus_messaging_relay.Auth.Types.{
  AuthError, request_expired, invalid_signature_format, invalid_public_key_format,
  signature_verification_failed, address_mismatch,
}

-- `now` is `Utc::now().timestamp()`.
unfoldable pub validate_timestamp : ℤ → ℤ → ℤ → Result AuthError (Unit {0})
validate_timestamp now timestamp ttl_seconds =
    let diff = abs_i64 (wrap_i64 (now -ℤ timestamp)) in
    if ltb_ℤ ttl_seconds diff then err (request_expired timestamp now ttl_seconds) else ok tt

abbrev wrong_key_length : SignatureScheme → Bytes → AuthError
wrong_key_length scheme key = invalid_public_key_format (
    "Expected "
    +s show_nat (public_key_length scheme)
    +s " bytes for "
    +s scheme_to_string scheme
    +s ", got "
    +s show_nat (length key))

module _ (c : Crypto) where
  open c use {hex_encode, blake2b256, signature_from_bytes, verify_personal_message}

  unfoldable pub verify_signature :
      Bytes → Bytes → Bytes → SignatureScheme → Result AuthError (Unit {0})
  verify_signature message signature_bytes public_key_bytes scheme = do
    refuse_if (not (length signature_bytes == 64))
        (invalid_signature_format ("Expected 64 bytes, got " +s show_nat (length signature_bytes)))
    refuse_if (not (length public_key_bytes == public_key_length scheme))
        (wrong_key_length scheme public_key_bytes)
    user_signature ←
        map_err (λ e. invalid_signature_format ("Failed to parse signature: " +s e))
          (signature_from_bytes (flag scheme ∷ (signature_bytes ++ public_key_bytes)))
    map_err signature_verification_failed (verify_personal_message message user_signature)

  unfoldable pub derive_sui_address : Bytes → SignatureScheme → Result AuthError String
  derive_sui_address public_key_bytes scheme = do
    refuse_if (not (length public_key_bytes == public_key_length scheme))
        (wrong_key_length scheme public_key_bytes)
    ok ("0x" +s hex_encode (blake2b256 (flag scheme ∷ public_key_bytes)))

  unfoldable pub verify_address_matches_pubkey :
      String → Bytes → SignatureScheme → Result AuthError String
  verify_address_matches_pubkey claimed_address public_key_bytes scheme = do
    derived_address ← derive_sui_address public_key_bytes scheme
    refuse_if (not (claimed_address == derived_address))
        (address_mismatch derived_address claimed_address)
    ok derived_address
