-- ===== src/Handlers/Contents.antt =====
-- src/relayer/src/handlers/messages/handlers.rs: the decoding and the verification of what
-- `create_message` and `update_message` receive.
use nautilus_messaging_relay.Common.{
  ℤ, String, not, List, [], ◌∷◌, ◌==◌, nat_eq, string_eq, Result, ok, ◌>>=◌, ◌>>◌, refuse_if,
  map_err, length,
}
use nautilus_messaging_relay.Common.Text.{◌+s◌, as_bytes, show_nat, show_int}
use nautilus_messaging_relay.Models.Message.{Bytes, Attachment}
use nautilus_messaging_relay.Auth.Crypto.{Crypto}
use nautilus_messaging_relay.Auth.Schemes.{flag}
use nautilus_messaging_relay.Auth.Signature.{verify_signature}
use nautilus_messaging_relay.Auth.Types.{AuthContext, error_to_string}
use nautilus_messaging_relay.Handlers.Error.{ApiError, bad_request}
use nautilus_messaging_relay.Handlers.Request.{AttachmentRequest, try_into_attachment}

-- The content of a message, decoded and verified.
pub record Content : Type 0 where
  pub encrypted_msg : Bytes
  pub nonce : Bytes
  pub attachments : List Attachment
  pub signature : Bytes
  pub public_key : Bytes

-- "group_id:encrypted_text:nonce:key_version"
abbrev pub canonical_content : String → String → String → ℤ → String
canonical_content group_id encrypted_text nonce key_version =
    group_id +s ":" +s encrypted_text +s ":" +s nonce +s ":" +s show_int key_version

module _ (c : Crypto) where
  open c use {hex_decode, hex_encode}

  unfoldable pub verify_message_signature :
      String → String → String → String → ℤ → AuthContext → Result ApiError Bytes
  verify_message_signature signature_hex group_id encrypted_text nonce key_version auth = do
    signature_bytes ←
        map_err (λ e. bad_request ("Invalid hex in message_signature: " +s e))
          (hex_decode signature_hex)
    refuse_if (not (length signature_bytes == 64)) (
        bad_request
          ("message_signature must be exactly 64 bytes, got " +s show_nat (length signature_bytes)))
    map_err (λ e. bad_request ("Message signature verification failed: " +s error_to_string e))
        (verify_signature c (as_bytes (canonical_content group_id encrypted_text nonce key_version))
          signature_bytes auth.public_key auth.scheme)
    ok signature_bytes

  -- The first attachment that cannot be decoded is the error.
  unfoldable pub decode_attachments : List AttachmentRequest → Result ApiError (List Attachment)
  decode_attachments [] = ok []
  decode_attachments (r ∷ requests) = do
    attachment ← map_err bad_request (try_into_attachment hex_decode r)
    attachments ← decode_attachments requests
    ok (attachment ∷ attachments)

  -- What `create_message` and `update_message` decode and verify alike.
  unfoldable pub decode_content :
      AuthContext
      → String
      → String
      → String
      → ℤ
      → String
      → List AttachmentRequest
      → Result ApiError Content
  decode_content auth group_id encrypted_text nonce_text key_version message_signature requests = do
    encrypted_msg ←
        map_err (λ e. bad_request ("Invalid hex in encrypted_text: " +s e))
          (hex_decode encrypted_text)
    nonce ← map_err (λ e. bad_request ("Invalid hex in nonce: " +s e)) (hex_decode nonce_text)
    refuse_if (not (length nonce == 12))
        (bad_request ("Nonce must be exactly 12 bytes, got " +s show_nat (length nonce)))
    signature ←
        verify_message_signature message_signature group_id encrypted_text nonce_text key_version
          auth
    attachments ← decode_attachments requests
    ok (record {
      encrypted_msg = encrypted_msg;
      nonce = nonce;
      attachments = attachments;
      signature = signature;
      public_key = flag auth.scheme ∷ auth.public_key;
    })
