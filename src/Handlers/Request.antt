-- ===== src/Handlers/Request.antt =====
-- src/relayer/src/handlers/messages/request.rs: the requests of the messages API.
use nautilus_messaging_relay.Common.{
  ℤ, ℕ, String, not, Option, List, ◌==◌, nat_eq, Result, ok, ◌>>=◌, ◌>>◌, refuse_if, map_err,
  length,
}
use nautilus_messaging_relay.Common.Text.{◌+s◌, show_nat}
use nautilus_messaging_relay.Models.Message.{Uuid, Bytes, Attachment}

pub record AttachmentRequest : Type 0 where
  pub storage_id : String
  pub nonce : String
  pub encrypted_metadata : String
  pub metadata_nonce : String

pub record CreateMessageRequest : Type 0 where
  pub group_id : String
  pub encrypted_text : String
  pub nonce : String
  pub key_version : ℤ
  pub sender_address : String
  pub message_signature : String
  pub attachments : List AttachmentRequest

pub record UpdateMessageRequest : Type 0 where
  pub message_id : Uuid
  pub group_id : String
  pub sender_address : String
  pub encrypted_text : String
  pub nonce : String
  pub key_version : ℤ
  pub message_signature : String
  pub attachments : List AttachmentRequest

pub record GetMessagesQuery : Type 0 where
  pub message_id : Option Uuid
  pub group_id : Option String
  pub after_order : Option ℤ
  pub before_order : Option ℤ
  pub limit : Option ℕ

-- `hex_decode` is `hex::decode`, with the text of its error.
module _ (hex_decode : String → Result String Bytes) where
  unfoldable pub try_into_attachment : AttachmentRequest → Result String Attachment
  try_into_attachment r = do
    nonce ← map_err (λ e. "Invalid hex in attachment nonce: " +s e) (hex_decode r.nonce)
    refuse_if (not (length nonce == 12))
        ("Attachment nonce must be exactly 12 bytes, got " +s show_nat (length nonce))
    encrypted_metadata ←
        map_err (λ e. "Invalid hex in attachment encrypted_metadata: " +s e)
          (hex_decode r.encrypted_metadata)
    metadata_nonce ←
        map_err (λ e. "Invalid hex in attachment metadata_nonce: " +s e)
          (hex_decode r.metadata_nonce)
    refuse_if (not (length metadata_nonce == 12)) (
        "Attachment metadata_nonce must be exactly 12 bytes, got "
        +s show_nat (length metadata_nonce))
    ok (record {
      storage_id = r.storage_id;
      nonce = nonce;
      encrypted_metadata = encrypted_metadata;
      metadata_nonce = metadata_nonce;
    })
