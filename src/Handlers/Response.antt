-- ===== src/Handlers/Response.antt =====
-- src/relayer/src/handlers/messages/response.rs: the responses of the messages API.
use nautilus_messaging_relay.Common.{
  ℤ, ℕ, ◌/◌, String, Bool, not, ◌||◌, Option, List, map, ◌==◌, nat_eq,
}
use nautilus_messaging_relay.Models.Message.{
  Uuid, Bytes, DateTime, Attachment, Message, delete_pending, deleted, status_to_string,
}
use nautilus_messaging_relay.Storage.Memory.{order_or_zero, status_eq}

pub record AttachmentResponse : Type 0 where
  pub storage_id : String
  pub nonce : String
  pub encrypted_metadata : String
  pub metadata_nonce : String

pub record MessageResponse : Type 0 where
  pub message_id : Uuid
  pub group_id : String
  pub order : ℤ
  pub encrypted_text : String
  pub nonce : String
  pub key_version : ℤ
  pub sender_address : String
  pub created_at : ℕ
  pub updated_at : ℕ
  pub attachments : List AttachmentResponse
  pub is_edited : Bool
  pub is_deleted : Bool
  pub sync_status : String
  pub quilt_patch_id : Option String
  pub signature : String
  pub public_key : String

-- `DateTime::timestamp`: whole seconds
abbrev pub timestamp : DateTime → ℕ
timestamp t = t / 1_000_000_000

-- `hex_encode` is `hex::encode`.
module _ (hex_encode : Bytes → String) where
  abbrev pub attachment_response : Attachment → AttachmentResponse
  attachment_response att = record {
    storage_id = att.storage_id;
    nonce = hex_encode att.nonce;
    encrypted_metadata = hex_encode att.encrypted_metadata;
    metadata_nonce = hex_encode att.metadata_nonce;
  }

  -- `From<Message> for MessageResponse`
  unfoldable pub message_response : Message → MessageResponse
  message_response msg = record {
    message_id = msg.id;
    group_id = msg.group_id;
    order = order_or_zero msg;
    encrypted_text = hex_encode msg.encrypted_msg;
    nonce = hex_encode msg.nonce;
    key_version = msg.key_version;
    sender_address = msg.sender_wallet_addr;
    created_at = timestamp msg.created_at;
    updated_at = timestamp msg.updated_at;
    attachments = map attachment_response msg.attachments;
    is_edited = not (msg.updated_at == msg.created_at);
    is_deleted = msg.sync_status == delete_pending || msg.sync_status == deleted;
    sync_status = status_to_string msg.sync_status;
    quilt_patch_id = msg.quilt_patch_id;
    signature = hex_encode msg.signature;
    public_key = hex_encode msg.public_key;
  }

pub record CreateMessageResponse : Type 0 where
  pub message_id : Uuid

pub record EmptyResponse : Type 0 where

pub record MessagesListResponse : Type 0 where
  pub messages : List MessageResponse
  pub has_next : Bool

pub data GetMessagesResponse : Type 0 where
  single : MessageResponse → GetMessagesResponse
  list : MessagesListResponse → GetMessagesResponse
