-- ===== src/Models/Message.antt =====
-- src/relayer/src/models/attachment.rs and src/relayer/src/models/message.rs: attachments, messages and
-- their synchronisation status.
--
-- A `Uuid` is the 128-bit number that it holds. A `DateTime<Utc>` is the number of nanoseconds
-- since the epoch. What `Utc::now()` and `Uuid::new_v4()` return is an argument, `now` or `id`.
use nautilus_messaging_relay.Common.{ℕ, ℤ, String, List, Option, none, some}

abbrev pub Uuid : Type 0
Uuid = ℕ

abbrev pub Bytes : Type 0
Bytes = List ℕ

abbrev pub DateTime : Type 0
DateTime = ℕ

pub record Attachment : Type 0 where
  pub storage_id : String
  pub nonce : Bytes
  pub encrypted_metadata : Bytes
  pub metadata_nonce : Bytes

pub data SyncStatus : Type 0 where
  sync_pending synced update_pending updated delete_pending deleted : SyncStatus

unfoldable pub SyncStatus-discrete : Discrete SyncStatus
SyncStatus-discrete = hlevel

-- `SyncStatus::default`
abbrev pub default_status : SyncStatus
default_status = sync_pending

-- `Display for SyncStatus`
unfoldable pub status_to_string : SyncStatus → String
status_to_string sync_pending = "SYNC_PENDING"
status_to_string synced = "SYNCED"
status_to_string update_pending = "UPDATE_PENDING"
status_to_string updated = "UPDATED"
status_to_string delete_pending = "DELETE_PENDING"
status_to_string deleted = "DELETED"

pub record Message : Type 0 where
  pub id : Uuid
  pub group_id : String
  pub order : Option ℤ
  pub sender_wallet_addr : String
  pub encrypted_msg : Bytes
  pub nonce : Bytes
  pub key_version : ℤ
  pub created_at : DateTime
  pub updated_at : DateTime
  pub sync_status : SyncStatus
  pub quilt_patch_id : Option String
  pub attachments : List Attachment
  pub signature : Bytes
  pub public_key : Bytes

-- `Message::new`
abbrev pub new :
    Uuid
    → DateTime
    → String
    → String
    → Bytes
    → Bytes
    → ℤ
    → List Attachment
    → Bytes
    → Bytes
    → Message
new id now group_id sender_wallet_addr encrypted_msg nonce key_version attachments signature
      public_key =
    record {
      id = id;
      group_id = group_id;
      order = none;
      sender_wallet_addr = sender_wallet_addr;
      encrypted_msg = encrypted_msg;
      nonce = nonce;
      key_version = key_version;
      created_at = now;
      updated_at = now;
      sync_status = default_status;
      quilt_patch_id = none;
      attachments = attachments;
      signature = signature;
      public_key = public_key;
    }

abbrev pub set_order : ℤ → Message → Message
set_order order m = record m { order = some order }

abbrev pub mark_synced : DateTime → String → Message → Message
mark_synced now quilt_patch_id m = record m {
  sync_status = synced;
  quilt_patch_id = some quilt_patch_id;
  updated_at = now;
}

abbrev pub mark_for_deletion : DateTime → Message → Message
mark_for_deletion now m = record m { sync_status = delete_pending; updated_at = now }

abbrev pub update_content :
    DateTime → Bytes → Bytes → ℤ → List Attachment → Bytes → Bytes → Message → Message
update_content now encrypted_msg nonce key_version attachments signature public_key m = record m {
  encrypted_msg = encrypted_msg;
  nonce = nonce;
  key_version = key_version;
  attachments = attachments;
  signature = signature;
  public_key = public_key;
  sync_status = update_pending;
  updated_at = now;
}
