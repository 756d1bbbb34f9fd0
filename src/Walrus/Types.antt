-- ===== src/Walrus/Types.antt =====
-- src/relayer/src/walrus/types.rs: the answers of the Walrus publisher and the tags of a patch.
use nautilus_messaging_relay.Common.{ℕ, String, Option, none, some, List, ◌==◌, string_eq, find}

pub data WalrusError : Type 0 where
  request_failed : String → WalrusError
  api_error : (status : ℕ) (message : String) → WalrusError
  parse_error : String → WalrusError
  not_found : String → WalrusError

pub record BlobObject : Type 0 where
  pub blob_id : String
  pub id : Option String
  pub size : Option ℕ

pub record NewlyCreatedBlob : Type 0 where
  pub blob_object : BlobObject
  pub cost : Option ℕ

pub record AlreadyCertifiedBlob : Type 0 where
  pub blob_id : String
  pub end_epoch : Option ℕ

pub record BlobStoreResponse : Type 0 where
  pub newly_created : Option NewlyCreatedBlob
  pub already_certified : Option AlreadyCertifiedBlob

unfoldable pub blob_id : BlobStoreResponse → Option String
blob_id r = elim r.newly_created [
  | some newly_created ↦ some newly_created.blob_object.blob_id
  | none ↦ elim r.already_certified [ some certified ↦ some certified.blob_id | none ↦ none ]
]

pub record QuiltRange : Type 0 where
  pub start : ℕ
  pub end : ℕ

pub record StoredQuiltPatch : Type 0 where
  pub identifier : String
  pub quilt_patch_id : String
  pub range : Option QuiltRange

pub record QuiltStoreResponse : Type 0 where
  pub blob_store_result : BlobStoreResponse
  pub stored_quilt_blobs : List StoredQuiltPatch

unfoldable pub quilt_blob_id : QuiltStoreResponse → Option String
quilt_blob_id r = blob_id r.blob_store_result

unfoldable pub get_patch_id : String → QuiltStoreResponse → Option String
get_patch_id identifier r = elim (find (λ p. p.identifier == identifier) r.stored_quilt_blobs) [
  | none ↦ none
  | some p ↦ some p.quilt_patch_id
]

pub record QuiltPatchMetadata : Type 0 where
  pub identifier : String
  pub tags : List (String × String)

-- `tags` is the JSON value of the crate `serde_json`, as a text.
pub record PatchInfo : Type 0 where
  pub identifier : String
  pub patch_id : String
  pub tags : Option String
