-- ===== src/Walrus/Client.antt =====
-- src/relayer/src/walrus/client.rs: the client of the Walrus publisher and aggregator.
--
-- The crates `reqwest` and `serde_json` are a parameter: what sending a request gives, and what is
-- read off a response. Logging is not modelled.
use nautilus_messaging_relay.Common.{
  ℕ, String, Bool, ◌&&◌, Option, none, some, List, [], ◌∷◌, ◌++◌, map, ◌==◌, nat_eq, leb, ltb,
  is_empty, not, Result, ok, ◌>>=◌, ◌>>◌, refuse_if, map_err,
}
use nautilus_messaging_relay.Common.Text.{◌+s◌, show_nat}
use nautilus_messaging_relay.Models.Message.{Bytes}
use nautilus_messaging_relay.Walrus.Types.{
  WalrusError, request_failed, api_error, parse_error, BlobStoreResponse, QuiltStoreResponse,
  QuiltPatchMetadata, PatchInfo,
}

-- A part of a multipart form: its name, and a file with its name or a text.
pub data Part : Type 0 where
  file_part : (name file_name : String) → Bytes → Part
  text_part : (name text : String) → Part

pub data HttpBody : Type 0 where
  no_body : HttpBody
  raw : Bytes → HttpBody
  multipart : List Part → HttpBody

pub data HttpRequest : Type 0 where
  get put : (url : String) → HttpBody → HttpRequest

pub record Http : Type 1 where
  pub Response : Type 0
  -- `send`, with the text of its error
  pub send : HttpRequest → Result String Response
  pub status : Response → ℕ
  -- `text().await.unwrap_or_default()`, and `bytes`
  pub text : Response → String
  pub bytes : Response → Result String Bytes
  -- `json`, for each type that is read, and `serde_json::to_string` of the metadata
  pub json_quilt : Response → Result String QuiltStoreResponse
  pub json_blob : Response → Result String BlobStoreResponse
  pub json_patches : Response → Result String (List PatchInfo)
  pub metadata_to_string : List QuiltPatchMetadata → Result String String

pub record WalrusClient : Type 0 where
  pub publisher_url : String
  pub aggregator_url : String

-- `StatusCode::is_success`
abbrev pub is_success : ℕ → Bool
is_success status = leb 200 status && ltb status 300

abbrev pub quilt_parts : List (String × Bytes) → List Part
quilt_parts = map (λ p. file_part p.0 p.0 p.1)

module _ (http : Http) (client : WalrusClient) where
  open http use {Response}

  -- The parts of the form: one for each patch, then the metadata.
  unfoldable pub quilt_form :
      List (String × Bytes) → Option (List QuiltPatchMetadata) → Result WalrusError (List Part)
  quilt_form patches none = ok (quilt_parts patches)
  quilt_form patches (some meta) = do
    meta_json ← map_err parse_error (http.metadata_to_string meta)
    ok (quilt_parts patches ++ text_part "_metadata" meta_json ∷ [])

  -- An answer with a status that is no success is an error with its status and text.
  unfoldable pub check_status : Response → Result WalrusError (Unit {0})
  check_status response =
      refuse_if (not (is_success (http.status response)))
        (api_error (http.status response) (http.text response))

  unfoldable pub store_quilt :
      List (String × Bytes)
      → Option (List QuiltPatchMetadata)
      → ℕ
      → Result WalrusError QuiltStoreResponse
  unfolding quilt_form check_status
  store_quilt patches metadata epochs = do
    refuse_if (is_empty patches) (api_error 400 "Cannot store quilt with zero patches")
    form ← quilt_form patches metadata
    response ← map_err request_failed (
        http.send
          (put (client.publisher_url +s "/v1/quilts?epochs=" +s show_nat epochs) (multipart form)))
    check_status response
    map_err parse_error (http.json_quilt response)

  unfoldable pub store_blob : Bytes → ℕ → Result WalrusError BlobStoreResponse
  unfolding check_status
  store_blob bytes epochs = do
    response ← map_err request_failed (
        http.send
          (put (client.publisher_url +s "/v1/blobs?epochs=" +s show_nat epochs) (raw bytes)))
    check_status response
    map_err parse_error (http.json_blob response)

  -- The reading of `id` from the URL, which the three methods below begin with.
  unfoldable pub fetch : String → String → Result WalrusError Response
  unfolding check_status
  fetch url id = do
    response ← map_err request_failed (http.send (get url no_body))
    refuse_if (http.status response == 404) (WalrusError.not_found id)
    check_status response
    ok response

  unfoldable pub read_by_patch_id : String → Result WalrusError Bytes
  unfolding fetch
  read_by_patch_id patch_id = do
    response ← fetch (client.aggregator_url +s "/v1/blobs/by-quilt-patch-id/" +s patch_id) patch_id
    map_err request_failed (http.bytes response)

  unfoldable pub read_blob : String → Result WalrusError Bytes
  unfolding fetch
  read_blob blob_id = do
    response ← fetch (client.aggregator_url +s "/v1/blobs/" +s blob_id) blob_id
    map_err request_failed (http.bytes response)

  unfoldable pub list_patches : String → Result WalrusError (List PatchInfo)
  unfolding fetch
  list_patches quilt_blob_id = do
    response ←
        fetch (client.aggregator_url +s "/v1/quilts/" +s quilt_blob_id +s "/patches") quilt_blob_id
    map_err parse_error (http.json_patches response)
