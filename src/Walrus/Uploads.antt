-- ===== src/Walrus/Uploads.antt =====
-- What storing a quilt and reading back (src/relayer/src/walrus/client.rs) ask for and return.
use nautilus_messaging_relay.Common.{
  ℕ, ◌≤◌, ◌<◌, String, some, List, [], ◌∷◌, ◌++◌, ◌==◌, nat_eq, ok, err, ◌≡◌, ◌≢◌, ◌↔◌, refl, arith,
  inl, inr, Result-cases, Bool-cases,
}
use nautilus_messaging_relay.Common.Text.{◌+s◌, show_nat}
use nautilus_messaging_relay.Models.Message.{Bytes}
use nautilus_messaging_relay.Walrus.Types.{WalrusError, QuiltStoreResponse, QuiltPatchMetadata}
use nautilus_messaging_relay.Walrus.Client.{
  Http, HttpRequest, get, put, multipart, no_body, text_part, WalrusClient, is_success, quilt_parts,
  quilt_form, check_status, store_quilt, fetch, read_by_patch_id,
}

module _ (http : Http) (client : WalrusClient) where
  open http use {Response}

  -- The request that stores the patches with their metadata.
  abbrev pub quilt_request : List (String × Bytes) → String → ℕ → HttpRequest
  quilt_request patches meta_json epochs =
      put (client.publisher_url +s "/v1/quilts?epochs=" +s show_nat epochs)
        (multipart (quilt_parts patches ++ text_part "_metadata" meta_json ∷ []))

  abbrev pub patch_request : String → HttpRequest
  patch_request id = get (client.aggregator_url +s "/v1/blobs/by-quilt-patch-id/" +s id) no_body

  -- Storing a quilt with metadata succeeds exactly if there is a patch, the metadata has a JSON text,
  -- the publisher answers the one request, which has a part for each patch and then the metadata,
  -- with a status from 200 to 299, and the answer is the JSON text of the result.
  pub store_quilt_iff :
      (patches : List (String × Bytes)) (meta : List QuiltPatchMetadata) (epochs : ℕ)
      (r : QuiltStoreResponse)
      → (store_quilt http client patches (some meta) epochs ≡ ok r) ↔ (
          (patches ≢ [])
          × (meta_json : String) × (response : Response) × (http.metadata_to_string meta
              ≡ ok meta_json)
          × (http.send (quilt_request patches meta_json epochs) ≡ ok response)
          × (200 ≤ http.status response)
          × (http.status response < 300)
          × (http.json_quilt response ≡ ok r))
  unfolding store_quilt quilt_form check_status
  store_quilt_iff [] meta epochs r =
      (λ h. absurd (ground arith), λ (ne, json, response, a, b, lo, hi, d). absurd (ne refl))
  store_quilt_iff (p ∷ patches) meta epochs r = (
    λ h. elim (Result-cases (http.metadata_to_string meta)) [
      | inr (e, a) ↦ absurd (ground arith)
      | inl (json, a) ↦ elim (Result-cases (http.send (quilt_request (p ∷ patches) json epochs))) [
        | inr (e, b) ↦ absurd (ground arith)
        | inl (response, b) ↦ elim (Bool-cases (is_success (http.status response))) [
          | inr c ↦ absurd (ground arith)
          | inl c ↦ elim (Result-cases (http.json_quilt response)) [
            | inr (e, d) ↦ absurd (ground arith)
            | inl (q, d) ↦
                ((λ e. absurd (cc)), json, response, a, b, ground arith, ground arith, ground arith)
          ]
        ]
      ]
    ],
    λ (ne, json, response, a, b, lo, hi, d). ground arith,
  )

  -- Reading a patch succeeds exactly if the aggregator answers the one request with a status from
  -- 200 to 299 and a body, which is the result; it fails as not found, with the identifier, exactly
  -- if the aggregator answers with status 404.
  pub read_by_patch_id_iff :
      (id : String)
      → ((b : Bytes)
          → (read_by_patch_id http client id ≡ ok b) ↔ (
              (response : Response) × (http.send (patch_request id) ≡ ok response)
              × (200 ≤ http.status response)
              × (http.status response < 300)
              × (http.bytes response ≡ ok b)))
        × ((name : String)
            → (read_by_patch_id http client id ≡ err (WalrusError.not_found name)) ↔ (
                (response : Response) × (http.send (patch_request id) ≡ ok response)
                × (http.status response ≡ 404)
                × (name ≡ id)))
  unfolding read_by_patch_id fetch check_status
  read_by_patch_id_iff id = (
    (λ b. (
      λ h. elim (Result-cases (http.send (patch_request id))) [
        | inr (e, a) ↦ absurd (ground arith)
        | inl (response, a) ↦ elim (Bool-cases (http.status response == 404)) [
          | inl c ↦ absurd (ground arith)
          | inr c ↦ elim (Bool-cases (is_success (http.status response))) [
            | inr d ↦ absurd (ground arith)
            | inl d ↦ (response, a, ground arith, ground arith, ground arith)
          ]
        ]
      ],
      λ (response, a, lo, hi, c). ground arith,
    )),
    (λ name. (
      λ h. elim (Result-cases (http.send (patch_request id))) [
        | inr (e, a) ↦ absurd (ground arith)
        | inl (response, a) ↦ elim (Bool-cases (http.status response == 404)) [
          | inl c ↦ (response, a, ground arith, ground arith)
          | inr c ↦ elim (Bool-cases (is_success (http.status response))) [
            | inr d ↦ absurd (ground arith)
            | inl d ↦ absurd (ground arith)
          ]
        ]
      ],
      λ (response, a, c, e). ground arith,
    )),
  )
