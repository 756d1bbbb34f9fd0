-- ===== src/Handlers/Decoding.antt =====
-- What the decoding of src/relayer/src/handlers/messages/handlers.rs lets through.
use nautilus_messaging_relay.Common.{
  ℤ, String, ◌≡◌, refl, List, [], ◌∷◌, ◌==◌, nat_eq, ok, Result-cases, Bool-cases, arith, inl, inr,
  length, All, ==→eq, ok-injective,
}
use mathlib.Core.Path.{subst}
use nautilus_messaging_relay.Common.Text.{◌+s◌, as_bytes, show_int}
use nautilus_messaging_relay.Models.Message.{Bytes, Attachment}
use nautilus_messaging_relay.Auth.Crypto.{Crypto}
use nautilus_messaging_relay.Auth.Schemes.{flag}
use nautilus_messaging_relay.Auth.Signature.{verify_signature}
use nautilus_messaging_relay.Auth.Types.{AuthContext}
use nautilus_messaging_relay.Handlers.Error.{ApiError}
use nautilus_messaging_relay.Handlers.Request.{AttachmentRequest, try_into_attachment}
use nautilus_messaging_relay.Handlers.Contents.{
  Content, decode_content, decode_attachments, verify_message_signature,
}

abbrev pub HasNonces : Attachment → Type 0
HasNonces a = (length a.nonce ≡ 12) × (length a.metadata_nonce ≡ 12)

module _ (c : Crypto) where
  open c use {hex_decode}

  -- The attachment has the identifier that the request names, and the bytes that its texts stand for.
  abbrev pub IsAttached : AttachmentRequest → Attachment → Type 0
  IsAttached r a =
      (a.storage_id ≡ r.storage_id)
      × (hex_decode r.nonce ≡ ok a.nonce)
      × (hex_decode r.encrypted_metadata ≡ ok a.encrypted_metadata)
      × (hex_decode r.metadata_nonce ≡ ok a.metadata_nonce)

  -- There is one attachment for each that is requested, in the same order.
  abbrev pub AreAttached : List AttachmentRequest → List Attachment → Type 0
  AreAttached [] [] = Unit
  AreAttached [] (a ∷ ats) = ⊥
  AreAttached (r ∷ rs) [] = ⊥
  AreAttached (r ∷ rs) (a ∷ ats) = IsAttached r a × AreAttached rs ats

  try_into_attachment-IsAttached :
      (r : AttachmentRequest) (a : Attachment)
      → try_into_attachment hex_decode r ≡ ok a
      → IsAttached r a × HasNonces a
  unfolding try_into_attachment
  try_into_attachment-IsAttached r a h = elim (Result-cases (hex_decode r.nonce)) [
    | inr (e, p) ↦ absurd (ground arith)
    | inl (n, p) ↦ elim (Bool-cases (length n == 12)) [
      | inr b ↦ absurd (ground arith)
      | inl b ↦ elim (Result-cases (hex_decode r.encrypted_metadata)) [
        | inr (e, q) ↦ absurd (ground arith)
        | inl (d, q) ↦ elim (Result-cases (hex_decode r.metadata_nonce)) [
          | inr (e, w) ↦ absurd (ground arith)
          | inl (k, w) ↦ elim (Bool-cases (length k == 12)) [
            | inr b' ↦ absurd (ground arith)
            | inl b' ↦
                let made : Attachment = record {
                  storage_id = r.storage_id;
                  nonce = n;
                  encrypted_metadata = d;
                  metadata_nonce = k;
                } in
                let e : made ≡ a = ok-injective {E = String} (ground arith) in
                subst (λ x. IsAttached r x × HasNonces x) e
                  ((refl, p, q, w), (==→eq (length n) 12 b, ==→eq (length k) 12 b'))
          ]
        ]
      ]
    ]
  ]

  decode_attachments-AreAttached :
      (rs : List AttachmentRequest) (ats : List Attachment)
      → decode_attachments c rs ≡ ok ats
      → All HasNonces ats × AreAttached rs ats
  unfolding decode_attachments
  decode_attachments-AreAttached [] ats h =
      subst (λ l. All HasNonces l × AreAttached [] l) (ok-injective h) (tt, tt)
  decode_attachments-AreAttached (r ∷ rs) ats h =
      elim (Result-cases (try_into_attachment hex_decode r)) [
        | inr (e, p) ↦ absurd (ground arith)
        | inl (a, p) ↦ elim (Result-cases (decode_attachments c rs)) [
          | inr (e, q) ↦ absurd (ground arith)
          | inl (ats', q) ↦
              let (own, same) = decode_attachments-AreAttached rs ats' q in
              let e : a ∷ ats' ≡ ats = ok-injective {E = ApiError} (ground arith) in
              let (whole, nonces) = try_into_attachment-IsAttached r a p in
              subst (λ l. All HasNonces l × AreAttached (r ∷ rs) l) e ((nonces, own), (whole, same))
        ]
      ]

  verify_message_signature-ok :
      (sg g t n : String) (kv : ℤ) (auth : AuthContext) (b : Bytes)
      → verify_message_signature c sg g t n kv auth ≡ ok b
      → (length b ≡ 64)
        × (verify_signature c
              (as_bytes (g +s ":" +s t +s ":" +s n +s ":" +s show_int kv))
              b
              auth.public_key
              auth.scheme
            ≡ ok tt)
  unfolding verify_message_signature
  verify_message_signature-ok sg g t n kv auth b h =
      let canonical = as_bytes (g +s ":" +s t +s ":" +s n +s ":" +s show_int kv) in
      elim (Result-cases (hex_decode sg)) [
        | inr (e, p) ↦ absurd (ground arith)
        | inl (x, p) ↦ elim (Bool-cases (length x == 64)) [
          | inr u ↦ absurd (ground arith)
          | inl u ↦
              elim (Result-cases (verify_signature c canonical x auth.public_key auth.scheme)) [
                | inr (e, w) ↦ absurd (ground arith)
                | inl (_, w) ↦
                    let e : x ≡ b = ok-injective {E = ApiError} (ground arith) in
                    (
                      ground arith,
                      subst
                          (λ y. verify_signature c canonical y auth.public_key auth.scheme ≡ ok tt)
                          e w,
                    )
              ]
        ]
      ]

  -- The content `k` is what the texts of a request stand for, signed by the caller.
  abbrev pub IsDecoded :
      AuthContext → String → String → String → ℤ → List AttachmentRequest → Content → Type 0
  IsDecoded auth g t n kv rs k =
      (hex_decode t ≡ ok k.encrypted_msg)
      × (hex_decode n ≡ ok k.nonce)
      × (length k.nonce ≡ 12)
      × (length k.signature ≡ 64)
      × (verify_signature c (as_bytes (g +s ":" +s t +s ":" +s n +s ":" +s show_int kv)) k.signature
            auth.public_key auth.scheme
          ≡ ok tt)
      × AreAttached rs k.attachments
      × All HasNonces k.attachments
      × (k.public_key ≡ flag auth.scheme ∷ auth.public_key)

  -- What the decoding of a created or updated message accepts: the nonce has 12 bytes, the signature
  -- has 64 and is one by the caller's key over the group, the text, the nonce and the key's version
  -- as the request has them; the attachments are those of the request in their order, each with its
  -- identifier, the bytes of its three texts, and nonces of 12 bytes; and the public key that is kept
  -- is the caller's, behind the flag of its scheme.
  pub decode_content-ok :
      (auth : AuthContext) (g t n : String) (kv : ℤ) (sg : String) (rs : List AttachmentRequest)
      (k : Content)
      → decode_content c auth g t n kv sg rs ≡ ok k
      → IsDecoded auth g t n kv rs k
  unfolding decode_content
  decode_content-ok auth g t n kv sg rs k h = elim (Result-cases (hex_decode t)) [
    | inr (e, p) ↦ absurd (ground arith)
    | inl (em, p) ↦ elim (Result-cases (hex_decode n)) [
      | inr (e, q) ↦ absurd (ground arith)
      | inl (nonce, q) ↦ elim (Bool-cases (length nonce == 12)) [
        | inr u ↦ absurd (ground arith)
        | inl u ↦ elim (Result-cases (verify_message_signature c sg g t n kv auth)) [
          | inr (e, w) ↦ absurd (ground arith)
          | inl (b, w) ↦ elim (Result-cases (decode_attachments c rs)) [
            | inr (e, d) ↦ absurd (ground arith)
            | inl (ats, d) ↦
                let (long, signed) = verify_message_signature-ok sg g t n kv auth b w in
                let (own, same) = decode_attachments-AreAttached rs ats d in
                let made : Content = record {
                  encrypted_msg = em;
                  nonce = nonce;
                  attachments = ats;
                  signature = b;
                  public_key = flag auth.scheme ∷ auth.public_key;
                } in
                let e : made ≡ k = ok-injective {E = ApiError} (ground arith) in
                subst (IsDecoded auth g t n kv rs) e
                  (p, q, ==→eq (length nonce) 12 u, long, signed, same, own, refl)
          ]
        ]
      ]
    ]
  ]
