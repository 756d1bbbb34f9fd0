-- ===== src/Auth/Rejections.antt =====
-- With which status the middleware (src/relayer/src/auth/middleware.rs) rejects.
use nautilus_messaging_relay.Common.{
  ◌∷◌, [], ℤ, String, Bool, false, some, Result, ok, err, ◌≡◌, ◌⊎◌, arith, inl, inr, Result-cases,
  Option-cases,
}
use nautilus_messaging_relay.Models.Message.{Bytes}
use nautilus_messaging_relay.Auth.Admission.{IsProven, verify_address_matches_pubkey_iff}
use nautilus_messaging_relay.Auth.Signature.{
  validate_timestamp, verify_signature, verify_address_matches_pubkey,
}
use nautilus_messaging_relay.Auth.Types.{not_group_member}
use nautilus_messaging_relay.Auth.Crypto.{Crypto}
use nautilus_messaging_relay.Auth.Middleware.{
  Request, BodyAuthFields, Rejection, Credentials, credentials, authorize, auth_middleware,
  claim_of_body, claim_of_headers, scheme_of_key, required_permission, auth_error_response,
}
use nautilus_messaging_relay.Auth.Permissions.{MessagingPermission}

module _ (c : Crypto) (parse_body : Bytes → Result String BodyAuthFields) where
  scheme_of_key-status : (key : Bytes) (x : Rejection) → scheme_of_key key ≡ err x → x.status ≡ 401
  unfolding scheme_of_key
  scheme_of_key-status [] x h = ground arith
  scheme_of_key-status (f ∷ key) x h = ground arith

  claim_of_headers-status :
      (r : Request) (x : Rejection)
      → claim_of_headers r ≡ err x
      → (x.status ≡ 400) ⊎ (x.status ≡ 401)
  unfolding claim_of_headers
  claim_of_headers-status r x h = ground arith

  claim_of_body-status :
      (b : Bytes) (x : Rejection) → claim_of_body c parse_body b ≡ err x → x.status ≡ 400
  unfolding claim_of_body
  claim_of_body-status b x h = ground arith

  credentials-status :
      (r : Request) (x : Rejection)
      → credentials c parse_body r ≡ err x
      → (x.status ≡ 400) ⊎ (x.status ≡ 401)
  unfolding credentials
  credentials-status r x h =
      grind (arith, scheme_of_key-status, claim_of_headers-status, claim_of_body-status)

  module _ (has_permission : String → String → MessagingPermission → Bool) (now ttl : ℤ) where
    -- The rejection of a sender that lacks the permission.
    abbrev pub forbidden : Credentials → Rejection
    forbidden k = auth_error_response 403 (not_group_member k.claim.sender_address k.claim.group_id)

    authorize-status :
        (p : MessagingPermission) (k : Credentials) (x : Rejection)
        → authorize c has_permission now ttl p k ≡ err x
        → (x.status ≡ 401)
          ⊎ (IsProven c now ttl k
              × (has_permission k.claim.group_id k.claim.sender_address p ≡ false)
              × (x ≡ forbidden k))
    unfolding authorize
    authorize-status p k x h = elim (Result-cases (validate_timestamp now k.claim.timestamp ttl)) [
      | inr (e, a) ↦ inl (ground arith)
      | inl (u, a) ↦
          elim (Result-cases (
            verify_signature c k.claim.message_bytes k.signature_bytes k.public_key_bytes
              k.scheme)) [
                | inr (e, b) ↦ inl (ground arith)
                | inl (u', b) ↦
                    elim (Result-cases (
                      verify_address_matches_pubkey c k.claim.sender_address k.public_key_bytes
                        k.scheme)) [
                          | inr (e, d) ↦ inl (ground arith)
                          | inl (s, d) ↦
                              let (i, j, l) =
                                (verify_address_matches_pubkey_iff c k.claim.sender_address
                                    k.public_key_bytes k.scheme s).0
                                  d in
                              inr (
                                record { timely = a; signed = b; key_length = i; own_address = j },
                                ground arith,
                                ground arith,
                              )
                        ]
              ]
    ]

    -- A request is rejected with status 400 or 401, or else with status 403 for a sender whose
    -- credentials hold and who lacks the permission for the method in the claimed group.
    pub auth_middleware-status :
        (r : Request) (x : Rejection)
        → auth_middleware c parse_body has_permission now ttl r ≡ err x
        → ((x.status ≡ 400) ⊎ (x.status ≡ 401))
          ⊎ ((p : MessagingPermission) × (k : Credentials) × (required_permission r.method ≡ some p)
              × (credentials c parse_body r ≡ ok k)
              × IsProven c now ttl k
              × (has_permission k.claim.group_id k.claim.sender_address p ≡ false)
              × (x ≡ forbidden k))
    unfolding auth_middleware
    auth_middleware-status r x h = elim (Option-cases (required_permission r.method)) [
      | inl e ↦ absurd (ground arith)
      | inr (p, e) ↦ elim (Result-cases (credentials c parse_body r)) [
        | inr (y, q) ↦ inl (credentials-status r x (ground arith))
        | inl (k, q) ↦ elim (authorize-status p k x (ground arith)) [
          | inl w ↦ inl (inr w)
          | inr (t, f, w) ↦ inr (p, k, e, q, t, f, w)
        ]
      ]
    ]
