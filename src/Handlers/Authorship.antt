-- ===== src/Handlers/Authorship.antt =====
-- Who has sent what the route POST /messages stores (src/relayer/src/main.rs).
use nautilus_messaging_relay.Common.{
  ℤ, ℕ, String, Bool, true, false, Option, none, some, [], ◌∷◌, Result, ok, ◌≡◌, refl, sym, ◌∙◌, ap,
  arith, inl, inr, string_eq, is_empty, Option-cases, Result-cases,
}
use mathlib.Core.Path.{subst}
use nautilus_messaging_relay.Common.Map.{lookup}
use nautilus_messaging_relay.Models.Message
use nautilus_messaging_relay.Models.Message.{Uuid, Bytes, DateTime, Message}
use nautilus_messaging_relay.Storage.Memory.{get_message, order_after}
use nautilus_messaging_relay.Auth.Admission.{
  address_of, IsEntitled, context_of, auth_middleware_iff,
}
use nautilus_messaging_relay.Auth.Crypto.{Crypto}
use nautilus_messaging_relay.Auth.Middleware.{
  Request, Method, BodyAuthFields, Credentials, credentials, claim_of_body, auth_middleware,
  required_permission,
}
use nautilus_messaging_relay.Auth.Permissions.{MessagingPermission, messaging_sender}
use nautilus_messaging_relay.Auth.Schemes.{flag}
use nautilus_messaging_relay.Auth.Signature.{verify_signature}
use nautilus_messaging_relay.Enclave.Signing.{IntentMessage, ProcessedDataResponse, KeyPair}
use nautilus_messaging_relay.Handlers.Error.{ApiError}
use nautilus_messaging_relay.Handlers.Request.{CreateMessageRequest}
use nautilus_messaging_relay.Handlers.Response.{CreateMessageResponse}
use nautilus_messaging_relay.Handlers.Messages.{AppState, message_of, create_message}
use nautilus_messaging_relay.Handlers.Decoding.{decode_content-ok}
use nautilus_messaging_relay.Handlers.Delivery.{create_message-stores}
use nautilus_messaging_relay.Handlers.Server.{answered, post_messages}

module _ (c : Crypto) (parse_body : Bytes → Result String BodyAuthFields) where
  -- Credentials of a request with a body have a body that reads as the fields of the claim.
  credentials-claim :
      (r : Request) (k : Credentials)
      → credentials c parse_body r ≡ ok k
      → is_empty k.body_bytes ≡ false
      → (f : BodyAuthFields) × (parse_body k.body_bytes ≡ ok f)
        × (k.claim.group_id ≡ f.group_id)
        × (k.claim.sender_address ≡ f.sender_address)
        × (k.claim.message_bytes ≡ k.body_bytes)
  unfolding credentials claim_of_body
  credentials-claim r k h e = elim (Result-cases (parse_body k.body_bytes)) [
    | inl (f, p) ↦ (f, p, ground arith, ground arith, ground arith)
    | inr (x, p) ↦ absurd (ground arith)
  ]

-- An empty body is no request, and a body that both readers take has one group and one sender.
-- The readers of serde_json take the two fields by their names, and refuse a field that comes twice.
abbrev pub Agree :
    (Bytes → Result String BodyAuthFields) → (Bytes → Option CreateMessageRequest) → Type 0
Agree parse_body parse_request =
    (parse_request [] ≡ none)
    × ((b : Bytes) (req : CreateMessageRequest) (f : BodyAuthFields)
        → parse_request b ≡ some req
        → parse_body b ≡ ok f
        → (f.group_id ≡ req.group_id) × (f.sender_address ≡ req.sender_address))

module _ (c : Crypto) (parse_body : Bytes → Result String BodyAuthFields)
    (parse_request : Bytes → Option CreateMessageRequest)
    (has_permission : String → String → MessagingPermission → Bool) (now_seconds ttl : ℤ)
    (kp : KeyPair) (show_uuid : Uuid → String) (bcs : IntentMessage CreateMessageResponse → Bytes)
    (id : Uuid) (now : DateTime) (timestamp_ms : ℕ) (r : Request) (state state' : AppState)
    (response : ProcessedDataResponse (IntentMessage CreateMessageResponse)) where
  -- The message is one by the holder of the key, who signed the body of the request and may send
  -- messages to the group.
  abbrev pub IsAuthored : Credentials → Message → Type 0
  IsAuthored k m =
      (m.sender_wallet_addr ≡ address_of c k.scheme k.public_key_bytes)
      × (m.public_key ≡ flag k.scheme ∷ k.public_key_bytes)
      × (verify_signature c k.body_bytes k.signature_bytes k.public_key_bytes k.scheme ≡ ok tt)
      × (has_permission m.group_id m.sender_wallet_addr messaging_sender ≡ true)

  -- What was let through, and the request that the handler was given.
  admitted :
      r.method ≡ Method.post
      → post_messages c parse_body parse_request has_permission now_seconds ttl kp show_uuid bcs id
          now timestamp_ms r state
        ≡ (state', answered (ok response))
      → (k : Credentials) × (req : CreateMessageRequest) × (credentials c parse_body r ≡ ok k)
        × IsEntitled c has_permission now_seconds ttl messaging_sender k
        × (parse_request k.body_bytes ≡ some req)
        × (create_message c kp show_uuid bcs id now timestamp_ms (context_of c k) req state
            ≡ (state', ok response))
  unfolding post_messages required_permission
  admitted e h =
      elim (Result-cases (auth_middleware c parse_body has_permission now_seconds ttl r)) [
        | inr (x, a) ↦ absurd (ground arith)
        | inl (f, a) ↦
            elim ((auth_middleware_iff c parse_body has_permission now_seconds ttl r f).0 a) [
              | inl (q, u) ↦ absurd (ground arith)
              | inr (p, k, q, s, t, u) ↦ elim (Option-cases (parse_request k.body_bytes)) [
                | inl w ↦ absurd (ground arith)
                | inr (req, w) ↦
                    let own : p ≡ messaging_sender = ground arith in
                    (
                      k,
                      req,
                      s,
                      subst (λ x. IsEntitled c has_permission now_seconds ttl x k) own t,
                      w,
                      ground arith,
                    )
              ]
            ]
      ]

  -- If POST /messages answers with success, the message under the new identifier is one by the
  -- holder of a key who signed the body of the request and has the permission to send messages to the
  -- message's group; its sender is the address of that key. A body that both readers take (the one of
  -- the middleware and the one of the handler) must have one group and one sender, and an empty body
  -- must not be a request.
  pub post_messages-IsAuthored :
      Agree parse_body parse_request
      → r.method ≡ Method.post
      → post_messages c parse_body parse_request has_permission now_seconds ttl kp show_uuid bcs id
          now timestamp_ms r state
        ≡ (state', answered (ok response))
      → (k : Credentials) × (m : Message) × (credentials c parse_body r ≡ ok k)
        × (get_message id state'.storage ≡ ok m)
        × IsAuthored k m
  post_messages-IsAuthored (no_empty, agree) e h =
      let (k, req, s, t, w, made) = admitted e h in
      let (f, p, g', a', b') =
        credentials-claim c parse_body r k s (not_empty k.body_bytes no_empty w) in
      let (g, a) = agree k.body_bytes req f w p in
      elim (create_message-stores c kp show_uuid bcs id now timestamp_ms (context_of c k) req
        state) [
          | inl (x, bad, kept, still) ↦ absurd (ground arith)
          | inr (content, d, good, (found, others), n) ↦
              let dec =
                decode_content-ok c (context_of c k) req.group_id req.encrypted_text req.nonce
                  req.key_version req.message_signature req.attachments content d in
              let m =
                Message.set_order (order_after (lookup req.group_id state.storage.group_orders))
                  (message_of id now req content) in
              let at : get_message id state'.storage ≡ ok m =
                sym (
                  ap
                    (λ (x : AppState
                        × Result ApiError
                            (ProcessedDataResponse (IntentMessage CreateMessageResponse))).
                      get_message id x.0.storage)
                    made)
                ∙ found in
              let signed = t.signed in
              let permitted = t.permitted in
              (
                k,
                m,
                s,
                at,
                (
                  sym a ∙ sym a' ∙ t.own_address,
                  dec.7,
                  subst
                      (λ bytes.
                        verify_signature c bytes k.signature_bytes k.public_key_bytes k.scheme
                        ≡ ok tt)
                      b' signed,
                  ground arith,
                ),
              )
        ]
    where
      not_empty :
          {req : CreateMessageRequest} (b : Bytes)
          → parse_request [] ≡ none
          → parse_request b ≡ some req
          → is_empty b ≡ false
      not_empty [] n w = absurd (cc)
      not_empty (x ∷ b) n w = refl
