-- ===== src/Handlers/Server.antt =====
-- The route POST /messages of src/relayer/src/main.rs: the middleware, the extractors and the handler.
use nautilus_messaging_relay.Common.{ℤ, ℕ, String, Bool, Option, none, some, Result, ok, err}
use nautilus_messaging_relay.Models.Message.{Uuid, Bytes, DateTime}
use nautilus_messaging_relay.Auth.Crypto.{Crypto}
use nautilus_messaging_relay.Auth.Middleware.{Request, BodyAuthFields, Rejection, auth_middleware}
use nautilus_messaging_relay.Auth.Permissions.{MessagingPermission}
use nautilus_messaging_relay.Enclave.Signing.{IntentMessage, ProcessedDataResponse, KeyPair}
use nautilus_messaging_relay.Handlers.Error.{ApiError}
use nautilus_messaging_relay.Handlers.Request.{CreateMessageRequest}
use nautilus_messaging_relay.Handlers.Response.{CreateMessageResponse}
use nautilus_messaging_relay.Handlers.Messages.{AppState, create_message}

-- The middleware rejects, an extractor of `axum` does (no context, or a body that is no request), or
-- the handler answers.
pub data Answer (A : Type 0) : Type 0 where
  rejected : Rejection → Answer A
  not_extracted : Answer A
  answered : Result ApiError A → Answer A

-- `parse_body` and `parse_request` are `serde_json` on the fields that the middleware reads, and on
-- the request of the handler.
module _ (c : Crypto) (parse_body : Bytes → Result String BodyAuthFields)
    (parse_request : Bytes → Option CreateMessageRequest)
    (has_permission : String → String → MessagingPermission → Bool) (now_seconds ttl : ℤ)
    (kp : KeyPair) (show_uuid : Uuid → String) (bcs : IntentMessage CreateMessageResponse → Bytes)
    (id : Uuid) (now : DateTime) (timestamp_ms : ℕ) where
  unfoldable pub post_messages :
      Request
      → AppState
      → AppState × Answer (ProcessedDataResponse (IntentMessage CreateMessageResponse))
  post_messages request state =
      elim (auth_middleware c parse_body has_permission now_seconds ttl request) [
        | err e ↦ (state, rejected e)
        | ok forwarded ↦ elim forwarded.context [
          | none ↦ (state, not_extracted)
          | some auth ↦ elim forwarded.body [
            | none ↦ (state, not_extracted)
            | some body ↦ elim (parse_request body) [
              | none ↦ (state, not_extracted)
              | some req ↦
                  let (state', result) =
                    create_message c kp show_uuid bcs id now timestamp_ms auth req state in
                  (state', answered result)
            ]
          ]
        ]
      ]
