-- ===== src/Handlers/Routes.antt =====
-- src/relayer/src/main.rs: all routes of the server, with the middleware before those for messages.
--
-- The matching of paths and methods, the extractors and the answer to a method that a route does not
-- have (which the middleware stands before, too) are those of the crate `axum`: a request comes with
-- the route that its path has, with what the extractors read off its path and query. `axum` gives a
-- HEAD request to the handler of GET. The cross-origin layer and the answer to
-- a path that has no route are not modelled.
use nautilus_messaging_relay.Common.{
  ℤ, ℕ, String, Bool, Option, none, some, if◌then◌else◌, ◌==◌, string_eq, Result, ok, err,
}
use nautilus_messaging_relay.Models.Message.{Uuid, Bytes, DateTime}
use nautilus_messaging_relay.Auth.Crypto.{Crypto}
use nautilus_messaging_relay.Auth.Middleware.{
  Request, Method, get, post, put, delete, other, BodyAuthFields, Rejection, auth_middleware,
  Forwarded,
}
use nautilus_messaging_relay.Auth.Permissions.{MessagingPermission}
use nautilus_messaging_relay.Auth.Types.{AuthContext}
use nautilus_messaging_relay.Enclave.Attestation.{
  EnclaveError, GetAttestationResponse, EnclaveHealthResponse, HealthCheckResponse, get_attestation,
  enclave_health, health_check,
}
use nautilus_messaging_relay.Enclave.LogBuffer.{LogBuffer, LogsResponse, get_logs}
use nautilus_messaging_relay.Enclave.Signing.{IntentMessage, ProcessedDataResponse, KeyPair}
use nautilus_messaging_relay.Handlers.Request.{
  CreateMessageRequest, UpdateMessageRequest, GetMessagesQuery,
}
use nautilus_messaging_relay.Handlers.Response.{
  CreateMessageResponse, EmptyResponse, GetMessagesResponse,
}
use nautilus_messaging_relay.Handlers.Messages.{
  AppState, get_messages, update_message, delete_message,
}
use nautilus_messaging_relay.Handlers.Server.{
  Answer, rejected, not_extracted, answered, post_messages,
}

-- The route that a request has; `none` is a path or query that an extractor cannot read.
pub data Route : Type 0 where
  messages : (query : Option GetMessagesQuery) → Route
  message : (message_id : Option Uuid) → Route
  enclave_health_route get_attestation_route health_check_route : Route
  logs : (lines : Option ℕ) → Route

pub data Reply : Type 0 where
  listed : Answer GetMessagesResponse → Reply
  created : Answer (ProcessedDataResponse (IntentMessage CreateMessageResponse)) → Reply
  updated : Answer (ProcessedDataResponse (IntentMessage EmptyResponse)) → Reply
  deleted : Answer EmptyResponse → Reply
  healthy : Result EnclaveError EnclaveHealthResponse → Reply
  attested : Result EnclaveError GetAttestationResponse → Reply
  checked : HealthCheckResponse → Reply
  logged : LogsResponse → Reply
  -- The route has no handler for the method, behind the middleware or not.
  method_refused : Rejection → Reply
  method_not_allowed : Reply

-- What the crates `serde_json` and `bcs`, the system and the clock give to the handlers.
pub record Env : Type 1 where
  pub crypto : Crypto
  pub parse_body : Bytes → Result String BodyAuthFields
  pub parse_create : Bytes → Option CreateMessageRequest
  pub parse_update : Bytes → Option UpdateMessageRequest
  pub has_permission : String → String → MessagingPermission → Bool
  pub now_seconds : ℤ
  pub ttl : ℤ
  pub key_pair : KeyPair
  pub show_uuid : Uuid → String
  pub encode_created : IntentMessage CreateMessageResponse → Bytes
  pub encode_empty : IntentMessage EmptyResponse → Bytes
  pub attest : Bytes → Bytes → Result String String
  pub logs : LogBuffer
  pub id : Uuid
  pub now : DateTime
  pub timestamp_ms : ℕ

module _ (env : Env) where
  abbrev pub middleware : Request → Result Rejection Forwarded
  middleware = auth_middleware env.crypto env.parse_body env.has_permission env.now_seconds env.ttl

  -- The middleware, and then a handler with the context that it needs.
  unfoldable pub authenticated :
      {A : Type 0}
      → (AuthContext → Option Bytes → AppState → AppState × Answer A)
      → Request
      → AppState
      → AppState × Answer A
  authenticated handler request state = elim (middleware request) [
    | err e ↦ (state, rejected e)
    | ok forwarded ↦ elim forwarded.context [
      | none ↦ (state, not_extracted)
      | some auth ↦ handler auth forwarded.body state
    ]
  ]

  abbrev pub get_handler :
      Option GetMessagesQuery
      → AuthContext
      → Option Bytes
      → AppState
      → AppState × Answer GetMessagesResponse
  get_handler query auth body state = elim query [
    | none ↦ (state, not_extracted)
    | some q ↦ (state, answered (get_messages env.crypto env.show_uuid auth q state))
  ]

  abbrev pub put_handler :
      AuthContext
      → Option Bytes
      → AppState
      → AppState × Answer (ProcessedDataResponse (IntentMessage EmptyResponse))
  put_handler auth none state = (state, not_extracted)
  put_handler auth (some body) state = elim (env.parse_update body) [
    | none ↦ (state, not_extracted)
    | some req ↦
        let (state', result) =
          update_message env.crypto env.key_pair env.show_uuid env.encode_empty env.now
            env.timestamp_ms auth req state in
        (state', answered result)
  ]

  abbrev pub delete_handler :
      Option Uuid → AuthContext → Option Bytes → AppState → AppState × Answer EmptyResponse
  delete_handler none auth body state = (state, not_extracted)
  delete_handler (some message_id) auth body state =
      let (state', result) = delete_message env.show_uuid env.now auth message_id state in
      (state', answered result)

  abbrev pub on_reply : {A : Type 0} → (Answer A → Reply) → AppState × Answer A → AppState × Reply
  on_reply f r = (r.0, f r.1)

  -- A route for messages that has no handler for the method.
  unfoldable pub no_handler : Request → Reply
  no_handler request = elim (middleware request) [
    | err e ↦ method_refused e
    | ok _ ↦ method_not_allowed
  ]

  unfoldable pub messages_route :
      Option GetMessagesQuery → Method → Request → AppState → AppState × Reply
  unfolding authenticated post_messages no_handler
  messages_route query get request state =
      on_reply listed (authenticated (get_handler query) request state)
  messages_route query post request state = on_reply created (
      post_messages env.crypto env.parse_body env.parse_create env.has_permission env.now_seconds
        env.ttl env.key_pair env.show_uuid env.encode_created env.id env.now env.timestamp_ms
        request state)
  messages_route query put request state =
      on_reply updated (authenticated put_handler request state)
  messages_route query delete request state = (state, no_handler request)
  messages_route query (other name) request state =
      if name == "HEAD"
      then on_reply listed (authenticated (get_handler query) request state)
      else (state, no_handler request)

  unfoldable pub message_route : Option Uuid → Method → Request → AppState → AppState × Reply
  unfolding authenticated no_handler
  message_route message_id delete request state =
      on_reply deleted (authenticated (delete_handler message_id) request state)
  message_route message_id get request state = (state, no_handler request)
  message_route message_id post request state = (state, no_handler request)
  message_route message_id put request state = (state, no_handler request)
  message_route message_id (other name) request state = (state, no_handler request)

  -- A route that only answers to GET, and to HEAD.
  abbrev pub get_only : Reply → Method → Reply
  get_only reply get = reply
  get_only reply (other name) = if name == "HEAD" then reply else method_not_allowed
  get_only reply post = method_not_allowed
  get_only reply put = method_not_allowed
  get_only reply delete = method_not_allowed

  unfoldable pub serve : Route → Request → AppState → AppState × Reply
  unfolding messages_route message_route get_logs enclave_health get_attestation
  serve (messages query) request state = messages_route query request.method request state
  serve (message message_id) request state = message_route message_id request.method request state
  serve enclave_health_route request state =
      (state, get_only (healthy (enclave_health env.key_pair)) request.method)
  serve get_attestation_route request state =
      (state, get_only (attested (get_attestation env.attest env.key_pair)) request.method)
  serve health_check_route request state = (state, get_only (checked health_check) request.method)
  serve (logs lines) request state =
      (state, get_only (logged (get_logs lines env.logs)) request.method)
