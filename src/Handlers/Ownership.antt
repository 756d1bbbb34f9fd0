-- ===== src/Handlers/Ownership.antt =====
-- Who can change a stored message through the server (src/relayer/src/main.rs).
use nautilus_messaging_relay.Common.{
  String, Option, none, some, List, ◌==◌, nat_eq, string_eq, bytes_eq, ◌≡◌, ◌⊎◌, refl, sym, ap, ◌∙◌,
  arith, inl, inr, Option-cases, Result-cases, Bool-cases,
}
use native.Mathlib.Decide.{ℕ_discrete}
use nautilus_messaging_relay.Common.Map.{set_insert, set_remove}
use nautilus_messaging_relay.Models.Message.{Uuid, Bytes, Message, set_order}
use nautilus_messaging_relay.Storage.Invariant.{Stored, Stored_unique}
use nautilus_messaging_relay.Storage.Memory
use nautilus_messaging_relay.Storage.Memory.{InMemoryStorage, next_order}
use nautilus_messaging_relay.Storage.Outcomes.{insert_message-cases}
use nautilus_messaging_relay.Storage.Writing.{Stored_other, written}
use nautilus_messaging_relay.Auth.Admission.{context_of}
use nautilus_messaging_relay.Auth.Middleware.{
  Request, Method, get, post, put, delete, other, Credentials, required_permission,
}
use nautilus_messaging_relay.Auth.Permissions.{
  MessagingPermission, messaging_editor, messaging_deleter,
}
use nautilus_messaging_relay.Auth.Types.{AuthContext}
use nautilus_messaging_relay.Handlers.Contents.{decode_content}
use nautilus_messaging_relay.Handlers.Messages.{AppState, message_of, create_message}
use nautilus_messaging_relay.Handlers.Outcomes.{
  Owns, update_message-outcome, delete_message-outcome,
}
use nautilus_messaging_relay.Handlers.Request.{GetMessagesQuery}
use nautilus_messaging_relay.Enclave.Signing.{IntentMessage, ProcessedDataResponse}
use nautilus_messaging_relay.Handlers.Response.{CreateMessageResponse}
use nautilus_messaging_relay.Handlers.Server.{Answer, not_extracted, answered, post_messages}
use nautilus_messaging_relay.Handlers.Routes.{
  Route, messages, message, enclave_health_route, get_attestation_route, health_check_route, logs,
  Env, middleware, authenticated, get_handler, put_handler, delete_handler, messages_route,
  message_route, serve,
}
use nautilus_messaging_relay.Handlers.Admittance.{Changes, Guarded, authenticated-Guarded}

-- Each message of the one store is in the other.
abbrev Keeps : InMemoryStorage → InMemoryStorage → Type 0
Keeps s s' = (id : Uuid) (m : Message) → Stored s id m → Stored s' id m

create_message-Keeps : (m : Message) (s : InMemoryStorage) → Keeps s (Memory.create_message m s).0
unfolding Memory.create_message next_order
create_message-Keeps m s id w st =
    let (s1, order) = next_order m.group_id s in
    let m1 = set_order order m in
    elim (insert_message-cases m1 s1) [
      | inl (old, at, e) ↦ rw e st
      | inr (inl (absent, used, e)) ↦ rw e st
      | inr (inr (absent, fresh, e)) ↦ rw e (
          Stored_other s1 m1.id m1 (set_insert m1.nonce s1.nonces) id w (λ p. absurd (ground arith))
            st)
    ]

some-injective : {a b : String} → some a ≡ some b → a ≡ b
some-injective e = cc

module _ (env : Env) (r : Request) where
  open env use {crypto, parse_body, has_permission, now_seconds, ttl}

  abbrev pub post_handler :
      AuthContext
      → Option Bytes
      → AppState
      → AppState × Answer (ProcessedDataResponse (IntentMessage CreateMessageResponse))
  post_handler auth body state = elim body [
    | none ↦ (state, not_extracted)
    | some b ↦ elim (env.parse_create b) [
      | none ↦ (state, not_extracted)
      | some req ↦
          let (state', result) =
            create_message crypto env.key_pair env.show_uuid env.encode_created env.id env.now
              env.timestamp_ms auth req state in
          (state', answered result)
    ]
  ]

  pub post_messages-authenticated :
      (state : AppState)
      → post_messages crypto parse_body env.parse_create has_permission now_seconds ttl env.key_pair
          env.show_uuid env.encode_created env.id env.now env.timestamp_ms r state
        ≡ authenticated env post_handler r state
  unfolding post_messages authenticated
  post_messages-authenticated state = elim (Result-cases (middleware env r)) [
    | inr (e, q) ↦ rw (authenticated, post_messages, q) refl
    | inl (f, q) ↦ rw (authenticated, post_messages, q) refl
  ]

  post_handler-Changes :
      (p : MessagingPermission) (k : Credentials) (auth : AuthContext) (body : Option Bytes)
      (state : AppState)
      → Changes env r p k state (post_handler auth body state).0
  unfolding create_message
  post_handler-Changes p k auth none state id m st = inl st
  post_handler-Changes p k auth (some b) state id m st = elim (Option-cases (env.parse_create b)) [
    | inl e ↦ inl (rw (post_handler, e) st)
    | inr (req, e) ↦
        elim (Result-cases (
          decode_content crypto auth req.group_id req.encrypted_text req.nonce req.key_version
            req.message_signature req.attachments)) [
              | inr (x, d) ↦ inl (rw (post_handler, e, create_message, d) st)
              | inl (content, d) ↦
                  let made = message_of env.id env.now req content in
                  let kept = create_message-Keeps made state.storage id m st in
                  elim (Result-cases (Memory.create_message made state.storage).1) [
                    | inl (c, w) ↦ inl (rw (post_handler, e, create_message, d, w) kept)
                    | inr (x, w) ↦ inl (rw (post_handler, e, create_message, d, w) kept)
                  ]
            ]
  ]

  -- The one message that is written is the caller's.
  written-Changes :
      (p : MessagingPermission) (k : Credentials) (state : AppState) (key : Uuid) (m m' : Message)
      (ns : List Bytes)
      → ((p ≡ messaging_editor) ⊎ (p ≡ messaging_deleter))
      → Stored state.storage key m
      → Owns (context_of crypto k) m
      → Changes env r p k state (record state { storage = written state.storage key m' ns })
  written-Changes p k state key m m' ns may st (group, sender) id w at = elim (ℕ_discrete id key) [
    | no apart ↦ inl (Stored_other state.storage key m' ns id w apart at)
    | yes same ↦
        let e = Stored_unique state.storage key id m w (sym same) st at in
        inr (
          some-injective group ∙ ap (λ (x : Message). x.group_id) e,
          sym sender ∙ ap (λ (x : Message). x.sender_wallet_addr) e,
          may,
        )
  ]

  put_handler-Changes :
      (p : MessagingPermission) (k : Credentials) (body : Option Bytes) (state : AppState)
      → p ≡ messaging_editor
      → Changes env r p k state (put_handler env (context_of crypto k) body state).0
  put_handler-Changes p k none state own id m st = inl st
  put_handler-Changes p k (some b) state own id m st = elim (Option-cases (env.parse_update b)) [
    | inl e ↦ inl (rw (put_handler, e) st)
    | inr (req, e) ↦
        elim (update_message-outcome crypto env.key_pair env.show_uuid env.encode_empty env.now
          env.timestamp_ms (context_of crypto k) req state) [
            | inl (x, w) ↦ inl (rw (put_handler, e, w) st)
            | inr (old, content, at, owns, d, w) ↦
                rw (put_handler, e, w)
                  (written-Changes p k state req.message_id old _
                    (set_insert content.nonce (set_remove old.nonce state.storage.nonces)) (inl own)
                    at owns id m st)
          ]
  ]

  delete_handler-Changes :
      (p : MessagingPermission) (k : Credentials) (message_id : Option Uuid) (body : Option Bytes)
      (state : AppState)
      → p ≡ messaging_deleter
      → Changes env r p k state (delete_handler env message_id (context_of crypto k) body state).0
  delete_handler-Changes p k none body state own id m st = inl st
  delete_handler-Changes p k (some key) body state own id m st =
      elim (delete_message-outcome env.show_uuid env.now (context_of crypto k) key state) [
        | inl (x, w) ↦ inl (rw (delete_handler, w) st)
        | inr (old, at, owns, w) ↦
            rw (delete_handler, w)
              (written-Changes p k state key old _ state.storage.nonces (inr own) at owns id m st)
      ]

  get_handler-Guarded :
      (query : Option GetMessagesQuery) (state : AppState)
      → Guarded env r state (authenticated env (get_handler env query) r state).0
  get_handler-Guarded none state =
      authenticated-Guarded env r (get_handler env none) state (λ p k e id m st. inl st)
  get_handler-Guarded (some q) state =
      authenticated-Guarded env r (get_handler env (some q)) state (λ p k e id m st. inl st)

  messages_route-Guarded :
      (query : Option GetMessagesQuery) (method : Method) (state : AppState)
      → r.method ≡ method
      → Guarded env r state (messages_route env query method r state).0
  unfolding messages_route required_permission
  messages_route-Guarded query get state e = get_handler-Guarded query state
  messages_route-Guarded query post state e = rw (post_messages-authenticated state) (
      authenticated-Guarded env r post_handler state
        (λ p k h. post_handler-Changes p k (context_of crypto k) (some k.body_bytes) state))
  messages_route-Guarded query put state e =
      authenticated-Guarded env r (put_handler env) state
        (λ p k h. put_handler-Changes p k (some k.body_bytes) state (ground arith))
  messages_route-Guarded query delete state e = inl refl
  messages_route-Guarded query (other name) state e = elim (Bool-cases (name == "HEAD")) [
    | inl h ↦ rw h (get_handler-Guarded query state)
    | inr h ↦ rw h (inl refl)
  ]

  message_route-Guarded :
      (message_id : Option Uuid) (method : Method) (state : AppState)
      → r.method ≡ method
      → Guarded env r state (message_route env message_id method r state).0
  unfolding message_route required_permission
  message_route-Guarded message_id delete state e =
      authenticated-Guarded env r (delete_handler env message_id) state
        (λ p k h. delete_handler-Changes p k message_id (some k.body_bytes) state (ground arith))
  message_route-Guarded message_id get state e = inl refl
  message_route-Guarded message_id post state e = inl refl
  message_route-Guarded message_id put state e = inl refl
  message_route-Guarded message_id (other name) state e = inl refl

  -- A request to any route leaves the state of the server as it was, or else it was admitted: it has
  -- credentials that hold, and their sender has the permission for its method in the claimed group.
  -- Then every stored message is stored still, unless the message is of the claimed group and sender,
  -- and the permission is that to edit or to delete.
  pub serve-Guarded :
      (route : Route) (state : AppState) → Guarded env r state (serve env route r state).0
  unfolding serve
  serve-Guarded (messages query) state = messages_route-Guarded query r.method state refl
  serve-Guarded (message message_id) state = message_route-Guarded message_id r.method state refl
  serve-Guarded enclave_health_route state = inl refl
  serve-Guarded get_attestation_route state = inl refl
  serve-Guarded health_check_route state = inl refl
  serve-Guarded (logs lines) state = inl refl
