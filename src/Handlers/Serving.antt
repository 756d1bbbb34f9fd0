-- ===== src/Handlers/Serving.antt =====
-- What every request keeps (src/relayer/src/main.rs), if the handlers that change the state keep it.
use nautilus_messaging_relay.Common.{
  Option, none, some, ◌==◌, string_eq, inl, inr, Option-cases, Result-cases, Bool-cases,
}
use nautilus_messaging_relay.Models.Message.{Uuid, Bytes}
use nautilus_messaging_relay.Auth.Middleware.{Request, Method, get, post, put, delete, other}
use nautilus_messaging_relay.Auth.Types.{AuthContext}
use nautilus_messaging_relay.Handlers.Messages.{AppState}
use nautilus_messaging_relay.Handlers.Ownership.{post_handler, post_messages-authenticated}
use nautilus_messaging_relay.Handlers.Request.{GetMessagesQuery}
use nautilus_messaging_relay.Handlers.Server.{Answer}
use nautilus_messaging_relay.Handlers.Routes.{
  Route, messages, message, enclave_health_route, get_attestation_route, health_check_route, logs,
  Env, middleware, authenticated, get_handler, put_handler, delete_handler, messages_route,
  message_route, serve,
}

module _ (env : Env) (r : Request) (state : AppState) (Q : AppState → Type 0) (q : Q state) where
  authenticated_inv :
      {A : Type 0} (handler : AuthContext → Option Bytes → AppState → AppState × Answer A)
      → ((auth : AuthContext) (body : Option Bytes) → Q (handler auth body state).0)
      → Q (authenticated env handler r state).0
  unfolding authenticated
  authenticated_inv handler keep = elim (Result-cases (middleware env r)) [
    | inr (e, m) ↦ rw (authenticated, m) q
    | inl (f, m) ↦ elim (Option-cases f.context) [
      | inl c ↦ rw (authenticated, m, c) q
      | inr (auth, c) ↦ rw (authenticated, m, c) (keep auth f.body)
    ]
  ]

  get_route_inv :
      (query : Option GetMessagesQuery) → Q (authenticated env (get_handler env query) r state).0
  get_route_inv none = authenticated_inv (get_handler env none) (λ auth body. q)
  get_route_inv (some asked) = authenticated_inv (get_handler env (some asked)) (λ auth body. q)

  module _
      (posts : (auth : AuthContext) (body : Option Bytes)
        → Q (post_handler env r auth body state).0)
      (puts : (auth : AuthContext) (body : Option Bytes) → Q (put_handler env auth body state).0)
      (deletes : (message_id : Option Uuid) (auth : AuthContext) (body : Option Bytes)
        → Q (delete_handler env message_id auth body state).0) where
    messages_route_inv :
        (query : Option GetMessagesQuery) (method : Method)
        → Q (messages_route env query method r state).0
    unfolding messages_route
    messages_route_inv query get = get_route_inv query
    messages_route_inv query post =
        rw (post_messages-authenticated env r state) (authenticated_inv (post_handler env r) posts)
    messages_route_inv query put = authenticated_inv (put_handler env) puts
    messages_route_inv query delete = q
    messages_route_inv query (other name) = elim (Bool-cases (name == "HEAD")) [
      | inl h ↦ rw h (get_route_inv query)
      | inr h ↦ rw h q
    ]

    message_route_inv :
        (message_id : Option Uuid) (method : Method)
        → Q (message_route env message_id method r state).0
    unfolding message_route
    message_route_inv message_id delete =
        authenticated_inv (delete_handler env message_id) (deletes message_id)
    message_route_inv message_id get = q
    message_route_inv message_id post = q
    message_route_inv message_id put = q
    message_route_inv message_id (other name) = q

    pub serve_inv : (route : Route) → Q (serve env route r state).0
    unfolding serve
    serve_inv (messages query) = messages_route_inv query r.method
    serve_inv (message message_id) = message_route_inv message_id r.method
    serve_inv enclave_health_route = q
    serve_inv get_attestation_route = q
    serve_inv health_check_route = q
    serve_inv (logs lines) = q
