-- ===== src/Handlers/Confidentiality.antt =====
-- Who can read messages through the server (src/relayer/src/main.rs).
use nautilus_messaging_relay.Common.{
  ℤ, ℕ, String, Option, some, List, [], ◌∷◌, map, take, All, In-take, In-filter→, ==→eq, ◌==◌,
  nat_eq, string_eq, ok, ◌≡◌, refl, sym, ap, ◌∙◌, arith, inl, inr, Option-cases, Result-cases,
  Bool-cases,
}
use mathlib.Core.Path.{subst}
use nautilus_messaging_relay.Models.Message.{Uuid, Bytes, Message}
use nautilus_messaging_relay.Storage.Ascending.{All-of_In, In-sort_by_key}
use nautilus_messaging_relay.Storage.Memory.{messages_in_range, get_message, order_or_zero, values}
use nautilus_messaging_relay.Auth.Admission.{context_of, auth_middleware_iff}
use nautilus_messaging_relay.Auth.Crypto.{Crypto}
use nautilus_messaging_relay.Auth.Middleware.{
  Request, Method, get, post, put, delete, other, Credentials, required_permission,
}
use nautilus_messaging_relay.Auth.Permissions.{MessagingPermission, messaging_reader}
use nautilus_messaging_relay.Auth.Types.{AuthContext}
use nautilus_messaging_relay.Handlers.Delivery.{get_messages-IsPage}
use nautilus_messaging_relay.Handlers.Messages.{AppState, get_messages, authorized_for}
use nautilus_messaging_relay.Handlers.Outcomes.{authorized_for→eq}
use nautilus_messaging_relay.Handlers.Admittance.{Admitted}
use nautilus_messaging_relay.Handlers.Request.{GetMessagesQuery}
use nautilus_messaging_relay.Handlers.Response.{
  MessageResponse, GetMessagesResponse, single, list, message_response,
}
use nautilus_messaging_relay.Handlers.Server.{Answer, answered}
use nautilus_messaging_relay.Handlers.Routes.{
  Route, messages, message, enclave_health_route, get_attestation_route, health_check_route, logs,
  get_only, Env, middleware, no_handler, Reply, listed, authenticated, get_handler, messages_route,
  message_route, serve,
}

-- Every message of the answer is one of the group.
abbrev pub OfGroup : String → GetMessagesResponse → Type 0
OfGroup g (single m) = m.group_id ≡ g
OfGroup g (list l) = All (λ (m : MessageResponse). m.group_id ≡ g) l.messages

module _ (hex_encode : Bytes → String) where
  All-responses :
      (g : String) (ms : List Message)
      → All (λ (m : Message). m.group_id ≡ g) ms
      → All (λ (m : MessageResponse). m.group_id ≡ g) (map (message_response hex_encode) ms)
  unfolding message_response
  All-responses g [] a = tt
  All-responses g (m ∷ ms) (e, a) = (e, All-responses g ms a)

  response-group : (m : Message) → (message_response hex_encode m).group_id ≡ m.group_id
  unfolding message_response
  response-group m = refl

group-messages_in_range :
    (g : String) (a b : Option ℤ) (es : List (Uuid × Message)) (n : ℕ)
    → All (λ (m : Message). m.group_id ≡ g) (take n (messages_in_range g a b es))
unfolding messages_in_range
group-messages_in_range g a b es n = All-of_In (take n (messages_in_range g a b es)) (λ m i.
    let (i', r) = In-filter→ _ m _ ((In-sort_by_key order_or_zero m _).0 (In-take n m _ i)) in
    let (i'', same) = In-filter→ _ m (values es) i' in ==→eq m.group_id g same)

module _ (c : Crypto) (show_uuid : Uuid → String) where
  get_messages-OfGroup :
      (auth : AuthContext) (query : GetMessagesQuery) (state : AppState)
      (answer : GetMessagesResponse)
      → get_messages c show_uuid auth query state ≡ ok answer
      → (g : String) × (auth.authorized_group ≡ some g) × OfGroup g answer
  unfolding get_messages
  get_messages-OfGroup auth query state (list l) h =
      let (g, own, asked, (short, shown, more)) =
        get_messages-IsPage c show_uuid auth query state l h in
      (
        g,
        own,
        subst (All _) (sym shown) (
            All-responses c.hex_encode g _ (
              group-messages_in_range g query.after_order query.before_order state.storage.messages
                _)),
      )
  get_messages-OfGroup auth query state (single r) h = elim (Option-cases query.message_id) [
    | inl e ↦ elim (Option-cases query.group_id) [
      | inl f ↦ absurd (ground arith)
      | inr (g, f) ↦ elim (Bool-cases (authorized_for auth g)) [
        | inr a ↦ absurd (ground arith)
        | inl a ↦ absurd (ground arith)
      ]
    ]
    | inr (id, e) ↦ elim (Result-cases (get_message id state.storage)) [
      | inr (x, q) ↦ absurd (ground arith)
      | inl (m, q) ↦ elim (Bool-cases (authorized_for auth m.group_id)) [
        | inr b ↦ absurd (ground arith)
        | inl b ↦
            let shown : message_response c.hex_encode m ≡ r = ground arith in
            (
              m.group_id,
              authorized_for→eq auth m.group_id b,
              ap (λ (x : MessageResponse). x.group_id) (sym shown) ∙ response-group c.hex_encode m,
            )
      ]
    ]
  ]

listed-injective : {a b : Answer GetMessagesResponse} → listed a ≡ listed b → a ≡ b
listed-injective e = cc

module _ (env : Env) (r : Request) (state : AppState) (answer : GetMessagesResponse) where
  open env use {crypto, parse_body, has_permission, now_seconds, ttl}

  -- The request is one by a member of the group who may read its messages.
  abbrev pub ByReader : MessagingPermission → Credentials → Type 0
  ByReader p k = Admitted env r p k × OfGroup k.claim.group_id answer

  authenticated-listed :
      (query : Option GetMessagesQuery)
      → (authenticated env (get_handler env query) r state).1 ≡ answered (ok answer)
      → (p : MessagingPermission) × (k : Credentials) × ByReader p k
  unfolding authenticated
  authenticated-listed query h = elim (Result-cases (middleware env r)) [
    | inr (e, q) ↦ absurd (ground arith)
    | inl (f, q) ↦
        elim ((auth_middleware_iff crypto parse_body has_permission now_seconds ttl r f).0 q) [
          | inl (a, u) ↦ absurd (ground arith)
          | inr (p, k, a, s, t, u) ↦ elim (Option-cases query) [
            | inl e ↦ absurd (ground arith)
            | inr (asked, e) ↦
                let found : get_messages crypto env.show_uuid (context_of crypto k) asked state
                    ≡ ok answer =
                  ground arith in
                let (g, own, shown) =
                  get_messages-OfGroup crypto env.show_uuid (context_of crypto k) asked state answer
                    found in
                let same : g ≡ k.claim.group_id = ground arith in
                (p, k, ((a, s, t), subst (λ x. OfGroup x answer) same shown))
          ]
        ]
  ]

  no_handler_not_listed : {a : Answer GetMessagesResponse} → no_handler env r ≡ listed a → ⊥
  unfolding no_handler
  no_handler_not_listed h = elim (Result-cases (middleware env r)) [
    | inl (f, q) ↦ absurd (ground arith)
    | inr (x, q) ↦ absurd (ground arith)
  ]

  messages_route-listed :
      (query : Option GetMessagesQuery) (method : Method)
      → r.method ≡ method
      → (messages_route env query method r state).1 ≡ listed (answered (ok answer))
      → (k : Credentials) × ByReader messaging_reader k
  unfolding messages_route required_permission
  messages_route-listed query get e h =
      let (p, k, by) = authenticated-listed query (listed-injective h) in
      let own : p ≡ messaging_reader = ground arith in (k, subst (λ x. ByReader x k) own by)
  messages_route-listed query post e h = absurd (cc)
  messages_route-listed query put e h = absurd (cc)
  messages_route-listed query delete e h = absurd (no_handler_not_listed h)
  messages_route-listed query (other name) e h = elim (Bool-cases (name == "HEAD")) [
    | inl head ↦
        let (p, k, by) = authenticated-listed query (listed-injective (rw head at h)) in
        absurd (ground arith)
    | inr away ↦ absurd (no_handler_not_listed (rw away at h))
  ]

  message_route-listed :
      (message_id : Option Uuid) (method : Method) {a : Answer GetMessagesResponse}
      → (message_route env message_id method r state).1 ≡ listed a
      → ⊥
  unfolding message_route
  message_route-listed message_id delete h = cc
  message_route-listed message_id get h = no_handler_not_listed h
  message_route-listed message_id post h = no_handler_not_listed h
  message_route-listed message_id put h = no_handler_not_listed h
  message_route-listed message_id (other name) h = no_handler_not_listed h

  get_only_not_listed :
      (reply : Reply) (method : Method) {a : Answer GetMessagesResponse}
      → ((b : Answer GetMessagesResponse) → reply ≡ listed b → ⊥)
      → get_only env reply method ≡ listed a
      → ⊥
  get_only_not_listed reply get {a} n h = n a h
  get_only_not_listed reply post n h = cc
  get_only_not_listed reply put n h = cc
  get_only_not_listed reply delete n h = cc
  get_only_not_listed reply (other name) {a} n h = elim (Bool-cases (name == "HEAD")) [
    | inl head ↦ n a (rw head at h)
    | inr away ↦ absurd (cc (rw away at h))
  ]

  -- If the server answers a request with messages, the request has credentials that hold, their
  -- sender has the permission to read in the claimed group, and all messages of the answer are of
  -- this group.
  pub serve-listed :
      (route : Route)
      → (serve env route r state).1 ≡ listed (answered (ok answer))
      → (k : Credentials) × ByReader messaging_reader k
  unfolding serve
  serve-listed (messages query) h = messages_route-listed query r.method refl h
  serve-listed (message message_id) h = absurd (message_route-listed message_id r.method h)
  serve-listed enclave_health_route h = absurd (get_only_not_listed _ r.method (λ b e. cc) h)
  serve-listed get_attestation_route h = absurd (get_only_not_listed _ r.method (λ b e. cc) h)
  serve-listed health_check_route h = absurd (get_only_not_listed _ r.method (λ b e. cc) h)
  serve-listed (logs lines) h = absurd (get_only_not_listed _ r.method (λ b e. cc) h)
