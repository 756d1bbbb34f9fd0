-- ===== src/Handlers/Admittance.antt =====
-- What the middleware guards on the routes of the server (src/relayer/src/main.rs).
use nautilus_messaging_relay.Common.{
  Option, some, nat_eq, string_eq, bytes_eq, ok, ◌≡◌, ◌⊎◌, refl, ap, inl, inr, Result-cases,
}
use nautilus_messaging_relay.Models.Message.{Uuid, Bytes, Message}
use nautilus_messaging_relay.Storage.Invariant.{Stored}
use nautilus_messaging_relay.Auth.Admission.{IsEntitled, context_of, auth_middleware_iff}
use nautilus_messaging_relay.Auth.Middleware.{
  Request, Forwarded, Credentials, credentials, required_permission,
}
use nautilus_messaging_relay.Auth.Permissions.{
  MessagingPermission, messaging_editor, messaging_deleter,
}
use nautilus_messaging_relay.Auth.Types.{AuthContext}
use nautilus_messaging_relay.Handlers.Messages.{AppState}
use nautilus_messaging_relay.Handlers.Server.{Answer}
use nautilus_messaging_relay.Handlers.Routes.{Env, middleware, authenticated}

module _ (env : Env) (r : Request) where
  open env use {crypto, parse_body, has_permission, now_seconds, ttl}

  -- The credentials of the request hold, and their sender has the permission for the method.
  abbrev pub Admitted : MessagingPermission → Credentials → Type 0
  Admitted p k =
      (required_permission r.method ≡ some p)
      × (credentials crypto parse_body r ≡ ok k)
      × IsEntitled crypto has_permission now_seconds ttl p k

  -- The credentials are those of the sender of the message, in its group, with the permission to edit
  -- or to delete.
  abbrev pub ByOwner : MessagingPermission → Credentials → Message → Type 0
  ByOwner p k m =
      (k.claim.group_id ≡ m.group_id)
      × (k.claim.sender_address ≡ m.sender_wallet_addr)
      × ((p ≡ messaging_editor) ⊎ (p ≡ messaging_deleter))

  -- Every stored message is stored still, or the request is by its owner.
  abbrev pub Changes : MessagingPermission → Credentials → AppState → AppState → Type 0
  Changes p k state state' =
      (id : Uuid) (m : Message)
      → Stored state.storage id m
      → Stored state'.storage id m ⊎ ByOwner p k m

  -- The state is as it was, or the request was admitted.
  abbrev pub Guarded : AppState → AppState → Type 0
  Guarded state state' =
      (state' ≡ state)
      ⊎ ((p : MessagingPermission) × (k : Credentials) × Admitted p k × Changes p k state state')

  authenticated-cases :
      {A : Type 0} (handler : AuthContext → Option Bytes → AppState → AppState × Answer A)
      (state : AppState)
      → ((authenticated env handler r state).0 ≡ state)
        ⊎ ((p : MessagingPermission) × (k : Credentials) × Admitted p k
            × (authenticated env handler r state
                ≡ handler (context_of crypto k) (some k.body_bytes) state))
  unfolding authenticated
  authenticated-cases handler state = elim (Result-cases (middleware env r)) [
    | inr (e, q) ↦ inl (rw (authenticated, q) refl)
    | inl (f, q) ↦
        elim ((auth_middleware_iff crypto parse_body has_permission now_seconds ttl r f).0 q) [
          | inl (a, u) ↦ inl (rw (authenticated, q, u) refl)
          | inr (p, k, a, s, t, u) ↦ inr (
            p,
            k,
            (a, s, t),
            rw (authenticated, q, u)
                (ap (λ (f : Forwarded). handler (context_of crypto k) f.body state) u),
          )
        ]
  ]

  -- Where a handler keeps the messages that are not the caller's own, the request is guarded.
  pub authenticated-Guarded :
      {A : Type 0} (handler : AuthContext → Option Bytes → AppState → AppState × Answer A)
      (state : AppState)
      → ((p : MessagingPermission) (k : Credentials)
          → required_permission r.method ≡ some p
          → Changes p k state (handler (context_of crypto k) (some k.body_bytes) state).0)
      → Guarded state (authenticated env handler r state).0
  authenticated-Guarded handler state change = elim (authenticated-cases handler state) [
    | inl e ↦ inl e
    | inr (p, k, admitted, e) ↦ inr (p, k, admitted, rw e (change p k admitted.0))
  ]
