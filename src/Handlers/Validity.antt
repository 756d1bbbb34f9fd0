-- ===== src/Handlers/Validity.antt =====
-- The routes of the server (src/relayer/src/main.rs) keep the store valid, and move its counters by one.
use nautilus_messaging_relay.Common.{
  ℤ, List, String, Option, none, some, string_eq, inl, inr, Option-cases, Result-cases, refl,
}
use nautilus_messaging_relay.Models.Message.{Uuid, Bytes, Message, Attachment}
use nautilus_messaging_relay.Storage.Invariant.{IsValid}
use nautilus_messaging_relay.Storage.Memory
use nautilus_messaging_relay.Storage.Memory.{InMemoryStorage}
use nautilus_messaging_relay.Storage.Ordering.{HasRoom}
use nautilus_messaging_relay.Storage.Preservation.{
  create_message-IsValid, update_message-IsValid, delete_message-IsValid,
}
use nautilus_messaging_relay.Auth.Middleware.{Request}
use nautilus_messaging_relay.Auth.Types.{AuthContext}
use nautilus_messaging_relay.Handlers.Contents.{decode_content}
use nautilus_messaging_relay.Handlers.Messages.{
  AppState, message_of, create_message, checked_update, update_message, checked_delete,
  delete_message,
}
use nautilus_messaging_relay.Handlers.Ownership.{post_handler}
use nautilus_messaging_relay.Handlers.Routes.{Route, Env, put_handler, delete_handler, serve}
use nautilus_messaging_relay.Handlers.Serving.{serve_inv}
use nautilus_messaging_relay.Storage.Counters.{
  Advances, create_message-Advances, update_message-orders, delete_message-orders,
}

-- No counter of a group has reached its limit.
abbrev pub Roomy : InMemoryStorage → Type 0
Roomy s = (g : String) → HasRoom s g

module _ (env : Env) (r : Request) (state : AppState) where
  open env use {crypto, show_uuid, key_pair, now, timestamp_ms}

  -- What holds of the state, and of the store behind the change that a handler makes, holds behind the handler.
  module _ (Q : InMemoryStorage → Type 0) (q : Q state.storage) where
    post_handler_inv :
        ((m : Message) → Q (Memory.create_message m state.storage).0)
        → (auth : AuthContext) (body : Option Bytes)
        → Q (post_handler env r auth body state).0.storage
    unfolding create_message
    post_handler_inv keep auth none = q
    post_handler_inv keep auth (some b) = elim (Option-cases (env.parse_create b)) [
      | inl e ↦ rw (post_handler, e) q
      | inr (req, e) ↦
          elim (Result-cases (
            decode_content crypto auth req.group_id req.encrypted_text req.nonce req.key_version
              req.message_signature req.attachments)) [
                | inr (x, d) ↦ rw (post_handler, e, create_message, d) q
                | inl (content, d) ↦
                    let made = message_of env.id now req content in
                    elim (Result-cases (Memory.create_message made state.storage).1) [
                      | inl (m, w) ↦ rw (post_handler, e, create_message, d, w) (keep made)
                      | inr (x, w) ↦ rw (post_handler, e, create_message, d, w) (keep made)
                    ]
              ]
    ]

    put_handler_inv :
        ((id : Uuid) (em n : Bytes) (kv : ℤ) (ats : List Attachment) (sg pk : Bytes)
          → Q (Memory.update_message now id em n kv ats sg pk state.storage).0)
        → (auth : AuthContext) (body : Option Bytes) → Q (put_handler env auth body state).0.storage
    unfolding update_message
    put_handler_inv keep auth none = q
    put_handler_inv keep auth (some b) = elim (Option-cases (env.parse_update b)) [
      | inl e ↦ rw (put_handler, e) q
      | inr (req, e) ↦ elim (Result-cases (checked_update crypto show_uuid auth req state)) [
        | inr (x, d) ↦ rw (put_handler, e, update_message, d) q
        | inl (k, d) ↦
            rw (put_handler, e, update_message, d)
              (keep req.message_id k.encrypted_msg k.nonce req.key_version k.attachments k.signature
                k.public_key)
      ]
    ]

    delete_handler_inv :
        ((id : Uuid) → Q (Memory.delete_message now id state.storage).0)
        → (message_id : Option Uuid) (auth : AuthContext) (body : Option Bytes)
        → Q (delete_handler env message_id auth body state).0.storage
    unfolding delete_message
    delete_handler_inv keep none auth body = q
    delete_handler_inv keep (some id) auth body =
        elim (Result-cases (checked_delete show_uuid auth id state)) [
          | inr (x, d) ↦ rw (delete_handler, delete_message, d) q
          | inl (_, d) ↦ rw (delete_handler, delete_message, d) (keep id)
        ]

  -- Whatever the request, it leaves the store valid, while no counter has reached its limit.
  pub serve-IsValid :
      (route : Route)
      → IsValid state.storage
      → Roomy state.storage
      → IsValid (serve env route r state).0.storage
  serve-IsValid route v room =
      serve_inv env r state (λ s. IsValid s.storage) v
        (post_handler_inv IsValid v
          (λ m. create_message-IsValid state.storage m v (room m.group_id)))
        (put_handler_inv IsValid v
          (λ id em n kv ats sg pk. update_message-IsValid state.storage now id em n kv ats sg pk v))
        (delete_handler_inv IsValid v (λ id. delete_message-IsValid state.storage now id v)) route

  -- Whatever the request, at most one counter moves, by one.
  pub serve-Advances : (route : Route) → Advances state.storage (serve env route r state).0.storage
  serve-Advances route =
      serve_inv env r state (λ s. Advances state.storage s.storage) (inl refl)
        (post_handler_inv (Advances state.storage) (inl refl)
          (λ m. create_message-Advances m state.storage))
        (put_handler_inv (Advances state.storage) (inl refl) (λ id em n kv ats sg pk.
          inl (update_message-orders now id em n kv ats sg pk state.storage)))
        (delete_handler_inv (Advances state.storage) (inl refl)
          (λ id. inl (delete_message-orders now id state.storage)))
        route
