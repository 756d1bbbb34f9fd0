-- ===== src/Handlers/Outcomes.antt =====
-- What the handlers of src/relayer/src/handlers/messages/handlers.rs answer and leave.
use nautilus_messaging_relay.Common.{
  ℕ, String, ◌≡◌, refl, true, some, nat_eq, string_eq, bytes_eq, ok, err, Result-cases, Bool-cases,
  Option-cases, arith, ◌⊎◌, inl, inr,
}
use mathlib.Core.Path.{subst}
use nautilus_messaging_relay.Common.Map.{lookup, set_insert, set_remove}
use nautilus_messaging_relay.Models.Message
use nautilus_messaging_relay.Models.Message.{Uuid, Bytes, DateTime, Message}
use nautilus_messaging_relay.Storage.Adapter.{StorageError, duplicate_nonce}
use nautilus_messaging_relay.Storage.Memory.{get_message}
use nautilus_messaging_relay.Storage.Invariant.{Stored, Stored_unique}
use nautilus_messaging_relay.Storage.Outcomes.{update_message-cases, delete_message-cases}
use nautilus_messaging_relay.Storage.Writing.{written}
use nautilus_messaging_relay.Auth.Crypto.{Crypto}
use nautilus_messaging_relay.Auth.Types.{AuthContext}
use nautilus_messaging_relay.Enclave.Signing.{
  IntentMessage, KeyPair, to_signed_response, message_delivery,
}
use nautilus_messaging_relay.Handlers.Error.{ApiError, api_error}
use nautilus_messaging_relay.Handlers.Request.{UpdateMessageRequest}
use nautilus_messaging_relay.Handlers.Response.{EmptyResponse}
use nautilus_messaging_relay.Handlers.Contents.{Content, decode_content}
use nautilus_messaging_relay.Handlers.Messages.{
  AppState, authorized_for, check_owner, checked_update, checked_delete, update_message,
  delete_message,
}

-- The caller sent the message, in the group that the middleware authorized.
abbrev pub Owns : AuthContext → Message → Type 0
Owns auth m =
    (auth.authorized_group ≡ some m.group_id) × (m.sender_wallet_addr ≡ auth.sender_address)

pub authorized_for→eq :
    (auth : AuthContext) (g : String)
    → authorized_for auth g ≡ true
    → auth.authorized_group ≡ some g
authorized_for→eq auth g h = elim (Option-cases auth.authorized_group) [
  | inl e ↦ ground arith
  | inr (g', e) ↦ ground arith
]

check_owner-Owns :
    (auth : AuthContext) (refusal : String) (m : Message)
    → check_owner auth refusal m ≡ ok tt
    → Owns auth m
check_owner-Owns auth refusal m h = elim (Bool-cases (authorized_for auth m.group_id)) [
  | inl a ↦ (authorized_for→eq auth m.group_id a, ground arith)
  | inr a ↦ absurd (ground arith)
]

-- Deleting through the API: either the state is left as it was and the answer is an error, or the
-- caller is the sender of the stored message in the authorized group, the message is marked for
-- deletion, and nothing else is changed.
pub delete_message-outcome :
    (show_uuid : Uuid → String) (now : DateTime) (auth : AuthContext) (id : Uuid) (state : AppState)
    → ((e : ApiError) × (delete_message show_uuid now auth id state ≡ (state, err e)))
      ⊎ ((m : Message) × Stored state.storage id m
          × Owns auth m
          × (delete_message show_uuid now auth id state ≡ (
            record state {
              storage =
                  written state.storage id (Message.mark_for_deletion now m) state.storage.nonces;
            },
            ok (record {}),
          )))
unfolding delete_message checked_delete get_message
delete_message-outcome show_uuid now auth id state =
    elim (delete_message-cases now id state.storage) [
      | inl (e, p) ↦ inl (api_error show_uuid (StorageError.not_found id), ground arith)
      | inr (m, e, p) ↦
          elim (Result-cases
            (check_owner auth "Only the original sender can delete this message" m)) [
              | inl (_, q) ↦ inr (m, e, check_owner-Owns auth _ m q, ground arith)
              | inr (x, q) ↦ inl (x, ground arith)
            ]
    ]

module _ (c : Crypto) (kp : KeyPair) (show_uuid : Uuid → String) where
  -- Updating through the API: either the state is left as it was and the answer is an error, or the
  -- caller is the sender of the stored message in the authorized group, the new content decodes with
  -- the caller's signature, the message has the new content, and nothing else but the set of nonces
  -- is changed.
  pub update_message-outcome :
      (bcs : IntentMessage EmptyResponse → Bytes) (now : DateTime) (timestamp_ms : ℕ)
      (auth : AuthContext) (req : UpdateMessageRequest) (state : AppState)
      → ((e : ApiError) × (update_message c kp show_uuid bcs now timestamp_ms auth req state
            ≡ (state, err e)))
        ⊎ ((m : Message) × (k : Content) × Stored state.storage req.message_id m
            × Owns auth m
            × (decode_content c auth req.group_id req.encrypted_text req.nonce req.key_version
                  req.message_signature req.attachments
                ≡ ok k)
            × (update_message c kp show_uuid bcs now timestamp_ms auth req state ≡ (
              record state {
                storage =
                    written state.storage req.message_id
                      (Message.update_content now k.encrypted_msg k.nonce req.key_version
                        k.attachments k.signature k.public_key m)
                      (set_insert k.nonce (set_remove m.nonce state.storage.nonces));
              },
              ok (to_signed_response bcs kp (record {}) timestamp_ms message_delivery),
            )))
  unfolding update_message checked_update get_message
  update_message-outcome bcs now timestamp_ms auth req state =
      elim (Option-cases (lookup req.message_id state.storage.messages)) [
        | inl e ↦ inl (api_error show_uuid (StorageError.not_found req.message_id), ground arith)
        | inr (m, e) ↦
            elim (Result-cases
              (check_owner auth "Only the original sender can edit this message" m)) [
                | inr (x, q) ↦ inl (x, ground arith)
                | inl (_, q) ↦
                    elim (Result-cases (
                      decode_content c auth req.group_id req.encrypted_text req.nonce
                        req.key_version req.message_signature req.attachments)) [
                          | inr (x, d) ↦ inl (x, ground arith)
                          | inl (k, d) ↦
                              elim (update_message-cases now req.message_id k.encrypted_msg k.nonce
                                req.key_version k.attachments k.signature k.public_key
                                state.storage) [
                                  | inl (e', p) ↦ absurd (ground arith)
                                  | inr (m', e', inl (used, p)) ↦
                                      inl (api_error show_uuid duplicate_nonce, ground arith)
                                  | inr (m', e', inr (free, p)) ↦ inr (
                                    m',
                                    k,
                                    e',
                                    subst (Owns auth)
                                        (Stored_unique state.storage req.message_id req.message_id m
                                          m' refl e e')
                                        (check_owner-Owns auth _ m q),
                                    d,
                                    ground arith,
                                  )
                                ]
                        ]
              ]
      ]
