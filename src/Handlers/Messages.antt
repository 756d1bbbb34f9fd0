-- ===== src/Handlers/Messages.antt =====
-- src/relayer/src/handlers/messages/handlers.rs: creating, reading, updating and deleting messages.
--
-- A handler takes the state and returns the state that it leaves with its response. The clock
-- (`now`, and `timestamp_ms` for the response), the new identifier and the texts of identifiers are
-- parameters. A handler is one step here, as its calls of the store see one store; what happens
-- between two of them is in Storage.Interleaving.
use nautilus_messaging_relay.Common.{
  ℕ, suc, String, Bool, not, none, some, map, ◌==◌, nat_eq, string_eq, ltb, take, min, Result, ok,
  err, ◌>>=◌, ◌>>◌, refuse_if, ok_or, map_err, length,
}
use nautilus_messaging_relay.Models.Message
use nautilus_messaging_relay.Models.Message.{Uuid, Bytes, DateTime, Attachment, Message}
use nautilus_messaging_relay.Storage.Memory
use nautilus_messaging_relay.Storage.Memory.{InMemoryStorage, get_message, get_messages_by_group}
use nautilus_messaging_relay.Auth.Crypto.{Crypto}
use nautilus_messaging_relay.Auth.Types.{AuthContext}
use nautilus_messaging_relay.Enclave.Signing.{
  IntentMessage, ProcessedDataResponse, KeyPair, to_signed_response, message_delivery,
}
use nautilus_messaging_relay.Handlers.Contents.{Content, decode_content}
use nautilus_messaging_relay.Handlers.Error.{ApiError, bad_request, forbidden, api_error}
use nautilus_messaging_relay.Handlers.Request.{
  CreateMessageRequest, UpdateMessageRequest, GetMessagesQuery,
}
use nautilus_messaging_relay.Handlers.Response.{
  CreateMessageResponse, EmptyResponse, GetMessagesResponse, single, list, message_response,
}

-- The parts of `AppState` that the handlers change: the store, and the number of notifications that
-- were sent to the synchronisation worker.
pub record AppState : Type 0 where
  pub storage : InMemoryStorage
  pub notified : ℕ

abbrev pub default_page_limit : ℕ
default_page_limit = 50

abbrev pub max_page_limit : ℕ
max_page_limit = 100

-- `auth.authorized_group.as_deref() == Some(group_id)`
abbrev pub authorized_for : AuthContext → String → Bool
authorized_for auth group_id = elim auth.authorized_group [
  | none ↦ Bool.false
  | some g ↦ g == group_id
]

-- The checks that `update_message` and `delete_message` make of the stored message alike.
abbrev pub check_owner : AuthContext → String → Message → Result ApiError (Unit {0})
check_owner auth refusal message = do
  refuse_if (not (authorized_for auth message.group_id))
      (forbidden "Message does not belong to the authorized group")
  refuse_if (not (message.sender_wallet_addr == auth.sender_address)) (forbidden refusal)

-- The message that `create_message` asks the store to keep.
abbrev pub message_of : Uuid → DateTime → CreateMessageRequest → Content → Message
message_of id now req k =
    Message.new id now req.group_id req.sender_address k.encrypted_msg k.nonce req.key_version
      k.attachments k.signature k.public_key

module _ (c : Crypto) (show_uuid : Uuid → String) where
  -- GET /messages
  unfoldable pub get_messages :
      AuthContext → GetMessagesQuery → AppState → Result ApiError GetMessagesResponse
  get_messages auth query state = elim query.message_id [
    | some message_id ↦ do
      message ← map_err (api_error show_uuid) (get_message message_id state.storage)
      refuse_if (not (authorized_for auth message.group_id))
          (forbidden "Message does not belong to the authorized group")
      ok (single (message_response c.hex_encode message))
    | none ↦ do
      group_id ← ok_or (bad_request "Either message_id or group_id is required") query.group_id
      refuse_if (not (authorized_for auth group_id)) (forbidden "Not authorized for this group")
      let limit = min (elim query.limit [ none ↦ default_page_limit | some n ↦ n ]) max_page_limit
      messages ← map_err (api_error show_uuid) (
          get_messages_by_group group_id query.after_order query.before_order (suc limit)
            state.storage)
      ok (
          list (record {
            messages = map (message_response c.hex_encode) (take limit messages);
            has_next = ltb limit (length messages);
          }))
  ]

  -- Before the store is changed.
  unfoldable pub checked_update :
      AuthContext → UpdateMessageRequest → AppState → Result ApiError Content
  checked_update auth req state = do
    message ← map_err (api_error show_uuid) (get_message req.message_id state.storage)
    check_owner auth "Only the original sender can edit this message" message
    decode_content c auth req.group_id req.encrypted_text req.nonce req.key_version
        req.message_signature req.attachments

module _ (c : Crypto) (kp : KeyPair) (show_uuid : Uuid → String) where
  -- POST /messages, whose status is 201
  unfoldable pub create_message :
      (IntentMessage CreateMessageResponse → Bytes)
      → Uuid
      → DateTime
      → ℕ
      → AuthContext
      → CreateMessageRequest
      → AppState
      → AppState × Result ApiError (ProcessedDataResponse (IntentMessage CreateMessageResponse))
  create_message bcs id now timestamp_ms auth req state =
      elim (decode_content c auth req.group_id req.encrypted_text req.nonce req.key_version
        req.message_signature req.attachments) [
          | err e ↦ (state, err e)
          | ok k ↦
              let (storage, result) =
                Memory.create_message (message_of id now req k) state.storage in
              elim result [
                | err e ↦ (record state { storage = storage }, err (api_error show_uuid e))
                | ok created ↦ (
                  record state { storage = storage; notified = suc state.notified },
                  ok (
                      to_signed_response bcs kp (record { message_id = created.id }) timestamp_ms
                        message_delivery),
                )
              ]
        ]

  -- PUT /messages
  unfoldable pub update_message :
      (IntentMessage EmptyResponse → Bytes)
      → DateTime
      → ℕ
      → AuthContext
      → UpdateMessageRequest
      → AppState
      → AppState × Result ApiError (ProcessedDataResponse (IntentMessage EmptyResponse))
  update_message bcs now timestamp_ms auth req state =
      elim (checked_update c show_uuid auth req state) [
        | err e ↦ (state, err e)
        | ok k ↦
            let (storage, result) =
              Memory.update_message now req.message_id k.encrypted_msg k.nonce req.key_version
                k.attachments k.signature k.public_key state.storage in
            (
              record state { storage = storage },
              elim result [
                | err e ↦ err (api_error show_uuid e)
                | ok _ ↦ ok (to_signed_response bcs kp (record {}) timestamp_ms message_delivery)
              ],
            )
      ]

module _ (show_uuid : Uuid → String) where
  unfoldable pub checked_delete : AuthContext → Uuid → AppState → Result ApiError (Unit {0})
  checked_delete auth message_id state = do
    message ← map_err (api_error show_uuid) (get_message message_id state.storage)
    check_owner auth "Only the original sender can delete this message" message

  -- DELETE /messages/:message_id
  unfoldable pub delete_message :
      DateTime → AuthContext → Uuid → AppState → AppState × Result ApiError EmptyResponse
  delete_message now auth message_id state = elim (checked_delete auth message_id state) [
    | err e ↦ (state, err e)
    | ok _ ↦
        let (storage, result) = Memory.delete_message now message_id state.storage in
        (
          record state { storage = storage },
          elim result [ err e ↦ err (api_error show_uuid e) | ok _ ↦ ok (record {}) ],
        )
  ]
