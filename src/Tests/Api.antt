-- ===== src/Tests/Api.antt =====
-- Concrete runs of the handlers (src/relayer/src/handlers/messages/handlers.rs).
use nautilus_messaging_relay.Common.{
  pos, ◌≡◌, refl, none, some, String, [], ◌∷◌, ok, err, ◌⊎◌, nat_eq, string_eq, bytes_eq, ℕ,
  String-discrete, true,
}
use native.Mathlib.Decide.{ℕ_discrete}
use nautilus_messaging_relay.Common.Map.{lookup, set_insert, set_remove}
use nautilus_messaging_relay.Common.Text.{as_bytes}
use nautilus_messaging_relay.Models.Message
use nautilus_messaging_relay.Models.Message.{Bytes, Message, Attachment}
use nautilus_messaging_relay.Storage.Memory
use nautilus_messaging_relay.Storage.Memory.{order_after, messages_in_range, get_messages_by_group}
use nautilus_messaging_relay.Storage.Sorting.{sort_by_key}
use nautilus_messaging_relay.Storage.Creation.{Untouched, Added}
use nautilus_messaging_relay.Storage.Invariant.{Stored}
use nautilus_messaging_relay.Storage.Writing.{written}
use nautilus_messaging_relay.Auth.Schemes.{flag, ed25519, public_key_length}
use nautilus_messaging_relay.Auth.Signature.{verify_signature}
use nautilus_messaging_relay.Enclave.Signing.{KeyPair, to_signed_response, message_delivery}
use nautilus_messaging_relay.Handlers.Error.{ApiError}
use nautilus_messaging_relay.Handlers.Request.{
  CreateMessageRequest, UpdateMessageRequest, GetMessagesQuery, AttachmentRequest,
  try_into_attachment,
}
use nautilus_messaging_relay.Handlers.Response.{MessagesListResponse, list}
use nautilus_messaging_relay.Handlers.Contents.{
  Content, decode_content, decode_attachments, verify_message_signature,
}
use nautilus_messaging_relay.Handlers.Messages.{
  AppState, message_of, create_message, update_message, delete_message, get_messages,
}
use nautilus_messaging_relay.Handlers.Decoding.{IsDecoded, decode_content-ok}
use nautilus_messaging_relay.Handlers.Outcomes.{
  Owns, update_message-outcome, delete_message-outcome,
}
use nautilus_messaging_relay.Handlers.Delivery.{create_message-stores, get_messages-IsPage, IsPage}
use nautilus_messaging_relay.Tests.Access.{crypto, ann, signature_text, key}

abbrev pub nonce_text : String
nonce_text = "abcdefghijkl"

abbrev pub key_pair : KeyPair
key_pair = record { sign = λ b. b; public_key_bytes = []; hex_encode = λ b. "h" }

abbrev pub show_uuid : ℕ → String
show_uuid id = "id"

abbrev pub posted : CreateMessageRequest
posted = record {
  group_id = "team";
  encrypted_text = "text";
  nonce = nonce_text;
  key_version = pos 1;
  sender_address = "0xa";
  message_signature = signature_text;
  attachments = [];
}

abbrev pub content : Content
content = record {
  encrypted_msg = as_bytes "text";
  nonce = as_bytes nonce_text;
  attachments = [];
  signature = as_bytes signature_text;
  public_key = flag ed25519 ∷ key;
}

abbrev picture_request : AttachmentRequest
picture_request = record {
  storage_id = "blob";
  nonce = nonce_text;
  encrypted_metadata = "picture";
  metadata_nonce = nonce_text;
}

abbrev picture : Attachment
picture = record {
  storage_id = "blob";
  nonce = as_bytes nonce_text;
  encrypted_metadata = as_bytes "picture";
  metadata_nonce = as_bytes nonce_text;
}

abbrev illustrated : Content
illustrated = record content { attachments = picture ∷ [] }

illustrated_decoded :
    decode_content crypto ann "team" "text" nonce_text (pos 1) signature_text (picture_request ∷ [])
    ≡ ok illustrated
unfolding decode_content verify_message_signature verify_signature decode_attachments as_bytes
    ℕ_discrete public_key_length try_into_attachment
illustrated_decoded = refl

decode_content-ok_example :
    IsDecoded crypto ann "team" "text" nonce_text (pos 1) (picture_request ∷ []) illustrated
decode_content-ok_example =
    decode_content-ok crypto ann "team" "text" nonce_text (pos 1) signature_text
      (picture_request ∷ []) illustrated illustrated_decoded

abbrev pub empty : AppState
empty = record { storage = Memory.new; notified = 0 }

abbrev pub stored : Message
stored = Message.set_order (pos 1) (message_of 1 100 posted content)

abbrev pub filled : AppState
filled = record {
  storage = record {
    messages = (1, stored) ∷ [];
    group_orders = ("team", pos 1) ∷ [];
    nonces = as_bytes nonce_text ∷ [];
  };
  notified = 1;
}

create_message-stores_example :
    ((e : ApiError) × ((create_message crypto key_pair show_uuid
          (λ m. [])
          1
          100
          5
          ann
          posted
          empty).1
        ≡ err e)
      × Untouched empty.storage
          (create_message crypto key_pair show_uuid (λ m. []) 1 100 5 ann posted empty).0.storage
      × ((create_message crypto key_pair show_uuid (λ m. []) 1 100 5 ann posted empty).0.notified
          ≡ 0))
    ⊎ ((k : Content) × (decode_content crypto ann "team" "text" nonce_text (pos 1) signature_text []
          ≡ ok k)
        × ((create_message crypto key_pair show_uuid (λ m. []) 1 100 5 ann posted empty).1
            ≡ ok (
                to_signed_response
                  (λ m. [])
                  key_pair
                  (record { message_id = 1 })
                  5
                  message_delivery))
        × Added empty.storage
            (Message.set_order
              (order_after (lookup "team" empty.storage.group_orders))
              (message_of 1 100 posted k))
            (create_message crypto key_pair show_uuid (λ m. []) 1 100 5 ann posted empty).0.storage
        × ((create_message crypto key_pair show_uuid (λ m. []) 1 100 5 ann posted empty).0.notified
            ≡ 1))
create_message-stores_example =
    create_message-stores crypto key_pair show_uuid (λ m. []) 1 100 5 ann posted empty

delete_message-outcome_example :
    ((e : ApiError) × (delete_message show_uuid 200 ann 1 filled ≡ (filled, err e)))
    ⊎ ((m : Message) × Stored filled.storage 1 m
        × Owns ann m
        × (delete_message show_uuid 200 ann 1 filled ≡ (
          record filled {
            storage =
                written filled.storage 1 (Message.mark_for_deletion 200 m) filled.storage.nonces;
          },
          ok (record {}),
        )))
delete_message-outcome_example = delete_message-outcome show_uuid 200 ann 1 filled

abbrev put : UpdateMessageRequest
put = record {
  message_id = 1;
  group_id = "team";
  sender_address = "0xa";
  encrypted_text = "text";
  nonce = nonce_text;
  key_version = pos 2;
  message_signature = signature_text;
  attachments = [];
}

update_message-outcome_example :
    ((e : ApiError) × (update_message crypto key_pair show_uuid (λ m. []) 200 5 ann put filled
        ≡ (filled, err e)))
    ⊎ ((m : Message) × (k : Content) × Stored filled.storage 1 m
        × Owns ann m
        × (decode_content crypto ann "team" "text" nonce_text (pos 2) signature_text [] ≡ ok k)
        × (update_message crypto key_pair show_uuid (λ m. []) 200 5 ann put filled ≡ (
          record filled {
            storage =
                written filled.storage 1
                  (Message.update_content 200 k.encrypted_msg k.nonce
                    (pos 2)
                    k.attachments
                    k.signature
                    k.public_key
                    m)
                  (set_insert k.nonce (set_remove m.nonce filled.storage.nonces));
          },
          ok (to_signed_response (λ m. []) key_pair (record {}) 5 message_delivery),
        )))
update_message-outcome_example =
    update_message-outcome crypto key_pair show_uuid (λ m. []) 200 5 ann put filled

abbrev query : GetMessagesQuery
query = record {
  message_id = none;
  group_id = some "team";
  after_order = none;
  before_order = none;
  limit = some 0;
}

abbrev page : MessagesListResponse
page = record { messages = []; has_next = true }

page_got : get_messages crypto show_uuid ann query filled ≡ ok (list page)
unfolding get_messages get_messages_by_group messages_in_range sort_by_key String-discrete
page_got = refl

get_messages-IsPage_example :
    (g : String) × (ann.authorized_group ≡ some g)
    × (query.group_id ≡ some g)
    × IsPage crypto show_uuid query (messages_in_range g none none filled.storage.messages) page
get_messages-IsPage_example = get_messages-IsPage crypto show_uuid ann query filled page page_got
