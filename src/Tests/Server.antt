-- ===== src/Tests/Server.antt =====
-- A concrete run of POST /messages (src/relayer/src/main.rs).
use nautilus_messaging_relay.Common.{
  pos, ◌≡◌, refl, none, some, Option, [], ◌∷◌, ok, arith, nat_eq, string_eq, bytes_eq,
  String-discrete, wrap_i64, abs_i64,
}
use native.Mathlib.Decide.{ℕ_discrete}
use nautilus_messaging_relay.Common.Map.{lookup, insert, contains, set_insert}
use nautilus_messaging_relay.Common.Text.{as_bytes, trim}
use nautilus_messaging_relay.Models.Message.{Bytes, Message}
use nautilus_messaging_relay.Storage.Memory
use nautilus_messaging_relay.Storage.Memory.{get_message}
use nautilus_messaging_relay.Auth.Middleware.{
  BodyAuthFields, Credentials, credentials, authorize, auth_middleware, scheme_of_key,
  claim_of_body,
}
use nautilus_messaging_relay.Auth.Schemes.{from_flag, public_key_length}
use nautilus_messaging_relay.Auth.Signature.{
  validate_timestamp, verify_signature, derive_sui_address, verify_address_matches_pubkey,
}
use nautilus_messaging_relay.Enclave.Signing.{
  IntentMessage, ProcessedDataResponse, to_signed_response, message_delivery,
}
use nautilus_messaging_relay.Handlers.Request.{CreateMessageRequest}
use nautilus_messaging_relay.Handlers.Response.{CreateMessageResponse}
use nautilus_messaging_relay.Handlers.Contents.{
  decode_content, verify_message_signature, decode_attachments,
}
use nautilus_messaging_relay.Handlers.Messages.{create_message}
use nautilus_messaging_relay.Handlers.Server.{answered, post_messages}
use nautilus_messaging_relay.Handlers.Authorship.{IsAuthored, post_messages-IsAuthored}
use nautilus_messaging_relay.Tests.Access
use nautilus_messaging_relay.Tests.Access.{crypto, parse_body, only_sender}
use nautilus_messaging_relay.Tests.Api
use nautilus_messaging_relay.Tests.Api.{key_pair, show_uuid, empty, filled}

abbrev pub parse_request : Bytes → Option CreateMessageRequest
parse_request [] = none
parse_request (x ∷ b) = some Api.posted

posted_fields :
    (b : Bytes) (req : CreateMessageRequest) (f : BodyAuthFields)
    → parse_request b ≡ some req
    → parse_body b ≡ ok f
    → (f.group_id ≡ req.group_id) × (f.sender_address ≡ req.sender_address)
posted_fields [] req f h k = absurd (cc)
posted_fields (x ∷ b) req f h k = (ground arith, ground arith)

abbrev response : ProcessedDataResponse (IntentMessage CreateMessageResponse)
response = record {
  response = record {
    intent = message_delivery;
    timestamp_ms = 5;
    payload = record { message_id = 1 };
  };
  signature = "h";
  enclave_public_key = "h";
}

run :
    post_messages crypto parse_body parse_request only_sender
      (pos 1001)
      (pos 900)
      key_pair
      show_uuid
      (λ m. [])
      1
      100
      5
      Access.posted
      empty
    ≡ (filled, answered (ok response))
unfolding post_messages auth_middleware credentials String-discrete scheme_of_key as_bytes trim
    ℕ_discrete from_flag public_key_length claim_of_body authorize validate_timestamp wrap_i64
    abs_i64 verify_signature verify_address_matches_pubkey derive_sui_address create_message
    decode_content verify_message_signature decode_attachments to_signed_response
    Memory.create_message lookup contains insert set_insert
run = refl

post_messages-IsAuthored_example :
    (k : Credentials) × (m : Message) × (credentials crypto parse_body Access.posted ≡ ok k)
    × (get_message 1 filled.storage ≡ ok m)
    × IsAuthored crypto parse_body parse_request only_sender
        (pos 1001)
        (pos 900)
        key_pair
        show_uuid
        (λ m. [])
        1
        100
        5
        Access.posted
        empty
        filled
        response
        k
        m
post_messages-IsAuthored_example =
    post_messages-IsAuthored crypto parse_body parse_request only_sender (pos 1001) (pos 900)
      key_pair show_uuid (λ m. []) 1 100 5 Access.posted empty filled response (refl, posted_fields)
      refl run
