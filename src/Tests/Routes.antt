-- ===== src/Tests/Routes.antt =====
-- Concrete requests to the server's routes (src/relayer/src/main.rs).
use nautilus_messaging_relay.Common.{
  pos, ◌≡◌, refl, none, some, [], ok, nat_eq, string_eq, bytes_eq, true, String-discrete, wrap_i64,
  abs_i64,
}
use native.Mathlib.Decide.{ℕ_discrete}
use nautilus_messaging_relay.Common.Map.{lookup}
use nautilus_messaging_relay.Common.Text.{as_bytes, trim}
use nautilus_messaging_relay.Storage.Memory.{get_message}
use nautilus_messaging_relay.Auth.Middleware.{
  Request, Method, Credentials, credentials, authorize, auth_middleware, scheme_of_key,
  claim_of_body,
}
use nautilus_messaging_relay.Auth.Permissions.{messaging_reader}
use nautilus_messaging_relay.Auth.Schemes.{from_flag, public_key_length}
use nautilus_messaging_relay.Auth.Signature.{
  validate_timestamp, verify_signature, derive_sui_address, verify_address_matches_pubkey,
}
use nautilus_messaging_relay.Enclave.LogBuffer
use nautilus_messaging_relay.Handlers.Messages.{get_messages}
use nautilus_messaging_relay.Handlers.Response.{GetMessagesResponse, single, message_response}
use nautilus_messaging_relay.Handlers.Routes.{Env, Route, listed, serve}
use nautilus_messaging_relay.Handlers.Server.{answered}
use nautilus_messaging_relay.Handlers.Ownership.{serve-Guarded}
use nautilus_messaging_relay.Handlers.Admittance.{Guarded}
use nautilus_messaging_relay.Handlers.Confidentiality.{ByReader, serve-listed}
use nautilus_messaging_relay.Tests.Access
use nautilus_messaging_relay.Tests.Access.{crypto, parse_body}
use nautilus_messaging_relay.Tests.Api.{key_pair, show_uuid, filled, stored}
use nautilus_messaging_relay.Tests.Server.{parse_request}

abbrev pub env : Env
env = record {
  crypto = crypto;
  parse_body = parse_body;
  parse_create = parse_request;
  parse_update = λ b. none;
  has_permission = λ g a p. true;
  now_seconds = pos 1001;
  ttl = pos 900;
  key_pair = key_pair;
  show_uuid = show_uuid;
  encode_created = λ m. [];
  encode_empty = λ m. [];
  attest = λ a b. ok "document";
  logs = LogBuffer.new 1000;
  id = 2;
  now = 200;
  timestamp_ms = 5;
}

abbrev by_id : Route
by_id = Route.messages (
    some (record {
      message_id = some 1;
      group_id = none;
      after_order = none;
      before_order = none;
      limit = none;
    }))

abbrev reading : Request
reading = record Access.posted { method = Method.get }

abbrev deletion : Request
deletion = record Access.posted { method = Method.delete }

serve-Guarded_example :
    Guarded env deletion filled (serve env (Route.message (some 1)) deletion filled).0
serve-Guarded_example = serve-Guarded env deletion (Route.message (some 1)) filled

abbrev shown : GetMessagesResponse
shown = single (message_response crypto.hex_encode stored)

read : (serve env by_id reading filled).1 ≡ listed (answered (ok shown))
unfolding serve auth_middleware credentials String-discrete scheme_of_key as_bytes trim ℕ_discrete
    from_flag public_key_length claim_of_body authorize validate_timestamp wrap_i64 abs_i64
    verify_signature verify_address_matches_pubkey derive_sui_address get_messages get_message
    lookup
read = refl

serve-listed_example : (k : Credentials) × ByReader env reading filled shown messaging_reader k
serve-listed_example = serve-listed env reading filled shown by_id read
