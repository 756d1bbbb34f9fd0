-- ===== src/Handlers/Error.antt =====
-- src/relayer/src/handlers/messages/error.rs: the errors of the API and their statuses.
use nautilus_messaging_relay.Common.{ℕ, String}
use nautilus_messaging_relay.Common.Text.{◌+s◌}
use nautilus_messaging_relay.Models.Message.{Uuid}
use nautilus_messaging_relay.Storage.Adapter.{
  StorageError, group_not_found, duplicate_id, duplicate_nonce, operation_failed,
}

pub data ApiError : Type 0 where
  not_found bad_request conflict internal unauthorized forbidden : String → ApiError

-- `IntoResponse for ApiError`: the status and the text of the body
unfoldable pub into_response : ApiError → ℕ × String
into_response (not_found msg) = (404, msg)
into_response (bad_request msg) = (400, msg)
into_response (conflict msg) = (409, msg)
into_response (internal msg) = (500, msg)
into_response (unauthorized msg) = (401, msg)
into_response (forbidden msg) = (403, msg)

-- `From<StorageError> for ApiError`, over the text of an identifier (the crate `uuid`)
unfoldable pub api_error : (Uuid → String) → StorageError → ApiError
api_error show_uuid (StorageError.not_found id) =
    ApiError.not_found ("Message not found: " +s show_uuid id)
api_error show_uuid (group_not_found id) = ApiError.not_found ("Group not found: " +s id)
api_error show_uuid (duplicate_id id) = conflict ("Duplicate message ID: " +s show_uuid id)
api_error show_uuid duplicate_nonce =
    conflict "Duplicate nonce: a message with this nonce already exists"
api_error show_uuid (operation_failed msg) = internal msg
