-- ===== src/Storage/Adapter.antt =====
-- src/relayer/src/storage/adapter.rs: the errors and results of the storage backends.
use nautilus_messaging_relay.Common.{String, Result}
use nautilus_messaging_relay.Models.Message.{Uuid}

pub data StorageError : Type 0 where
  not_found : Uuid → StorageError
  group_not_found : String → StorageError
  duplicate_id : Uuid → StorageError
  duplicate_nonce : StorageError
  operation_failed : String → StorageError

abbrev pub StorageResult : Type 0 → Type 0
StorageResult A = Result StorageError A
