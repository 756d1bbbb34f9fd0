-- ===== src/Config.antt =====
-- src/relayer/src/config.rs: the configuration read from the environment, and the backends that it
-- selects (src/relayer/src/storage/mod.rs, src/relayer/src/auth/membership.rs).
--
-- `env::var(name).ok()` is a parameter: a variable that is not set, or is no Unicode text, is `none`.
-- `str::to_lowercase` is one too. A failed `expect` is an error with its message.
pub mod Ranges
pub mod Reading
use nautilus_messaging_relay.Common.{
  ℤ, pos, ℕ, String, Option, none, some, if◌then◌else◌, ◌==◌, string_eq, min, Result, ok, err,
  ◌>>=◌,
}
use nautilus_messaging_relay.Common.Text.{parse_unsigned, parse_i64}
use nautilus_messaging_relay.Storage.Memory
use nautilus_messaging_relay.Storage.Memory.{InMemoryStorage}
use nautilus_messaging_relay.Auth.Membership
use nautilus_messaging_relay.Auth.Membership.{InMemoryMembershipStore}

pub data StorageType : Type 0 where
  in_memory : StorageType

pub data MembershipStoreType : Type 0 where
  in_memory : MembershipStoreType

unfoldable pub create_storage : StorageType → InMemoryStorage
create_storage in_memory = Memory.new

unfoldable pub create_membership_store : MembershipStoreType → InMemoryMembershipStore
create_membership_store in_memory = Membership.new

pub record Config : Type 0 where
  pub port : ℕ
  pub request_ttl_seconds : ℤ
  pub storage_type : StorageType
  pub membership_store_type : MembershipStoreType
  pub sui_rpc_url : String
  pub groups_package_id : String
  pub walrus_publisher_url : String
  pub walrus_aggregator_url : String
  pub walrus_storage_epochs : ℕ
  pub walrus_sync_interval_secs : ℕ
  pub walrus_sync_batch_size : ℕ
  pub walrus_sync_message_threshold : ℕ

abbrev pub default_walrus_publisher_url : String
default_walrus_publisher_url = "https://publisher.walrus-testnet.walrus.space"

abbrev pub default_walrus_aggregator_url : String
default_walrus_aggregator_url = "https://aggregator.walrus-testnet.walrus.space"

unfoldable pub default : Config
default = record {
  port = 3000;
  request_ttl_seconds = pos 900;
  storage_type = StorageType.in_memory;
  membership_store_type = MembershipStoreType.in_memory;
  sui_rpc_url = "";
  groups_package_id = "";
  walrus_publisher_url = default_walrus_publisher_url;
  walrus_aggregator_url = default_walrus_aggregator_url;
  walrus_storage_epochs = 5;
  walrus_sync_interval_secs = 3600;
  walrus_sync_batch_size = 100;
  walrus_sync_message_threshold = 50;
}

-- `ok().and_then(|v| v.parse().ok()).unwrap_or(fallback)`
unfoldable pub parsed_or {ℓ} : {A : Type ℓ} → (String → Option A) → A → Option String → A
parsed_or parse fallback none = fallback
parsed_or parse fallback (some v) = elim (parse v) [ none ↦ fallback | some a ↦ a ]

-- `unwrap_or_else(|_| fallback)`
unfoldable pub or_else : String → Option String → String
or_else fallback none = fallback
or_else fallback (some v) = v

unfoldable pub expect : String → Option String → Result String String
expect message none = err message
expect message (some v) = ok v

module _ (to_lowercase : String → String) (env : String → Option String) where
  abbrev pub storage_type_of : Option String → StorageType
  storage_type_of v =
      if to_lowercase (or_else "memory" v) == "memory"
      then StorageType.in_memory
      else StorageType.in_memory

  abbrev pub membership_store_type_of : Option String → MembershipStoreType
  membership_store_type_of v =
      if to_lowercase (or_else "memory" v) == "memory"
      then MembershipStoreType.in_memory
      else MembershipStoreType.in_memory

  -- The configuration with the two required texts
  unfoldable pub config_with : (sui_rpc_url groups_package_id : String) → Config
  unfolding parsed_or or_else
  config_with sui_rpc_url groups_package_id = record {
    port = parsed_or (parse_unsigned 16) 3000 (env "PORT");
    request_ttl_seconds = parsed_or parse_i64 (pos 900) (env "REQUEST_TTL_SECONDS");
    storage_type = storage_type_of (env "STORAGE_TYPE");
    membership_store_type = membership_store_type_of (env "MEMBERSHIP_STORE_TYPE");
    sui_rpc_url = sui_rpc_url;
    groups_package_id = groups_package_id;
    walrus_publisher_url = or_else default_walrus_publisher_url (env "WALRUS_PUBLISHER_URL");
    walrus_aggregator_url = or_else default_walrus_aggregator_url (env "WALRUS_AGGREGATOR_URL");
    walrus_storage_epochs = parsed_or (parse_unsigned 32) 5 (env "WALRUS_STORAGE_EPOCHS");
    walrus_sync_interval_secs =
        parsed_or (parse_unsigned 64) 3600 (env "WALRUS_SYNC_INTERVAL_SECS");
    walrus_sync_batch_size =
        min (parsed_or (parse_unsigned 64) 100 (env "WALRUS_SYNC_BATCH_SIZE")) 666;
    walrus_sync_message_threshold =
        parsed_or (parse_unsigned 64) 50 (env "WALRUS_SYNC_MESSAGE_THRESHOLD");
  }

  unfoldable pub from_env : Result String Config
  unfolding config_with expect
  from_env = do
    sui_rpc_url ← expect "SUI_RPC_URL environment variable is required" (env "SUI_RPC_URL")
    groups_package_id ←
        expect "GROUPS_PACKAGE_ID environment variable is required" (env "GROUPS_PACKAGE_ID")
    ok (config_with sui_rpc_url groups_package_id)
