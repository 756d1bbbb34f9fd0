-- ===== src/Tests/Config.antt =====
-- Concrete environments (src/relayer/src/config.rs).
use nautilus_messaging_relay.Common.{
  String, String-discrete, Option, none, some, if◌then◌else◌, ◌==◌, string_eq, negsuc, ok, ◌≡◌, ◌↔◌,
  refl, arith,
}
use native.Mathlib.Decide.{ℕ_discrete}
use nautilus_messaging_relay.Common.Text.{show_nat, show_int, parse_unsigned}
use nautilus_messaging_relay.Config.{Config, StorageType, MembershipStoreType, default, from_env}
use nautilus_messaging_relay.Config.Reading.{
  Fits, Spells, from_env_of_Spells, from_env-default, from_env_iff,
}

abbrev loaded : Config
loaded = record {
  port = 8080;
  request_ttl_seconds = negsuc 4;
  storage_type = StorageType.in_memory;
  membership_store_type = MembershipStoreType.in_memory;
  sui_rpc_url = "http://sui";
  groups_package_id = "0x1";
  walrus_publisher_url = "http://p";
  walrus_aggregator_url = "http://a";
  walrus_storage_epochs = 7;
  walrus_sync_interval_secs = 60;
  walrus_sync_batch_size = 666;
  walrus_sync_message_threshold = 0;
}

-- The storage type is not set.
abbrev spelled : String → Option String
spelled name =
    if name == "PORT"
    then some "8080"
    else if name == "REQUEST_TTL_SECONDS"
    then some "-5"
    else if name == "SUI_RPC_URL"
    then some "http://sui"
    else if name == "GROUPS_PACKAGE_ID"
    then some "0x1"
    else if name == "WALRUS_PUBLISHER_URL"
    then some "http://p"
    else if name == "WALRUS_AGGREGATOR_URL"
    then some "http://a"
    else if name == "WALRUS_STORAGE_EPOCHS"
    then some "7"
    else if name == "WALRUS_SYNC_INTERVAL_SECS"
    then some "60"
    else if name == "WALRUS_SYNC_BATCH_SIZE"
    then some "666"
    else if name == "WALRUS_SYNC_MESSAGE_THRESHOLD"
    then some "0"
    else none

loaded-Fits : Fits loaded
loaded-Fits = record {
  port = omega arith;
  ttl_above = omega arith;
  ttl_below = omega arith;
  epochs = omega arith;
  interval = omega arith;
  batch = omega arith;
  threshold = omega arith;
}

spelled-Spells : Spells spelled loaded
unfolding String-discrete show_nat show_int ℕ_discrete
spelled-Spells = record {
  port = refl;
  ttl = refl;
  rpc = refl;
  package_id = refl;
  publisher = refl;
  aggregator = refl;
  epochs = refl;
  interval = refl;
  batch = refl;
  threshold = refl;
}

from_env_of_Spells_example : from_env (λ s. s) spelled ≡ ok loaded
from_env_of_Spells_example = from_env_of_Spells (λ s. s) spelled loaded loaded-Fits spelled-Spells

-- The port does not parse, and no other optional variable is set.
abbrev pub sparse : String → Option String
sparse name =
    if name == "PORT"
    then some "70000"
    else if name == "SUI_RPC_URL"
    then some "http://sui"
    else if name == "GROUPS_PACKAGE_ID"
    then some "0x1"
    else none

from_env-default_example :
    from_env (λ s. s) sparse
    ≡ ok (record default { sui_rpc_url = "http://sui"; groups_package_id = "0x1" })
unfolding String-discrete parse_unsigned ℕ_discrete
from_env-default_example =
    from_env-default (λ s. s) sparse "http://sui" "0x1" refl refl refl tt refl refl tt tt tt tt

from_env_iff_example :
    (((c : Config) × (from_env (λ s. s) sparse ≡ ok c)) ↔ (
      (rpc : String) × (package_id : String) × (sparse "SUI_RPC_URL" ≡ some rpc)
      × (sparse "GROUPS_PACKAGE_ID" ≡ some package_id)))
    × ((c : Config) → from_env (λ s. s) sparse ≡ ok c → Fits c)
from_env_iff_example = from_env_iff (λ s. s) sparse
