-- ===== src/Config/Reading.antt =====
-- What `Config::from_env` (src/relayer/src/config.rs) reads.
use nautilus_messaging_relay.Common.{
  pos, pos_part, neg_part, ℕ, ◌^◌, ◌≤◌, ◌<◌, min, String, Option, none, some, string_eq, ok, ◌≡◌,
  ◌↔◌, refl, sym, arith, Option-cases, inl, inr, ok-injective, nat_eq,
}
use mathlib.Core.Path.{subst}
use nautilus_messaging_relay.Common.Text.{show_nat, show_int, parse_unsigned, parse_i64}
use nautilus_messaging_relay.Common.Text.Decimal.{parse_unsigned-show_nat, parse_i64-show_int}
use nautilus_messaging_relay.Config.Ranges.{
  Unusable, parsed_or-Unusable, parsed_or-some, parsed_or-unsigned_lt, parsed_or-InI64,
}
use nautilus_messaging_relay.Config.{
  Config, StorageType, MembershipStoreType, default, or_else, expect, config_with, from_env,
  storage_type_of, membership_store_type_of,
}

-- The numbers of a configuration lie in the ranges of their types, and a batch holds at most 666 messages.
pub record Fits (c : Config) : Type 0 where
  pub port : c.port < 2 ^ 16
  pub ttl_above : pos_part c.request_ttl_seconds < 2 ^ 63
  pub ttl_below : neg_part c.request_ttl_seconds ≤ 2 ^ 63
  pub epochs : c.walrus_storage_epochs < 2 ^ 32
  pub interval : c.walrus_sync_interval_secs < 2 ^ 64
  pub batch : c.walrus_sync_batch_size ≤ 666
  pub threshold : c.walrus_sync_message_threshold < 2 ^ 64

-- The environment spells the configuration out: the texts as they are, and the numbers in decimal.
pub record Spells (env : String → Option String) (c : Config) : Type 0 where
  pub port : env "PORT" ≡ some (show_nat c.port)
  pub ttl : env "REQUEST_TTL_SECONDS" ≡ some (show_int c.request_ttl_seconds)
  pub rpc : env "SUI_RPC_URL" ≡ some c.sui_rpc_url
  pub package_id : env "GROUPS_PACKAGE_ID" ≡ some c.groups_package_id
  pub publisher : env "WALRUS_PUBLISHER_URL" ≡ some c.walrus_publisher_url
  pub aggregator : env "WALRUS_AGGREGATOR_URL" ≡ some c.walrus_aggregator_url
  pub epochs : env "WALRUS_STORAGE_EPOCHS" ≡ some (show_nat c.walrus_storage_epochs)
  pub interval : env "WALRUS_SYNC_INTERVAL_SECS" ≡ some (show_nat c.walrus_sync_interval_secs)
  pub batch : env "WALRUS_SYNC_BATCH_SIZE" ≡ some (show_nat c.walrus_sync_batch_size)
  pub threshold :
      env "WALRUS_SYNC_MESSAGE_THRESHOLD" ≡ some (show_nat c.walrus_sync_message_threshold)

storage_type_only : (t u : StorageType) → t ≡ u
storage_type_only StorageType.in_memory StorageType.in_memory = refl

membership_store_type_only : (t u : MembershipStoreType) → t ≡ u
membership_store_type_only MembershipStoreType.in_memory MembershipStoreType.in_memory = refl

min_of_le : (a b : ℕ) → a ≤ b → min a b ≡ a
min_of_le a b h = omega arith

module _ (to_lowercase : String → String) (env : String → Option String) where
  -- A configuration in the ranges of its types, with batches of at most 666 messages, is loaded from
  -- each environment that spells it out.
  pub from_env_of_Spells : (c : Config) → Fits c → Spells env c → from_env to_lowercase env ≡ ok c
  unfolding from_env config_with or_else expect
  from_env_of_Spells c f e =
      rw
        (
          e.rpc,
          e.package_id,
          e.port,
          e.ttl,
          e.publisher,
          e.aggregator,
          e.epochs,
          e.interval,
          e.batch,
          e.threshold,
          parsed_or-some (parse_unsigned 16) 3000 c.port (show_nat c.port)
              (parse_unsigned-show_nat 16 c.port f.port),
          parsed_or-some parse_i64 (pos 900) c.request_ttl_seconds (show_int c.request_ttl_seconds)
              (parse_i64-show_int c.request_ttl_seconds f.ttl_above f.ttl_below),
          parsed_or-some (parse_unsigned 32) 5 c.walrus_storage_epochs
              (show_nat c.walrus_storage_epochs)
              (parse_unsigned-show_nat 32 c.walrus_storage_epochs f.epochs),
          parsed_or-some (parse_unsigned 64) 3600 c.walrus_sync_interval_secs
              (show_nat c.walrus_sync_interval_secs)
              (parse_unsigned-show_nat 64 c.walrus_sync_interval_secs f.interval),
          parsed_or-some (parse_unsigned 64) 100 c.walrus_sync_batch_size
              (show_nat c.walrus_sync_batch_size)
              (parse_unsigned-show_nat 64 c.walrus_sync_batch_size (omega arith)),
          parsed_or-some (parse_unsigned 64) 50 c.walrus_sync_message_threshold
              (show_nat c.walrus_sync_message_threshold)
              (parse_unsigned-show_nat 64 c.walrus_sync_message_threshold f.threshold),
          min_of_le c.walrus_sync_batch_size 666 f.batch,
          storage_type_only (storage_type_of to_lowercase env (env "STORAGE_TYPE")) c.storage_type,
          membership_store_type_only
              (membership_store_type_of to_lowercase env (env "MEMBERSHIP_STORE_TYPE"))
              c.membership_store_type,
        )
        refl

  -- With the two required variables set, and every other one not set or, where it holds a number, with a text
  -- that does not parse, the default configuration is loaded but for the two.
  pub from_env-default :
      (rpc package_id : String)
      → env "SUI_RPC_URL" ≡ some rpc
      → env "GROUPS_PACKAGE_ID" ≡ some package_id
      → Unusable (parse_unsigned 16) (env "PORT")
      → Unusable parse_i64 (env "REQUEST_TTL_SECONDS")
      → env "WALRUS_PUBLISHER_URL" ≡ none
      → env "WALRUS_AGGREGATOR_URL" ≡ none
      → Unusable (parse_unsigned 32) (env "WALRUS_STORAGE_EPOCHS")
      → Unusable (parse_unsigned 64) (env "WALRUS_SYNC_INTERVAL_SECS")
      → Unusable (parse_unsigned 64) (env "WALRUS_SYNC_BATCH_SIZE")
      → Unusable (parse_unsigned 64) (env "WALRUS_SYNC_MESSAGE_THRESHOLD")
      → from_env to_lowercase env
        ≡ ok (record default { sui_rpc_url = rpc; groups_package_id = package_id })
  unfolding from_env config_with or_else expect default
  from_env-default rpc package_id r p port ttl publisher aggregator epochs interval batch
        threshold =
      rw
        (
          r,
          p,
          publisher,
          aggregator,
          parsed_or-Unusable (parse_unsigned 16) 3000 (env "PORT") port,
          parsed_or-Unusable parse_i64 (pos 900) (env "REQUEST_TTL_SECONDS") ttl,
          parsed_or-Unusable (parse_unsigned 32) 5 (env "WALRUS_STORAGE_EPOCHS") epochs,
          parsed_or-Unusable (parse_unsigned 64) 3600 (env "WALRUS_SYNC_INTERVAL_SECS") interval,
          parsed_or-Unusable (parse_unsigned 64) 100 (env "WALRUS_SYNC_BATCH_SIZE") batch,
          parsed_or-Unusable (parse_unsigned 64) 50 (env "WALRUS_SYNC_MESSAGE_THRESHOLD") threshold,
          storage_type_only (storage_type_of to_lowercase env (env "STORAGE_TYPE"))
              StorageType.in_memory,
          membership_store_type_only
              (membership_store_type_of to_lowercase env (env "MEMBERSHIP_STORE_TYPE"))
              MembershipStoreType.in_memory,
        )
        refl

  -- What the environment loads lies in the ranges of the types.
  config_with-Fits : (rpc package_id : String) → Fits (config_with to_lowercase env rpc package_id)
  unfolding config_with
  config_with-Fits rpc package_id =
      let (above, below) =
        parsed_or-InI64 (pos 900) (env "REQUEST_TTL_SECONDS") (omega arith, omega arith) in
      record {
        port = parsed_or-unsigned_lt 16 3000 (env "PORT") (omega arith);
        ttl_above = above;
        ttl_below = below;
        epochs = parsed_or-unsigned_lt 32 5 (env "WALRUS_STORAGE_EPOCHS") (omega arith);
        interval = parsed_or-unsigned_lt 64 3600 (env "WALRUS_SYNC_INTERVAL_SECS") (omega arith);
        batch = omega arith;
        threshold = parsed_or-unsigned_lt 64 50 (env "WALRUS_SYNC_MESSAGE_THRESHOLD") (omega arith);
      }

  loaded :
      (c : Config)
      → from_env to_lowercase env ≡ ok c
      → (rpc : String) × (package_id : String) × (env "SUI_RPC_URL" ≡ some rpc)
        × (env "GROUPS_PACKAGE_ID" ≡ some package_id)
        × (c ≡ config_with to_lowercase env rpc package_id)
  unfolding from_env expect
  loaded c h = elim (Option-cases (env "SUI_RPC_URL")) [
    | inl r ↦ absurd (ground arith)
    | inr (rpc, r) ↦ elim (Option-cases (env "GROUPS_PACKAGE_ID")) [
      | inl p ↦ absurd (ground arith)
      | inr (package_id, p) ↦ (rpc, package_id, r, p, sym (ok-injective (rw (r, p, expect) at h)))
    ]
  ]

  -- A configuration is loaded exactly if the two required variables are set; its numbers then lie in the
  -- ranges of their types, with batches of at most 666 messages.
  pub from_env_iff :
      (((c : Config) × (from_env to_lowercase env ≡ ok c)) ↔ (
        (rpc : String) × (package_id : String) × (env "SUI_RPC_URL" ≡ some rpc)
        × (env "GROUPS_PACKAGE_ID" ≡ some package_id)))
      × ((c : Config) → from_env to_lowercase env ≡ ok c → Fits c)
  unfolding from_env expect
  from_env_iff = (
    (
      (λ (c, h). let (rpc, package_id, r, p, e) = loaded c h in (rpc, package_id, r, p)),
      λ (rpc, package_id, r, p). (config_with to_lowercase env rpc package_id, rw (r, p) refl),
    ),
    λ c h.
        let (rpc, package_id, r, p, e) = loaded c h in
        subst Fits (sym e) (config_with-Fits rpc package_id),
  )
