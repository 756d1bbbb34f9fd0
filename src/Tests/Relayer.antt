-- ===== src/Tests/Relayer.antt =====
-- A concrete run of the relayer (src/relayer/src/main.rs).
use nautilus_messaging_relay.Common.{
  arith, none, [], ◌∷◌, ok, true, ◌≡◌, refl, String-discrete, string_eq,
}
use native.Mathlib.Decide.{ℕ_discrete}
use nautilus_messaging_relay.Common.Text.{parse_unsigned}
use nautilus_messaging_relay.Config.{
  default, from_env, config_with, expect, or_else, parsed_or, create_storage,
  create_membership_store,
}
use nautilus_messaging_relay.Storage.Invariant.{IsValid}
use nautilus_messaging_relay.Storage.Memory
use nautilus_messaging_relay.Auth.Membership
use nautilus_messaging_relay.Handlers.Routes.{Route}
use nautilus_messaging_relay.Relayer.{Relayer, request, start, run}
use nautilus_messaging_relay.Relayer.Invariant.{run-start-IsValid}
use nautilus_messaging_relay.Tests.Access
use nautilus_messaging_relay.Tests.Config.{sparse}
use nautilus_messaging_relay.Tests.Routes.{env}

abbrev started : Relayer
started = record {
  config = record default { sui_rpc_url = "http://sui"; groups_package_id = "0x1" };
  app_state = record { storage = Memory.new; notified = 0 };
  sync_service = record { membership_store = Membership.new; last_cursor = none };
  message_count = 0;
  running = true;
}

started_lem : start (λ s. s) sparse ≡ ok started
unfolding start from_env config_with expect or_else parsed_or default create_storage
    create_membership_store String-discrete parse_unsigned ℕ_discrete
started_lem = refl

run-start-IsValid_example :
    IsValid (run (request env (Route.messages none) Access.posted ∷ []) started).app_state.storage
run-start-IsValid_example =
    run-start-IsValid (λ s. s) sparse started (request env (Route.messages none) Access.posted ∷ [])
      started_lem (omega arith)
