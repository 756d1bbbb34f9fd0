-- ===== src/Relayer.antt =====
-- The relayer as a whole: how src/relayer/src/main.rs starts the server and its two tasks, and what
-- these do to the state that they share.
--
-- One input is a request, a response of the checkpoint stream, or a wake-up of the Walrus worker, and
-- they come in any order. A wake-up may come at any time: the channel of notifications is not modelled.
pub mod Invariant
use nautilus_messaging_relay.Common.{
  ℕ, String, Bool, true, Option, none, List, [], ◌∷◌, Result, ok, err, ◌>>=◌,
}
use nautilus_messaging_relay.Common.Text.{codes}
use nautilus_messaging_relay.Models.Message.{Uuid, Bytes, DateTime, Message}
use nautilus_messaging_relay.Storage.Memory.{InMemoryStorage}
use nautilus_messaging_relay.Config.{Config, from_env, create_storage, create_membership_store}
use nautilus_messaging_relay.Auth.Membership
use nautilus_messaging_relay.Handlers.Messages.{AppState}
use nautilus_messaging_relay.Handlers.Routes.{Env, Route, serve}
use nautilus_messaging_relay.Auth.Middleware.{Request}
use nautilus_messaging_relay.Services.EventParser.{Decoder}
use nautilus_messaging_relay.Services.MembershipSync.{
  SyncState, CheckpointResponse, handle_response,
}
use nautilus_messaging_relay.Services.WalrusSync
use nautilus_messaging_relay.Services.WalrusSync.{Wake, service_batch_size, sync_cycle}
use nautilus_messaging_relay.Services.WalrusDelivery.{upload}
use nautilus_messaging_relay.Walrus.Client.{Http, WalrusClient}

pub record Relayer : Type 0 where
  pub config : Config
  pub app_state : AppState
  pub sync_service : SyncState
  -- the count of the Walrus worker, and whether its loop runs
  pub message_count : ℕ
  pub running : Bool

unfoldable pub start : (String → String) → (String → Option String) → Result String Relayer
start to_lowercase env = do
  config ← from_env to_lowercase env
  ok (record {
    config = config;
    app_state = record { storage = create_storage config.storage_type; notified = 0 };
    sync_service = record {
      membership_store = create_membership_store config.membership_store_type;
      last_cursor = none;
    };
    message_count = 0;
    running = true;
  })

-- What an upload takes from outside.
pub record Uploading : Type 1 where
  pub http : Http
  pub show_uuid : Uuid → String
  pub to_vec : Message → Result String Bytes
  pub now : Uuid → DateTime

-- The configuration's part of the environment of a request.
abbrev pub configured : Env → Relayer → Env
configured env r = record env {
  has_permission = λ g a p. Membership.has_permission g a p r.sync_service.membership_store;
  ttl = r.config.request_ttl_seconds;
}

abbrev pub walrus_client : Config → WalrusClient
walrus_client config = record {
  publisher_url = config.walrus_publisher_url;
  aggregator_url = config.walrus_aggregator_url;
}

abbrev pub cycle : Uploading → Config → InMemoryStorage → InMemoryStorage
cycle u config =
    let batch_size = service_batch_size config.walrus_sync_batch_size in
    sync_cycle u.show_uuid u.to_vec
      (upload u.http (walrus_client config) config.walrus_storage_epochs u.show_uuid u.to_vec u.now
        batch_size)
      u.now batch_size

pub data Input : Type 1 where
  request : Env → Route → Request → Input
  checkpoint : Decoder → CheckpointResponse → Input
  wake : Uploading → Wake → Input

unfoldable pub step : Input → Relayer → Relayer
unfolding serve handle_response WalrusSync.run
step (request env route req) r = record r {
  app_state = (serve (configured env r) route req r.app_state).0;
}
step (checkpoint decoder response) r = record r {
  sync_service = handle_response decoder (codes r.config.groups_package_id) response r.sync_service;
}
step (wake u w) r =
    let worker =
      WalrusSync.run (cycle u r.config) r.config.walrus_sync_message_threshold (w ∷ []) (record {
        storage = r.app_state.storage;
        message_count = r.message_count;
        running = r.running;
      }) in
    record r {
      app_state = record (r.app_state) { storage = worker.storage };
      message_count = worker.message_count;
      running = worker.running;
    }

unfoldable pub run : List Input → Relayer → Relayer
unfolding step
run [] r = r
run (input ∷ inputs) r = run inputs (step input r)
