-- ===== src/Tests/Logs.antt =====
-- A concrete run of the log buffer (src/relayer/src/enclave.rs and src/relayer/src/main.rs).
use nautilus_messaging_relay.Common.{
  ◌≡◌, String, List, [], ◌∷◌, none, length, arith, drop, map, refl, String-discrete,
}
use nautilus_messaging_relay.Enclave.LogBuffer.{new, get_logs, push}
use nautilus_messaging_relay.Enclave.LogLayer.{
  Event, info, warn, debug_field, str_field, on_event, record_event, record_debug, record_str,
  padded,
}
use nautilus_messaging_relay.Enclave.Shown.{line_of, on_events, get_logs-on_events}

abbrev started : Event
started = record {
  level = info;
  target = "relayer";
  fields = debug_field "message" "started" ∷ debug_field "port" "3000" ∷ str_field "host" "h" ∷ [];
}

abbrev failed : Event
failed = record { level = warn; target = "relayer"; fields = debug_field "code" "1" ∷ [] }

abbrev events : List (String × Event)
events = ("t0", failed) ∷ ("t1", failed) ∷ ("t2", started) ∷ []

on_events_lem :
    (on_events events (new 2)).lines
    ≡ "t1  WARN relayer code=1" ∷ "t2  INFO relayer started port=3000 host=h" ∷ []
unfolding on_event push record_event record_debug record_str padded String-discrete
on_events_lem = refl

get_logs-on_events_example :
    get_logs none (on_events events (new 2))
    ≡ record { lines = drop 1 (map line_of events); count = length (drop 1 (map line_of events)) }
get_logs-on_events_example = get_logs-on_events 2 none events (omega arith)
