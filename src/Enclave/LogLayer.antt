-- ===== src/Enclave/LogLayer.antt =====
-- src/relayer/src/main.rs: the layer that writes the events of the program into the log buffer.
use nautilus_messaging_relay.Common.{String, List, [], ◌∷◌, if◌then◌else◌, not, ◌==◌, string_eq}
use nautilus_messaging_relay.Common.Text.{◌+s◌}
use nautilus_messaging_relay.Enclave.LogBuffer.{LogBuffer, push}

-- A field of an event has its name, and its text: what Debug makes of its value, or a string as it is.
pub data Field : Type 0 where
  debug_field : String → String → Field
  str_field : String → String → Field

pub data Level : Type 0 where
  trace : Level
  debug : Level
  info : Level
  warn : Level
  error : Level

pub record Event : Type 0 where
  pub level : Level
  pub target : String
  pub fields : List Field

pub record LogVisitor : Type 0 where
  pub message : String

unfoldable pub record_debug : String → String → LogVisitor → LogVisitor
record_debug name value visitor =
    if name == "message"
    then record { message = value }
    else if not (visitor.message == "")
    then record { message = visitor.message +s (" " +s (name +s ("=" +s value))) }
    else record { message = name +s ("=" +s value) }

unfoldable pub record_str : String → String → LogVisitor → LogVisitor
record_str name value visitor =
    if name == "message"
    then record { message = value }
    else if not (visitor.message == "")
    then record { message = visitor.message +s (" " +s (name +s ("=" +s value))) }
    else record { message = name +s ("=" +s value) }

-- `event.record`: the fields come in the order of the event.
unfoldable pub record_event : List Field → LogVisitor → LogVisitor
unfolding record_debug record_str
record_event [] visitor = visitor
record_event (debug_field name value ∷ fields) visitor =
    record_event fields (record_debug name value visitor)
record_event (str_field name value ∷ fields) visitor =
    record_event fields (record_str name value visitor)

-- `{:>5}`
unfoldable pub padded : Level → String
padded trace = "TRACE"
padded debug = "DEBUG"
padded info = " INFO"
padded warn = " WARN"
padded error = "ERROR"

-- The clock gives the text `now`.
unfoldable pub on_event : String → Event → LogBuffer → LogBuffer
unfolding push record_event padded
on_event now event buffer =
    let visitor = record_event event.fields (record { message = "" }) in
    push
      (now +s (" " +s (padded event.level +s (" " +s (event.target +s (" " +s visitor.message))))))
      buffer
