-- ===== src/Enclave/Shown.antt =====
-- What GET /logs shows (src/relayer/src/enclave.rs) of the events of the program (src/relayer/src/main.rs).
use nautilus_messaging_relay.Common.{
  ℕ, ◌≤◌, ◌-◌, String, Bool, false, ◌||◌, Option, none, some, List, [], ◌∷◌, ◌==◌, string_eq,
  if◌then◌else◌, length, drop, min, ◌≡◌, refl, ap, ◌∙◌, inl, inr, Bool-cases, map, String-discrete,
}
use nautilus_messaging_relay.Common.Text.{◌+s◌}
use nautilus_messaging_relay.Enclave.LogBuffer.{LogBuffer, push, new, recent, get_logs}
use nautilus_messaging_relay.Enclave.LogLayer.{
  Field, debug_field, str_field, Event, record_debug, record_str, record_event, padded, on_event,
}
use nautilus_messaging_relay.Enclave.Logs.{push_all, recent-push_all}

abbrev name_of : Field → String
name_of (debug_field name value) = name
name_of (str_field name value) = name

abbrev value_of : Field → String
value_of (debug_field name value) = value
value_of (str_field name value) = value

abbrev text_of : Field → String
text_of f = if name_of f == "message" then value_of f else name_of f +s ("=" +s value_of f)

abbrev names_message : List Field → Bool
names_message [] = false
names_message (f ∷ fields) = name_of f == "message" || names_message fields

-- The texts of the fields from the last one on that is the message.
abbrev said : List Field → List String
said [] = []
said (f ∷ fields) =
    let rest = said fields in if names_message fields then rest else text_of f ∷ rest

-- Words behind a text, each behind a space unless nothing stands before it.
abbrev told_on : String → List String → String
told_on text [] = text
told_on text (word ∷ words) = told_on (if text == "" then word else text +s (" " +s word)) words

abbrev told : List String → String
told words = told_on "" words

-- The line of an event, with the time at which it came.
abbrev pub line_of : String × Event → String
line_of (now, event) =
    now
    +s (" " +s (padded event.level +s (" " +s (event.target +s (" " +s told (said event.fields))))))

abbrev pub on_events : List (String × Event) → LogBuffer → LogBuffer
on_events [] buffer = buffer
on_events ((now, event) ∷ events) buffer = on_events events (on_event now event buffer)

abbrev behind : Field → String → String
behind f text =
    if name_of f == "message"
    then value_of f
    else if text == ""
    then text_of f
    else text +s (" " +s text_of f)

record_event-behind :
    (f : Field) (fields : List Field) (text : String)
    → record_event (f ∷ fields) (record { message = text })
      ≡ record_event fields (record { message = behind f text })
unfolding record_event record_debug record_str
record_event-behind (debug_field name value) fields text = elim (Bool-cases (name == "message")) [
  | inl h ↦ rw h refl
  | inr h ↦ elim (Bool-cases (text == "")) [ inl e ↦ rw (h, e) refl | inr e ↦ rw (h, e) refl ]
]
record_event-behind (str_field name value) fields text = elim (Bool-cases (name == "message")) [
  | inl h ↦ rw h refl
  | inr h ↦ elim (Bool-cases (text == "")) [ inl e ↦ rw (h, e) refl | inr e ↦ rw (h, e) refl ]
]

told_cons : (word : String) (words : List String) → told_on word words ≡ told (word ∷ words)
unfolding String-discrete
told_cons word words = refl

-- The text behind the fields, by the description.
abbrev heard : List Field → String → String
heard fields text = if names_message fields then told (said fields) else told_on text (said fields)

heard-behind :
    (f : Field) (fields : List Field) (text : String)
    → heard fields (behind f text) ≡ heard (f ∷ fields) text
heard-behind f fields text = elim (Bool-cases (name_of f == "message")) [
  | inl h ↦ elim (Bool-cases (names_message fields)) [
    | inl e ↦ rw (h, e) refl
    | inr e ↦ rw (h, e) (told_cons (value_of f) (said fields))
  ]
  | inr h ↦ elim (Bool-cases (names_message fields)) [
    | inl e ↦ rw (h, e) refl
    | inr e ↦ rw (h, e) refl
  ]
]

record_event-heard :
    (fields : List Field) (text : String)
    → (record_event fields (record { message = text })).message ≡ heard fields text
unfolding record_event
record_event-heard [] text = refl
record_event-heard (f ∷ fields) text =
    ap (λ v. v.message) (record_event-behind f fields text)
    ∙ record_event-heard fields (behind f text)
    ∙ heard-behind f fields text

heard_empty : (fields : List Field) → heard fields "" ≡ told (said fields)
heard_empty fields = elim (Bool-cases (names_message fields)) [
  | inl e ↦ rw e refl
  | inr e ↦ rw e refl
]

on_events-push_all :
    (events : List (String × Event)) (buffer : LogBuffer)
    → on_events events buffer ≡ push_all (map line_of events) buffer
unfolding on_event
on_events-push_all [] buffer = refl
on_events-push_all ((now, event) ∷ events) buffer =
    let text = record_event-heard event.fields "" ∙ heard_empty event.fields in
    ap
      (λ t. on_events events (
        push (now +s (" " +s (padded event.level +s (" " +s (event.target +s (" " +s t))))))
          buffer))
      text
    ∙ on_events-push_all events (push (line_of (now, event)) buffer)

-- After any events, GET /logs shows the lines of the last of them in their order, with their number:
-- as many as are asked for, or 100, but no more than 1000 or than the capacity of the buffer, which
-- holds at least one. A line has the time, the level, the target, and the fields from the last one
-- on that is named message, which stands there without its name.
pub get_logs-on_events :
    (capacity : ℕ) (requested : Option ℕ) (events : List (String × Event))
    → 1 ≤ capacity
    → (let n = min (elim requested [ none ↦ 100 | some n ↦ n ]) 1000 in
        let lines = map line_of events in
        let shown = drop (length lines - min n capacity) lines in
        get_logs requested (on_events events (new capacity))
        ≡ record { lines = shown; count = length shown })
unfolding get_logs
get_logs-on_events capacity requested events h =
    let n = min (elim requested [ none ↦ 100 | some n ↦ n ]) 1000 in
    ap (λ (ls : List String). record { lines = ls; count = length ls })
      (ap (recent n) (on_events-push_all events (new capacity))
        ∙ recent-push_all capacity n (map line_of events) h)
