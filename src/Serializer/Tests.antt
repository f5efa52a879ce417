-- ===== src/Serializer/Tests.antt =====
-- Events that are serialized, and each theorem of the serializer at an input.
use minilisysm.Prelude.{
  ℕ, ◌≡◌, refl, none, some, [], ◌∷◌, ◌++◌, pos, Bytes, codes, arith, if◌then◌else◌,
}
use minilisysm.Prelude.Decimal.{decimal}
use minilisysm.Prelude.Framing.{IsLine}
use minilisysm.Double.{whole_double}
use minilisysm.Event.{warning, active, memory_pressure, InternalEvent}
use minilisysm.Config.{default_config}
use minilisysm.Serializer.{
  escape, escape_text, json_string, double_text, more_evidence, evidence_text, to_json_line,
}
use minilisysm.Serializer.Reader.{read_chars, read_string, all_writable, read_string-json_string}
use minilisysm.Serializer.Frame.{IsPrintable, to_json_line-IsLine}

-- A number with three decimals, and nothing of interest after the buffer.
abbrev print : ℕ → Bytes
print n = decimal 20 n (codes ".000")

abbrev beyond : ℕ → Bytes
beyond n = []

abbrev event : InternalEvent ℕ
event = record {
  sequence = 7;
  realtime_ms = 1000;
  monotonic_ms = 20;
  boottime_ms = 30;
  rule_id = 1;
  event_type = memory_pressure;
  level = warning;
  status = active;
  target = codes "a\"b";
  pid = pos 3;
  tid = pos 4;
  value = 5;
  warning_threshold = 6;
  critical_threshold = 9;
  window_sec = 10;
  continuous_hit_count = 2;
  first_seen_ms = 11;
  last_seen_ms = 12;
  hit_count = 2;
  evidence_count = 2;
  evidence = record { key = codes "k"; value = 1 } ∷ record { key = codes "l"; value = 2 } ∷ [];
}

test_evidence : evidence_text print beyond event.evidence ≡ codes "\"k\":1.000,\"l\":2.000"
unfolding evidence_text more_evidence double_text json_string escape_text escape decimal
test_evidence = refl

-- A control character other than the five that are escaped is written as it is, and a reader of JSON
-- refuses it.
test_control : read_string (json_string (1 ∷ []) ++ []) ≡ none
unfolding read_chars json_string escape_text escape
test_control = refl

read_string-json_string_example :
    read_string (json_string (codes "a\"\\" ++ 10 ∷ []) ++ codes ",") ≡ (
      if all_writable (codes "a\"\\" ++ 10 ∷ [])
      then some (codes "a\"\\" ++ 10 ∷ [], codes ",")
      else none)
read_string-json_string_example = read_string-json_string (codes "a\"\\" ++ 10 ∷ []) (codes ",")

event-IsPrintable : IsPrintable print beyond event
unfolding decimal
event-IsPrintable = (
  (omega arith, refl),
  (omega arith, refl),
  (omega arith, refl),
  ((omega arith, refl), ((omega arith, refl), tt)),
)

to_json_line-IsLine_example : IsLine (to_json_line print beyond default_config event)
to_json_line-IsLine_example =
    to_json_line-IsLine print beyond default_config event event-IsPrintable
