-- ===== src/Serializer.antt =====
-- src/storage/event_serializer.cpp. What std::snprintf writes for "%.3f" is a parameter, and so are
-- the bytes of memory after the buffer, which a longer text makes the code read.
pub mod Reader
pub mod Frame
pub mod Tests
use minilisysm.Prelude.{
  ℕ, zero, suc, ◌-◌, min, List, [], ◌∷◌, ◌++◌, ℤ, pos, Bytes, codes, length, take, leb, ◌==◌,
  if◌then◌else◌,
}
use minilisysm.Prelude.Decimal.{to_string}
use minilisysm.Event.{
  EventLevel, info, recovery, warning, critical, EventStatus, active, recovering, resolved,
  EventType, monitor_started, memory_pressure, monitor_overrun, queue_pressure, storage_pressure,
  collector_failure, monitor_memory_pressure, sched_delay_risk, io_delay_risk, cpu_usage_risk,
  whitelisted_process_memory_risk, EvidenceItem, InternalEvent, max_evidence,
}
use minilisysm.Config.{MonitorConfig}

-- What one character becomes in a string.
unfoldable pub escape : ℕ → Bytes
escape c =
    if c == b'"'
    then b'\\' ∷ b'"' ∷ []
    else if c == b'\\'
    then b'\\' ∷ b'\\' ∷ []
    else if c == 8
    then b'\\' ∷ b'b' ∷ []
    else if c == 12
    then b'\\' ∷ b'f' ∷ []
    else if c == 10
    then b'\\' ∷ b'n' ∷ []
    else if c == 13
    then b'\\' ∷ b'r' ∷ []
    else if c == 9
    then b'\\' ∷ b't' ∷ []
    else c ∷ []

unfoldable pub escape_text : Bytes → Bytes
escape_text [] = []
escape_text (c ∷ s) = escape c ++ escape_text s

-- What append_json_string appends.
unfoldable pub json_string : Bytes → Bytes
json_string value = b'"' ∷ escape_text value ++ b'"' ∷ []

abbrev pub level_to_string : EventLevel → Bytes
level_to_string critical = codes "error"
level_to_string warning = codes "warning"
level_to_string recovery = codes "recovery"
level_to_string info = codes "info"

abbrev pub status_to_string : EventStatus → Bytes
status_to_string active = codes "active"
status_to_string recovering = codes "recovering"
status_to_string resolved = codes "resolved"

abbrev pub type_to_string : EventType → Bytes
type_to_string monitor_started = codes "monitor_started"
type_to_string memory_pressure = codes "memory_pressure"
type_to_string monitor_overrun = codes "monitor_overrun"
type_to_string queue_pressure = codes "monitor_queue_pressure"
type_to_string storage_pressure = codes "monitor_storage_pressure"
type_to_string collector_failure = codes "monitor_collector_failure"
type_to_string monitor_memory_pressure = codes "monitor_memory_pressure"
type_to_string sched_delay_risk = codes "sched_delay_risk"
type_to_string io_delay_risk = codes "io_delay_risk"
type_to_string cpu_usage_risk = codes "cpu_usage_risk"
type_to_string whitelisted_process_memory_risk = codes "whitelisted_process_memory_risk"

-- What append_field_name appends.
abbrev pub field_name : Bytes → Bytes
field_name name = b',' ∷ b'"' ∷ name ++ b'"' ∷ b':' ∷ []

abbrev pub text_field : Bytes → Bytes → Bytes
text_field name value = field_name name ++ json_string value

abbrev pub int_field : Bytes → ℤ → Bytes
int_field name value = field_name name ++ to_string value

abbrev pub concat : List Bytes → Bytes
concat [] = []
concat (piece ∷ pieces) = piece ++ concat pieces

module _ {W : Type 0} (print : W → Bytes) (beyond : ℕ → Bytes) where
  -- What append_double appends: `written` bytes of a buffer that holds 63 and a terminator.
  unfoldable pub double_text : W → Bytes
  double_text value =
      let text = print value in
      if leb (length text) 63 then text else take 63 text ++ 0 ∷ beyond (length text - 64)

  abbrev pub double_field : Bytes → W → Bytes
  double_field name value = field_name name ++ double_text value

  abbrev pub evidence_entry : EvidenceItem W → Bytes
  evidence_entry item = json_string item.key ++ b':' ∷ double_text item.value

  -- The items after the first, each after a comma.
  unfoldable pub more_evidence : List (EvidenceItem W) → Bytes
  more_evidence [] = []
  more_evidence (item ∷ items) = b',' ∷ evidence_entry item ++ more_evidence items

  unfoldable pub evidence_text : List (EvidenceItem W) → Bytes
  evidence_text [] = []
  evidence_text (item ∷ items) = evidence_entry item ++ more_evidence items

  -- The calls that append, in order.
  unfoldable pub pieces : MonitorConfig W → InternalEvent W → List Bytes
  pieces config event =
      codes "{\"event_id\":\""
      ∷ escape_text config.device_id
      ∷ (b'-' ∷ to_string (pos event.sequence) ++ b'"' ∷ [])
      ∷ text_field (codes "device_id") config.device_id
      ∷ text_field (codes "platform") config.platform
      ∷ text_field (codes "software_version") config.software_version
      ∷ text_field (codes "config_version") config.config_version
      ∷ int_field (codes "timestamp_ms") (pos event.realtime_ms)
      ∷ int_field (codes "monotonic_ms") (pos event.monotonic_ms)
      ∷ int_field (codes "boottime_ms") (pos event.boottime_ms)
      ∷ text_field (codes "module") (codes "linux_stability_monitor")
      ∷ int_field (codes "rule_id") (pos event.rule_id)
      ∷ text_field (codes "event_type") (type_to_string event.event_type)
      ∷ text_field (codes "level") (level_to_string event.level)
      ∷ text_field (codes "status") (status_to_string event.status)
      ∷ text_field (codes "target") event.target
      ∷ int_field (codes "pid") event.pid
      ∷ int_field (codes "tid") event.tid
      ∷ double_field (codes "value") event.value
      ∷ double_field (codes "warning_threshold") event.warning_threshold
      ∷ double_field (codes "critical_threshold") event.critical_threshold
      ∷ int_field (codes "window_sec") (pos event.window_sec)
      ∷ int_field (codes "continuous_hit_count") (pos event.continuous_hit_count)
      ∷ int_field (codes "first_seen_ms") (pos event.first_seen_ms)
      ∷ int_field (codes "last_seen_ms") (pos event.last_seen_ms)
      ∷ int_field (codes "hit_count") (pos event.hit_count)
      ∷ codes ",\"evidence\":{"
      ∷ evidence_text (take (min event.evidence_count max_evidence) event.evidence)
      ∷ codes "}}"
      ∷ []

  unfoldable pub to_json_line : MonitorConfig W → InternalEvent W → Bytes
  to_json_line config event = concat (pieces config event) ++ 10 ∷ []
