-- ===== src/Event.antt =====
-- include/minilisysm/core/event.hpp. The fixed arrays of characters are the C strings that they
-- hold, and the array of evidence is its first `evidence_count` items.
use minilisysm.Prelude.{
  ℕ, zero, suc, Bool, true, false, List, [], ◌∷◌, ℤ, Bytes, ◌==◌, if◌then◌else◌,
}

pub data EventLevel : Type 0 where
  info recovery warning critical : EventLevel

pub data EventStatus : Type 0 where
  active recovering resolved : EventStatus

pub data EventType : Type 0 where
  monitor_started memory_pressure monitor_overrun queue_pressure : EventType
  storage_pressure collector_failure monitor_memory_pressure : EventType
  sched_delay_risk io_delay_risk cpu_usage_risk whitelisted_process_memory_risk : EventType

abbrev pub is_critical : EventLevel → Bool
is_critical critical = true
is_critical _ = false

abbrev pub is_warning : EventLevel → Bool
is_warning warning = true
is_warning _ = false

abbrev pub is_info : EventLevel → Bool
is_info info = true
is_info _ = false

abbrev pub is_recovery : EventLevel → Bool
is_recovery recovery = true
is_recovery _ = false

abbrev pub max_evidence : ℕ
max_evidence = 6

abbrev pub evidence_key_size : ℕ
evidence_key_size = 32

abbrev pub event_target_size : ℕ
event_target_size = 32

pub record EvidenceItem (W : Type 0) : Type 0 where
  pub key : Bytes
  pub value : W

pub record InternalEvent (W : Type 0) : Type 0 where
  pub sequence : ℕ
  pub realtime_ms : ℕ
  pub monotonic_ms : ℕ
  pub boottime_ms : ℕ
  pub rule_id : ℕ
  pub event_type : EventType
  pub level : EventLevel
  pub status : EventStatus
  pub target : Bytes
  pub pid : ℤ
  pub tid : ℤ
  pub value : W
  pub warning_threshold : W
  pub critical_threshold : W
  pub window_sec : ℕ
  pub continuous_hit_count : ℕ
  pub first_seen_ms : ℕ
  pub last_seen_ms : ℕ
  pub hit_count : ℕ
  pub evidence_count : ℕ
  pub evidence : List (EvidenceItem W)

-- strncpy of at most `n` bytes, and a terminator.
unfoldable pub copy_cstring : ℕ → Bytes → Bytes
copy_cstring zero s = []
copy_cstring (suc n) [] = []
copy_cstring (suc n) (c ∷ s) = let rest = c ∷ copy_cstring n s in if c == 0 then [] else rest
