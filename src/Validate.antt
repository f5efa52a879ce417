-- ===== src/Validate.antt =====
-- src/core/config.cpp: ConfigLoader::validate, which replaces values of a configuration that are
-- out of range. Each group of fields has a function here; `validate` runs them in the order of the
-- code, with its two early returns.
pub mod Ordered
pub mod Percents
pub mod Groups
pub mod Stable
pub mod Thresholds
mod Tests
use minilisysm.Prelude.{
  ℕ, zero, suc, ◌-◌, Bool, true, false, not, ◌&&◌, ◌||◌, Option, none, some, List, [], ◌∷◌, map,
  min, max, Bytes, codes, to_lower, from_chars, break_at, bytes_eq, ltb, ◌==◌, if◌then◌else◌,
}
use minilisysm.Ipv4.{all_valid_ipv4}
use minilisysm.Double.{Double, fmin, fmax}
use minilisysm.Config.{
  CoreConfig, AgentLogConfig, QueueConfig, MemoryRuleConfig, SelfProtectionConfig, SchedDelayConfig,
  ProcessMemoryConfig, IoDelayConfig, CpuUsageConfig, PersistenceConfig, NetworkConfig,
  MonitorConfig,
}

-- `if (x < low) x = low;` and `if (x > high) x = high;`
abbrev pub at_least : ℕ → ℕ → ℕ
at_least low x = if ltb x low then low else x

abbrev pub at_most : ℕ → ℕ → ℕ
at_most high x = if ltb high x then high else x

-- `if (x == 0) x = y;`
abbrev pub or_else : ℕ → ℕ → ℕ
or_else y x = if x == 0 then y else x

abbrev pub one_of : List Bytes → Bytes → Bool
one_of [] s = false
one_of (x ∷ xs) s = bytes_eq s x || one_of xs s

abbrev pub lower : Bytes → Bytes
lower = map to_lower

unfoldable pub validate_core : CoreConfig → CoreConfig
validate_core c = record c {
  fast_collect_interval_ms = at_least 100 c.fast_collect_interval_ms;
  dispatcher_idle_sleep_ms = or_else 1 c.dispatcher_idle_sleep_ms;
  sink_idle_sleep_ms = or_else 1 c.sink_idle_sleep_ms;
  metrics_enable = if c.metrics_port == 0 then false else c.metrics_enable;
}

abbrev pub log_levels : List Bytes
log_levels = codes "debug" ∷ codes "info" ∷ codes "warn" ∷ codes "error" ∷ []

-- On the values in lower case.
unfoldable pub validate_agent_log : AgentLogConfig → AgentLogConfig
validate_agent_log c = record c {
  agent_log_level = if one_of log_levels c.agent_log_level then c.agent_log_level else codes "info";
  agent_log_rotation =
      if one_of (codes "size" ∷ codes "daily" ∷ []) c.agent_log_rotation
      then c.agent_log_rotation
      else codes "size";
  agent_log_rotate_mb = or_else 1 c.agent_log_rotate_mb;
  agent_log_rotate_files = or_else 1 c.agent_log_rotate_files;
  agent_log_async_queue_size = at_least 1024 c.agent_log_async_queue_size;
}

unfoldable pub validate_queue : QueueConfig → QueueConfig
validate_queue c =
    let capacity = at_least 16 c.event_queue_capacity in
    record c {
      event_queue_capacity = capacity;
      critical_reserved_slots =
          if ltb c.critical_reserved_slots capacity
          then c.critical_reserved_slots
          else capacity - 1;
    }

unfoldable pub validate_self_protection : SelfProtectionConfig → SelfProtectionConfig
validate_self_protection c = record c {
  queue_critical_percent = at_least c.queue_warning_percent c.queue_critical_percent;
  queue_recovery_percent = at_most c.queue_warning_percent c.queue_recovery_percent;
  self_rss_hard_limit_mb = at_least c.self_rss_soft_limit_mb c.self_rss_hard_limit_mb;
  self_rss_recovery_mb = at_most c.self_rss_soft_limit_mb c.self_rss_recovery_mb;
}

-- The refresh of the allow-list takes over the refresh of the cache as it was before.
unfoldable pub validate_sched_delay : ℕ → SchedDelayConfig → SchedDelayConfig
validate_sched_delay low_freq_collect_interval_ms c = record c {
  sched_wait_sum_critical_us = at_least c.sched_wait_sum_warning_us c.sched_wait_sum_critical_us;
  sched_ebpf_min_wait_us = or_else c.sched_wait_sum_warning_us c.sched_ebpf_min_wait_us;
  sched_ebpf_ringbuf_kb = at_least 64 c.sched_ebpf_ringbuf_kb;
  sched_ebpf_max_events_per_poll = or_else 1 c.sched_ebpf_max_events_per_poll;
  sched_ebpf_allowlist_refresh_ms =
      or_else c.sched_proc_cache_refresh_ms c.sched_ebpf_allowlist_refresh_ms;
  sched_ebpf_aggregate_window_ms = or_else 1 c.sched_ebpf_aggregate_window_ms;
  sched_ebpf_aggregate_max_entries = at_least 16 c.sched_ebpf_aggregate_max_entries;
  sched_proc_cache_refresh_ms = or_else low_freq_collect_interval_ms c.sched_proc_cache_refresh_ms;
  sched_proc_max_scan_threads = or_else 1 c.sched_proc_max_scan_threads;
  sched_collector_overrun_warning_ms = or_else 1 c.sched_collector_overrun_warning_ms;
  sched_delay_source =
      if one_of (codes "proc" ∷ codes "ebpf" ∷ []) c.sched_delay_source
      then c.sched_delay_source
      else codes "proc";
  sched_wait_sum_recovery_us = at_most c.sched_wait_sum_warning_us c.sched_wait_sum_recovery_us;
  sched_max_targets = or_else 1 c.sched_max_targets;
}

unfoldable pub validate_process_memory : ProcessMemoryConfig → ProcessMemoryConfig
validate_process_memory c = record c {
  process_memory_growth_critical_mb =
      at_least c.process_memory_growth_warning_mb c.process_memory_growth_critical_mb;
  process_memory_growth_recovery_mb =
      at_most c.process_memory_growth_warning_mb c.process_memory_growth_recovery_mb;
  process_memory_growth_window_sec = or_else 1 c.process_memory_growth_window_sec;
}

unfoldable pub validate_persistence : PersistenceConfig → PersistenceConfig
validate_persistence c =
    let cache = or_else 1 c.cache_max_mb in
    record c {
      cache_max_mb = cache;
      file_rotate_mb =
          if c.file_rotate_mb == 0 || ltb cache c.file_rotate_mb
          then max 1 (min 4 cache)
          else c.file_rotate_mb;
    }

unfoldable pub validate_network : NetworkConfig → NetworkConfig
validate_network c =
    let base = or_else 1 c.network_retry_base_ms in
    let wal = or_else 1 c.network_wal_max_mb in
    record c {
      network_batch_size = or_else 1 c.network_batch_size;
      network_flush_interval_ms = or_else 1 c.network_flush_interval_ms;
      network_retry_base_ms = base;
      network_retry_max_ms = at_least base c.network_retry_max_ms;
      network_wal_max_mb = wal;
      network_wal_segment_mb =
          if c.network_wal_segment_mb == 0 || ltb wal c.network_wal_segment_mb
          then min 4 wal
          else c.network_wal_segment_mb;
    }

module _ {W : Type 0} ⦃d : Double W⦄ where
  open d use {of_nat, lt}

  abbrev pub raised_to : W → W → W
  raised_to low x = if lt x low then low else x

  abbrev pub lowered_to : W → W → W
  lowered_to high x = if lt high x then high else x

  unfoldable pub validate_io_delay : IoDelayConfig W → IoDelayConfig W
  validate_io_delay c = record c {
    io_await_critical_ms = raised_to c.io_await_warning_ms c.io_await_critical_ms;
    io_await_recovery_ms = lowered_to c.io_await_warning_ms c.io_await_recovery_ms;
    io_util_critical_percent = raised_to c.io_util_warning_percent c.io_util_critical_percent;
    io_util_recovery_percent = lowered_to c.io_util_warning_percent c.io_util_recovery_percent;
    io_max_targets = or_else 1 c.io_max_targets;
  }

  abbrev pub to_percent : W → W
  to_percent x = fmax (of_nat 0) (fmin (of_nat 100) x)

  unfoldable pub validate_cpu_usage : CpuUsageConfig W → CpuUsageConfig W
  validate_cpu_usage c = record c {
    cpu_usage_mode =
        if one_of (codes "total" ∷ codes "per_core" ∷ codes "both" ∷ []) c.cpu_usage_mode
        then c.cpu_usage_mode
        else codes "total";
    cpu_usage_warning_percent = to_percent c.cpu_usage_warning_percent;
    cpu_usage_critical_percent =
        to_percent (raised_to c.cpu_usage_warning_percent c.cpu_usage_critical_percent);
    cpu_usage_recovery_percent =
        to_percent (lowered_to c.cpu_usage_warning_percent c.cpu_usage_recovery_percent);
    cpu_usage_continuous_warning_windows = or_else 1 c.cpu_usage_continuous_warning_windows;
    cpu_usage_continuous_critical_windows = or_else 1 c.cpu_usage_continuous_critical_windows;
    cpu_usage_recovery_windows = or_else 1 c.cpu_usage_recovery_windows;
  }

  -- The three std::transform calls, and the checks before the addresses.
  unfoldable pub validate_before_clients : MonitorConfig W → MonitorConfig W
  validate_before_clients c = record c {
    core = validate_core c.core;
    agent_log = record c.agent_log {
      agent_log_level = lower c.agent_log_level;
      agent_log_rotation = lower c.agent_log_rotation;
    };
    cpu_usage = record c.cpu_usage { cpu_usage_mode = lower c.cpu_usage_mode };
  }

  -- From the addresses to the thresholds of the memory rule.
  unfoldable pub validate_before_memory : MonitorConfig W → MonitorConfig W
  validate_before_memory c = record c {
    memory_rule = record c.memory_rule { state_ttl_sec = or_else 3600 c.state_ttl_sec };
    agent_log = validate_agent_log c.agent_log;
    queue = validate_queue c.queue;
  }

  unfoldable pub validate_rest : MonitorConfig W → MonitorConfig W
  validate_rest c = record c {
    memory_rule = record c.memory_rule {
      mem_available_recovery_mb = at_least c.mem_available_warning_mb c.mem_available_recovery_mb;
    };
    self_protection = validate_self_protection c.self_protection;
    sched_delay = validate_sched_delay c.low_freq_collect_interval_ms c.sched_delay;
    process_memory = validate_process_memory c.process_memory;
    io_delay = validate_io_delay c.io_delay;
    cpu_usage = validate_cpu_usage c.cpu_usage;
    persistence = validate_persistence c.persistence;
    network = validate_network c.network;
  }

  -- The error, `none` where the code returns true, and the configuration as it was changed.
  unfoldable pub validate : MonitorConfig W → Option Bytes × MonitorConfig W
  validate config =
      let c = validate_before_clients config in
      let m = validate_before_memory c in
      if not (all_valid_ipv4 c.metrics_allowed_clients)
      then (some (codes "metrics allowed_clients must contain valid IPv4 addresses"), c)
      else if ltb m.mem_available_warning_mb m.mem_available_critical_mb
      then (
        some (codes "memory critical threshold must be lower than warning threshold"),
        record m { memory_rule = record m.memory_rule { memory_rule_enable = false } },
      )
      else (none, validate_rest m)
