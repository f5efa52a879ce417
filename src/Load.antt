-- ===== src/Load.antt =====
-- src/core/config.cpp: ConfigLoader::load_or_default, a function for each group of fields. `stod` is
-- std::stod where it takes up the whole text, and `none` otherwise.
pub mod Effects
mod Tests
use minilisysm.Prelude.{ℕ, ◌^◌, Bool, Option, none, some, List, ℤ, Bytes, codes}
use minilisysm.Double.{Double}
use minilisysm.Config.{
  CoreConfig, AgentLogConfig, ThreadConfig, QueueConfig, MemoryRuleConfig, SelfProtectionConfig,
  SchedDelayConfig, ProcessMemoryConfig, IoDelayConfig, CpuUsageConfig, PersistenceConfig,
  NetworkConfig, MonitorConfig, default_config,
}
use minilisysm.Ini.{
  Ini, parse_ini, find_value, assign_int, assign_signed, assign_bool, assign_string, assign_csv,
}
use minilisysm.Validate.{validate}

abbrev pub load_core : Ini → CoreConfig → CoreConfig
load_core ini c = record c {
  enable = assign_bool ini (codes "linux_stability_monitor") (codes "enable") c.enable;
  config_version =
      assign_string ini (codes "linux_stability_monitor") (codes "config_version") c.config_version;
  platform = assign_string ini (codes "linux_stability_monitor") (codes "platform") c.platform;
  software_version =
      assign_string ini (codes "linux_stability_monitor") (codes "software_version")
        c.software_version;
  device_id = assign_string ini (codes "linux_stability_monitor") (codes "device_id") c.device_id;
  fast_collect_interval_ms =
      assign_int (2 ^ 32) ini (codes "linux_stability_monitor") (codes "fast_collect_interval_ms")
        c.fast_collect_interval_ms;
  low_freq_collect_interval_ms =
      assign_int (2 ^ 32) ini (codes "linux_stability_monitor")
        (codes "low_freq_collect_interval_ms") c.low_freq_collect_interval_ms;
  dispatcher_idle_sleep_ms =
      assign_int (2 ^ 32) ini (codes "runtime") (codes "dispatcher_idle_sleep_ms")
        c.dispatcher_idle_sleep_ms;
  sink_idle_sleep_ms =
      assign_int (2 ^ 32) ini (codes "runtime") (codes "sink_idle_sleep_ms") c.sink_idle_sleep_ms;
  metrics_enable = assign_bool ini (codes "metrics") (codes "enable") c.metrics_enable;
  metrics_bind_host = assign_string ini (codes "metrics") (codes "bind_host") c.metrics_bind_host;
  metrics_port = assign_int (2 ^ 16) ini (codes "metrics") (codes "port") c.metrics_port;
  metrics_scrape_runtime =
      assign_bool ini (codes "metrics") (codes "scrape_runtime") c.metrics_scrape_runtime;
  metrics_scrape_collectors =
      assign_bool ini (codes "metrics") (codes "scrape_collectors") c.metrics_scrape_collectors;
  metrics_scrape_rule_state =
      assign_bool ini (codes "metrics") (codes "scrape_rule_state") c.metrics_scrape_rule_state;
  metrics_allowed_clients =
      assign_csv ini (codes "metrics") (codes "allowed_clients") c.metrics_allowed_clients;
}

abbrev pub load_agent_log : Ini → AgentLogConfig → AgentLogConfig
load_agent_log ini c = record c {
  agent_log_enable = assign_bool ini (codes "agent_log") (codes "enable") c.agent_log_enable;
  agent_log_level = assign_string ini (codes "agent_log") (codes "level") c.agent_log_level;
  agent_log_console = assign_bool ini (codes "agent_log") (codes "console") c.agent_log_console;
  agent_log_path = assign_string ini (codes "agent_log") (codes "path") c.agent_log_path;
  agent_log_rotation =
      assign_string ini (codes "agent_log") (codes "rotation") c.agent_log_rotation;
  agent_log_rotate_mb =
      assign_int (2 ^ 64) ini (codes "agent_log") (codes "rotate_mb") c.agent_log_rotate_mb;
  agent_log_rotate_files =
      assign_int (2 ^ 32) ini (codes "agent_log") (codes "rotate_files") c.agent_log_rotate_files;
  agent_log_async_queue_size =
      assign_int (2 ^ 32) ini (codes "agent_log") (codes "async_queue_size")
        c.agent_log_async_queue_size;
}

abbrev pub load_threads : Ini → ThreadConfig → ThreadConfig
load_threads ini c = record c {
  fast_collector_cpu =
      assign_signed ini (codes "thread_policy") (codes "fast_collector_cpu") c.fast_collector_cpu;
  sched_collector_cpu =
      assign_signed ini (codes "thread_policy") (codes "sched_collector_cpu") c.sched_collector_cpu;
  persist_thread_cpu =
      assign_signed ini (codes "thread_policy") (codes "persist_thread_cpu") c.persist_thread_cpu;
  fast_collector_nice =
      assign_signed ini (codes "thread_policy") (codes "fast_collector_nice") c.fast_collector_nice;
  sched_collector_nice =
      assign_signed ini (codes "thread_policy") (codes "sched_collector_nice")
        c.sched_collector_nice;
  background_nice =
      assign_signed ini (codes "thread_policy") (codes "background_nice") c.background_nice;
}

abbrev pub load_queue : Ini → QueueConfig → QueueConfig
load_queue ini c = record c {
  event_queue_capacity =
      assign_int (2 ^ 64) ini (codes "event_queue") (codes "capacity") c.event_queue_capacity;
  critical_reserved_slots =
      assign_int (2 ^ 64) ini (codes "event_queue") (codes "critical_reserved_slots")
        c.critical_reserved_slots;
  drop_info_when_full =
      assign_bool ini (codes "event_queue") (codes "drop_info_when_full") c.drop_info_when_full;
  drop_warning_when_full =
      assign_bool ini (codes "event_queue") (codes "drop_warning_when_full")
        c.drop_warning_when_full;
}

abbrev pub load_memory_rule : Ini → MemoryRuleConfig → MemoryRuleConfig
load_memory_rule ini c = record c {
  memory_rule_enable = assign_bool ini (codes "memory_rule") (codes "enable") c.memory_rule_enable;
  mem_available_warning_mb =
      assign_int (2 ^ 64) ini (codes "memory_rule") (codes "mem_available_warning_mb")
        c.mem_available_warning_mb;
  mem_available_critical_mb =
      assign_int (2 ^ 64) ini (codes "memory_rule") (codes "mem_available_critical_mb")
        c.mem_available_critical_mb;
  mem_available_recovery_mb =
      assign_int (2 ^ 64) ini (codes "memory_rule") (codes "mem_available_recovery_mb")
        c.mem_available_recovery_mb;
  continuous_warning_windows =
      assign_int (2 ^ 32) ini (codes "memory_rule") (codes "continuous_warning_windows")
        c.continuous_warning_windows;
  continuous_critical_windows =
      assign_int (2 ^ 32) ini (codes "memory_rule") (codes "continuous_critical_windows")
        c.continuous_critical_windows;
  recovery_windows =
      assign_int (2 ^ 32) ini (codes "memory_rule") (codes "recovery_windows") c.recovery_windows;
  cooldown_sec =
      assign_int (2 ^ 32) ini (codes "rule_runtime") (codes "cooldown_sec")
        (assign_int (2 ^ 32) ini (codes "memory_rule") (codes "cooldown_sec") c.cooldown_sec);
  state_ttl_sec =
      assign_int (2 ^ 32) ini (codes "rule_runtime") (codes "state_ttl_sec") c.state_ttl_sec;
}

abbrev pub load_self_protection : Ini → SelfProtectionConfig → SelfProtectionConfig
load_self_protection ini c = record c {
  self_protection_enable =
      assign_bool ini (codes "self_protection") (codes "enable") c.self_protection_enable;
  queue_warning_percent =
      assign_int (2 ^ 32) ini (codes "self_protection") (codes "queue_warning_percent")
        c.queue_warning_percent;
  queue_critical_percent =
      assign_int (2 ^ 32) ini (codes "self_protection") (codes "queue_critical_percent")
        c.queue_critical_percent;
  queue_recovery_percent =
      assign_int (2 ^ 32) ini (codes "self_protection") (codes "queue_recovery_percent")
        c.queue_recovery_percent;
  self_recovery_windows =
      assign_int (2 ^ 32) ini (codes "self_protection") (codes "self_recovery_windows")
        c.self_recovery_windows;
  self_rss_soft_limit_mb =
      assign_int (2 ^ 64) ini (codes "self_protection") (codes "self_rss_soft_limit_mb")
        c.self_rss_soft_limit_mb;
  self_rss_hard_limit_mb =
      assign_int (2 ^ 64) ini (codes "self_protection") (codes "self_rss_hard_limit_mb")
        c.self_rss_hard_limit_mb;
  self_rss_recovery_mb =
      assign_int (2 ^ 64) ini (codes "self_protection") (codes "self_rss_recovery_mb")
        c.self_rss_recovery_mb;
}

abbrev pub load_sched_delay : Ini → SchedDelayConfig → SchedDelayConfig
load_sched_delay ini c = record c {
  sched_delay_enable =
      assign_bool ini (codes "sched_delay_rule") (codes "enable") c.sched_delay_enable;
  sched_delay_source =
      assign_string ini (codes "sched_delay_rule") (codes "source") c.sched_delay_source;
  sched_process_whitelist =
      assign_csv ini (codes "sched_delay_rule") (codes "process_whitelist")
        c.sched_process_whitelist;
  sched_thread_whitelist =
      assign_csv ini (codes "sched_delay_rule") (codes "thread_whitelist") c.sched_thread_whitelist;
  sched_wait_sum_warning_us =
      assign_int (2 ^ 64) ini (codes "sched_delay_rule") (codes "wait_sum_warning_us")
        c.sched_wait_sum_warning_us;
  sched_wait_sum_critical_us =
      assign_int (2 ^ 64) ini (codes "sched_delay_rule") (codes "wait_sum_critical_us")
        c.sched_wait_sum_critical_us;
  sched_wait_sum_recovery_us =
      assign_int (2 ^ 64) ini (codes "sched_delay_rule") (codes "wait_sum_recovery_us")
        c.sched_wait_sum_recovery_us;
  sched_ebpf_min_wait_us =
      assign_int (2 ^ 64) ini (codes "sched_delay_rule") (codes "ebpf_min_wait_us")
        c.sched_ebpf_min_wait_us;
  sched_ebpf_ringbuf_kb =
      assign_int (2 ^ 32) ini (codes "sched_delay_rule") (codes "ebpf_ringbuf_kb")
        c.sched_ebpf_ringbuf_kb;
  sched_ebpf_max_events_per_poll =
      assign_int (2 ^ 32) ini (codes "sched_delay_rule") (codes "ebpf_max_events_per_poll")
        c.sched_ebpf_max_events_per_poll;
  sched_ebpf_lifecycle_enable =
      assign_bool ini (codes "sched_delay_rule") (codes "ebpf_lifecycle_enable")
        c.sched_ebpf_lifecycle_enable;
  sched_ebpf_allowlist_refresh_ms =
      assign_int (2 ^ 32) ini (codes "sched_delay_rule") (codes "ebpf_allowlist_refresh_ms")
        c.sched_ebpf_allowlist_refresh_ms;
  sched_ebpf_aggregate_enable =
      assign_bool ini (codes "sched_delay_rule") (codes "ebpf_aggregate_enable")
        c.sched_ebpf_aggregate_enable;
  sched_ebpf_aggregate_window_ms =
      assign_int (2 ^ 32) ini (codes "sched_delay_rule") (codes "ebpf_aggregate_window_ms")
        c.sched_ebpf_aggregate_window_ms;
  sched_ebpf_aggregate_max_entries =
      assign_int (2 ^ 32) ini (codes "sched_delay_rule") (codes "ebpf_aggregate_max_entries")
        c.sched_ebpf_aggregate_max_entries;
  sched_proc_cache_refresh_ms =
      assign_int (2 ^ 32) ini (codes "sched_delay_rule") (codes "proc_cache_refresh_ms")
        c.sched_proc_cache_refresh_ms;
  sched_proc_max_scan_threads =
      assign_int (2 ^ 32) ini (codes "sched_delay_rule") (codes "proc_max_scan_threads")
        c.sched_proc_max_scan_threads;
  sched_collector_overrun_warning_ms =
      assign_int (2 ^ 32) ini (codes "sched_delay_rule") (codes "collector_overrun_warning_ms")
        c.sched_collector_overrun_warning_ms;
  sched_involuntary_switch_warning =
      assign_int (2 ^ 64) ini (codes "sched_delay_rule") (codes "involuntary_switch_warning")
        c.sched_involuntary_switch_warning;
  sched_continuous_warning_windows =
      assign_int (2 ^ 32) ini (codes "sched_delay_rule") (codes "continuous_warning_windows")
        c.sched_continuous_warning_windows;
  sched_continuous_critical_windows =
      assign_int (2 ^ 32) ini (codes "sched_delay_rule") (codes "continuous_critical_windows")
        c.sched_continuous_critical_windows;
  sched_recovery_windows =
      assign_int (2 ^ 32) ini (codes "sched_delay_rule") (codes "recovery_windows")
        c.sched_recovery_windows;
  sched_max_targets =
      assign_int (2 ^ 32) ini (codes "sched_delay_rule") (codes "max_targets") c.sched_max_targets;
}

abbrev pub load_process_memory : Ini → ProcessMemoryConfig → ProcessMemoryConfig
load_process_memory ini c = record c {
  process_memory_enable =
      assign_bool ini (codes "process_memory_rule") (codes "enable") c.process_memory_enable;
  process_memory_growth_warning_mb =
      assign_int (2 ^ 64) ini (codes "process_memory_rule") (codes "growth_warning_mb")
        c.process_memory_growth_warning_mb;
  process_memory_growth_critical_mb =
      assign_int (2 ^ 64) ini (codes "process_memory_rule") (codes "growth_critical_mb")
        c.process_memory_growth_critical_mb;
  process_memory_growth_recovery_mb =
      assign_int (2 ^ 64) ini (codes "process_memory_rule") (codes "growth_recovery_mb")
        c.process_memory_growth_recovery_mb;
  process_memory_growth_window_sec =
      assign_int (2 ^ 32) ini (codes "process_memory_rule") (codes "growth_window_sec")
        c.process_memory_growth_window_sec;
}

abbrev pub load_persistence : Ini → PersistenceConfig → PersistenceConfig
load_persistence ini c = record c {
  persistence_enable = assign_bool ini (codes "persistence") (codes "enable") c.persistence_enable;
  cache_path = assign_string ini (codes "persistence") (codes "cache_path") c.cache_path;
  cache_max_mb =
      assign_int (2 ^ 64) ini (codes "persistence") (codes "cache_max_mb") c.cache_max_mb;
  file_rotate_mb =
      assign_int (2 ^ 64) ini (codes "persistence") (codes "file_rotate_mb") c.file_rotate_mb;
  critical_fsync = assign_bool ini (codes "persistence") (codes "critical_fsync") c.critical_fsync;
  max_fsync_per_minute =
      assign_int (2 ^ 32) ini (codes "persistence") (codes "max_fsync_per_minute")
        c.max_fsync_per_minute;
  summary_enable = assign_bool ini (codes "persistence") (codes "summary_enable") c.summary_enable;
  summary_color = assign_bool ini (codes "persistence") (codes "summary_color") c.summary_color;
}

abbrev pub load_network : Ini → NetworkConfig → NetworkConfig
load_network ini c = record c {
  network_sink_enable =
      assign_bool ini (codes "network_sink") (codes "enable") c.network_sink_enable;
  network_endpoint = assign_string ini (codes "network_sink") (codes "endpoint") c.network_endpoint;
  network_batch_size =
      assign_int (2 ^ 32) ini (codes "network_sink") (codes "batch_size") c.network_batch_size;
  network_flush_interval_ms =
      assign_int (2 ^ 32) ini (codes "network_sink") (codes "flush_interval_ms")
        c.network_flush_interval_ms;
  network_connect_timeout_ms =
      assign_int (2 ^ 32) ini (codes "network_sink") (codes "connect_timeout_ms")
        c.network_connect_timeout_ms;
  network_request_timeout_ms =
      assign_int (2 ^ 32) ini (codes "network_sink") (codes "request_timeout_ms")
        c.network_request_timeout_ms;
  network_retry_base_ms =
      assign_int (2 ^ 32) ini (codes "network_sink") (codes "retry_base_ms")
        c.network_retry_base_ms;
  network_retry_max_ms =
      assign_int (2 ^ 32) ini (codes "network_sink") (codes "retry_max_ms") c.network_retry_max_ms;
  network_wal_path = assign_string ini (codes "network_sink") (codes "wal_path") c.network_wal_path;
  network_wal_max_mb =
      assign_int (2 ^ 64) ini (codes "network_sink") (codes "wal_max_mb") c.network_wal_max_mb;
  network_wal_segment_mb =
      assign_int (2 ^ 64) ini (codes "network_sink") (codes "wal_segment_mb")
        c.network_wal_segment_mb;
}

module _ {W : Type 0} ⦃d : Double W⦄ (stod : Bytes → Option W) where
  abbrev pub assign_double : Ini → Bytes → Bytes → W → W
  assign_double ini section key target = elim (find_value ini section key) [
    | none ↦ target
    | some value ↦ elim (stod value) [ none ↦ target | some parsed ↦ parsed ]
  ]

  abbrev pub load_io_delay : Ini → IoDelayConfig W → IoDelayConfig W
  load_io_delay ini c = record c {
    io_delay_enable = assign_bool ini (codes "io_delay_rule") (codes "enable") c.io_delay_enable;
    io_device_whitelist =
        assign_csv ini (codes "io_delay_rule") (codes "device_whitelist") c.io_device_whitelist;
    io_await_warning_ms =
        assign_double ini (codes "io_delay_rule") (codes "await_warning_ms") c.io_await_warning_ms;
    io_await_critical_ms =
        assign_double ini (codes "io_delay_rule") (codes "await_critical_ms")
          c.io_await_critical_ms;
    io_await_recovery_ms =
        assign_double ini (codes "io_delay_rule") (codes "await_recovery_ms")
          c.io_await_recovery_ms;
    io_util_warning_percent =
        assign_double ini (codes "io_delay_rule") (codes "util_warning_percent")
          c.io_util_warning_percent;
    io_util_critical_percent =
        assign_double ini (codes "io_delay_rule") (codes "util_critical_percent")
          c.io_util_critical_percent;
    io_util_recovery_percent =
        assign_double ini (codes "io_delay_rule") (codes "util_recovery_percent")
          c.io_util_recovery_percent;
    io_continuous_warning_windows =
        assign_int (2 ^ 32) ini (codes "io_delay_rule") (codes "continuous_warning_windows")
          c.io_continuous_warning_windows;
    io_continuous_critical_windows =
        assign_int (2 ^ 32) ini (codes "io_delay_rule") (codes "continuous_critical_windows")
          c.io_continuous_critical_windows;
    io_recovery_windows =
        assign_int (2 ^ 32) ini (codes "io_delay_rule") (codes "recovery_windows")
          c.io_recovery_windows;
    io_max_targets =
        assign_int (2 ^ 32) ini (codes "io_delay_rule") (codes "max_targets") c.io_max_targets;
  }

  abbrev pub load_cpu_usage : Ini → CpuUsageConfig W → CpuUsageConfig W
  load_cpu_usage ini c = record c {
    cpu_usage_enable = assign_bool ini (codes "cpu_usage_rule") (codes "enable") c.cpu_usage_enable;
    cpu_usage_mode = assign_string ini (codes "cpu_usage_rule") (codes "mode") c.cpu_usage_mode;
    cpu_usage_core_whitelist =
        assign_csv ini (codes "cpu_usage_rule") (codes "core_whitelist") c.cpu_usage_core_whitelist;
    cpu_usage_warning_percent =
        assign_double ini (codes "cpu_usage_rule") (codes "warning_percent")
          c.cpu_usage_warning_percent;
    cpu_usage_critical_percent =
        assign_double ini (codes "cpu_usage_rule") (codes "critical_percent")
          c.cpu_usage_critical_percent;
    cpu_usage_recovery_percent =
        assign_double ini (codes "cpu_usage_rule") (codes "recovery_percent")
          c.cpu_usage_recovery_percent;
    cpu_usage_continuous_warning_windows =
        assign_int (2 ^ 32) ini (codes "cpu_usage_rule") (codes "continuous_warning_windows")
          c.cpu_usage_continuous_warning_windows;
    cpu_usage_continuous_critical_windows =
        assign_int (2 ^ 32) ini (codes "cpu_usage_rule") (codes "continuous_critical_windows")
          c.cpu_usage_continuous_critical_windows;
    cpu_usage_recovery_windows =
        assign_int (2 ^ 32) ini (codes "cpu_usage_rule") (codes "recovery_windows")
          c.cpu_usage_recovery_windows;
  }

  -- All that is read, before it is validated.
  unfoldable pub load : Ini → MonitorConfig W
  load ini =
      let c : MonitorConfig W = default_config in
      record {
        core = load_core ini c.core;
        agent_log = load_agent_log ini c.agent_log;
        threads = load_threads ini c.threads;
        queue = load_queue ini c.queue;
        memory_rule = load_memory_rule ini c.memory_rule;
        self_protection = load_self_protection ini c.self_protection;
        sched_delay = load_sched_delay ini c.sched_delay;
        process_memory = load_process_memory ini c.process_memory;
        io_delay = load_io_delay ini c.io_delay;
        cpu_usage = load_cpu_usage ini c.cpu_usage;
        persistence = load_persistence ini c.persistence;
        network = load_network ini c.network;
      }

  -- The answer of `validate` is ignored.
  unfoldable pub load_or_default : List Bytes → MonitorConfig W
  load_or_default lines = (validate (load (parse_ini lines))).1
