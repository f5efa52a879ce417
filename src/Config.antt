-- ===== src/Config.antt =====
-- include/minilisysm/core/config.hpp: MonitorConfig, a record for each block of its fields, with
-- the default values. A string is its bytes; `W` is the type of a `double`.
use minilisysm.Prelude.{ℕ, Bool, true, false, List, [], ℤ, pos, negsuc, Bytes, codes}
use minilisysm.Double.{Double}

pub record CoreConfig : Type 0 where
  pub enable : Bool
  pub config_version : Bytes
  pub platform : Bytes
  pub software_version : Bytes
  pub device_id : Bytes
  pub fast_collect_interval_ms : ℕ
  pub low_freq_collect_interval_ms : ℕ
  pub dispatcher_idle_sleep_ms : ℕ
  pub sink_idle_sleep_ms : ℕ
  pub metrics_enable : Bool
  pub metrics_bind_host : Bytes
  pub metrics_port : ℕ
  pub metrics_scrape_runtime : Bool
  pub metrics_scrape_collectors : Bool
  pub metrics_scrape_rule_state : Bool
  pub metrics_allowed_clients : List Bytes

pub record AgentLogConfig : Type 0 where
  pub agent_log_enable : Bool
  pub agent_log_level : Bytes
  pub agent_log_console : Bool
  pub agent_log_path : Bytes
  pub agent_log_rotation : Bytes
  pub agent_log_rotate_mb : ℕ
  pub agent_log_rotate_files : ℕ
  pub agent_log_async_queue_size : ℕ

pub record ThreadConfig : Type 0 where
  pub fast_collector_cpu : ℤ
  pub sched_collector_cpu : ℤ
  pub persist_thread_cpu : ℤ
  pub fast_collector_nice : ℤ
  pub sched_collector_nice : ℤ
  pub background_nice : ℤ

pub record QueueConfig : Type 0 where
  pub event_queue_capacity : ℕ
  pub critical_reserved_slots : ℕ
  pub drop_info_when_full : Bool
  pub drop_warning_when_full : Bool

pub record MemoryRuleConfig : Type 0 where
  pub memory_rule_enable : Bool
  pub mem_available_warning_mb : ℕ
  pub mem_available_critical_mb : ℕ
  pub mem_available_recovery_mb : ℕ
  pub continuous_warning_windows : ℕ
  pub continuous_critical_windows : ℕ
  pub recovery_windows : ℕ
  pub cooldown_sec : ℕ
  pub state_ttl_sec : ℕ

pub record SelfProtectionConfig : Type 0 where
  pub self_protection_enable : Bool
  pub queue_warning_percent : ℕ
  pub queue_critical_percent : ℕ
  pub queue_recovery_percent : ℕ
  pub self_recovery_windows : ℕ
  pub self_rss_soft_limit_mb : ℕ
  pub self_rss_hard_limit_mb : ℕ
  pub self_rss_recovery_mb : ℕ

pub record SchedDelayConfig : Type 0 where
  pub sched_delay_enable : Bool
  pub sched_delay_source : Bytes
  pub sched_process_whitelist : List Bytes
  pub sched_thread_whitelist : List Bytes
  pub sched_wait_sum_warning_us : ℕ
  pub sched_wait_sum_critical_us : ℕ
  pub sched_wait_sum_recovery_us : ℕ
  pub sched_ebpf_min_wait_us : ℕ
  pub sched_ebpf_ringbuf_kb : ℕ
  pub sched_ebpf_max_events_per_poll : ℕ
  pub sched_ebpf_lifecycle_enable : Bool
  pub sched_ebpf_allowlist_refresh_ms : ℕ
  pub sched_ebpf_aggregate_enable : Bool
  pub sched_ebpf_aggregate_window_ms : ℕ
  pub sched_ebpf_aggregate_max_entries : ℕ
  pub sched_proc_cache_refresh_ms : ℕ
  pub sched_proc_max_scan_threads : ℕ
  pub sched_collector_overrun_warning_ms : ℕ
  pub sched_involuntary_switch_warning : ℕ
  pub sched_continuous_warning_windows : ℕ
  pub sched_continuous_critical_windows : ℕ
  pub sched_recovery_windows : ℕ
  pub sched_max_targets : ℕ

pub record ProcessMemoryConfig : Type 0 where
  pub process_memory_enable : Bool
  pub process_memory_growth_warning_mb : ℕ
  pub process_memory_growth_critical_mb : ℕ
  pub process_memory_growth_recovery_mb : ℕ
  pub process_memory_growth_window_sec : ℕ

pub record IoDelayConfig (W : Type 0) : Type 0 where
  pub io_delay_enable : Bool
  pub io_device_whitelist : List Bytes
  pub io_await_warning_ms : W
  pub io_await_critical_ms : W
  pub io_await_recovery_ms : W
  pub io_util_warning_percent : W
  pub io_util_critical_percent : W
  pub io_util_recovery_percent : W
  pub io_continuous_warning_windows : ℕ
  pub io_continuous_critical_windows : ℕ
  pub io_recovery_windows : ℕ
  pub io_max_targets : ℕ

pub record CpuUsageConfig (W : Type 0) : Type 0 where
  pub cpu_usage_enable : Bool
  pub cpu_usage_mode : Bytes
  pub cpu_usage_core_whitelist : List Bytes
  pub cpu_usage_warning_percent : W
  pub cpu_usage_critical_percent : W
  pub cpu_usage_recovery_percent : W
  pub cpu_usage_continuous_warning_windows : ℕ
  pub cpu_usage_continuous_critical_windows : ℕ
  pub cpu_usage_recovery_windows : ℕ

pub record PersistenceConfig : Type 0 where
  pub persistence_enable : Bool
  pub cache_path : Bytes
  pub cache_max_mb : ℕ
  pub file_rotate_mb : ℕ
  pub critical_fsync : Bool
  pub max_fsync_per_minute : ℕ
  pub summary_enable : Bool
  pub summary_color : Bool

pub record NetworkConfig : Type 0 where
  pub network_sink_enable : Bool
  pub network_endpoint : Bytes
  pub network_batch_size : ℕ
  pub network_flush_interval_ms : ℕ
  pub network_connect_timeout_ms : ℕ
  pub network_request_timeout_ms : ℕ
  pub network_retry_base_ms : ℕ
  pub network_retry_max_ms : ℕ
  pub network_wal_path : Bytes
  pub network_wal_max_mb : ℕ
  pub network_wal_segment_mb : ℕ

pub record MonitorConfig (W : Type 0) : Type 0 where
  pub core : CoreConfig
  pub open core use *
  pub agent_log : AgentLogConfig
  pub open agent_log use *
  pub threads : ThreadConfig
  pub open threads use *
  pub queue : QueueConfig
  pub open queue use *
  pub memory_rule : MemoryRuleConfig
  pub open memory_rule use *
  pub self_protection : SelfProtectionConfig
  pub open self_protection use *
  pub sched_delay : SchedDelayConfig
  pub open sched_delay use *
  pub process_memory : ProcessMemoryConfig
  pub open process_memory use *
  pub io_delay : IoDelayConfig W
  pub open io_delay use *
  pub cpu_usage : CpuUsageConfig W
  pub open cpu_usage use *
  pub persistence : PersistenceConfig
  pub open persistence use *
  pub network : NetworkConfig
  pub open network use *

abbrev pub default_core : CoreConfig
default_core = record {
  enable = true;
  config_version = codes "default";
  platform = codes "unknown";
  software_version = codes "0.0.0";
  device_id = codes "unknown_device";
  fast_collect_interval_ms = 1000;
  low_freq_collect_interval_ms = 10000;
  dispatcher_idle_sleep_ms = 2;
  sink_idle_sleep_ms = 5;
  metrics_enable = true;
  metrics_bind_host = codes "0.0.0.0";
  metrics_port = 9108;
  metrics_scrape_runtime = true;
  metrics_scrape_collectors = true;
  metrics_scrape_rule_state = true;
  metrics_allowed_clients = [];
}

abbrev pub default_agent_log : AgentLogConfig
default_agent_log = record {
  agent_log_enable = true;
  agent_log_level = codes "info";
  agent_log_console = true;
  agent_log_path = codes "./logs/agent/minilisysm-agent.log";
  agent_log_rotation = codes "size";
  agent_log_rotate_mb = 16;
  agent_log_rotate_files = 8;
  agent_log_async_queue_size = 8192;
}

abbrev pub default_threads : ThreadConfig
default_threads = record {
  fast_collector_cpu = negsuc 0;
  sched_collector_cpu = negsuc 0;
  persist_thread_cpu = negsuc 0;
  fast_collector_nice = pos 5;
  sched_collector_nice = pos 8;
  background_nice = pos 10;
}

abbrev pub default_queue : QueueConfig
default_queue = record {
  event_queue_capacity = 4096;
  critical_reserved_slots = 32;
  drop_info_when_full = true;
  drop_warning_when_full = true;
}

abbrev pub default_memory_rule : MemoryRuleConfig
default_memory_rule = record {
  memory_rule_enable = true;
  mem_available_warning_mb = 512;
  mem_available_critical_mb = 256;
  mem_available_recovery_mb = 768;
  continuous_warning_windows = 3;
  continuous_critical_windows = 2;
  recovery_windows = 3;
  cooldown_sec = 60;
  state_ttl_sec = 3600;
}

abbrev pub default_self_protection : SelfProtectionConfig
default_self_protection = record {
  self_protection_enable = true;
  queue_warning_percent = 70;
  queue_critical_percent = 90;
  queue_recovery_percent = 50;
  self_recovery_windows = 3;
  self_rss_soft_limit_mb = 40;
  self_rss_hard_limit_mb = 64;
  self_rss_recovery_mb = 32;
}

abbrev pub default_sched_delay : SchedDelayConfig
default_sched_delay = record {
  sched_delay_enable = true;
  sched_delay_source = codes "proc";
  sched_process_whitelist = [];
  sched_thread_whitelist = [];
  sched_wait_sum_warning_us = 10000;
  sched_wait_sum_critical_us = 30000;
  sched_wait_sum_recovery_us = 5000;
  sched_ebpf_min_wait_us = 10000;
  sched_ebpf_ringbuf_kb = 1024;
  sched_ebpf_max_events_per_poll = 4096;
  sched_ebpf_lifecycle_enable = true;
  sched_ebpf_allowlist_refresh_ms = 10000;
  sched_ebpf_aggregate_enable = false;
  sched_ebpf_aggregate_window_ms = 1000;
  sched_ebpf_aggregate_max_entries = 8192;
  sched_proc_cache_refresh_ms = 10000;
  sched_proc_max_scan_threads = 4096;
  sched_collector_overrun_warning_ms = 200;
  sched_involuntary_switch_warning = 100;
  sched_continuous_warning_windows = 3;
  sched_continuous_critical_windows = 2;
  sched_recovery_windows = 3;
  sched_max_targets = 32;
}

abbrev pub default_process_memory : ProcessMemoryConfig
default_process_memory = record {
  process_memory_enable = true;
  process_memory_growth_warning_mb = 100;
  process_memory_growth_critical_mb = 200;
  process_memory_growth_recovery_mb = 20;
  process_memory_growth_window_sec = 600;
}

abbrev pub default_persistence : PersistenceConfig
default_persistence = record {
  persistence_enable = true;
  cache_path = codes "./logs/events";
  cache_max_mb = 100;
  file_rotate_mb = 4;
  critical_fsync = true;
  max_fsync_per_minute = 6;
  summary_enable = true;
  summary_color = false;
}

abbrev pub default_network : NetworkConfig
default_network = record {
  network_sink_enable = false;
  network_endpoint = codes "http://127.0.0.1:8080/events";
  network_batch_size = 128;
  network_flush_interval_ms = 1000;
  network_connect_timeout_ms = 500;
  network_request_timeout_ms = 2000;
  network_retry_base_ms = 1000;
  network_retry_max_ms = 60000;
  network_wal_path = codes "./logs/wal";
  network_wal_max_mb = 64;
  network_wal_segment_mb = 4;
}

module _ {W : Type 0} ⦃d : Double W⦄ where
  open d use {of_nat}

  abbrev pub default_io_delay : IoDelayConfig W
  default_io_delay = record {
    io_delay_enable = true;
    io_device_whitelist = [];
    io_await_warning_ms = of_nat 50;
    io_await_critical_ms = of_nat 200;
    io_await_recovery_ms = of_nat 20;
    io_util_warning_percent = of_nat 80;
    io_util_critical_percent = of_nat 95;
    io_util_recovery_percent = of_nat 50;
    io_continuous_warning_windows = 3;
    io_continuous_critical_windows = 2;
    io_recovery_windows = 3;
    io_max_targets = 16;
  }

  abbrev pub default_cpu_usage : CpuUsageConfig W
  default_cpu_usage = record {
    cpu_usage_enable = true;
    cpu_usage_mode = codes "total";
    cpu_usage_core_whitelist = [];
    cpu_usage_warning_percent = of_nat 80;
    cpu_usage_critical_percent = of_nat 95;
    cpu_usage_recovery_percent = of_nat 60;
    cpu_usage_continuous_warning_windows = 3;
    cpu_usage_continuous_critical_windows = 2;
    cpu_usage_recovery_windows = 3;
  }

  abbrev pub default_config : MonitorConfig W
  default_config = record {
    core = default_core;
    agent_log = default_agent_log;
    threads = default_threads;
    queue = default_queue;
    memory_rule = default_memory_rule;
    self_protection = default_self_protection;
    sched_delay = default_sched_delay;
    process_memory = default_process_memory;
    io_delay = default_io_delay;
    cpu_usage = default_cpu_usage;
    persistence = default_persistence;
    network = default_network;
  }
