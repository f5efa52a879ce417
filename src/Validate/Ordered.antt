-- ===== src/Validate/Ordered.antt =====
-- What an accepted configuration keeps to, whatever was read from the file.
use minilisysm.Prelude.{◌≤◌, ◌<◌, ◌≡◌, ◌⊎◌, true, false, none, arith}
use minilisysm.Double.{Double}
use minilisysm.Config.{MonitorConfig}
use minilisysm.Ipv4.{all_valid_ipv4}
use minilisysm.Validate.{
  validate, validate_before_clients, validate_before_memory, validate_rest, validate_core,
  validate_queue, validate_self_protection, validate_sched_delay, validate_process_memory,
  validate_persistence, validate_network, validate_agent_log, validate_io_delay, validate_cpu_usage,
}

-- The thresholds and sizes that are whole numbers.
pub record IsOrdered {W : Type 0} (c : MonitorConfig W) : Type 0 where
  pub interval : 100 ≤ c.fast_collect_interval_ms
  pub idle_sleeps : (1 ≤ c.dispatcher_idle_sleep_ms) × (1 ≤ c.sink_idle_sleep_ms)
  pub metrics : (c.metrics_enable ≡ false) ⊎ (1 ≤ c.metrics_port)
  pub ttl : 1 ≤ c.state_ttl_sec
  pub log_files : (1 ≤ c.agent_log_rotate_mb) × (1 ≤ c.agent_log_rotate_files)
  pub log_queue : 1024 ≤ c.agent_log_async_queue_size
  pub queue_size : 16 ≤ c.event_queue_capacity
  pub reserve_below_queue : c.critical_reserved_slots < c.event_queue_capacity
  pub memory_critical : c.mem_available_critical_mb ≤ c.mem_available_warning_mb
  pub memory_recovery : c.mem_available_warning_mb ≤ c.mem_available_recovery_mb
  pub queue_critical : c.queue_warning_percent ≤ c.queue_critical_percent
  pub queue_recovery : c.queue_recovery_percent ≤ c.queue_warning_percent
  pub rss_hard : c.self_rss_soft_limit_mb ≤ c.self_rss_hard_limit_mb
  pub rss_recovery : c.self_rss_recovery_mb ≤ c.self_rss_soft_limit_mb
  pub sched_critical : c.sched_wait_sum_warning_us ≤ c.sched_wait_sum_critical_us
  pub sched_recovery : c.sched_wait_sum_recovery_us ≤ c.sched_wait_sum_warning_us
  pub sched_wait : (c.sched_wait_sum_warning_us ≡ 0) ⊎ (1 ≤ c.sched_ebpf_min_wait_us)
  pub sched_cache : (c.low_freq_collect_interval_ms ≡ 0) ⊎ (1 ≤ c.sched_proc_cache_refresh_ms)
  pub ringbuf : 64 ≤ c.sched_ebpf_ringbuf_kb
  pub events_per_poll : 1 ≤ c.sched_ebpf_max_events_per_poll
  pub aggregate : (1 ≤ c.sched_ebpf_aggregate_window_ms) × (16 ≤ c.sched_ebpf_aggregate_max_entries)
  pub scan_threads : 1 ≤ c.sched_proc_max_scan_threads
  pub overrun : 1 ≤ c.sched_collector_overrun_warning_ms
  pub targets : (1 ≤ c.sched_max_targets) × (1 ≤ c.io_max_targets)
  pub process_critical : c.process_memory_growth_warning_mb ≤ c.process_memory_growth_critical_mb
  pub process_recovery : c.process_memory_growth_recovery_mb ≤ c.process_memory_growth_warning_mb
  pub growth_window : 1 ≤ c.process_memory_growth_window_sec
  pub cpu_windows :
      (1 ≤ c.cpu_usage_continuous_warning_windows)
      × (1 ≤ c.cpu_usage_continuous_critical_windows)
      × (1 ≤ c.cpu_usage_recovery_windows)
  pub rotate_positive : 1 ≤ c.file_rotate_mb
  pub rotate_fits : c.file_rotate_mb ≤ c.cache_max_mb
  pub batch : (1 ≤ c.network_batch_size) × (1 ≤ c.network_flush_interval_ms)
  pub retry : (1 ≤ c.network_retry_base_ms) × (c.network_retry_base_ms ≤ c.network_retry_max_ms)
  pub segment_positive : 1 ≤ c.network_wal_segment_mb
  pub segment_fits : c.network_wal_segment_mb ≤ c.network_wal_max_mb

module _ {W : Type 0} ⦃d : Double W⦄ where
  -- An accepted configuration is the last stage, of one whose memory thresholds are in order.
  pub accepted :
      (c : MonitorConfig W)
      → (validate c).0 ≡ none
      → let m = validate_before_memory (validate_before_clients c) in
        ((validate c).1 ≡ validate_rest m)
        × (m.mem_available_critical_mb ≤ m.mem_available_warning_mb)
        × (all_valid_ipv4 c.metrics_allowed_clients ≡ true)
  unfolding validate validate_before_memory validate_before_clients validate_core
  accepted c h = ground arith

  -- In an accepted configuration, whatever was read, the thresholds that are whole numbers are in
  -- order, the reserve is below the capacity of the queue, files and segments fit their caches, and
  -- the lower bounds of `IsOrdered` hold: of the fast interval, the idle sleeps, the flush interval,
  -- the window counts and windows, and the sizes and limits of queues, logs, batches and targets.
  -- Metrics are on only with a port. Two values are positive where those they are taken from are.
  pub validate-IsOrdered : (c : MonitorConfig W) → (validate c).0 ≡ none → IsOrdered (validate c).1
  unfolding validate_before_memory validate_before_clients validate_rest validate_core
      validate_agent_log validate_queue validate_self_protection validate_sched_delay
      validate_process_memory validate_io_delay validate_cpu_usage validate_persistence
      validate_network
  validate-IsOrdered c h = let (e, memory, clients) = accepted c h in rw e (ground arith)
