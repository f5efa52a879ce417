-- ===== src/Validate/Groups.antt =====
-- Each group of fields is unchanged by a second validation.
use minilisysm.Prelude.{
  ℕ, ◌≡◌, refl, ◌≢◌, ◌⊎◌, List, [], ◌∷◌, arith, codes, Bytes, to_lower, if◌then◌else◌,
}
use minilisysm.Double.{Double, IsOrdered}
use minilisysm.Config.{
  CoreConfig, AgentLogConfig, QueueConfig, SelfProtectionConfig, SchedDelayConfig,
  ProcessMemoryConfig, IoDelayConfig, CpuUsageConfig, PersistenceConfig, NetworkConfig,
}
use minilisysm.Validate.{
  validate_core, validate_agent_log, validate_queue, validate_self_protection, validate_sched_delay,
  validate_process_memory, validate_io_delay, validate_cpu_usage, validate_persistence,
  validate_network, lower, raised_to, lowered_to, one_of, or_else, at_least, at_most, log_levels,
}
use minilisysm.Validate.Percents.{
  Numbers, to_percent_idem, percents_in_order, le-raised_to, lowered_to-le,
}

pub or_else_idem : (y x : ℕ) → or_else y (or_else y x) ≡ or_else y x
or_else_idem y x = ground arith

pub at_least_idem : (low x : ℕ) → at_least low (at_least low x) ≡ at_least low x
at_least_idem low x = ground arith

pub at_most_idem : (high x : ℕ) → at_most high (at_most high x) ≡ at_most high x
at_most_idem high x = ground arith

-- A refresh that took over `cache` keeps it, unless both were 0.
pub taken_over :
    (low cache x : ℕ)
    → (x ≢ 0) ⊎ (cache ≢ 0)
    → or_else (or_else low cache) (or_else cache x) ≡ or_else cache x
taken_over low cache x h = ground arith

pub choice_idem :
    (allowed : List Bytes) (preset s : Bytes)
    → let t = if one_of allowed s then s else preset in (if one_of allowed t then t else preset) ≡ t
choice_idem allowed preset s = ground arith

pub to_lower_idem : (c : ℕ) → to_lower (to_lower c) ≡ to_lower c
to_lower_idem c = ground arith

pub lower_idem : (s : Bytes) → lower (lower s) ≡ lower s
lower_idem [] = refl
lower_idem (c ∷ s) = cc (to_lower_idem c, lower_idem s)

pub mode_idem :
    (allowed : List Bytes) (preset s : Bytes)
    → lower preset ≡ preset
    → let t = if one_of allowed (lower s) then lower s else preset in
      (if one_of allowed (lower t) then lower t else preset) ≡ t
mode_idem allowed preset s p = ground (arith, lower_idem s)

module _ {W : Type 0} ⦃d : Double W⦄ where
  abbrev pub lower_mode : CpuUsageConfig W → CpuUsageConfig W
  lower_mode c = record c { cpu_usage_mode = lower c.cpu_usage_mode }

  pub cpu_usage_idem :
      IsOrdered W
      → (c : CpuUsageConfig W) → Numbers c
      → validate_cpu_usage (lower_mode (validate_cpu_usage (lower_mode c)))
        ≡ validate_cpu_usage (lower_mode c)
  unfolding validate_cpu_usage
  cpu_usage_idem o c v =
      let w = c.cpu_usage_warning_percent in
      let raised =
        percents_in_order o _ _
          (le-raised_to o w c.cpu_usage_critical_percent v.warning_number v.critical_number) in
      let lowered =
        percents_in_order o _ _
          (lowered_to-le o w c.cpu_usage_recovery_percent v.warning_number v.recovery_number) in
      rw
        (
          mode_idem _ _ c.cpu_usage_mode refl,
          raised,
          lowered,
          to_percent_idem w,
          to_percent_idem (raised_to w c.cpu_usage_critical_percent),
          to_percent_idem (lowered_to w c.cpu_usage_recovery_percent),
          or_else_idem 1 c.cpu_usage_continuous_warning_windows,
          or_else_idem 1 c.cpu_usage_continuous_critical_windows,
          or_else_idem 1 c.cpu_usage_recovery_windows,
        )
        refl

pub core_idem : (c : CoreConfig) → validate_core (validate_core c) ≡ validate_core c
unfolding validate_core
core_idem c = ground arith

pub queue_idem : (c : QueueConfig) → validate_queue (validate_queue c) ≡ validate_queue c
unfolding validate_queue
queue_idem c = ground arith

pub self_protection_idem :
    (c : SelfProtectionConfig)
    → validate_self_protection (validate_self_protection c) ≡ validate_self_protection c
unfolding validate_self_protection
self_protection_idem c = ground arith

pub process_memory_idem :
    (c : ProcessMemoryConfig)
    → validate_process_memory (validate_process_memory c) ≡ validate_process_memory c
unfolding validate_process_memory
process_memory_idem c = ground arith

pub persistence_idem :
    (c : PersistenceConfig) → validate_persistence (validate_persistence c) ≡ validate_persistence c
unfolding validate_persistence
persistence_idem c = ground arith

pub network_idem : (c : NetworkConfig) → validate_network (validate_network c) ≡ validate_network c
unfolding validate_network
network_idem c = ground arith

pub io_delay_idem :
    {W : Type 0} ⦃d : Double W⦄ (c : IoDelayConfig W)
    → validate_io_delay (validate_io_delay c) ≡ validate_io_delay c
unfolding validate_io_delay
io_delay_idem c = ground arith

pub sched_delay_idem :
    (low : ℕ) (c : SchedDelayConfig)
    → (c.sched_ebpf_allowlist_refresh_ms ≢ 0) ⊎ (c.sched_proc_cache_refresh_ms ≢ 0)
    → validate_sched_delay low (validate_sched_delay low c) ≡ validate_sched_delay low c
unfolding validate_sched_delay
sched_delay_idem low c h =
    rw
      (
        at_least_idem c.sched_wait_sum_warning_us c.sched_wait_sum_critical_us,
        or_else_idem c.sched_wait_sum_warning_us c.sched_ebpf_min_wait_us,
        at_least_idem 64 c.sched_ebpf_ringbuf_kb,
        or_else_idem 1 c.sched_ebpf_max_events_per_poll,
        taken_over low c.sched_proc_cache_refresh_ms c.sched_ebpf_allowlist_refresh_ms h,
        or_else_idem 1 c.sched_ebpf_aggregate_window_ms,
        at_least_idem 16 c.sched_ebpf_aggregate_max_entries,
        or_else_idem low c.sched_proc_cache_refresh_ms,
        or_else_idem 1 c.sched_proc_max_scan_threads,
        or_else_idem 1 c.sched_collector_overrun_warning_ms,
        choice_idem (codes "proc" ∷ codes "ebpf" ∷ []) (codes "proc") c.sched_delay_source,
        at_most_idem c.sched_wait_sum_warning_us c.sched_wait_sum_recovery_us,
        or_else_idem 1 c.sched_max_targets,
      )
      refl

abbrev pub lower_log : AgentLogConfig → AgentLogConfig
lower_log c = record c {
  agent_log_level = lower c.agent_log_level;
  agent_log_rotation = lower c.agent_log_rotation;
}

pub agent_log_idem :
    (c : AgentLogConfig)
    → validate_agent_log (lower_log (validate_agent_log (lower_log c)))
      ≡ validate_agent_log (lower_log c)
unfolding validate_agent_log
agent_log_idem c =
    rw
      (
        mode_idem log_levels (codes "info") c.agent_log_level refl,
        mode_idem (codes "size" ∷ codes "daily" ∷ []) (codes "size") c.agent_log_rotation refl,
        or_else_idem 1 c.agent_log_rotate_mb,
        or_else_idem 1 c.agent_log_rotate_files,
        at_least_idem 1024 c.agent_log_async_queue_size,
      )
      refl
