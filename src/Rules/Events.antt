-- ===== src/Rules/Events.antt =====
-- src/rules/rule_engine.cpp: the events that the rules make. A `make_` function reads the rule's
-- context after its evaluation.
use minilisysm.Prelude.{
  ℕ, ◌-◌, ◌*◌, ◌/◌, [], ◌∷◌, Bytes, codes, negsuc, ℤ, u32, add64, ◌==◌, if◌then◌else◌,
}
use minilisysm.Double.{Double, fmax}
use minilisysm.Config.{MonitorConfig}
use minilisysm.Event.{
  EventLevel, EventStatus, EventType, EvidenceItem, InternalEvent, is_critical, is_recovery,
  copy_cstring, event_target_size, evidence_key_size,
}
use minilisysm.Samples.{CpuUsageSample, SchedDelaySample, IoDelaySample, QueueSnapshot}
use minilisysm.Rules.Threshold.{RuleId, RuleContext, rule_number}

-- set_event_target
abbrev pub event_target : Bytes → Bytes
event_target = copy_cstring (event_target_size - 1)

abbrev pub event_window_sec : EventLevel → ℕ → ℕ → ℕ → ℕ → ℕ
event_window_sec level interval_ms warning_windows critical_windows recovery_windows =
    let windows =
      if is_critical level
      then critical_windows
      else if is_recovery level
      then recovery_windows
      else warning_windows in
    u32 (interval_ms * windows / 1000)

-- `*level == EventLevel::Recovery ? EventStatus::Resolved : EventStatus::Active`
abbrev pub status_of : EventLevel → EventStatus
status_of level = if is_recovery level then EventStatus.resolved else EventStatus.active

-- `depth * 100.0 / capacity`, or 0.0 for no queue
module _ {W : Type 0} ⦃d : Double W⦄ where
  open d use {of_nat, mul, div}

  abbrev pub percent_of : ℕ → ℕ → W
  percent_of part whole =
      if whole == 0 then of_nat 0 else div (mul (of_nat part) (of_nat 100)) (of_nat whole)

  -- set_evidence_key and the value beside it
  abbrev pub evidence_item : Bytes → W → EvidenceItem W
  evidence_item key value = record { key = copy_cstring (evidence_key_size - 1) key; value = value }

  -- A value-initialised InternalEvent.
  abbrev pub blank_event : InternalEvent W
  blank_event = record {
    sequence = 0;
    realtime_ms = 0;
    monotonic_ms = 0;
    boottime_ms = 0;
    rule_id = 0;
    event_type = EventType.monitor_started;
    level = EventLevel.info;
    status = EventStatus.active;
    target = [];
    pid = negsuc 0;
    tid = negsuc 0;
    value = of_nat 0;
    warning_threshold = of_nat 0;
    critical_threshold = of_nat 0;
    window_sec = 0;
    continuous_hit_count = 0;
    first_seen_ms = 0;
    last_seen_ms = 0;
    hit_count = 0;
    evidence_count = 0;
    evidence = [];
  }

  unfoldable pub make_memory_event :
      MonitorConfig W → RuleContext W → EventLevel → EventStatus → W → InternalEvent W
  make_memory_event config context level status value = record blank_event {
    rule_id = rule_number RuleId.memory_pressure;
    event_type = EventType.memory_pressure;
    level = level;
    status = status;
    value = value;
    warning_threshold = of_nat config.mem_available_warning_mb;
    critical_threshold = of_nat config.mem_available_critical_mb;
    window_sec =
        event_window_sec level config.fast_collect_interval_ms config.continuous_warning_windows
          config.continuous_critical_windows config.recovery_windows;
    continuous_hit_count = context.hit_count;
    hit_count = context.total_hit_count;
    evidence_count = 2;
    evidence =
        evidence_item (codes "recovery_threshold_mb") (of_nat config.mem_available_recovery_mb)
        ∷ evidence_item (codes "max_observed_available_mb") context.max_value
        ∷ [];
  }

  unfoldable pub make_self_rss_event :
      MonitorConfig W → RuleContext W → EventLevel → EventStatus → W → InternalEvent W
  make_self_rss_event config context level status value = record blank_event {
    rule_id = rule_number RuleId.self_rss_pressure;
    event_type = EventType.monitor_memory_pressure;
    level = level;
    status = status;
    value = value;
    warning_threshold = of_nat config.self_rss_soft_limit_mb;
    critical_threshold = of_nat config.self_rss_hard_limit_mb;
    window_sec =
        event_window_sec level config.fast_collect_interval_ms config.continuous_warning_windows
          config.continuous_critical_windows config.self_recovery_windows;
    continuous_hit_count = context.hit_count;
    hit_count = context.total_hit_count;
    evidence_count = 2;
    evidence =
        evidence_item (codes "recovery_threshold_mb") (of_nat config.self_rss_recovery_mb)
        ∷ evidence_item (codes "max_observed_rss_mb") context.max_value
        ∷ [];
  }

  unfoldable pub make_cpu_usage_event :
      MonitorConfig W
      → EventLevel
      → EventStatus
      → CpuUsageSample W
      → RuleContext W
      → InternalEvent W
  make_cpu_usage_event config level status sample context = record blank_event {
    rule_id = rule_number RuleId.cpu_usage;
    event_type = EventType.cpu_usage_risk;
    level = level;
    status = status;
    value = sample.usage_percent;
    warning_threshold = config.cpu_usage_warning_percent;
    critical_threshold = config.cpu_usage_critical_percent;
    window_sec =
        event_window_sec level config.fast_collect_interval_ms
          config.cpu_usage_continuous_warning_windows config.cpu_usage_continuous_critical_windows
          config.cpu_usage_recovery_windows;
    continuous_hit_count = context.hit_count;
    hit_count = context.total_hit_count;
    evidence_count = 4;
    target = event_target sample.cpu;
    evidence =
        evidence_item (codes "recovery_percent") config.cpu_usage_recovery_percent
        ∷ evidence_item (codes "max_observed_percent") context.max_value
        ∷ evidence_item (codes "delta_total_jiffies") (of_nat sample.delta_total_jiffies)
        ∷ evidence_item (codes "delta_idle_jiffies") (of_nat sample.delta_idle_jiffies)
        ∷ [];
  }

  unfoldable pub make_process_memory_event :
      MonitorConfig W → Bytes → ℤ → EventLevel → EventStatus → W → RuleContext W → InternalEvent W
  make_process_memory_event config name pid level status growth_mb context = record blank_event {
    rule_id = rule_number RuleId.whitelisted_process_memory;
    event_type = EventType.whitelisted_process_memory_risk;
    level = level;
    status = status;
    value = growth_mb;
    warning_threshold = of_nat config.process_memory_growth_warning_mb;
    critical_threshold = of_nat config.process_memory_growth_critical_mb;
    window_sec = config.process_memory_growth_window_sec;
    continuous_hit_count = context.hit_count;
    hit_count = context.total_hit_count;
    evidence_count = 2;
    target = event_target name;
    pid = pid;
    evidence =
        evidence_item (codes "recovery_growth_mb") (of_nat config.process_memory_growth_recovery_mb)
        ∷ evidence_item (codes "max_growth_mb") context.max_value
        ∷ [];
  }

  unfoldable pub make_queue_event :
      MonitorConfig W
      → RuleContext W
      → EventLevel
      → EventStatus
      → W
      → QueueSnapshot
      → InternalEvent W
  make_queue_event config context level status queue_percent snapshot = record blank_event {
    rule_id = rule_number RuleId.queue_pressure;
    event_type = EventType.queue_pressure;
    level = level;
    status = status;
    value = queue_percent;
    warning_threshold = of_nat config.queue_warning_percent;
    critical_threshold = of_nat config.queue_critical_percent;
    window_sec =
        event_window_sec level config.fast_collect_interval_ms config.continuous_warning_windows
          config.continuous_critical_windows config.self_recovery_windows;
    continuous_hit_count = context.hit_count;
    hit_count = context.total_hit_count;
    evidence_count = 6;
    evidence =
        evidence_item (codes "source_queue_percent") (percent_of snapshot.depth snapshot.capacity)
        ∷ evidence_item (codes "sink_queue_percent")
            (percent_of snapshot.sink_depth snapshot.sink_capacity)
        ∷ evidence_item (codes "total_dropped_count")
            (of_nat (add64 snapshot.dropped_count snapshot.sink_dropped_count))
        ∷ evidence_item (codes "dispatcher_failures")
            (of_nat snapshot.dispatcher_sink_push_failures)
        ∷ evidence_item (codes "critical_dropped_count")
            (of_nat (add64 snapshot.dropped_critical_count snapshot.sink_dropped_critical_count))
        ∷ evidence_item (codes "high_watermark_percent") (
            fmax (percent_of snapshot.high_watermark snapshot.capacity)
              (percent_of snapshot.sink_high_watermark snapshot.sink_capacity))
        ∷ [];
  }

  unfoldable pub make_sched_delay_event :
      MonitorConfig W
      → SchedDelaySample
      → EventLevel
      → EventStatus
      → W
      → RuleContext W
      → InternalEvent W
  make_sched_delay_event config sample level status wait_sum_us context = record blank_event {
    rule_id = rule_number RuleId.sched_delay;
    event_type = EventType.sched_delay_risk;
    level = level;
    status = status;
    value = wait_sum_us;
    warning_threshold = of_nat config.sched_wait_sum_warning_us;
    critical_threshold = of_nat config.sched_wait_sum_critical_us;
    window_sec =
        event_window_sec level config.low_freq_collect_interval_ms
          config.sched_continuous_warning_windows config.sched_continuous_critical_windows
          config.sched_recovery_windows;
    continuous_hit_count = context.hit_count;
    hit_count = context.total_hit_count;
    evidence_count = 6;
    pid = sample.pid;
    tid = sample.tid;
    evidence =
        evidence_item (codes "delta_involuntary_switches")
          (of_nat sample.delta_involuntary_switches)
        ∷ evidence_item (codes "recovery_wait_sum_us") (of_nat config.sched_wait_sum_recovery_us)
        ∷ evidence_item (codes "max_observed_wait_sum_us") context.max_value
        ∷ evidence_item (codes "max_wait_us") (of_nat sample.max_wait_us)
        ∷ evidence_item (codes "avg_wait_us") (of_nat sample.avg_wait_us)
        ∷ evidence_item (codes "aggregate_count") (of_nat sample.aggregate_count)
        ∷ [];
  }

  unfoldable pub make_io_delay_event :
      MonitorConfig W
      → IoDelaySample W
      → EventLevel
      → EventStatus
      → W
      → RuleContext W
      → InternalEvent W
  make_io_delay_event config sample level status await_ms context = record blank_event {
    rule_id = rule_number RuleId.io_delay;
    event_type = EventType.io_delay_risk;
    level = level;
    status = status;
    value = await_ms;
    warning_threshold = config.io_await_warning_ms;
    critical_threshold = config.io_await_critical_ms;
    window_sec =
        event_window_sec level config.low_freq_collect_interval_ms
          config.io_continuous_warning_windows config.io_continuous_critical_windows
          config.io_recovery_windows;
    continuous_hit_count = context.hit_count;
    hit_count = context.total_hit_count;
    evidence_count = 5;
    target = event_target sample.device;
    evidence =
        evidence_item (codes "delta_io_count") (of_nat sample.delta_io_count)
        ∷ evidence_item (codes "util_percent") sample.util_percent
        ∷ evidence_item (codes "in_flight") (of_nat sample.in_flight)
        ∷ evidence_item (codes "recovery_await_ms") config.io_await_recovery_ms
        ∷ evidence_item (codes "max_observed_await_ms") context.max_value
        ∷ [];
  }
