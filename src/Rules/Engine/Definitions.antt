-- ===== src/Rules/Engine/Definitions.antt =====
-- src/rules/rule_engine.cpp: the ThresholdRuleDefinition and the flags that each evaluation passes
-- to evaluate_threshold.
use minilisysm.Prelude.{ℕ, ◌*◌, ◌/◌, ◌&&◌, ◌||◌, u32, add64, ltb, leb, if◌then◌else◌}
use minilisysm.Double.{Double, fmax}
use minilisysm.Config.{MonitorConfig}
use minilisysm.Event.{EventType}
use minilisysm.Samples.{IoDelaySample, SchedDelaySample, QueueSnapshot}
use minilisysm.Rules.Threshold.{
  RuleId, ThresholdRuleDefinition, Triggers, less_or_equal, greater_or_equal,
}
use minilisysm.Rules.Events.{percent_of}
use minilisysm.Rules.Engine.{RuleEngine}

abbrev pub total_drop_count : QueueSnapshot → ℕ
total_drop_count s =
    add64 (add64 s.dropped_count s.sink_dropped_count) s.dispatcher_sink_push_failures

abbrev pub total_critical_drop_count : QueueSnapshot → ℕ
total_critical_drop_count s = add64 s.dropped_critical_count s.sink_dropped_critical_count

module _ {W : Type 0} ⦃d : Double W⦄ where
  open d use {of_nat, le, lt}

  abbrev pub memory_rule : MonitorConfig W → ThresholdRuleDefinition W
  memory_rule config = record {
    rule_id = RuleId.memory_pressure;
    event_type = EventType.memory_pressure;
    direction = less_or_equal;
    warning_threshold = of_nat config.mem_available_warning_mb;
    critical_threshold = of_nat config.mem_available_critical_mb;
    recovery_threshold = of_nat config.mem_available_recovery_mb;
    warning_windows = config.continuous_warning_windows;
    critical_windows = config.continuous_critical_windows;
    recovery_windows = config.recovery_windows;
    window_sec = 0;
  }

  abbrev pub self_rss_rule : MonitorConfig W → ThresholdRuleDefinition W
  self_rss_rule config = record {
    rule_id = RuleId.self_rss_pressure;
    event_type = EventType.monitor_memory_pressure;
    direction = greater_or_equal;
    warning_threshold = of_nat config.self_rss_soft_limit_mb;
    critical_threshold = of_nat config.self_rss_hard_limit_mb;
    recovery_threshold = of_nat config.self_rss_recovery_mb;
    warning_windows = config.continuous_warning_windows;
    critical_windows = config.continuous_critical_windows;
    recovery_windows = config.self_recovery_windows;
    window_sec = 0;
  }

  abbrev pub cpu_usage_rule : MonitorConfig W → ThresholdRuleDefinition W
  cpu_usage_rule config = record {
    rule_id = RuleId.cpu_usage;
    event_type = EventType.cpu_usage_risk;
    direction = greater_or_equal;
    warning_threshold = config.cpu_usage_warning_percent;
    critical_threshold = config.cpu_usage_critical_percent;
    recovery_threshold = config.cpu_usage_recovery_percent;
    warning_windows = config.cpu_usage_continuous_warning_windows;
    critical_windows = config.cpu_usage_continuous_critical_windows;
    recovery_windows = config.cpu_usage_recovery_windows;
    window_sec =
        u32 (config.fast_collect_interval_ms * config.cpu_usage_continuous_warning_windows) / 1000;
  }

  abbrev pub process_memory_rule : MonitorConfig W → ThresholdRuleDefinition W
  process_memory_rule config = record {
    rule_id = RuleId.whitelisted_process_memory;
    event_type = EventType.whitelisted_process_memory_risk;
    direction = greater_or_equal;
    warning_threshold = of_nat config.process_memory_growth_warning_mb;
    critical_threshold = of_nat config.process_memory_growth_critical_mb;
    recovery_threshold = of_nat config.process_memory_growth_recovery_mb;
    warning_windows = 1;
    critical_windows = 1;
    recovery_windows = 1;
    window_sec = config.process_memory_growth_window_sec;
  }

  abbrev pub queue_percent : QueueSnapshot → W
  queue_percent s = fmax (percent_of s.depth s.capacity) (percent_of s.sink_depth s.sink_capacity)

  abbrev pub queue_rule : MonitorConfig W → ThresholdRuleDefinition W
  queue_rule config = record {
    rule_id = RuleId.queue_pressure;
    event_type = EventType.queue_pressure;
    direction = greater_or_equal;
    warning_threshold = of_nat config.queue_warning_percent;
    critical_threshold = of_nat config.queue_critical_percent;
    recovery_threshold = of_nat config.queue_recovery_percent;
    warning_windows = config.continuous_warning_windows;
    critical_windows = config.continuous_critical_windows;
    recovery_windows = config.self_recovery_windows;
    window_sec = u32 (config.fast_collect_interval_ms * config.continuous_warning_windows) / 1000;
  }

  -- `new_drop`, `new_critical_drop` and `new_dispatcher_failure`, as they reach the rule.
  unfoldable pub queue_triggers : RuleEngine W → QueueSnapshot → Triggers
  queue_triggers e s =
      let new_drop = ltb e.last_queue_drop_count (total_drop_count s) in
      let new_critical_drop = ltb e.last_queue_critical_drop_count (total_critical_drop_count s) in
      let new_dispatcher_failure =
        ltb e.last_queue_dispatcher_failure_count s.dispatcher_sink_push_failures in
      record {
        external_warning_trigger = new_drop || new_dispatcher_failure;
        external_critical_trigger = new_critical_drop;
        external_recovery_blocked = new_drop || new_dispatcher_failure;
      }

  abbrev pub sched_delay_rule : MonitorConfig W → ThresholdRuleDefinition W
  sched_delay_rule config = record {
    rule_id = RuleId.sched_delay;
    event_type = EventType.sched_delay_risk;
    direction = greater_or_equal;
    warning_threshold = of_nat config.sched_wait_sum_warning_us;
    critical_threshold = of_nat config.sched_wait_sum_critical_us;
    recovery_threshold = of_nat config.sched_wait_sum_recovery_us;
    warning_windows = config.sched_continuous_warning_windows;
    critical_windows = config.sched_continuous_critical_windows;
    recovery_windows = config.sched_recovery_windows;
    window_sec = 0;
  }

  -- `evaluated_wait_us`
  abbrev pub evaluated_wait : MonitorConfig W → SchedDelaySample → W
  evaluated_wait config sample =
      if leb config.sched_involuntary_switch_warning sample.delta_involuntary_switches
      then of_nat sample.delta_wait_sum_us
      else of_nat 0

  abbrev pub io_delay_rule : MonitorConfig W → ThresholdRuleDefinition W
  io_delay_rule config = record {
    rule_id = RuleId.io_delay;
    event_type = EventType.io_delay_risk;
    direction = greater_or_equal;
    warning_threshold = config.io_await_warning_ms;
    critical_threshold = config.io_await_critical_ms;
    recovery_threshold = config.io_await_recovery_ms;
    warning_windows = config.io_continuous_warning_windows;
    critical_windows = config.io_continuous_critical_windows;
    recovery_windows = config.io_recovery_windows;
    window_sec =
        u32 (config.fast_collect_interval_ms * config.io_continuous_warning_windows) / 1000;
  }

  -- `warning_util_hit`, `critical_util_hit` and `recovery_blocked`
  unfoldable pub io_triggers : MonitorConfig W → IoDelaySample W → Triggers
  io_triggers config sample = record {
    external_warning_trigger =
        le config.io_util_warning_percent sample.util_percent && ltb 0 sample.in_flight;
    external_critical_trigger =
        le config.io_util_critical_percent sample.util_percent && ltb 0 sample.in_flight;
    external_recovery_blocked = lt config.io_util_recovery_percent sample.util_percent;
  }
