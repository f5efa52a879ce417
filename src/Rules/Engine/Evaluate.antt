-- ===== src/Rules/Engine/Evaluate.antt =====
-- The `evaluate_` functions, and `forget_process_memory`. The clock is read twice where a rule has
-- a context for each key: `now_ms` in the function, `later_ms` in evaluate_threshold.
use mathlib.Core.Option
use minilisysm.Prelude.{
  ℕ, Bool, true, false, not, ◌&&◌, ◌||◌, Option, none, [], Bytes, nat_eq, bytes_equality, ℤ, pos,
  negsuc, ◌==◌, if◌then◌else◌,
}
use minilisysm.Double.{Double}
use minilisysm.Config.{MonitorConfig}
use minilisysm.Event.{InternalEvent}
use minilisysm.Map.{assign, erase}
use minilisysm.Samples.{
  MeminfoSample, CpuUsageSample, IoDelaySample, SchedDelaySample, QueueSnapshot,
}
use minilisysm.Rules.Threshold.{is_disabled, evaluate_threshold}
use minilisysm.Rules.Events.{
  status_of, make_memory_event, make_self_rss_event, make_cpu_usage_event,
  make_process_memory_event, make_queue_event, make_sched_delay_event, make_io_delay_event,
}
use minilisysm.Rules.Engine.{RuleEngine, no_triggers, prune_expired_contexts, context_at, touch}
use minilisysm.Rules.Engine.Definitions.{
  total_drop_count, total_critical_drop_count, memory_rule, self_rss_rule, cpu_usage_rule,
  process_memory_rule, queue_percent, queue_rule, queue_triggers, sched_delay_rule, evaluated_wait,
  io_delay_rule, io_triggers,
}
use minilisysm.Rules.Engine.Keys.{sched_key, process_key}

abbrev pub is_empty : Bytes → Bool
is_empty [] = true
is_empty _ = false

-- `pid <= 0`
abbrev pub not_positive : ℤ → Bool
not_positive (pos n) = n == 0
not_positive (negsuc n) = true

module _ {W : Type 0} ⦃d : Double W⦄ where
  open d use {of_nat, le, lt, mul, div}

  unfoldable pub evaluate_memory :
      MonitorConfig W → ℕ → RuleEngine W → MeminfoSample → Option (InternalEvent W) × RuleEngine W
  evaluate_memory config now_ms e sample =
      let available_mb = div (of_nat sample.mem_available_kb) (of_nat 1024) in
      let (level, context) =
        evaluate_threshold config.cooldown_sec now_ms e.memory (memory_rule config) available_mb
          no_triggers in
      if is_disabled e.memory.state || not sample.valid then (none, e) else (
        Option.map (λ l. make_memory_event config context l (status_of l) available_mb) level,
        record e { memory = context },
      )

  unfoldable pub evaluate_self_rss :
      MonitorConfig W → ℕ → RuleEngine W → ℕ → Option (InternalEvent W) × RuleEngine W
  evaluate_self_rss config now_ms e rss_kb =
      let rss_mb = div (of_nat rss_kb) (of_nat 1024) in
      let (level, context) =
        evaluate_threshold config.cooldown_sec now_ms e.self_rss (self_rss_rule config) rss_mb
          no_triggers in
      if is_disabled e.self_rss.state || rss_kb == 0 then (none, e) else (
        Option.map (λ l. make_self_rss_event config context l (status_of l) rss_mb) level,
        record e { self_rss = context },
      )

  unfoldable pub evaluate_cpu_usage :
      MonitorConfig W
      → ℕ
      → ℕ
      → RuleEngine W
      → CpuUsageSample W
      → Option (InternalEvent W) × RuleEngine W
  evaluate_cpu_usage config now_ms later_ms e sample =
      let pruned =
        prune_expired_contexts config now_ms
          (record e { cpu_usage = touch sample.cpu now_ms e.cpu_usage }) in
      let (level, context) =
        evaluate_threshold config.cooldown_sec later_ms (context_at sample.cpu pruned.cpu_usage)
          (cpu_usage_rule config) sample.usage_percent no_triggers in
      if not config.cpu_usage_enable || not sample.valid || is_empty sample.cpu
      then (none, e)
      else (
        Option.map (λ l. make_cpu_usage_event config l (status_of l) sample context) level,
        record pruned { cpu_usage = assign sample.cpu context pruned.cpu_usage },
      )

  unfoldable pub evaluate_process_memory_growth :
      MonitorConfig W
      → ℕ
      → ℕ
      → RuleEngine W
      → Bytes
      → ℤ
      → W
      → Option (InternalEvent W) × RuleEngine W
  evaluate_process_memory_growth config now_ms later_ms e name pid growth_mb =
      let key = process_key name pid in
      let pruned =
        prune_expired_contexts config now_ms
          (record e { process_memory = touch key now_ms e.process_memory }) in
      let (level, context) =
        evaluate_threshold config.cooldown_sec later_ms (context_at key pruned.process_memory)
          (process_memory_rule config) growth_mb no_triggers in
      if not config.process_memory_enable || is_empty name || not_positive pid then (none, e) else (
        Option.map
            (λ l. make_process_memory_event config name pid l (status_of l) growth_mb context)
            level,
        record pruned { process_memory = assign key context pruned.process_memory },
      )

  unfoldable pub forget_process_memory : RuleEngine W → Bytes → ℤ → RuleEngine W
  forget_process_memory e name pid = record e {
    process_memory = erase (process_key name pid) e.process_memory;
  }

  unfoldable pub evaluate_queue :
      MonitorConfig W → ℕ → RuleEngine W → QueueSnapshot → Option (InternalEvent W) × RuleEngine W
  evaluate_queue config now_ms e snapshot =
      let (level, context) =
        evaluate_threshold config.cooldown_sec now_ms e.queue (queue_rule config)
          (queue_percent snapshot) (queue_triggers e snapshot) in
      if is_disabled e.queue.state || snapshot.capacity == 0 && snapshot.sink_capacity == 0
      then (none, e)
      else (
        Option.map
            (λ l. make_queue_event config context l (status_of l) (queue_percent snapshot) snapshot)
            level,
        record e {
          queue = context;
          last_queue_drop_count = total_drop_count snapshot;
          last_queue_critical_drop_count = total_critical_drop_count snapshot;
          last_queue_dispatcher_failure_count = snapshot.dispatcher_sink_push_failures;
        },
      )

  unfoldable pub evaluate_sched_delay :
      MonitorConfig W
      → ℕ
      → ℕ
      → RuleEngine W
      → SchedDelaySample
      → Option (InternalEvent W) × RuleEngine W
  evaluate_sched_delay config now_ms later_ms e sample =
      let key = sched_key sample.pid sample.tid in
      let pruned =
        prune_expired_contexts config now_ms
          (record e { sched_delay = touch key now_ms e.sched_delay }) in
      let (level, context) =
        evaluate_threshold config.cooldown_sec later_ms (context_at key pruned.sched_delay)
          (sched_delay_rule config) (evaluated_wait config sample) no_triggers in
      if not config.sched_delay_enable || not sample.valid then (none, e) else (
        Option.map
            (λ l.
              make_sched_delay_event config sample l (status_of l) (of_nat sample.delta_wait_sum_us)
                context)
            level,
        record pruned { sched_delay = assign key context pruned.sched_delay },
      )

  unfoldable pub evaluate_io_delay :
      MonitorConfig W
      → ℕ
      → ℕ
      → RuleEngine W
      → IoDelaySample W
      → Option (InternalEvent W) × RuleEngine W
  evaluate_io_delay config now_ms later_ms e sample =
      let pruned =
        prune_expired_contexts config now_ms
          (record e { io_delay = touch sample.device now_ms e.io_delay }) in
      let (level, context) =
        evaluate_threshold config.cooldown_sec later_ms (context_at sample.device pruned.io_delay)
          (io_delay_rule config) sample.avg_await_ms (io_triggers config sample) in
      if not config.io_delay_enable || not sample.valid || is_empty sample.device
      then (none, e)
      else (
        Option.map
            (λ l. make_io_delay_event config sample l (status_of l) sample.avg_await_ms context)
            level,
        record pruned { io_delay = assign sample.device context pruned.io_delay },
      )
