-- ===== src/Rules/Engine/Calls.antt =====
-- The calls that a RuleEngine gets, as one type, and sequences of them.
use minilisysm.Prelude.{ℕ, Option, none, Bytes, ℤ}
use minilisysm.Double.{Double}
use minilisysm.Config.{MonitorConfig}
use minilisysm.Event.{InternalEvent}
use minilisysm.Samples.{
  MeminfoSample, CpuUsageSample, IoDelaySample, SchedDelaySample, QueueSnapshot,
}
use minilisysm.Rules.Threshold.{ThresholdRuleDefinition}
use minilisysm.Rules.Engine.{RuleEngine}
use minilisysm.Rules.Engine.Definitions.{
  memory_rule, self_rss_rule, cpu_usage_rule, process_memory_rule, queue_rule, sched_delay_rule,
  io_delay_rule,
}
use minilisysm.Rules.Engine.Evaluate.{
  evaluate_memory, evaluate_self_rss, evaluate_cpu_usage, evaluate_process_memory_growth,
  forget_process_memory, evaluate_queue, evaluate_sched_delay, evaluate_io_delay,
}

pub data Call (W : Type 0) : Type 0 where
  memory : MeminfoSample → Call W
  self_rss : ℕ → Call W
  cpu_usage : CpuUsageSample W → Call W
  process_memory : Bytes → ℤ → W → Call W
  forget : Bytes → ℤ → Call W
  queue : QueueSnapshot → Call W
  sched_delay : SchedDelaySample → Call W
  io_delay : IoDelaySample W → Call W

module _ {W : Type 0} ⦃d : Double W⦄ (config : MonitorConfig W) where
  -- A call at `now_ms`, with `later_ms` on the clock when it gets to evaluate_threshold.
  unfoldable pub evaluate : ℕ → ℕ → RuleEngine W → Call W → Option (InternalEvent W) × RuleEngine W
  evaluate now_ms later_ms e (memory s) = evaluate_memory config now_ms e s
  evaluate now_ms later_ms e (self_rss kb) = evaluate_self_rss config now_ms e kb
  evaluate now_ms later_ms e (cpu_usage s) = evaluate_cpu_usage config now_ms later_ms e s
  evaluate now_ms later_ms e (process_memory name pid growth_mb) =
      evaluate_process_memory_growth config now_ms later_ms e name pid growth_mb
  evaluate now_ms later_ms e (forget name pid) = (none, forget_process_memory e name pid)
  evaluate now_ms later_ms e (queue s) = evaluate_queue config now_ms e s
  evaluate now_ms later_ms e (sched_delay s) = evaluate_sched_delay config now_ms later_ms e s
  evaluate now_ms later_ms e (io_delay s) = evaluate_io_delay config now_ms later_ms e s

  -- The rule that a call evaluates.
  abbrev pub rule_of : Call W → ThresholdRuleDefinition W
  rule_of (memory s) = memory_rule config
  rule_of (self_rss kb) = self_rss_rule config
  rule_of (cpu_usage s) = cpu_usage_rule config
  rule_of (process_memory name pid growth_mb) = process_memory_rule config
  rule_of (forget name pid) = process_memory_rule config
  rule_of (queue s) = queue_rule config
  rule_of (sched_delay s) = sched_delay_rule config
  rule_of (io_delay s) = io_delay_rule config
