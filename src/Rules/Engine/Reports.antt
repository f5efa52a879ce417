-- ===== src/Rules/Engine/Reports.antt =====
-- What every event of the engine says of the rule that made it.
use mathlib.Core.Option
use minilisysm.Prelude.{
  ℕ, zero, suc, ◌≤◌, ◌≡◌, ◌≢◌, refl, Bool, true, false, Option, none, some, [], ◌∷◌, Bytes, arith,
  length, subst, ap, ◌<◌, ℤ, if◌then◌else◌,
}
use minilisysm.Double.{Double}
use minilisysm.Config.{MonitorConfig}
use minilisysm.Event.{EventLevel, InternalEvent, copy_cstring, max_evidence, event_target_size}
use minilisysm.Rules.Threshold.{
  RuleContext, ThresholdRuleDefinition, Triggers, rule_number, evaluate_threshold, on_critical,
  on_warning, on_recovered,
}
use minilisysm.Rules.Events.{
  status_of, make_memory_event, make_self_rss_event, make_cpu_usage_event,
  make_process_memory_event, make_queue_event, make_sched_delay_event, make_io_delay_event,
}
use minilisysm.Samples.{CpuUsageSample, IoDelaySample, SchedDelaySample, QueueSnapshot}
use minilisysm.Rules.Engine.{RuleEngine}
use minilisysm.Rules.Engine.Definitions.{
  memory_rule, self_rss_rule, cpu_usage_rule, process_memory_rule, queue_rule, sched_delay_rule,
  io_delay_rule,
}
use minilisysm.Rules.Engine.Evaluate.{
  evaluate_memory, evaluate_self_rss, evaluate_cpu_usage, evaluate_process_memory_growth,
  evaluate_queue, evaluate_sched_delay, evaluate_io_delay,
}
use minilisysm.Rules.Engine.Calls.{
  Call, memory, self_rss, cpu_usage, process_memory, forget, queue, sched_delay, io_delay, evaluate,
  rule_of,
}

length-copy_cstring : (n : ℕ) (s : Bytes) → length (copy_cstring n s) ≤ n
unfolding copy_cstring
length-copy_cstring zero s = omega arith
length-copy_cstring (suc n) [] = omega arith
length-copy_cstring (suc n) (c ∷ s) = ground (arith, length-copy_cstring n s)

module _ {W : Type 0} ⦃d : Double W⦄ where
  -- The event names its rule, shows the thresholds that were compared with, is resolved exactly
  -- when it is a recovery, and fits its fixed arrays.
  pub record Reports (rule : ThresholdRuleDefinition W) (ev : InternalEvent W) : Type 0 where
    pub names_rule : ev.rule_id ≡ rule_number rule.rule_id
    pub names_type : ev.event_type ≡ rule.event_type
    pub shows_warning : ev.warning_threshold ≡ rule.warning_threshold
    pub shows_critical : ev.critical_threshold ≡ rule.critical_threshold
    pub not_info : ev.level ≢ EventLevel.info
    pub resolved_on_recovery : ev.status ≡ status_of ev.level
    pub evidence_counted : ev.evidence_count ≡ length ev.evidence
    pub evidence_fits : length ev.evidence ≤ max_evidence
    pub target_fits : length ev.target < event_target_size

  level-ne-info :
      (cooldown_sec now_ms : ℕ) (c : RuleContext W) (rule : ThresholdRuleDefinition W) (value : W)
      (t : Triggers)
      → (evaluate_threshold cooldown_sec now_ms c rule value t).0 ≢ some EventLevel.info
  unfolding evaluate_threshold on_critical on_warning on_recovered
  level-ne-info cooldown_sec now_ms c rule value t = ground arith

  -- An event out of a level that is not info.
  Reports-map :
      (rule : ThresholdRuleDefinition W) (make : EventLevel → InternalEvent W)
      (level : Option EventLevel)
      → level ≢ some EventLevel.info
      → ((l : EventLevel) → l ≢ EventLevel.info → Reports rule (make l))
      → (ev : InternalEvent W) → Option.map make level ≡ some ev
      → Reports rule ev
  Reports-map rule make none ne made ev e = cc
  Reports-map rule make (some l) ne made ev e =
      subst (Reports rule) (ground arith) (made l (λ i. ne (ap some i)))

  make_memory_event-Reports :
      (config : MonitorConfig W) (c : RuleContext W) (v : W) (l : EventLevel)
      → l ≢ EventLevel.info
      → Reports (memory_rule config) (make_memory_event config c l (status_of l) v)
  unfolding make_memory_event
  make_memory_event-Reports config c v l ne = record {
    names_rule = refl;
    names_type = refl;
    shows_warning = refl;
    shows_critical = refl;
    not_info = ne;
    resolved_on_recovery = refl;
    evidence_counted = refl;
    evidence_fits = omega arith;
    target_fits = omega arith;
  }

  make_self_rss_event-Reports :
      (config : MonitorConfig W) (c : RuleContext W) (v : W) (l : EventLevel)
      → l ≢ EventLevel.info
      → Reports (self_rss_rule config) (make_self_rss_event config c l (status_of l) v)
  unfolding make_self_rss_event
  make_self_rss_event-Reports config c v l ne = record {
    names_rule = refl;
    names_type = refl;
    shows_warning = refl;
    shows_critical = refl;
    not_info = ne;
    resolved_on_recovery = refl;
    evidence_counted = refl;
    evidence_fits = omega arith;
    target_fits = omega arith;
  }

  make_cpu_usage_event-Reports :
      (config : MonitorConfig W) (c : RuleContext W) (s : CpuUsageSample W) (l : EventLevel)
      → l ≢ EventLevel.info
      → Reports (cpu_usage_rule config) (make_cpu_usage_event config l (status_of l) s c)
  unfolding make_cpu_usage_event
  make_cpu_usage_event-Reports config c s l ne = record {
    names_rule = refl;
    names_type = refl;
    shows_warning = refl;
    shows_critical = refl;
    not_info = ne;
    resolved_on_recovery = refl;
    evidence_counted = refl;
    evidence_fits = omega arith;
    target_fits = omega (arith, length-copy_cstring 31 s.cpu);
  }

  make_process_memory_event-Reports :
      (config : MonitorConfig W) (c : RuleContext W) (name : Bytes) (pid : ℤ) (v : W)
      (l : EventLevel)
      → l ≢ EventLevel.info
      → Reports
          (process_memory_rule config)
          (make_process_memory_event config name pid l (status_of l) v c)
  unfolding make_process_memory_event
  make_process_memory_event-Reports config c name pid v l ne = record {
    names_rule = refl;
    names_type = refl;
    shows_warning = refl;
    shows_critical = refl;
    not_info = ne;
    resolved_on_recovery = refl;
    evidence_counted = refl;
    evidence_fits = omega arith;
    target_fits = omega (arith, length-copy_cstring 31 name);
  }

  make_queue_event-Reports :
      (config : MonitorConfig W) (c : RuleContext W) (s : QueueSnapshot) (v : W) (l : EventLevel)
      → l ≢ EventLevel.info
      → Reports (queue_rule config) (make_queue_event config c l (status_of l) v s)
  unfolding make_queue_event
  make_queue_event-Reports config c s v l ne = record {
    names_rule = refl;
    names_type = refl;
    shows_warning = refl;
    shows_critical = refl;
    not_info = ne;
    resolved_on_recovery = refl;
    evidence_counted = refl;
    evidence_fits = omega arith;
    target_fits = omega arith;
  }

  make_sched_delay_event-Reports :
      (config : MonitorConfig W) (c : RuleContext W) (s : SchedDelaySample) (v : W) (l : EventLevel)
      → l ≢ EventLevel.info
      → Reports (sched_delay_rule config) (make_sched_delay_event config s l (status_of l) v c)
  unfolding make_sched_delay_event
  make_sched_delay_event-Reports config c s v l ne = record {
    names_rule = refl;
    names_type = refl;
    shows_warning = refl;
    shows_critical = refl;
    not_info = ne;
    resolved_on_recovery = refl;
    evidence_counted = refl;
    evidence_fits = omega arith;
    target_fits = omega arith;
  }

  make_io_delay_event-Reports :
      (config : MonitorConfig W) (c : RuleContext W) (s : IoDelaySample W) (v : W) (l : EventLevel)
      → l ≢ EventLevel.info
      → Reports (io_delay_rule config) (make_io_delay_event config s l (status_of l) v c)
  unfolding make_io_delay_event
  make_io_delay_event-Reports config c s v l ne = record {
    names_rule = refl;
    names_type = refl;
    shows_warning = refl;
    shows_critical = refl;
    not_info = ne;
    resolved_on_recovery = refl;
    evidence_counted = refl;
    evidence_fits = omega arith;
    target_fits = omega (arith, length-copy_cstring 31 s.device);
  }

  -- An event behind the early return of an evaluation.
  past_guard :
      {E : Type 0} (skip : Bool) (e e' : E) (o : Option (InternalEvent W)) (ev : InternalEvent W)
      → (let r : Option (InternalEvent W) × E = if skip then (none, e) else (o, e') in r.0)
        ≡ some ev
      → o ≡ some ev
  past_guard true e e' o ev h = cc
  past_guard false e e' o ev h = h

  -- Every event that the engine returns names the rule of its call and its type, shows the
  -- thresholds that were compared with, is not info, is resolved exactly when it is a recovery,
  -- counts its evidence, and fits its fixed arrays.
  pub evaluate-Reports :
      (config : MonitorConfig W) (now_ms later_ms : ℕ) (e : RuleEngine W) (call : Call W)
      (ev : InternalEvent W)
      → (evaluate config now_ms later_ms e call).0 ≡ some ev
      → Reports (rule_of config call) ev
  unfolding evaluate evaluate_memory evaluate_self_rss evaluate_cpu_usage
      evaluate_process_memory_growth evaluate_queue evaluate_sched_delay evaluate_io_delay
  evaluate-Reports config now_ms later_ms e (memory s) ev h =
      Reports-map (memory_rule config) _ _ (level-ne-info config.cooldown_sec _ _ _ _ _)
        (λ l ne. make_memory_event-Reports config _ _ l ne) ev (past_guard _ _ _ _ ev h)
  evaluate-Reports config now_ms later_ms e (self_rss kb) ev h =
      Reports-map (self_rss_rule config) _ _ (level-ne-info config.cooldown_sec _ _ _ _ _)
        (λ l ne. make_self_rss_event-Reports config _ _ l ne) ev (past_guard _ _ _ _ ev h)
  evaluate-Reports config now_ms later_ms e (cpu_usage s) ev h =
      Reports-map (cpu_usage_rule config) _ _ (level-ne-info config.cooldown_sec _ _ _ _ _)
        (λ l ne. make_cpu_usage_event-Reports config _ s l ne) ev (past_guard _ _ _ _ ev h)
  evaluate-Reports config now_ms later_ms e (process_memory name pid growth_mb) ev h =
      Reports-map (process_memory_rule config) _ _ (level-ne-info config.cooldown_sec _ _ _ _ _)
        (λ l ne. make_process_memory_event-Reports config _ name pid growth_mb l ne) ev
        (past_guard _ _ _ _ ev h)
  evaluate-Reports config now_ms later_ms e (forget name pid) ev h = cc
  evaluate-Reports config now_ms later_ms e (queue s) ev h =
      Reports-map (queue_rule config) _ _ (level-ne-info config.cooldown_sec _ _ _ _ _)
        (λ l ne. make_queue_event-Reports config _ s _ l ne) ev (past_guard _ _ _ _ ev h)
  evaluate-Reports config now_ms later_ms e (sched_delay s) ev h =
      Reports-map (sched_delay_rule config) _ _ (level-ne-info config.cooldown_sec _ _ _ _ _)
        (λ l ne. make_sched_delay_event-Reports config _ s _ l ne) ev (past_guard _ _ _ _ ev h)
  evaluate-Reports config now_ms later_ms e (io_delay s) ev h =
      Reports-map (io_delay_rule config) _ _ (level-ne-info config.cooldown_sec _ _ _ _ _)
        (λ l ne. make_io_delay_event-Reports config _ s _ l ne) ev (past_guard _ _ _ _ ev h)
