-- ===== src/Rules/Tests.antt =====
-- Runs of the rules at concrete inputs, with whole numbers for doubles, and each theorem at one.
use minilisysm.Prelude.{
  nat_eq, bytes_equality, bytes_eq, ℕ, ◌+◌, ◌*◌, ◌≤◌, ◌≡◌, refl, ◌≢◌, ◌⊎◌, inr, true, false, some,
  none, List, [], ◌∷◌, ◌++◌, ℤ, pos, arith, codes,
}
use minilisysm.Double.{whole_double}
use minilisysm.Config.{MonitorConfig, default_config}
use minilisysm.Event.{EventLevel, EventType, InternalEvent}
use minilisysm.Map.{find}
use minilisysm.Samples.{MeminfoSample, SchedDelaySample, QueueSnapshot}
use minilisysm.Rules.Threshold.{
  RuleState, RuleId, RuleContext, ThresholdRuleDefinition, greater_or_equal, fresh_context,
  evaluate_threshold, on_critical, on_warning, on_recovered, recovered, cooldown_active,
}
use minilisysm.Rules.Trace.{Reading, run, notify_all, quiet}
use minilisysm.Rules.Debounce.{
  streak, latest_first, is_hit, is_critical_hit, is_recovered, warning_debounced,
  critical_debounced, recovery_debounced,
}
use minilisysm.Rules.Cooldown.{warning_respects_cooldown}
use minilisysm.Rules.Liveness.{persistent_hits_raise, critical_count_survives_recovery}
use minilisysm.Rules.Events.{make_memory_event}
use minilisysm.Rules.Engine.{RuleEngine, init, no_triggers, expired}
use minilisysm.Prelude.Decimal.{to_string, decimal}
use minilisysm.Rules.Engine.Keys.{sched_key, process_key}
use minilisysm.Rules.Engine.Definitions.{queue_triggers}
use minilisysm.Rules.Engine.Evaluate.{
  evaluate_memory, evaluate_queue, evaluate_sched_delay, evaluate_process_memory_growth,
}
use minilisysm.Rules.Engine.Calls
use minilisysm.Rules.Engine.Calls.{Call, rule_of}
use minilisysm.Rules.Engine.Reports.{Reports, evaluate-Reports}
use minilisysm.Rules.Engine.Contexts.{sched_delay_isolated, process_memory_isolated}
use minilisysm.Rules.Engine.Drops.{drops_trigger_once}
use minilisysm.Rules.Engine.Order.{SingleRule, levels, engine_notifications_in_order}

-- Warn at 80 after three samples, alarm at 95 after two, recover at 60 after two.
abbrev cpu_rule : ThresholdRuleDefinition ℕ
cpu_rule = record {
  rule_id = RuleId.cpu_usage;
  event_type = EventType.cpu_usage_risk;
  direction = greater_or_equal;
  warning_threshold = 80;
  critical_threshold = 95;
  recovery_threshold = 60;
  warning_windows = 3;
  critical_windows = 2;
  recovery_windows = 2;
  window_sec = 3;
}

abbrev at : ℕ → ℕ → Reading ℕ
at now_ms value = record { now_ms = now_ms; value = value; triggers = no_triggers }

abbrev two_hits : List (Reading ℕ)
two_hits = at 1000 85 ∷ at 2000 85 ∷ []

abbrev raised : List (Reading ℕ)
raised = at 1000 85 ∷ at 2000 85 ∷ at 3000 85 ∷ []

warns_after_three :
    (run 60 cpu_rule fresh_context raised).0 ≡ none ∷ none ∷ some EventLevel.warning ∷ []
unfolding run evaluate_threshold on_warning cooldown_active
warns_after_three = refl

warning_debounced_example :
    (false ≡ true) ⊎ (3 ≤ streak (is_hit cpu_rule) (at 3000 85 ∷ latest_first [] two_hits))
unfolding run evaluate_threshold on_warning cooldown_active
warning_debounced_example = warning_debounced 60 cpu_rule two_hits (at 3000 85) refl

critical_debounced_example :
    (false ≡ true)
    ⊎ (2 ≤ streak (is_critical_hit cpu_rule) (at 2000 99 ∷ latest_first [] (at 1000 99 ∷ [])))
unfolding run evaluate_threshold on_critical
critical_debounced_example = critical_debounced 60 cpu_rule (at 1000 99 ∷ []) (at 2000 99) refl refl

recovery_debounced_example :
    2 ≤ streak (is_recovered cpu_rule) (at 5000 10 ∷ latest_first [] (raised ++ at 4000 10 ∷ []))
unfolding run evaluate_threshold on_warning on_recovered recovered cooldown_active
recovery_debounced_example =
    recovery_debounced 60 cpu_rule (raised ++ at 4000 10 ∷ []) (at 5000 10) refl

-- An alarm at 2000, recovered at 4000, and hits until the warning is due.
abbrev after_alarm : List (Reading ℕ)
after_alarm = at 3000 10 ∷ at 4000 10 ∷ at 60000 85 ∷ at 61000 85 ∷ []

warning_respects_cooldown_example : 2000 + 60 * 1000 ≤ 62000
unfolding run evaluate_threshold on_critical on_warning on_recovered recovered cooldown_active
warning_respects_cooldown_example =
    warning_respects_cooldown 60 cpu_rule (record fresh_context { critical_hit_count = 1 })
      (at 2000 99) after_alarm (at 62000 85)
      (omega arith, (omega arith, (omega arith, (omega arith, (omega arith, tt))))) (omega arith)
      (omega arith) (omega arith) (inr refl) refl

-- A millisecond earlier the warning is held back.
test_cooldown :
    (run 60 cpu_rule
      (record fresh_context { critical_hit_count = 1 })
      (at 2000 99 ∷ after_alarm ++ at 61999 85 ∷ [])).0
    ≡ some EventLevel.critical ∷ none ∷ some EventLevel.recovery ∷ none ∷ none ∷ none ∷ []
unfolding run evaluate_threshold on_critical on_warning on_recovered recovered cooldown_active
test_cooldown = refl

persistent_hits_raise_example :
    (run 60 cpu_rule fresh_context (two_hits ++ at 3000 85 ∷ [])).1.state ≢ RuleState.normal
persistent_hits_raise_example =
    persistent_hits_raise 60 cpu_rule fresh_context two_hits (at 3000 85) (refl, (refl, tt)) refl
      refl (omega arith) (omega arith)

-- Five windows for an alarm, with three for a warning.
abbrev slow_alarm : ThresholdRuleDefinition ℕ
slow_alarm = record cpu_rule { critical_windows = 5 }

abbrev four_critical : List (Reading ℕ)
four_critical = at 1000 99 ∷ at 2000 99 ∷ at 3000 99 ∷ at 4000 99 ∷ []

-- In the warning state, with one critical sample seen.
abbrev warned_context : RuleContext ℕ
warned_context = record fresh_context {
  state = RuleState.warning;
  hit_count = 4;
  critical_hit_count = 1;
}

critical_count_survives_recovery_example :
    (run 60 cpu_rule warned_context (at 5000 10 ∷ at 6000 99 ∷ [])).0
    ≡ none ∷ some EventLevel.critical ∷ []
unfolding recovered
critical_count_survives_recovery_example =
    critical_count_survives_recovery 60 cpu_rule warned_context (at 5000 10) (at 6000 99) refl
      (omega arith) (omega arith) refl (omega arith) (omega arith) refl

abbrev config : MonitorConfig ℕ
config = default_config

abbrev low_memory : MeminfoSample
low_memory = record {
  mem_total_kb = 1000;
  mem_available_kb = 1024;
  swap_free_kb = 0;
  sreclaimable_kb = 0;
  sunreclaim_kb = 0;
  valid = true;
}

abbrev at_brink : RuleEngine ℕ
at_brink = record (init config) { memory = record fresh_context { critical_hit_count = 1 } }

abbrev brink_event : InternalEvent ℕ
brink_event =
    make_memory_event config
      (record fresh_context {
        state = RuleState.critical;
        hit_count = 1;
        critical_hit_count = 2;
        total_hit_count = 1;
        last_seen_ms = 5000;
        last_activation_event_ms = 5000;
        notification_active = true;
        max_value = 1;
      })
      EventLevel.critical minilisysm.Event.EventStatus.active 1

evaluate-Reports_example : Reports (rule_of config (Call.memory low_memory)) brink_event
unfolding Calls.evaluate evaluate_memory evaluate_threshold on_critical init
evaluate-Reports_example =
    evaluate-Reports config 5000 5000 at_brink (Call.memory low_memory) brink_event refl

abbrev wait_of : ℤ → ℤ → SchedDelaySample
wait_of pid tid = record {
  pid = pid;
  tid = tid;
  delta_wait_sum_us = 50000;
  delta_involuntary_switches = 200;
  max_wait_us = 0;
  avg_wait_us = 0;
  aggregate_count = 0;
  valid = true;
}

abbrev with_thread : RuleEngine ℕ
with_thread = record (init config) { sched_delay = (sched_key (pos 4) (pos 5), fresh_context) ∷ [] }

sched_delay_isolated_example :
    find
      (sched_key (pos 4) (pos 5))
      (evaluate_sched_delay config 5000 5001 with_thread (wait_of (pos 4) (pos 6))).1.sched_delay
    ≡ some fresh_context
unfolding find sched_key expired
sched_delay_isolated_example =
    sched_delay_isolated config 5000 5001 with_thread (wait_of (pos 4) (pos 6)) (pos 4) (pos 5)
      fresh_context (omega arith) (omega arith) (omega arith) (omega arith) (λ _ e. cc) refl refl

abbrev with_process : RuleEngine ℕ
with_process = record (init config) {
  process_memory = (process_key (codes "a") (pos 42), fresh_context) ∷ [];
}

process_memory_isolated_example :
    find
      (process_key (codes "a") (pos 42))
      (evaluate_process_memory_growth config 5000 5001 with_process
        (codes "a")
        (pos 43)
        300).1.process_memory
    ≡ some fresh_context
unfolding find expired process_key to_string decimal bytes_eq
process_memory_isolated_example =
    process_memory_isolated config 5000 5001 with_process (codes "a") (codes "a") 43 42 300
      fresh_context (omega arith) (omega arith) (λ _ e. omega arith) refl refl

abbrev lossy : QueueSnapshot
lossy = record {
  push_fail_count = 3;
  dropped_count = 2;
  dropped_critical_count = 1;
  reserve_reject_count = 0;
  dispatcher_sink_push_failures = 0;
  sink_dropped_count = 0;
  sink_dropped_critical_count = 0;
  sink_reserve_reject_count = 0;
  depth = 0;
  capacity = 16;
  high_watermark = 16;
  sink_depth = 0;
  sink_capacity = 16;
  sink_high_watermark = 3;
}

drops_trigger_once_example :
    queue_triggers (evaluate_queue config 5000 (init config) lossy).1 lossy ≡ no_triggers
unfolding init
drops_trigger_once_example =
    drops_trigger_once config 5000 (init config) lossy (λ e. cc) (omega arith)

engine_notifications_in_order_example :
    notify_all quiet (
      levels config SingleRule.queue_rule
        (init config)
        (record { now_ms = 5000; later_ms = 5000; call = Call.queue lossy } ∷ []))
    ≢ none
engine_notifications_in_order_example =
    engine_notifications_in_order config SingleRule.queue_rule
      (record { now_ms = 5000; later_ms = 5000; call = Call.queue lossy } ∷ [])
