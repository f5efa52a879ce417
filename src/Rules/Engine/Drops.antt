-- ===== src/Rules/Engine/Drops.antt =====
-- evaluate_queue: how lost events reach the queue rule.
use mathlib.Core.Option
use minilisysm.Prelude.{ℕ, ◌<◌, ◌≡◌, ◌≢◌, refl, true, false, ◌||◌, ◌&&◌, ◌==◌, some, arith}
use minilisysm.Double.{Double}
use minilisysm.Config.{MonitorConfig}
use minilisysm.Event.{EventLevel}
use minilisysm.Samples.{QueueSnapshot}
use minilisysm.Rules.Threshold.{
  RuleState, RuleContext, ThresholdRuleDefinition, Triggers, is_disabled, evaluate_threshold,
  on_critical,
}
use minilisysm.Rules.Events.{make_queue_event}
use minilisysm.Rules.Engine.{RuleEngine, no_triggers}
use minilisysm.Rules.Engine.Definitions.{
  total_critical_drop_count, queue_percent, queue_rule, queue_triggers,
}
use minilisysm.Rules.Engine.Evaluate.{evaluate_queue}

module _ {W : Type 0} ⦃d : Double W⦄ (config : MonitorConfig W) where
  -- A loss is reported to the queue rule once: after an evaluation of an enabled rule on a queue
  -- with capacity, the same snapshot triggers nothing.
  pub drops_trigger_once :
      (now_ms : ℕ) (e : RuleEngine W) (s : QueueSnapshot)
      → e.queue.state ≢ RuleState.disabled
      → s.capacity ≢ 0
      → queue_triggers (evaluate_queue config now_ms e s).1 s ≡ no_triggers
  unfolding evaluate_queue queue_triggers
  drops_trigger_once now_ms e s live on = ground arith

  forced_critical :
      (cooldown_sec now_ms : ℕ) (c : RuleContext W) (rule : ThresholdRuleDefinition W) (value : W)
      (t : Triggers)
      → t.external_critical_trigger ≡ true
      → c.state ≢ RuleState.critical
      → let (l, c') = evaluate_threshold cooldown_sec now_ms c rule value t in
        (l ≡ some EventLevel.critical) × (c'.state ≡ RuleState.critical)
  unfolding evaluate_threshold on_critical
  forced_critical cooldown_sec now_ms c rule value t lost calm = ground arith

  -- A critical event that was lost since the last evaluation raises an enabled queue rule that is
  -- not critical to critical at once, with a critical event, however full the queue is and however
  -- many windows are configured.
  pub critical_loss_alerts :
      (now_ms : ℕ) (e : RuleEngine W) (s : QueueSnapshot)
      → e.queue.state ≢ RuleState.disabled
      → s.capacity ≢ 0
      → e.queue.state ≢ RuleState.critical
      → e.last_queue_critical_drop_count < total_critical_drop_count s
      → let (ev, e') = evaluate_queue config now_ms e s in
        (Option.map (λ v. v.level) ev ≡ some EventLevel.critical)
        × (e'.queue.state ≡ RuleState.critical)
  unfolding evaluate_queue queue_triggers make_queue_event
  critical_loss_alerts now_ms e s live on calm lost =
      let skip : (is_disabled e.queue.state || (s.capacity == 0 && s.sink_capacity == 0)) ≡ false =
        ground arith in
      let (l, st) =
        forced_critical config.cooldown_sec now_ms e.queue (queue_rule config) (queue_percent s)
          (queue_triggers e s) (ground arith) calm in
      rw (skip, l) (refl, st)
