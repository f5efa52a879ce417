-- ===== src/Rules/Engine/Order.antt =====
-- The rules with one context (memory, the monitor's own RSS, the queue) over any sequence of calls
-- of the engine, those of the other rules in between.
use mathlib.Core.Option
use minilisysm.Prelude.{
  ℕ, ◌≡◌, ◌≢◌, refl, sym, subst, ◌∙◌, ap, Bool, true, false, not, ◌||◌, ◌&&◌, ◌==◌, Option, none,
  some, List, [], ◌∷◌, ◌⊎◌, inl, inr, Bool-cases, Option-cases, arith, if◌then◌else◌,
}
use minilisysm.Double.{Double}
use minilisysm.Config.{MonitorConfig}
use minilisysm.Event.{EventLevel, InternalEvent}
use minilisysm.Rules.Threshold.{
  RuleState, RuleContext, ThresholdRuleDefinition, is_disabled, Triggers,
}
use minilisysm.Rules.Events.{make_memory_event, make_self_rss_event, make_queue_event}
use minilisysm.Rules.Trace.{
  Reading, Phase, quiet, notify, notify_all, notify_all-cons, phase_of, evaluate-notify,
  evaluate-phase,
}
use minilisysm.Rules.Trace
use minilisysm.Rules.Engine.{RuleEngine, init, prune_expired_contexts}
use minilisysm.Rules.Engine.Definitions.{
  memory_rule as memory_definition, self_rss_rule as self_rss_definition,
  queue_rule as queue_definition,
}
use minilisysm.Rules.Engine.Evaluate.{
  evaluate_memory, evaluate_self_rss, evaluate_cpu_usage, evaluate_process_memory_growth,
  forget_process_memory, evaluate_queue, evaluate_sched_delay, evaluate_io_delay,
}
use minilisysm.Rules.Engine.Calls.{Call, memory, self_rss, queue, evaluate}

pub data SingleRule : Type 0 where
  memory_rule self_rss_rule queue_rule : SingleRule

pub record Timed (W : Type 0) : Type 0 where
  pub now_ms : ℕ
  pub later_ms : ℕ
  pub call : Call W

module _ {W : Type 0} ⦃d : Double W⦄ where
  abbrev context_of : SingleRule → RuleEngine W → RuleContext W
  context_of memory_rule e = e.memory
  context_of self_rss_rule e = e.self_rss
  context_of queue_rule e = e.queue

  abbrev pub is_for : SingleRule → Call W → Bool
  is_for memory_rule (memory s) = true
  is_for self_rss_rule (self_rss kb) = true
  is_for queue_rule (queue s) = true
  is_for _ _ = false

  -- A rule that never runs, or one whose notifications stand at `p`.
  abbrev Tracked : Phase → RuleContext W → Type 0
  Tracked p c =
      ((c.state ≡ RuleState.disabled) × (p ≡ quiet))
      ⊎ (phase_of c.state c.notification_active ≡ some p)

  abbrev Next : Phase → Option EventLevel → RuleContext W → Type 0
  Next p l c = (q : Phase) × (notify p l ≡ some q) × Tracked q c

  abbrev levels_of : Option (InternalEvent W) → Option EventLevel
  levels_of = Option.map (λ ev. ev.level)

  stay : (p : Phase) (c : RuleContext W) → Tracked p c → Next p none c
  unfolding notify
  stay p c t = (p, refl, t)

  -- One evaluation behind its early return.
  guarded :
      (cooldown_sec : ℕ) (rule : ThresholdRuleDefinition W) (skip : Bool) (p : Phase)
      (c : RuleContext W) (r : Reading W)
      → Tracked p c
      → is_disabled c.state || skip ≡ false
      → let (l, c') = Trace.evaluate cooldown_sec rule c r in Next p l c'
  guarded cooldown_sec rule skip p c r (inl (off, _)) live = absurd (ground arith)
  guarded cooldown_sec rule skip p c r (inr on) live =
      let c' = (Trace.evaluate cooldown_sec rule c r).1 in
      elim (Option-cases (phase_of c'.state c'.notification_active)) [
        | inl gone ↦ absurd (evaluate-phase cooldown_sec rule c r p on gone)
        | inr (q, at) ↦ (q, evaluate-notify cooldown_sec rule c r p on ∙ at, inr at)
      ]

  level_kept :
      (make : EventLevel → InternalEvent W) (l : Option EventLevel)
      → ((k : EventLevel) → (make k).level ≡ k)
      → levels_of (Option.map make l) ≡ l
  level_kept make none h = refl
  level_kept make (some k) h = ap some (h k)

  -- The same with the event that a function makes of the level.
  guarded_make :
      (cooldown_sec : ℕ) (rule : ThresholdRuleDefinition W) (skip : Bool) (p : Phase)
      (c : RuleContext W) (r : Reading W) (make : EventLevel → InternalEvent W)
      → ((k : EventLevel) → (make k).level ≡ k)
      → Tracked p c
      → is_disabled c.state || skip ≡ false
      → let (l, c') = Trace.evaluate cooldown_sec rule c r in
        Next p (levels_of (Option.map make l)) c'
  guarded_make cooldown_sec rule skip p c r make h t live =
      let (q, step, k) = guarded cooldown_sec rule skip p c r t live in
      (q, ap (notify p) (level_kept make (Trace.evaluate cooldown_sec rule c r).0 h) ∙ step, k)

  abbrev at : ℕ → W → Triggers → Reading W
  at now_ms value triggers = record { now_ms = now_ms; value = value; triggers = triggers }

module _ {W : Type 0} ⦃d : Double W⦄ (config : MonitorConfig W) where
  -- A call leaves the context of another rule.
  frame :
      (rule : SingleRule) (now_ms later_ms : ℕ) (e : RuleEngine W) (call : Call W)
      → is_for rule call ≡ false
      → context_of rule (evaluate config now_ms later_ms e call).1 ≡ context_of rule e
  unfolding evaluate evaluate_memory evaluate_self_rss evaluate_cpu_usage
      evaluate_process_memory_growth evaluate_queue evaluate_sched_delay evaluate_io_delay
      forget_process_memory prune_expired_contexts
  frame memory_rule now_ms later_ms e (memory s) h = cc
  frame memory_rule now_ms later_ms e _ h = ground arith
  frame self_rss_rule now_ms later_ms e (self_rss kb) h = cc
  frame self_rss_rule now_ms later_ms e _ h = ground arith
  frame queue_rule now_ms later_ms e (queue s) h = cc
  frame queue_rule now_ms later_ms e _ h = ground arith

  own_step :
      (rule : SingleRule) (now_ms later_ms : ℕ) (e : RuleEngine W) (call : Call W) (p : Phase)
      → is_for rule call ≡ true
      → Tracked p (context_of rule e)
      → let (ev, e') = evaluate config now_ms later_ms e call in
        Next p (levels_of ev) (context_of rule e')
  unfolding evaluate evaluate_memory evaluate_self_rss evaluate_queue make_memory_event
      make_self_rss_event make_queue_event
  own_step memory_rule now_ms later_ms e (memory s) p h t =
      elim (Bool-cases (is_disabled e.memory.state || (not s.valid))) [
        | inl skip ↦ rw skip (stay p e.memory t)
        | inr go ↦ rw go (
            guarded_make config.cooldown_sec (memory_definition config) (not s.valid) p e.memory
              (at now_ms _ _) _ (λ k. refl) t go)
      ]
  own_step self_rss_rule now_ms later_ms e (self_rss kb) p h t =
      elim (Bool-cases (is_disabled e.self_rss.state || (kb == 0))) [
        | inl skip ↦ rw skip (stay p e.self_rss t)
        | inr go ↦ rw go (
            guarded_make config.cooldown_sec (self_rss_definition config) (kb == 0) p e.self_rss
              (at now_ms _ _) _ (λ k. refl) t go)
      ]
  own_step queue_rule now_ms later_ms e (queue s) p h t =
      elim (Bool-cases (is_disabled e.queue.state || (s.capacity == 0 && s.sink_capacity == 0))) [
        | inl skip ↦ rw skip (stay p e.queue t)
        | inr go ↦ rw go (
            guarded_make config.cooldown_sec (queue_definition config)
              (s.capacity == 0 && s.sink_capacity == 0) p e.queue (at now_ms _ _) _ (λ k. refl) t
              go)
      ]
  own_step _ now_ms later_ms e _ p h t = cc

  -- The levels of the events of one rule, `none` for a call of it that returned none.
  pub levels : SingleRule → RuleEngine W → List (Timed W) → List (Option EventLevel)
  levels rule e [] = []
  levels rule e (t ∷ ts) =
      let (ev, e') = evaluate config t.now_ms t.later_ms e t.call in
      let rest = levels rule e' ts in if is_for rule t.call then levels_of ev ∷ rest else rest

  levels_in_order :
      (rule : SingleRule) (e : RuleEngine W) (ts : List (Timed W)) (p : Phase)
      → Tracked p (context_of rule e)
      → notify_all p (levels rule e ts) ≢ none
  unfolding levels notify_all
  levels_in_order rule e [] p t = λ h. cc
  levels_in_order rule e (t ∷ ts) p k =
      let e' = (evaluate config t.now_ms t.later_ms e t.call).1 in
      elim (Bool-cases (is_for rule t.call)) [
        | inl own ↦
            let (q, step, k') = own_step rule t.now_ms t.later_ms e t.call p own k in
            rw own (λ h. levels_in_order rule e' ts q k' (sym (notify_all-cons p q _ _ step) ∙ h))
        | inr other ↦ rw other (
            levels_in_order rule e' ts p
              (subst (Tracked p) (sym (frame rule t.now_ms t.later_ms e t.call other)) k))
      ]

  init-Tracked : (rule : SingleRule) → Tracked quiet (context_of rule (init config))
  unfolding init
  init-Tracked memory_rule = ground arith
  init-Tracked self_rss_rule = ground arith
  init-Tracked queue_rule = ground arith

  -- Over any sequence of calls of a new engine, of all its rules, the events of the memory rule, of
  -- the self-RSS rule and of the queue rule each come in order: a warning only when nothing is
  -- reported, a critical event at most once before the recovery, a recovery only after a report.
  pub engine_notifications_in_order :
      (rule : SingleRule) (ts : List (Timed W))
      → notify_all quiet (levels rule (init config) ts) ≢ none
  engine_notifications_in_order rule ts =
      levels_in_order rule (init config) ts quiet (init-Tracked rule)
