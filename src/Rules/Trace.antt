-- ===== src/Rules/Trace.antt =====
-- A rule over a sequence of samples: the order of its notifications.
use minilisysm.Prelude.{
  ℕ, ◌≡◌, refl, Bool, true, false, Option, none, some, List, [], ◌∷◌, ◌≢◌, sym, ◌∙◌, inl, inr,
  Option-cases, arith,
}
use minilisysm.Double.{Double}
use minilisysm.Event.{EventLevel}
use minilisysm.Rules.Threshold.{
  RuleState, RuleContext, ThresholdRuleDefinition, Triggers, fresh_context, evaluate_threshold,
  on_critical, on_warning, on_recovered,
}

-- One call: the clock, the value and the flags.
pub record Reading (W : Type 0) : Type 0 where
  pub now_ms : ℕ
  pub value : W
  pub triggers : Triggers

-- Where the notifications of one rule stand.
pub data Phase : Type 0 where
  quiet warned alarmed : Phase

-- What a reader of the events may see: a warning only out of quiet, a critical event at most once
-- until the recovery, and a recovery only of something that was reported.
unfoldable pub notify : Phase → Option EventLevel → Option Phase
notify p none = some p
notify quiet (some EventLevel.warning) = some warned
notify quiet (some EventLevel.critical) = some alarmed
notify warned (some EventLevel.critical) = some alarmed
notify warned (some EventLevel.recovery) = some quiet
notify alarmed (some EventLevel.recovery) = some quiet
notify _ _ = none

unfoldable pub notify_all : Phase → List (Option EventLevel) → Option Phase
notify_all p [] = some p
notify_all p (e ∷ es) = elim (notify p e) [ none ↦ none | some q ↦ notify_all q es ]

pub notify_all-cons :
    (p q : Phase) (e : Option EventLevel) (es : List (Option EventLevel))
    → notify p e ≡ some q
    → notify_all p (e ∷ es) ≡ notify_all q es
unfolding notify_all
notify_all-cons p q e es h = rw (h, notify_all) refl

-- The state and the flag of a context that has an active rule, as a phase.
abbrev pub phase_of : RuleState → Bool → Option Phase
phase_of RuleState.normal false = some quiet
phase_of RuleState.warning false = some quiet
phase_of RuleState.warning true = some warned
phase_of RuleState.critical true = some alarmed
phase_of _ _ = none

module _ {W : Type 0} ⦃d : Double W⦄ (cooldown_sec : ℕ)
    (definition : ThresholdRuleDefinition W) where
  abbrev pub evaluate : RuleContext W → Reading W → Option EventLevel × RuleContext W
  evaluate c r = evaluate_threshold cooldown_sec r.now_ms c definition r.value r.triggers

  unfoldable pub run : RuleContext W → List (Reading W) → List (Option EventLevel) × RuleContext W
  run c [] = ([], c)
  run c (r ∷ rs) = let (e, c') = evaluate c r in let (es, c'') = run c' rs in (e ∷ es, c'')

  pub evaluate-notify :
      (c : RuleContext W) (r : Reading W) (p : Phase)
      → phase_of c.state c.notification_active ≡ some p
      → let (e, c') = evaluate c r in notify p e ≡ phase_of c'.state c'.notification_active
  unfolding evaluate_threshold on_critical on_warning on_recovered notify
  evaluate-notify c r p h = ground arith

  pub evaluate-phase :
      (c : RuleContext W) (r : Reading W) (p : Phase)
      → phase_of c.state c.notification_active ≡ some p
      → let c' = (evaluate c r).1 in phase_of c'.state c'.notification_active ≢ none
  unfolding evaluate_threshold on_critical on_warning on_recovered
  evaluate-phase c r p h = ground arith

  run-notify_all :
      (c : RuleContext W) (rs : List (Reading W)) (p : Phase)
      → phase_of c.state c.notification_active ≡ some p
      → let (es, c') = run c rs in
        (notify_all p es ≡ phase_of c'.state c'.notification_active)
        × (phase_of c'.state c'.notification_active ≢ none)
  unfolding run notify_all
  run-notify_all c [] p h = (sym h, cc)
  run-notify_all c (r ∷ rs) p h =
      let c' = (evaluate c r).1 in
      elim (Option-cases (phase_of c'.state c'.notification_active)) [
        | inl gone ↦ absurd (evaluate-phase c r p h gone)
        | inr (q, at) ↦
            let rest = run-notify_all c' rs q at in
            (notify_all-cons p q _ _ (evaluate-notify c r p h ∙ at) ∙ rest.0, rest.1)
      ]

  -- Whatever the samples, the events of a rule that started fresh come in order: a warning only
  -- when nothing is reported, a critical event at most once before the recovery, a recovery only
  -- after a report. The state and `notification_active` then tell what is reported.
  pub notifications_in_order :
      (rs : List (Reading W))
      → let (es, c) = run fresh_context rs in
        (notify_all quiet es ≡ phase_of c.state c.notification_active)
        × (phase_of c.state c.notification_active ≢ none)
  notifications_in_order rs = run-notify_all fresh_context rs quiet refl
