-- ===== src/Rules/Cooldown.antt =====
-- RuleEngine::evaluate_threshold over time: the cooldown between the events of a rule.
use minilisysm.Prelude.{ℕ, ◌+◌, ◌*◌, ◌^◌, ◌≤◌, ◌<◌, ◌≡◌, ◌≢◌, ◌⊎◌, some, List, [], ◌∷◌, ◌++◌, arith}
use minilisysm.Double.{Double}
use minilisysm.Event.{EventLevel}
use minilisysm.Rules.Threshold.{
  RuleContext, ThresholdRuleDefinition, evaluate_threshold, on_critical, on_warning, on_recovered,
  cooldown_active,
}
use minilisysm.Rules.Trace.{Reading, evaluate, run}

-- The clock does not go back over these samples, from `now_ms` on.
abbrev pub OnTime : {W : Type 0} → ℕ → List (Reading W) → Type 0
OnTime now_ms [] = Unit
OnTime now_ms (r ∷ rs) = (now_ms ≤ r.now_ms) × OnTime r.now_ms rs

module _ {W : Type 0} ⦃d : Double W⦄ (cooldown_sec : ℕ)
    (definition : ThresholdRuleDefinition W) where
  -- The sample raises an event that activates the rule.
  abbrev pub Activates : RuleContext W → Reading W → Type 0
  Activates c r =
      ((evaluate cooldown_sec definition c r).0 ≡ some EventLevel.warning)
      ⊎ ((evaluate cooldown_sec definition c r).0 ≡ some EventLevel.critical)

  activation_noted :
      (c : RuleContext W) (r : Reading W)
      → Activates c r
      → (evaluate cooldown_sec definition c r).1.last_activation_event_ms ≡ r.now_ms
  unfolding evaluate_threshold on_critical on_warning on_recovered
  activation_noted c r h = ground arith

  activation_kept :
      (c : RuleContext W) (r : Reading W)
      → let last = (evaluate cooldown_sec definition c r).1.last_activation_event_ms in
        (last ≡ c.last_activation_event_ms) ⊎ (last ≡ r.now_ms)
  unfolding evaluate_threshold on_critical on_warning on_recovered
  activation_kept c r = ground arith

  -- The last activation stays between an earlier one and the clock.
  run_activation :
      (first_ms now_ms : ℕ) (c : RuleContext W) (rs : List (Reading W)) (later : Reading W)
      → first_ms ≤ c.last_activation_event_ms
      → c.last_activation_event_ms ≤ now_ms
      → OnTime now_ms (rs ++ later ∷ [])
      → let last = (run cooldown_sec definition c rs).1.last_activation_event_ms in
        (first_ms ≤ last) × (last ≤ later.now_ms)
  unfolding run
  run_activation first_ms now_ms c [] later low high time = (low, omega (arith, time.0))
  run_activation first_ms now_ms c (r ∷ rs) later low high time =
      let c' = (evaluate cooldown_sec definition c r).1 in
      run_activation first_ms r.now_ms c' rs later (ground (arith, activation_kept c r, time.0))
        (ground (arith, activation_kept c r, time.0)) time.1

  warning_after_cooldown :
      (c : RuleContext W) (r : Reading W)
      → c.last_activation_event_ms ≢ 0
      → c.last_activation_event_ms ≤ r.now_ms
      → r.now_ms < 2 ^ 64
      → cooldown_sec < 2 ^ 32
      → (evaluate cooldown_sec definition c r).0 ≡ some EventLevel.warning
      → c.last_activation_event_ms + cooldown_sec * 1000 ≤ r.now_ms
  unfolding evaluate_threshold on_critical on_warning on_recovered cooldown_active
  warning_after_cooldown c r active mono hn hc h = ground arith

  -- A warning event comes no earlier than the cooldown after every warning or critical event that
  -- the rule has raised before, whatever samples lie between the two and whatever state the rule
  -- was in before. The clock does not go back, is not 0 at the first event, and is 64 bits wide; the
  -- cooldown has 32 bits.
  pub warning_respects_cooldown :
      (c : RuleContext W) (first : Reading W) (between : List (Reading W)) (later : Reading W)
      → OnTime first.now_ms (between ++ later ∷ [])
      → first.now_ms ≢ 0
      → later.now_ms < 2 ^ 64
      → cooldown_sec < 2 ^ 32
      → Activates c first
      → (evaluate cooldown_sec definition
          (run cooldown_sec definition c (first ∷ between)).1
          later).0
        ≡ some EventLevel.warning
      → first.now_ms + cooldown_sec * 1000 ≤ later.now_ms
  unfolding run
  warning_respects_cooldown c first between later time started hn hc raised h =
      let c' = (evaluate cooldown_sec definition c first).1 in
      let noted = activation_noted c first raised in
      let (low, high) =
        run_activation first.now_ms first.now_ms c' between later (omega (arith, noted))
          (omega (arith, noted)) time in
      let gap =
        warning_after_cooldown (run cooldown_sec definition c' between).1 later
          (omega (arith, low, started)) high hn hc h in
      omega (arith, gap, low)
