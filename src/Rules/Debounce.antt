-- ===== src/Rules/Debounce.antt =====
-- When a rule reports: the windows that a sample has to last, and the cooldown.
use minilisysm.Prelude.{
  ℕ, suc, ◌+◌, ◌^◌, ◌≤◌, ◌<◌, ◌≡◌, ◌≢◌, ◌⊎◌, Bool, true, false, not, ◌&&◌, ◌||◌, some, List, [],
  ◌∷◌, arith, if◌then◌else◌,
}
use minilisysm.Double.{Double}
use minilisysm.Event.{EventLevel}
use minilisysm.Rules.Threshold.{
  RuleState, RuleContext, ThresholdRuleDefinition, fresh_context, evaluate_threshold, on_critical,
  on_warning, on_recovered, recovered, reaches,
}
use minilisysm.Rules.Trace.{Reading, evaluate, run}

-- How many of the latest samples meet `p` without a break; the latest stands first.
pub streak {ℓ} : {A : Type ℓ} → (A → Bool) → List A → ℕ
streak p [] = 0
streak p (x ∷ xs) = let rest = suc (streak p xs) in if p x then rest else 0

-- `rs` in order of time, put before an older history.
pub latest_first {ℓ} : {A : Type ℓ} → List A → List A → List A
latest_first history [] = history
latest_first history (r ∷ rs) = latest_first (r ∷ history) rs

module _ {W : Type 0} ⦃d : Double W⦄ (definition : ThresholdRuleDefinition W) where
  -- The three kinds of sample, in the order in which the code tests for them.
  abbrev pub is_critical_hit : Reading W → Bool
  is_critical_hit r =
      reaches definition.direction r.value definition.critical_threshold
      || r.triggers.external_critical_trigger

  abbrev pub is_hit : Reading W → Bool
  is_hit r =
      is_critical_hit r
      || (reaches definition.direction r.value definition.warning_threshold
          || r.triggers.external_warning_trigger)

  abbrev pub is_recovered : Reading W → Bool
  is_recovered r =
      not (is_hit r) && recovered definition r.value (not r.triggers.external_recovery_blocked)

  -- The counters of a context never run ahead of the samples, newest first.
  pub record Counts (history : List (Reading W)) (c : RuleContext W) : Type 0 where
    pub hits : c.state ≡ RuleState.normal → c.hit_count ≤ streak is_hit history
    pub critical_hits :
        c.state ≡ RuleState.normal → c.critical_hit_count ≤ streak is_critical_hit history
    pub recoveries : c.recovery_count ≤ streak is_recovered history

module _ {W : Type 0} ⦃d : Double W⦄ (cooldown_sec : ℕ)
    (definition : ThresholdRuleDefinition W) where
  evaluate-Counts :
      (history : List (Reading W)) (c : RuleContext W) (r : Reading W)
      → Counts definition history c
      → Counts definition (r ∷ history) (evaluate cooldown_sec definition c r).1
  unfolding evaluate_threshold on_critical on_warning on_recovered streak
  evaluate-Counts history c r v = ground arith

  run-Counts :
      (history : List (Reading W)) (c : RuleContext W) (rs : List (Reading W))
      → Counts definition history c
      → Counts definition (latest_first history rs) (run cooldown_sec definition c rs).1
  unfolding run latest_first
  run-Counts history c [] v = v
  run-Counts history c (r ∷ rs) v =
      run-Counts (r ∷ history) (evaluate cooldown_sec definition c r).1 rs
        (evaluate-Counts history c r v)

  -- The context after a sequence of samples.
  abbrev pub after : List (Reading W) → RuleContext W
  after rs = (run cooldown_sec definition fresh_context rs).1

  after-Counts : (rs : List (Reading W)) → Counts definition (latest_first [] rs) (after rs)
  unfolding streak
  after-Counts rs = run-Counts [] fresh_context rs (ground arith)

  warning_by_count :
      (c : RuleContext W) (r : Reading W)
      → (evaluate cooldown_sec definition c r).0 ≡ some EventLevel.warning
      → (c.state ≡ RuleState.normal)
        × (is_hit definition r ≡ true)
        × ((r.triggers.external_warning_trigger ≡ true)
            ⊎ (definition.warning_windows ≤ c.hit_count + 1))
  unfolding evaluate_threshold on_critical on_warning on_recovered
  warning_by_count c r h = ground arith

  critical_by_count :
      (c : RuleContext W) (r : Reading W)
      → (evaluate cooldown_sec definition c r).0 ≡ some EventLevel.critical
      → (is_critical_hit definition r ≡ true)
        × ((r.triggers.external_critical_trigger ≡ true)
            ⊎ (definition.critical_windows ≤ c.critical_hit_count + 1))
  unfolding evaluate_threshold on_critical on_warning on_recovered
  critical_by_count c r h = ground arith

  recovery_by_count :
      (c : RuleContext W) (r : Reading W)
      → (evaluate cooldown_sec definition c r).0 ≡ some EventLevel.recovery
      → (is_recovered definition r ≡ true) × (definition.recovery_windows ≤ c.recovery_count + 1)
  unfolding evaluate_threshold on_critical on_warning on_recovered
  recovery_by_count c r h = ground arith

  -- A warning event of a rule that started fresh comes with an external trigger, or after
  -- `warning_windows` samples in a row at warning level or above.
  pub warning_debounced :
      (rs : List (Reading W)) (r : Reading W)
      → (evaluate cooldown_sec definition (after rs) r).0 ≡ some EventLevel.warning
      → (r.triggers.external_warning_trigger ≡ true)
        ⊎ (definition.warning_windows ≤ streak (is_hit definition) (r ∷ latest_first [] rs))
  unfolding streak
  warning_debounced rs r h =
      let (n, hit, why) = warning_by_count (after rs) r h in
      let counted = (after-Counts rs).hits n in rw hit (ground arith)

  -- A critical event of a rule that started fresh and is in its normal state comes with an external
  -- trigger, or after `critical_windows` critical samples in a row.
  pub critical_debounced :
      (rs : List (Reading W)) (r : Reading W)
      → (after rs).state ≡ RuleState.normal
      → (evaluate cooldown_sec definition (after rs) r).0 ≡ some EventLevel.critical
      → (r.triggers.external_critical_trigger ≡ true)
        ⊎ (definition.critical_windows
            ≤ streak (is_critical_hit definition) (r ∷ latest_first [] rs))
  unfolding streak
  critical_debounced rs r n h =
      let (hit, why) = critical_by_count (after rs) r h in
      let counted = (after-Counts rs).critical_hits n in rw hit (ground arith)

  -- A recovery event of a rule that started fresh comes after `recovery_windows` recovered samples
  -- in a row, whatever the state.
  pub recovery_debounced :
      (rs : List (Reading W)) (r : Reading W)
      → (evaluate cooldown_sec definition (after rs) r).0 ≡ some EventLevel.recovery
      → definition.recovery_windows ≤ streak (is_recovered definition) (r ∷ latest_first [] rs)
  unfolding streak
  recovery_debounced rs r h =
      let (hit, why) = recovery_by_count (after rs) r h in
      let counted = (after-Counts rs).recoveries in rw hit (omega arith)

  pub stays_raised :
      (c : RuleContext W) (r : Reading W)
      → is_hit definition r ≡ true
      → c.state ≢ RuleState.normal
      → (evaluate cooldown_sec definition c r).1.state ≢ RuleState.normal
  unfolding evaluate_threshold on_critical on_warning on_recovered
  stays_raised c r hit ne = ground arith

  pub counts_up :
      (c : RuleContext W) (r : Reading W)
      → is_hit definition r ≡ true
      → c.state ≡ RuleState.normal
      → c.hit_count + 1 < 2 ^ 32
      → let c' = (evaluate cooldown_sec definition c r).1 in
        (c'.state ≡ RuleState.normal → c'.hit_count ≡ c.hit_count + 1)
        × (is_critical_hit definition r ≡ false
            → definition.warning_windows ≤ c.hit_count + 1
            → c'.state ≢ RuleState.normal)
  unfolding evaluate_threshold on_critical on_warning on_recovered
  counts_up c r hit n small = ground arith
