-- ===== src/Rules/Liveness.antt =====
-- What makes a rule report: samples that last, and the two ways in which severe samples count.
use minilisysm.Prelude.{
  ℕ, ◌+◌, ◌^◌, ◌≤◌, ◌<◌, ◌≡◌, ◌≢◌, refl, ◌∙◌, inl, inr, Bool, true, false, not, none, some, List,
  [], ◌∷◌, ◌++◌, arith, length, Bool-cases, replicate,
}
use minilisysm.Double.{Double}
use minilisysm.Event.{EventLevel}
use minilisysm.Rules.Threshold.{
  RuleState, RuleContext, ThresholdRuleDefinition, is_normal, evaluate_threshold, on_critical,
  on_warning, on_recovered,
}
use minilisysm.Rules.Trace.{Reading, evaluate, run}
use minilisysm.Rules.Debounce.{is_hit, is_critical_hit, is_recovered, stays_raised, counts_up}

abbrev pub All {ℓ} : {A : Type ℓ} → (A → Bool) → List A → Type 0
All p [] = Unit
All p (x ∷ xs) = (p x ≡ true) × All p xs

is_normal_iff : (s : RuleState) → is_normal s ≡ true → s ≡ RuleState.normal
is_normal_iff s h = ground arith

All-snoc {ℓ} :
    {A : Type ℓ} (p : A → Bool) (xs : List A) (x : A) → All p xs → p x ≡ true → All p (xs ++ x ∷ [])
All-snoc p [] x h e = (e, tt)
All-snoc p (y ∷ ys) x h e = (h.0, All-snoc p ys x h.1 e)

module _ {W : Type 0} ⦃d : Double W⦄ (cooldown_sec : ℕ)
    (definition : ThresholdRuleDefinition W) where
  abbrev next : RuleContext W → Reading W → RuleContext W
  next c r = (evaluate cooldown_sec definition c r).1

  run-stays_raised :
      (c : RuleContext W) (rs : List (Reading W))
      → All (is_hit definition) rs
      → c.state ≢ RuleState.normal
      → (run cooldown_sec definition c rs).1.state ≢ RuleState.normal
  unfolding run
  run-stays_raised c [] h ne = ne
  run-stays_raised c (r ∷ rs) h ne =
      run-stays_raised (next c r) rs h.1 (stays_raised cooldown_sec definition c r h.0 ne)

  -- While the rule stays normal every hit is counted.
  grown :
      (c : RuleContext W) (r : Reading W)
      → is_hit definition r ≡ true
      → c.hit_count + 1 < 2 ^ 32
      → (next c r).state ≡ RuleState.normal
      → (next c r).hit_count ≡ c.hit_count + 1
  grown c r hit small n = elim (Bool-cases (is_normal c.state)) [
    | inl e ↦ (counts_up cooldown_sec definition c r hit (is_normal_iff c.state e) small).0 n
    | inr e ↦ absurd (stays_raised cooldown_sec definition c r hit (ground arith) n)
  ]

  -- Samples at warning level or above that last for `warning_windows` calls, with a hit counter
  -- that does not wrap, take the rule out of its normal state, if the last of them is not critical.
  pub persistent_hits_raise :
      (c : RuleContext W) (rs : List (Reading W)) (r : Reading W)
      → All (is_hit definition) rs
      → is_hit definition r ≡ true
      → is_critical_hit definition r ≡ false
      → c.hit_count + length rs + 1 < 2 ^ 32
      → definition.warning_windows ≤ c.hit_count + length rs + 1
      → (run cooldown_sec definition c (rs ++ r ∷ [])).1.state ≢ RuleState.normal
  unfolding run
  persistent_hits_raise c [] r h hit mild small long = elim (Bool-cases (is_normal c.state)) [
    | inl e ↦
        let n = is_normal_iff c.state e in
        (counts_up cooldown_sec definition c r hit n (omega arith)).1 mild (omega arith)
    | inr e ↦ stays_raised cooldown_sec definition c r hit (ground arith)
  ]
  persistent_hits_raise c (x ∷ rs) r h hit mild small long =
      elim (Bool-cases (is_normal (next c x).state)) [
        | inl e ↦
            let more = grown c x h.0 (omega arith) (is_normal_iff (next c x).state e) in
            persistent_hits_raise (next c x) rs r h.1 hit mild (omega arith) (omega arith)
        | inr e ↦
            run-stays_raised (next c x) (rs ++ r ∷ []) (All-snoc (is_hit definition) rs r h.1 hit)
              (ground arith)
      ]

  masked :
      (c : RuleContext W) (r : Reading W)
      → is_critical_hit definition r ≡ true
      → r.triggers.external_critical_trigger ≡ false
      → c.critical_hit_count + 1 < definition.critical_windows
      → definition.critical_windows < 2 ^ 32
      → let (e, c') = evaluate cooldown_sec definition c r in
        (e ≡ none) × (c'.state ≡ c.state) × (c'.critical_hit_count ≡ c.critical_hit_count + 1)
  unfolding evaluate_threshold on_critical
  masked c r hit q few small = ground arith

  -- Critical samples without an external trigger raise no warning: as long as fewer than
  -- `critical_windows` of them have come in a row, nothing is reported and the state stays, also
  -- where `warning_windows` is smaller.
  pub critical_masks_warning :
      (c : RuleContext W) (rs : List (Reading W))
      → All (is_critical_hit definition) rs
      → All (λ r. not r.triggers.external_critical_trigger) rs
      → c.critical_hit_count + length rs < definition.critical_windows
      → definition.critical_windows < 2 ^ 32
      → ((run cooldown_sec definition c rs).0 ≡ replicate (length rs) none)
        × ((run cooldown_sec definition c rs).1.state ≡ c.state)
  unfolding run
  critical_masks_warning c [] h q few small = (refl, refl)
  critical_masks_warning c (r ∷ rs) h q few small =
      let one = masked c r h.0 (ground arith) (omega arith) small in
      let rest = critical_masks_warning (next c r) rs h.1 q.1 (omega (arith, one)) small in
      (cc (one.0, rest.0), rest.1 ∙ one.1)

  -- In the warning state, one critical sample short of `critical_windows`, a recovered sample that
  -- does not complete the recovery leaves the critical count: the next critical sample is reported
  -- as critical.
  pub critical_count_survives_recovery :
      (c : RuleContext W) (x y : Reading W)
      → c.state ≡ RuleState.warning
      → c.critical_hit_count + 1 ≡ definition.critical_windows
      → definition.critical_windows < 2 ^ 32
      → is_recovered definition x ≡ true
      → c.recovery_count + 1 < definition.recovery_windows
      → definition.recovery_windows < 2 ^ 32
      → is_critical_hit definition y ≡ true
      → (run cooldown_sec definition c (x ∷ y ∷ [])).0 ≡ none ∷ some EventLevel.critical ∷ []
  unfolding run evaluate_threshold on_critical on_warning on_recovered
  critical_count_survives_recovery c x y st cnt sc rx rc sr hy = ground arith
