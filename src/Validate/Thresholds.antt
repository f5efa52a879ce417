-- ===== src/Validate/Thresholds.antt =====
-- The thresholds of the rules in an accepted configuration.
use minilisysm.Prelude.{◌≤◌, ℕ, ◌≡◌, ◌↔◌, true, none, arith, subst, refl}
use minilisysm.Double.{Double, IsOrdered}
use minilisysm.Config.{MonitorConfig}
use minilisysm.Validate.{
  validate, validate_before_clients, validate_before_memory, validate_rest, validate_sched_delay,
  validate_io_delay, validate_cpu_usage, raised_to, to_percent,
}
use minilisysm.Validate.Ordered.{accepted, validate-IsOrdered}
use minilisysm.Validate.Percents.{Numbers, le-raised_to, to_percent_mono}
use minilisysm.Rules.Threshold.{ThresholdRuleDefinition, reaches}
use minilisysm.Rules.Engine.Calls.{Call, rule_of}

-- In an accepted configuration the refresh of the allow-list is 0 exactly where it and the refresh
-- of the process cache were both 0 before.
pub allowlist_refresh_zero :
    {W : Type 0} ⦃d : Double W⦄ (c : MonitorConfig W)
    → (validate c).0 ≡ none
    → ((validate c).1.sched_ebpf_allowlist_refresh_ms ≡ 0)
      ↔ ((c.sched_ebpf_allowlist_refresh_ms ≡ 0) × (c.sched_proc_cache_refresh_ms ≡ 0))
unfolding validate_before_memory validate_before_clients validate_rest validate_sched_delay
allowlist_refresh_zero c h = let (e, memory, clients) = accepted c h in rw e (ground arith)

module _ {W : Type 0} ⦃d : Double W⦄ where
  -- The critical threshold is at the warning threshold or beyond, in the direction of the rule.
  abbrev pub InOrder : ThresholdRuleDefinition W → Type 0
  InOrder rule =
      (v : W)
      → reaches rule.direction v rule.critical_threshold ≡ true
      → reaches rule.direction v rule.warning_threshold ≡ true

module _ {W : Type 0} ⦃d : Double W⦄ (o : IsOrdered W) where
  whole_up : (m n : ℕ) (v : W) → m ≤ n → d.le (d.of_nat n) v ≡ true → d.le (d.of_nat m) v ≡ true
  whole_up m n v h = o.le_trans _ _ v (o.of_nat_mono m n h)

  raised_up :
      (low x v : W) → d.le low low ≡ true → d.le (raised_to low x) v ≡ true → d.le low v ≡ true
  raised_up low x v h up =
      let (hr, hv) = o.refl_of_le _ v up in
      ground (arith, le-raised_to o low x h, o.le_trans low (raised_to low x) v)

  io_thresholds :
      (c : MonitorConfig W)
      → (validate c).0 ≡ none
      → let r = (validate c).1 in
        (r.io_await_warning_ms ≡ c.io_await_warning_ms)
        × (r.io_await_critical_ms ≡ raised_to c.io_await_warning_ms c.io_await_critical_ms)
  unfolding validate_before_memory validate_before_clients validate_rest validate_io_delay
  io_thresholds c h = rw (accepted c h).0 (refl, refl)

  cpu_thresholds :
      (c : MonitorConfig W)
      → (validate c).0 ≡ none
      → let r = (validate c).1 in
        (r.cpu_usage_warning_percent ≡ to_percent c.cpu_usage_warning_percent)
        × (r.cpu_usage_critical_percent
            ≡ to_percent (raised_to c.cpu_usage_warning_percent c.cpu_usage_critical_percent))
  unfolding validate_before_memory validate_before_clients validate_rest validate_cpu_usage
  cpu_thresholds c h = rw (accepted c h).0 (refl, refl)

  -- In an accepted configuration whose warning threshold of the I/O rule and thresholds of the CPU
  -- rule were numbers, with doubles in order, every rule has its thresholds in order: a value that
  -- reaches the critical threshold reaches the warning threshold.
  pub rule_of-InOrder :
      (c : MonitorConfig W) (call : Call W)
      → (validate c).0 ≡ none
      → d.le c.io_await_warning_ms c.io_await_warning_ms ≡ true
      → Numbers c.cpu_usage
      → InOrder (rule_of (validate c).1 call)
  rule_of-InOrder c (Call.memory s) h io cpu v up =
      o.le_trans v _ _ up (o.of_nat_mono _ _ (validate-IsOrdered c h).memory_critical)
  rule_of-InOrder c (Call.self_rss kb) h io cpu v up =
      whole_up _ _ v (validate-IsOrdered c h).rss_hard up
  rule_of-InOrder c (Call.cpu_usage s) h io cpu v up =
      let (warning, critical) = cpu_thresholds c h in
      let w = c.cpu_usage_warning_percent in
      let in_order =
        to_percent_mono o w _
          (le-raised_to o w c.cpu_usage_critical_percent cpu.warning_number cpu.critical_number) in
      rw warning (o.le_trans _ _ v in_order (subst (λ k. d.le k v ≡ true) critical up))
  rule_of-InOrder c (Call.process_memory name pid growth_mb) h io cpu v up =
      whole_up _ _ v (validate-IsOrdered c h).process_critical up
  rule_of-InOrder c (Call.forget name pid) h io cpu v up =
      whole_up _ _ v (validate-IsOrdered c h).process_critical up
  rule_of-InOrder c (Call.queue s) h io cpu v up =
      whole_up _ _ v (validate-IsOrdered c h).queue_critical up
  rule_of-InOrder c (Call.sched_delay s) h io cpu v up =
      whole_up _ _ v (validate-IsOrdered c h).sched_critical up
  rule_of-InOrder c (Call.io_delay s) h io cpu v up =
      let (warning, critical) = io_thresholds c h in
      rw warning (
        raised_up c.io_await_warning_ms c.io_await_critical_ms v io
          (subst (λ k. d.le k v ≡ true) critical up))
