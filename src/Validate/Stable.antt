-- ===== src/Validate/Stable.antt =====
-- A second validation of an accepted configuration.
use minilisysm.Prelude.{◌≤◌, ◌≡◌, refl, ◌≢◌, ◌⊎◌, ap, ◌∙◌, true, false, none, arith, ltb}
use minilisysm.Double.{Double, IsOrdered}
use minilisysm.Config.{CoreConfig, MonitorConfig}
use minilisysm.Ipv4.{all_valid_ipv4}
use minilisysm.Validate.{
  validate, validate_before_clients, validate_before_memory, validate_rest, validate_core,
}
use minilisysm.Validate.Ordered.{accepted}
use minilisysm.Validate.Percents.{Numbers}
use minilisysm.Validate.Groups.{
  or_else_idem, at_least_idem, core_idem, queue_idem, self_protection_idem, process_memory_idem,
  persistence_idem, network_idem, io_delay_idem, sched_delay_idem, agent_log_idem, cpu_usage_idem,
}

low_freq-validate_core :
    (c : CoreConfig)
    → (validate_core c).low_freq_collect_interval_ms ≡ c.low_freq_collect_interval_ms
unfolding validate_core
low_freq-validate_core c = refl

clients-validate_core :
    (c : CoreConfig) → (validate_core c).metrics_allowed_clients ≡ c.metrics_allowed_clients
unfolding validate_core
clients-validate_core c = refl

module _ {W : Type 0} ⦃d : Double W⦄ (o : IsOrdered W) where
  abbrev stages : MonitorConfig W → MonitorConfig W
  stages c = validate_rest (validate_before_memory (validate_before_clients c))

  stages_idem :
      (c : MonitorConfig W)
      → Numbers c.cpu_usage
      → (c.sched_ebpf_allowlist_refresh_ms ≢ 0) ⊎ (c.sched_proc_cache_refresh_ms ≢ 0)
      → stages (stages c) ≡ stages c
  unfolding validate_before_memory validate_before_clients validate_rest
  stages_idem c v refresh =
      rw
        (
          core_idem c.core,
          low_freq-validate_core c.core,
          agent_log_idem c.agent_log,
          queue_idem c.queue,
          or_else_idem 3600 c.state_ttl_sec,
          at_least_idem c.mem_available_warning_mb c.mem_available_recovery_mb,
          self_protection_idem c.self_protection,
          sched_delay_idem c.low_freq_collect_interval_ms c.sched_delay refresh,
          process_memory_idem c.process_memory,
          io_delay_idem c.io_delay,
          cpu_usage_idem o c.cpu_usage v,
          persistence_idem c.persistence,
          network_idem c.network,
        )
        refl

  accepts :
      (c : MonitorConfig W)
      → all_valid_ipv4 c.metrics_allowed_clients ≡ true
      → c.mem_available_critical_mb ≤ c.mem_available_warning_mb
      → validate c ≡ (none, stages c)
  unfolding validate validate_before_memory validate_before_clients validate_core
  accepts c clients memory =
      let small : ltb c.mem_available_warning_mb c.mem_available_critical_mb ≡ false =
        ground arith in
      rw (clients, small) refl

  accepted_again :
      (c : MonitorConfig W)
      → (validate c).0 ≡ none
      → validate (stages c) ≡ (none, stages (stages c))
  unfolding validate_before_memory validate_before_clients validate_rest validate_core
  accepted_again c h = let (e, memory, clients) = accepted c h in accepts (stages c) clients memory

  -- Where the thresholds of the CPU rule were numbers, and the refreshes of the allow-list and of
  -- the process cache were not both 0, validation of an accepted configuration accepts it again and
  -- changes nothing.
  pub validate_idempotent :
      (c : MonitorConfig W)
      → (validate c).0 ≡ none
      → Numbers c.cpu_usage
      → (c.sched_ebpf_allowlist_refresh_ms ≢ 0) ⊎ (c.sched_proc_cache_refresh_ms ≢ 0)
      → validate (validate c).1 ≡ (none, (validate c).1)
  validate_idempotent c h v refresh =
      let (e, memory, clients) = accepted c h in
      rw e (accepted_again c h ∙ ap (λ r. (none, r)) (stages_idem c v refresh))
