-- ===== src/Collectors/CpuUsage.antt =====
-- src/collectors/cpu_usage_collector.cpp and its header. The readings of /proc/stat, `current`,
-- and the clock are arguments; the order of `current` is the order of the map that was read.
pub mod Rounds
use minilisysm.Prelude.{
  bytes_equality, ℕ, ◌+◌, ◌-◌, ◌<◌, ◌≤◌, ◌^◌, ◌≡◌, ◌≢◌, Bool, true, false, not, ◌||◌, Option, none,
  some, List, [], Bytes, codes, bytes_eq, add64, ltb, leb, arith, Bool-cases, inl, inr,
  if◌then◌else◌,
}
use minilisysm.Double.{Double, IsOrdered, fmin, fmin-le}
use minilisysm.Config.{MonitorConfig}
use minilisysm.Map.{Distinct, Map}
use minilisysm.Samples.{CpuUsageSample}
use minilisysm.Collectors.Baselines.{
  Baselines, note_seen, prune_baselines, collect_current, nothing_read,
}
use minilisysm.Collectors.Baselines.Deltas.{expected, scan-expected}
use minilisysm.Collectors.Baselines.Kept.{Tracked, collect_current-Tracked}
use minilisysm.Collectors.IoDelay.{contains_name, no_names}

pub record CpuStats : Type 0 where
  pub user : ℕ
  pub nice : ℕ
  pub system : ℕ
  pub idle : ℕ
  pub iowait : ℕ
  pub irq : ℕ
  pub softirq : ℕ
  pub steal : ℕ
  pub guest : ℕ
  pub guest_nice : ℕ

pub record CpuUsageCollector : Type 0 where
  pub state : Baselines CpuStats
  pub last_failure_count : ℕ

abbrev pub total_jiffies : CpuStats → ℕ
total_jiffies s =
    add64
      (add64 (add64 (add64 (add64 (add64 (add64 s.user s.nice) s.system) s.idle) s.iowait) s.irq)
        s.softirq)
      s.steal

abbrev pub idle_jiffies : CpuStats → ℕ
idle_jiffies s = add64 s.idle s.iowait

module _ {W : Type 0} ⦃d : Double W⦄ where
  open d use {of_nat, mul, div}

  abbrev pub should_emit_total : MonitorConfig W → Bool
  should_emit_total config =
      bytes_eq config.cpu_usage_mode (codes "total")
      || bytes_eq config.cpu_usage_mode (codes "both")

  abbrev pub should_emit_per_core : MonitorConfig W → Bool
  should_emit_per_core config =
      bytes_eq config.cpu_usage_mode (codes "per_core")
      || bytes_eq config.cpu_usage_mode (codes "both")

  unfoldable pub should_scan_cpu : MonitorConfig W → Bytes → Bool
  should_scan_cpu config cpu =
      if bytes_eq cpu (codes "total")
      then should_emit_total config
      else if not (should_emit_per_core config)
      then false
      else if no_names config.cpu_usage_core_whitelist
      then true
      else contains_name config.cpu_usage_core_whitelist cpu

  -- The sample of one label, or `none` for `continue`.
  unfoldable pub cpu_sample : Bytes → CpuStats → CpuStats → Option (CpuUsageSample W)
  cpu_sample cpu previous stats =
      let delta_total = total_jiffies stats - total_jiffies previous in
      let delta_idle = idle_jiffies stats - idle_jiffies previous in
      if leb (total_jiffies stats) (total_jiffies previous)
        || ltb (idle_jiffies stats) (idle_jiffies previous)
        || ltb delta_total delta_idle
      then none
      else some (record {
        cpu = cpu;
        usage_percent =
            fmin (of_nat 100)
              (div (mul (of_nat (delta_total - delta_idle)) (of_nat 100)) (of_nat delta_total));
        delta_total_jiffies = delta_total;
        delta_idle_jiffies = delta_idle;
        valid = true;
      })

  -- `collect`
  unfoldable pub collect_cpu_usage :
      MonitorConfig W
      → ℕ
      → Map Bytes CpuStats
      → CpuUsageCollector
      → List (CpuUsageSample W) × CpuUsageCollector
  collect_cpu_usage config now_ms current c =
      if not config.cpu_usage_enable
      then ([], record c { last_failure_count = 0 })
      else if nothing_read current
      then ([], record c { last_failure_count = 1 })
      else let (samples, state) =
          collect_current cpu_sample (λ _. false) config.state_ttl_sec now_ms current c.state in
        (samples, record { state = state; last_failure_count = 0 })

  -- Every sample covers a time in which the total went up and the idle time did not go back, of
  -- which the idle time is a part, and shows a usage of at most 100 percent, for doubles in order.
  pub cpu_sample_sound :
      IsOrdered W
      → (cpu : Bytes) (previous stats : CpuStats) (s : CpuUsageSample W)
      → cpu_sample cpu previous stats ≡ some s
      → (s.delta_total_jiffies + total_jiffies previous ≡ total_jiffies stats)
        × (s.delta_idle_jiffies + idle_jiffies previous ≡ idle_jiffies stats)
        × (s.delta_total_jiffies ≢ 0)
        × (s.delta_idle_jiffies ≤ s.delta_total_jiffies)
        × (d.le s.usage_percent (of_nat 100) ≡ true)
  unfolding cpu_sample
  cpu_sample_sound o cpu previous stats s h =
      let total = total_jiffies stats - total_jiffies previous in
      let idle = idle_jiffies stats - idle_jiffies previous in
      ground (
        arith,
        fmin-le o (of_nat 100) (div (mul (of_nat (total - idle)) (of_nat 100)) (of_nat total))
            (o.of_nat_number 100),
      )

  -- The collector yields the samples of the readings against the baselines that pruning has left,
  -- in the order of the readings, where it is enabled, something was read, and each label once.
  pub collect_cpu_usage-expected :
      (config : MonitorConfig W) (now_ms : ℕ) (current : Map Bytes CpuStats) (c : CpuUsageCollector)
      → config.cpu_usage_enable ≡ true
      → nothing_read current ≡ false
      → Distinct current
      → let noted = record c.state {
        baseline_last_seen_ms = note_seen now_ms current c.state.baseline_last_seen_ms;
      } in
        (collect_cpu_usage config now_ms current c).0
        ≡ expected cpu_sample (prune_baselines config.state_ttl_sec now_ms noted).baselines current
  unfolding collect_cpu_usage collect_current
  collect_cpu_usage-expected config now_ms current c on some_read once =
      rw (on, some_read) (scan-expected cpu_sample 0 current _ once)

  -- Every label with a baseline is in the table of what was seen last, before and after `collect`
  -- on any of its branches, so that pruning reaches it.
  pub collect_cpu_usage-Tracked :
      (config : MonitorConfig W) (now_ms : ℕ) (current : Map Bytes CpuStats) (c : CpuUsageCollector)
      → now_ms < 2 ^ 64
      → config.state_ttl_sec < 2 ^ 32
      → Tracked c.state.baseline_last_seen_ms c.state.baselines
      → let c' = (collect_cpu_usage config now_ms current c).1 in
        Tracked c'.state.baseline_last_seen_ms c'.state.baselines
  unfolding collect_cpu_usage
  collect_cpu_usage-Tracked config now_ms current c hn ht tracked =
      elim (Bool-cases config.cpu_usage_enable) [
        | inr off ↦ rw off tracked
        | inl on ↦ elim (Bool-cases (nothing_read current)) [
          | inl empty ↦ rw (on, empty) tracked
          | inr some_read ↦
              rw (on, some_read)
                (collect_current-Tracked cpu_sample _ config.state_ttl_sec now_ms current c.state hn
                  ht tracked)
        ]
      ]
