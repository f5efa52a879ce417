-- ===== src/Collectors/CpuUsage/Rounds.antt =====
-- What a round of the CPU usage collector reports of a label that the round before has read too.
use minilisysm.Prelude.{
  bytes_equality, ℕ, ◌+◌, ◌-◌, ◌<◌, ◌≤◌, ◌^◌, ◌≡◌, ◌⊎◌, inl, inr, refl, ap, ◌∙◌, true, false,
  Option, none, some, List, [], ◌∷◌, Bytes, bytes_eq, arith, Bool-cases, Option-cases,
  if◌then◌else◌,
}
use minilisysm.Double.{Double, fmin}
use minilisysm.Config.{MonitorConfig}
use minilisysm.Map.{Distinct, Map, find}
use minilisysm.Samples.{CpuUsageSample}
use minilisysm.Collectors.Baselines.{nothing_read, sampled}
use minilisysm.Collectors.Baselines.Deltas.{expected, prepend}
use minilisysm.Collectors.Baselines.Latest.{collect_current-latest, prune_baselines-read}
use minilisysm.Collectors.CpuUsage.{
  CpuStats, CpuUsageCollector, total_jiffies, idle_jiffies, cpu_sample, collect_cpu_usage,
  collect_cpu_usage-expected,
}

some_read :
    {S : Type 0} (k : Bytes) (s : S) (m : Map Bytes S) → find k m ≡ some s → nothing_read m ≡ false
unfolding find
some_read k s [] h = absurd (ground arith)
some_read k s (x ∷ m) h = refl

module _ {W : Type 0} ⦃d : Double W⦄ where
  open d use {of_nat, mul, div}

  -- The samples of one label.
  abbrev pub samples_of : Bytes → List (CpuUsageSample W) → List (CpuUsageSample W)
  samples_of cpu [] = []
  samples_of cpu (s ∷ samples) =
      let rest = samples_of cpu samples in if bytes_eq s.cpu cpu then s ∷ rest else rest

  -- One sample of a label, which tells how far its counters have gone from one reading to another.
  pub record Reported (cpu : Bytes) (a b : CpuStats) (samples : List (CpuUsageSample W))
      : Type 0 where
    pub s : CpuUsageSample W
    pub only : samples_of cpu samples ≡ s ∷ []
    pub label : s.cpu ≡ cpu
    pub grew : total_jiffies a < total_jiffies b
    pub total : s.delta_total_jiffies + total_jiffies a ≡ total_jiffies b
    pub idle : s.delta_idle_jiffies + idle_jiffies a ≡ idle_jiffies b
    pub busy : ℕ
    pub split : busy + s.delta_idle_jiffies ≡ s.delta_total_jiffies
    pub usage :
        s.usage_percent
        ≡ fmin (of_nat 100) (div (mul (of_nat busy) (of_nat 100)) (of_nat s.delta_total_jiffies))

  -- No sample of a label whose total has not gone up, whose idle time went back, or whose idle time
  -- grew by more than the total.
  pub record Skipped (cpu : Bytes) (a b : CpuStats) (samples : List (CpuUsageSample W))
      : Type 0 where
    pub nothing : samples_of cpu samples ≡ []
    pub why :
        (total_jiffies b ≤ total_jiffies a)
        ⊎ (idle_jiffies b < idle_jiffies a)
        ⊎ (total_jiffies b + idle_jiffies a < idle_jiffies b + total_jiffies a)

  labelled :
      (cpu k : Bytes) (previous : Option CpuStats) (stats : CpuStats)
      (rest : List (CpuUsageSample W))
      → samples_of cpu (prepend cpu_sample (sampled cpu_sample previous k stats) rest) ≡ (
          if bytes_eq k cpu
          then prepend cpu_sample (sampled cpu_sample previous k stats) (samples_of cpu rest)
          else samples_of cpu rest)
  unfolding cpu_sample
  labelled cpu k none stats rest = ground arith
  labelled cpu k (some previous) stats rest = ground arith

  samples_of-others :
      (cpu : Bytes) (b current : Map Bytes CpuStats)
      → find cpu current ≡ none
      → samples_of cpu (expected cpu_sample b current) ≡ []
  unfolding find
  samples_of-others cpu b [] h = refl
  samples_of-others cpu b ((k, stats) ∷ current) h =
      let rest = samples_of-others cpu b current in
      labelled cpu k (find k b) stats (expected cpu_sample b current) ∙ ground (arith, rest)

  samples_of-expected :
      (cpu : Bytes) (b current : Map Bytes CpuStats) (stats : CpuStats)
      → Distinct current
      → find cpu current ≡ some stats
      → samples_of cpu (expected cpu_sample b current)
        ≡ prepend cpu_sample (sampled cpu_sample (find cpu b) cpu stats) []
  unfolding find
  samples_of-expected cpu b [] stats d h = absurd (ground arith)
  samples_of-expected cpu b ((k, s) ∷ current) stats d h =
      labelled cpu k (find k b) s (expected cpu_sample b current)
      ∙ elim (Bool-cases (bytes_eq k cpu)) [
        | inl same ↦
            let keys : k ≡ cpu = (bytes_equality.beq_iff k cpu).0 same in
            let e : s ≡ stats = ground (arith, same) in
            rw (same, keys, e)
              (ap (prepend cpu_sample _) (samples_of-others cpu b current (rw (← keys) d.0)))
        | inr other ↦ rw other (samples_of-expected cpu b current stats d.1 (ground (arith, other)))
      ]

  skipped_why :
      (cpu : Bytes) (a b : CpuStats)
      → cpu_sample {W = W} cpu a b ≡ none
      → (total_jiffies b ≤ total_jiffies a)
        ⊎ (idle_jiffies b < idle_jiffies a)
        ⊎ (total_jiffies b + idle_jiffies a < idle_jiffies b + total_jiffies a)
  unfolding cpu_sample
  skipped_why cpu a b h = ground arith

  one_or_none :
      (cpu : Bytes) (a b : CpuStats) (samples : List (CpuUsageSample W))
      → samples_of cpu samples ≡ prepend cpu_sample (sampled cpu_sample (some a) cpu b) []
      → Reported cpu a b samples ⊎ Skipped cpu a b samples
  unfolding cpu_sample
  one_or_none cpu a b samples h = elim (Option-cases (cpu_sample {W = W} cpu a b)) [
    | inl none_left ↦ inr (record {
      nothing = h ∙ ap (λ t. prepend cpu_sample t []) none_left;
      why = skipped_why cpu a b none_left;
    })
    | inr (s, e) ↦ inl (record {
      s = s;
      only = h ∙ ap (λ t. prepend cpu_sample t []) e;
      label = ground arith;
      grew = ground arith;
      total = ground arith;
      idle = ground arith;
      busy = s.delta_total_jiffies - s.delta_idle_jiffies;
      split = ground arith;
      usage = ground arith;
    })
  ]

  round_latest :
      (config : MonitorConfig W) (now_ms : ℕ) (current : Map Bytes CpuStats) (c : CpuUsageCollector)
      (cpu : Bytes) (stats : CpuStats)
      → config.cpu_usage_enable ≡ true
      → Distinct current
      → Distinct c.state.baseline_last_seen_ms
      → find cpu current ≡ some stats
      → let (_, c') = collect_cpu_usage config now_ms current c in
        (find cpu c'.state.baselines ≡ some stats) × Distinct c'.state.baseline_last_seen_ms
  unfolding collect_cpu_usage
  round_latest config now_ms current c cpu stats on d seen_once present =
      rw (on, some_read cpu stats current present)
        (collect_current-latest cpu_sample config.state_ttl_sec now_ms current c.state cpu stats d
          seen_once present)

  -- A round that reads a label which the round before has read yields one sample of it, whatever
  -- the time between the two: the growth of the total and of the idle time from the one reading to
  -- the other, without a wrap, and the part that was not idle. It yields none where the total has
  -- not gone up, the idle time went back, or the idle time grew by more than the total. Then the
  -- baseline is the latest reading. The collector is enabled, each reading and the table of what was
  -- seen last name a label once, the clock has 64 bits, and the lifetime of a baseline has 32.
  pub usage_between_rounds :
      (config : MonitorConfig W) (first_ms second_ms : ℕ) (first second : Map Bytes CpuStats)
      (c : CpuUsageCollector) (cpu : Bytes) (a b : CpuStats)
      → config.cpu_usage_enable ≡ true
      → config.state_ttl_sec < 2 ^ 32
      → second_ms < 2 ^ 64
      → Distinct first
      → Distinct second
      → Distinct c.state.baseline_last_seen_ms
      → find cpu first ≡ some a
      → find cpu second ≡ some b
      → let (_, between) = collect_cpu_usage config first_ms first c in
        let (samples, after) = collect_cpu_usage config second_ms second between in
        (Reported cpu a b samples ⊎ Skipped cpu a b samples)
        × (find cpu after.state.baselines ≡ some b)
  usage_between_rounds config first_ms second_ms first second c cpu a b on ht hn d1 d2 d0 in1 in2 =
      let (e1, once1) = round_latest config first_ms first c cpu a on d1 d0 in1 in
      let between = (collect_cpu_usage config first_ms first c).1 in
      let (e2, once2) = round_latest config second_ms second between cpu b on d2 once1 in2 in
      let kept =
        prune_baselines-read config.state_ttl_sec second_ms second between.state cpu b hn ht once1
          in2 in
      (
        one_or_none cpu a b _ (
            ap (samples_of cpu) (
              collect_cpu_usage-expected config second_ms second between on
                (some_read cpu b second in2) d2)
            ∙ samples_of-expected cpu _ second b d2 in2
            ∙ ap (λ p. prepend cpu_sample (sampled cpu_sample p cpu b) []) (kept ∙ e1)),
        e2,
      )
