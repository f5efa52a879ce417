-- ===== src/Collectors/IoDelay.antt =====
-- src/collectors/io_delay_collector.cpp and its header. The readings of /proc/diskstats, `current`,
-- and the clock are arguments; the order of `current` is the order of the map that was read.
use minilisysm.Prelude.{
  bytes_equality, ℕ, ◌+◌, ◌∙◌, ◌-◌, ◌<◌, ◌≤◌, ◌^◌, ◌≡◌, ◌≢◌, refl, Bool, true, false, not, ◌&&◌,
  ◌||◌, Option, none, some, List, [], ◌∷◌, Bytes, codes, bytes_eq, add64, ltb, leb, ◌==◌, take,
  arith, Bool-cases, inl, inr, if◌then◌else◌,
}
use minilisysm.Double.{Double, IsOrdered, fmin, fmin-le}
use minilisysm.Config.{MonitorConfig}
use minilisysm.Map.{Distinct, Map}
use minilisysm.Samples.{IoDelaySample}
use minilisysm.Collectors.Baselines.{
  Baselines, note_seen, prune_baselines, collect_current, nothing_read,
}
use minilisysm.Collectors.Baselines.Deltas.{expected, scan-limited}
use minilisysm.Collectors.Baselines.Kept.{Tracked, collect_current-Tracked}

pub record DiskStats : Type 0 where
  pub read_ios : ℕ
  pub read_time_ms : ℕ
  pub write_ios : ℕ
  pub write_time_ms : ℕ
  pub in_flight : ℕ
  pub io_time_ms : ℕ
  pub timestamp_ms : ℕ

pub record IoDelayCollector : Type 0 where
  pub state : Baselines DiskStats
  pub last_failure_count : ℕ

unfoldable pub starts_with : Bytes → Bytes → Bool
starts_with value [] = true
starts_with [] (c ∷ wanted) = false
starts_with (x ∷ value) (c ∷ wanted) = x == c && starts_with value wanted

abbrev pub contains_name : List Bytes → Bytes → Bool
contains_name [] value = false
contains_name (name ∷ names) value = bytes_eq name value || contains_name names value

abbrev pub no_names : List Bytes → Bool
no_names [] = true
no_names (name ∷ names) = false

-- A counter that went backwards.
unfoldable pub went_back : DiskStats → DiskStats → Bool
went_back previous stats =
    ltb stats.read_ios previous.read_ios
    || ltb stats.write_ios previous.write_ios
    || ltb stats.read_time_ms previous.read_time_ms
    || ltb stats.write_time_ms previous.write_time_ms
    || ltb stats.io_time_ms previous.io_time_ms

module _ {W : Type 0} ⦃d : Double W⦄ where
  open d use {of_nat, mul, div}

  unfoldable pub should_scan_device : MonitorConfig W → Bytes → Bool
  should_scan_device config device =
      if no_names config.io_device_whitelist
      then not (starts_with device (codes "loop"))
        && not (starts_with device (codes "ram"))
        && not (starts_with device (codes "fd"))
      else contains_name config.io_device_whitelist device

  -- The sample of one device, or `none` for `continue`.
  unfoldable pub io_sample : Bytes → DiskStats → DiskStats → Option (IoDelaySample W)
  io_sample device previous stats =
      let delta_ios =
        add64 (stats.read_ios - previous.read_ios) (stats.write_ios - previous.write_ios) in
      let delta_time =
        add64 (stats.read_time_ms - previous.read_time_ms)
          (stats.write_time_ms - previous.write_time_ms) in
      let elapsed_ms = stats.timestamp_ms - previous.timestamp_ms in
      if leb stats.timestamp_ms previous.timestamp_ms || went_back previous stats || delta_ios == 0
      then none
      else some (record {
        device = device;
        delta_io_count = delta_ios;
        avg_await_ms = div (of_nat delta_time) (of_nat delta_ios);
        util_percent = fmin (of_nat 100) (
            div (mul (of_nat (stats.io_time_ms - previous.io_time_ms)) (of_nat 100))
              (of_nat elapsed_ms));
        in_flight = stats.in_flight;
        valid = true;
      })

  -- `collect`
  unfoldable pub collect_io_delay :
      MonitorConfig W
      → ℕ
      → Map Bytes DiskStats
      → IoDelayCollector
      → List (IoDelaySample W) × IoDelayCollector
  collect_io_delay config now_ms current c =
      if not config.io_delay_enable
      then ([], record c { last_failure_count = 0 })
      else if nothing_read current
      then ([], record c { last_failure_count = 1 })
      else let (samples, state) =
          collect_current io_sample (λ n. leb config.io_max_targets n) config.state_ttl_sec now_ms
            current c.state in
        (samples, record { state = state; last_failure_count = 0 })

  -- What a sample says of two readings: its operations, the time they took and the time that the
  -- device was busy are what the counters grew by, each without a wrap.
  pub record IsGrowth (previous stats : DiskStats) (s : IoDelaySample W) : Type 0 where
    pub waited : ℕ
    pub busy : ℕ
    pub elapsed : ℕ
    pub read_ios_up : previous.read_ios ≤ stats.read_ios
    pub write_ios_up : previous.write_ios ≤ stats.write_ios
    pub read_time_up : previous.read_time_ms ≤ stats.read_time_ms
    pub write_time_up : previous.write_time_ms ≤ stats.write_time_ms
    pub operations :
        s.delta_io_count + (previous.read_ios + previous.write_ios)
        ≡ stats.read_ios + stats.write_ios
    pub wait_time :
        waited + (previous.read_time_ms + previous.write_time_ms)
        ≡ stats.read_time_ms + stats.write_time_ms
    pub busy_time : busy + previous.io_time_ms ≡ stats.io_time_ms
    pub time : elapsed + previous.timestamp_ms ≡ stats.timestamp_ms
    pub goes_on : elapsed ≢ 0
    pub some_operation : s.delta_io_count ≢ 0
    pub mean_wait : s.avg_await_ms ≡ div (of_nat waited) (of_nat s.delta_io_count)
    pub utilisation :
        s.util_percent ≡ fmin (of_nat 100) (div (mul (of_nat busy) (of_nat 100)) (of_nat elapsed))
    pub at_most_full : d.le s.util_percent (of_nat 100) ≡ true

  -- The operations of a sample, the time they took and the time that the device was busy are what
  -- the counters grew by, each without a wrap and no counter gone back; the mean wait is the time
  -- over the operations, of which there are some, and the utilisation the busy part of a time that
  -- went on, at most 100 percent for doubles in order. The counters of reads and writes add up to
  -- less than 2^64.
  pub io_sample_sound :
      IsOrdered W
      → (device : Bytes) (previous stats : DiskStats) (s : IoDelaySample W)
      → stats.read_ios + stats.write_ios < 2 ^ 64
      → stats.read_time_ms + stats.write_time_ms < 2 ^ 64
      → io_sample device previous stats ≡ some s
      → IsGrowth previous stats s
  unfolding io_sample went_back
  io_sample_sound o device previous stats s ios times h =
      let busy = stats.io_time_ms - previous.io_time_ms in
      let elapsed = stats.timestamp_ms - previous.timestamp_ms in
      record {
        waited =
            add64 (stats.read_time_ms - previous.read_time_ms)
              (stats.write_time_ms - previous.write_time_ms);
        busy = busy;
        elapsed = elapsed;
        read_ios_up = ground arith;
        write_ios_up = ground arith;
        read_time_up = ground arith;
        write_time_up = ground arith;
        operations = ground arith;
        wait_time = ground arith;
        busy_time = ground arith;
        time = ground arith;
        goes_on = ground arith;
        some_operation = ground arith;
        mean_wait = ground arith;
        utilisation = ground arith;
        at_most_full = ground (
          arith,
          fmin-le o (of_nat 100) (div (mul (of_nat busy) (of_nat 100)) (of_nat elapsed))
              (o.of_nat_number 100),
        );
      }

  -- The collector yields the samples of the readings against the baselines that pruning has left,
  -- in the order of the readings, up to the limit, where it is enabled, something was read, each
  -- device once, and the limit is not 0.
  pub collect_io_delay-expected :
      (config : MonitorConfig W) (now_ms : ℕ) (current : Map Bytes DiskStats) (c : IoDelayCollector)
      → config.io_delay_enable ≡ true
      → config.io_max_targets ≢ 0
      → nothing_read current ≡ false
      → Distinct current
      → let noted = record c.state {
        baseline_last_seen_ms = note_seen now_ms current c.state.baseline_last_seen_ms;
      } in
        (collect_io_delay config now_ms current c).0
        ≡ take config.io_max_targets (
            expected io_sample
              (prune_baselines config.state_ttl_sec now_ms noted).baselines
              current)
  unfolding collect_io_delay collect_current
  collect_io_delay-expected config now_ms current c on limit some_read once =
      let whole : config.io_max_targets - 0 ≡ config.io_max_targets = omega arith in
      rw (on, some_read)
        (scan-limited io_sample config.io_max_targets 0 current _ (omega (arith, limit)) once
          ∙ rw whole refl)

  -- Every device with a baseline is in the table of what was seen last, before and after `collect`
  -- on any of its branches, so that pruning reaches it.
  pub collect_io_delay-Tracked :
      (config : MonitorConfig W) (now_ms : ℕ) (current : Map Bytes DiskStats) (c : IoDelayCollector)
      → now_ms < 2 ^ 64
      → config.state_ttl_sec < 2 ^ 32
      → Tracked c.state.baseline_last_seen_ms c.state.baselines
      → let c' = (collect_io_delay config now_ms current c).1 in
        Tracked c'.state.baseline_last_seen_ms c'.state.baselines
  unfolding collect_io_delay
  collect_io_delay-Tracked config now_ms current c hn ht tracked =
      elim (Bool-cases config.io_delay_enable) [
        | inr off ↦ rw off tracked
        | inl on ↦ elim (Bool-cases (nothing_read current)) [
          | inl empty ↦ rw (on, empty) tracked
          | inr some_read ↦
              rw (on, some_read)
                (collect_current-Tracked io_sample _ config.state_ttl_sec now_ms current c.state hn
                  ht tracked)
        ]
      ]
