-- ===== src/Collectors/Tests.antt =====
-- The collectors at concrete readings, with whole numbers for doubles.
use minilisysm.Prelude.Chars.{lines}
use minilisysm.Prelude.{◌⊎◌, none, false, bytes_eq, bytes_equality, pos, length, ◌≤◌, ◌+◌}
use minilisysm.Map.{erase, erase_if}
use minilisysm.Samples.{SchedDelaySample}
use minilisysm.Config.{SchedDelayConfig, default_sched_delay}
use minilisysm.Rules.Engine.Keys.{sched_key}
use minilisysm.Collectors.SchedDelay.{
  ProcessReading, SchedDelayCollector, collect_sched_delay, prune_expired_state, scan_processes,
  scan_tasks, cached_comm, trim_newline, sched_sample,
}
use minilisysm.Collectors.SchedDelay.Limits.{AllConsistent, collect_sched_delay-samples}
use minilisysm.Prelude.{
  ℕ, ◌+◌, ◌*◌, ◌≤◌, ◌≡◌, refl, ◌≢◌, true, some, List, [], ◌∷◌, ◌++◌, arith, codes, bytes_eq, digits,
  from_chars, take, Bytes,
}
use minilisysm.Double.{whole_double, whole-IsOrdered}
use minilisysm.Config.{MonitorConfig, default_config}
use minilisysm.Map.{find, assign}
use minilisysm.Samples.{IoDelaySample, CpuUsageSample}
use minilisysm.Collectors.Baselines.{note_seen, prune, prune_baselines, scan, collect_current}
use minilisysm.Collectors.Baselines.Deltas.{expected}
use minilisysm.Collectors.Baselines.Kept.{Tracked}
use minilisysm.Collectors.IoDelay.{
  DiskStats, IoDelayCollector, collect_io_delay, io_sample, went_back, IsGrowth, io_sample_sound,
  collect_io_delay-expected,
}
use minilisysm.Collectors.CpuUsage.{
  CpuStats, CpuUsageCollector, collect_cpu_usage, cpu_sample, total_jiffies, idle_jiffies,
  cpu_sample_sound,
}
use minilisysm.Collectors.CpuUsage.Rounds.{Reported, Skipped, usage_between_rounds}
use minilisysm.Collectors.Status.{
  parse_kb_line, collect_meminfo, collect_self_status, after_key, skip_separators, read_line,
  read_lines, find_vm_rss,
}

abbrev config : MonitorConfig ℕ
config = default_config

abbrev disk : ℕ → ℕ → DiskStats
disk ios at = record {
  read_ios = ios;
  read_time_ms = ios * 3;
  write_ios = ios;
  write_time_ms = ios * 5;
  in_flight = 2;
  io_time_ms = ios * 2;
  timestamp_ms = at;
}

abbrev disks : IoDelayCollector
disks = record {
  state = record {
    baselines = (codes "sda", disk 10 1000) ∷ [];
    baseline_last_seen_ms = (codes "sda", 1000) ∷ [];
  };
  last_failure_count = 0;
}

abbrev reading : List (Bytes × DiskStats)
reading = (codes "sda", disk 30 2000) ∷ (codes "sdb", disk 7 2000) ∷ []

abbrev sda_sample : IoDelaySample ℕ
sda_sample = record {
  device = codes "sda";
  delta_io_count = 40;
  avg_await_ms = 4;
  util_percent = 4;
  in_flight = 2;
  valid = true;
}

test_io : (collect_io_delay config 2000 reading disks).0 ≡ sda_sample ∷ []
unfolding collect_io_delay collect_current note_seen prune scan find assign bytes_eq io_sample
    went_back
test_io = refl

io_sample_sound_example : IsGrowth (disk 10 1000) (disk 30 2000) sda_sample
unfolding io_sample went_back
io_sample_sound_example =
    io_sample_sound whole-IsOrdered (codes "sda") (disk 10 1000) (disk 30 2000) sda_sample
      (omega arith) (omega arith) refl

collect_io_delay-expected_example :
    (collect_io_delay config 2000 reading disks).0
    ≡ take config.io_max_targets (
        expected io_sample
          (prune_baselines config.state_ttl_sec 2000 (record disks.state {
            baseline_last_seen_ms = note_seen 2000 reading disks.state.baseline_last_seen_ms;
          })).baselines
          reading)
unfolding find bytes_eq
collect_io_delay-expected_example =
    collect_io_delay-expected config 2000 reading disks refl (omega arith) refl (refl, (refl, tt))

disks-Tracked : Tracked disks.state.baseline_last_seen_ms disks.state.baselines
unfolding find
disks-Tracked k h = ground arith

abbrev jiffies : ℕ → ℕ → CpuStats
jiffies busy idle = record {
  user = busy;
  nice = 0;
  system = 0;
  idle = idle;
  iowait = 0;
  irq = 0;
  softirq = 0;
  steal = 0;
  guest = 0;
  guest_nice = 0;
}

abbrev cpus : CpuUsageCollector
cpus = record {
  state = record {
    baselines = (codes "total", jiffies 100 400) ∷ [];
    baseline_last_seen_ms = (codes "total", 1000) ∷ [];
  };
  last_failure_count = 0;
}

abbrev stat : List (Bytes × CpuStats)
stat = (codes "total", jiffies 130 410) ∷ []

abbrev total_sample : CpuUsageSample ℕ
total_sample = record {
  cpu = codes "total";
  usage_percent = 75;
  delta_total_jiffies = 40;
  delta_idle_jiffies = 10;
  valid = true;
}

test_cpu : (collect_cpu_usage config 2000 stat cpus).0 ≡ total_sample ∷ []
unfolding collect_cpu_usage collect_current note_seen prune scan find assign bytes_eq cpu_sample
test_cpu = refl

cpu_sample_sound_example :
    (40 + total_jiffies (jiffies 100 400) ≡ total_jiffies (jiffies 130 410))
    × (10 + idle_jiffies (jiffies 100 400) ≡ idle_jiffies (jiffies 130 410))
    × (total_sample.delta_total_jiffies ≢ 0)
    × (10 ≤ 40)
    × (whole_double.le total_sample.usage_percent 100 ≡ true)
unfolding cpu_sample
cpu_sample_sound_example =
    cpu_sample_sound whole-IsOrdered (codes "total") (jiffies 100 400) (jiffies 130 410)
      total_sample refl

-- The same label a minute later.
abbrev later_stat : List (Bytes × CpuStats)
later_stat = (codes "total", jiffies 190 430) ∷ []

usage_between_rounds_example :
    let (_, between) = collect_cpu_usage config 2000 stat cpus in
    let (samples, after) = collect_cpu_usage config 62000 later_stat between in
    (Reported (codes "total") (jiffies 130 410) (jiffies 190 430) samples
      ⊎ Skipped (codes "total") (jiffies 130 410) (jiffies 190 430) samples)
    × (find (codes "total") after.state.baselines ≡ some (jiffies 190 430))
unfolding find bytes_eq
usage_between_rounds_example =
    usage_between_rounds config 2000 62000 stat later_stat cpus (codes "total") (jiffies 130 410)
      (jiffies 190 430) refl (omega arith) (omega arith) (refl, tt) (refl, tt) (refl, tt) refl refl

cpus-Tracked : Tracked cpus.state.baseline_last_seen_ms cpus.state.baselines
unfolding find
cpus-Tracked k h = ground arith

test_meminfo :
    let s =
      collect_meminfo
        (some (codes "MemTotal: 900 kB" ++ 10 ∷ codes "MemAvailable:  70 kB" ++ 10 ∷ [])) in
    (s.mem_total_kb ≡ 900) × (s.mem_available_kb ≡ 70) × (s.valid ≡ true)
unfolding collect_meminfo lines read_lines read_line parse_kb_line after_key from_chars digits
    skip_separators
test_meminfo = (refl, refl, refl)

test_self_status :
    (collect_self_status (some (codes "Name: a" ++ 10 ∷ codes "VmRSS: 12 kB"))).vm_rss_kb ≡ 12
unfolding collect_self_status lines find_vm_rss parse_kb_line after_key from_chars digits
    skip_separators
test_self_status = refl

-- A round that reads one thread twice the wait of the round before.
abbrev sched_config : SchedDelayConfig
sched_config = record default_sched_delay {
  sched_delay_enable = true;
  sched_process_whitelist = codes "app" ∷ [];
}

abbrev app_reading : ℕ → ProcessReading
app_reading wait = record {
  pid = some (pos 7);
  comm = record { text = some (codes "app"); steady_ns = 0; clock_ms = 1 };
  tasks = some (
      record {
        tid = some (pos 8);
        comm = record { text = none; steady_ns = 0; clock_ms = 1 };
        sched = some (wait, 3 + wait);
      }
      ∷ []);
}

abbrev new_collector : SchedDelayCollector
new_collector = record {
  baselines = [];
  process_comm_cache = [];
  thread_comm_cache = [];
  last_failure_count = 0;
}

abbrev second_round : List SchedDelaySample × SchedDelayCollector
second_round =
    collect_sched_delay 60 sched_config (pos 1) 20 (some (app_reading 10 ∷ [])) false
      (collect_sched_delay 60 sched_config (pos 1) 10 (some (app_reading 4 ∷ [])) false
        new_collector).1

test_sched_delay :
    second_round.0
    ≡ record {
      pid = pos 7;
      tid = pos 8;
      delta_wait_sum_us = 6;
      delta_involuntary_switches = 6;
      max_wait_us = 6;
      avg_wait_us = 1;
      aggregate_count = 6;
      valid = true;
    }
      ∷ []
unfolding collect_sched_delay prune_expired_state scan_processes scan_tasks cached_comm trim_newline
    lines sched_key sched_sample find assign erase erase_if bytes_eq
test_sched_delay = refl

collect_sched_delay-samples_example :
    let (samples, after) =
      collect_sched_delay 60 sched_config
        (pos 1)
        10
        (some (app_reading 4 ∷ []))
        false
        new_collector in
    (length samples ≤ sched_config.sched_max_targets) × AllConsistent samples
collect_sched_delay-samples_example =
    collect_sched_delay-samples 60 sched_config (pos 1) 10 (some (app_reading 4 ∷ [])) false
      new_collector
