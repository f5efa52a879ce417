-- ===== src/Collectors/SchedDelay.antt =====
-- src/collectors/sched_delay_collector.cpp. What a round reads of /proc is an argument: for each
-- directory its number, if its name is one, the text of `comm`, and the threads with the values that
-- `read_sched` finds. So are the readings of the clocks, and whether the round takes too long.
pub mod Limits
use minilisysm.Prelude.{
  ℕ, zero, suc, ◌+◌, ◌-◌, ◌*◌, ◌/◌, ◌≤◌, ◌<◌, ◌≡◌, refl, ap, ap₂, sym, ◌∙◌, Bool, true, false, ◌&&◌,
  ◌||◌, not, Option, none, some, List, [], ◌∷◌, ◌++◌, ℤ, pos, Bytes, bytes_eq, nat_eq, lines,
  length, length-append, sub64, leb, ltb, ◌==◌, if◌then◌else◌, arith, inl, inr, ◌⊎◌, Bool-cases,
}
use minilisysm.Map.{Map, find, assign, erase, erase_if}
use minilisysm.Config.{SchedDelayConfig}
use minilisysm.Samples.{SchedDelaySample}
use minilisysm.Rules.Engine.Keys.{sched_key, to_u32}
use minilisysm.Collectors.Baselines.{ttl_ms}

pub record Baseline : Type 0 where
  pub wait_sum_us : ℕ
  pub involuntary_switches : ℕ
  pub last_seen_ms : ℕ

pub record CommCacheEntry : Type 0 where
  pub comm : Bytes
  pub refreshed_at : ℕ
  pub last_seen_ms : ℕ

pub record SchedDelayCollector : Type 0 where
  pub baselines : Map ℕ Baseline
  pub process_comm_cache : Map ℕ CommCacheEntry
  pub thread_comm_cache : Map ℕ CommCacheEntry
  pub last_failure_count : ℕ

-- The text of a `comm` file, and the clocks when it is asked for: steady_clock in nanoseconds, and
-- the collector's in milliseconds.
pub record CommReading : Type 0 where
  pub text : Option Bytes
  pub steady_ns : ℕ
  pub clock_ms : ℕ

pub record TaskReading : Type 0 where
  pub tid : Option ℤ
  pub comm : CommReading
  pub sched : Option (ℕ × ℕ)

pub record ProcessReading : Type 0 where
  pub pid : Option ℤ
  pub comm : CommReading
  pub tasks : Option (List TaskReading)

abbrev pub is_newline : ℕ → Bool
is_newline c = c == 10 || c == 13

abbrev pub ends_here : ℕ → Bytes → Bool
ends_here c [] = is_newline c
ends_here c (d ∷ s) = false

unfoldable pub trim_newline : Bytes → Bytes
trim_newline [] = []
trim_newline (c ∷ s) = let rest = trim_newline s in if ends_here c rest then [] else c ∷ rest

abbrev pub first_line : List Bytes → Bytes
first_line [] = []
first_line (line ∷ ls) = line

abbrev pub if_nonempty : Bytes → Option Bytes
if_nonempty [] = none
if_nonempty (c ∷ s) = some (c ∷ s)

abbrev pub read_comm : Option Bytes → Option Bytes
read_comm none = none
read_comm (some text) = if_nonempty (trim_newline (first_line (lines text)))

-- The branches of cached_comm after the cache is searched.
abbrev pub refreshed_comm :
    ℕ → CommReading → Map ℕ CommCacheEntry → Option Bytes → Option Bytes × Map ℕ CommCacheEntry
refreshed_comm key r cache none = (none, erase key cache)
refreshed_comm key r cache (some comm) = (
  some comm,
  assign key (record { comm = comm; refreshed_at = r.steady_ns; last_seen_ms = r.clock_ms }) cache,
)

abbrev pub looked_up :
    ℕ
    → ℕ
    → CommReading
    → Map ℕ CommCacheEntry
    → Option CommCacheEntry
    → Option Bytes × Map ℕ CommCacheEntry
looked_up refresh_ns key r cache none = refreshed_comm key r cache (read_comm r.text)
looked_up refresh_ns key r cache (some entry) =
    if ltb (r.steady_ns - entry.refreshed_at) refresh_ns
    then (some entry.comm, assign key (record entry { last_seen_ms = r.clock_ms }) cache)
    else refreshed_comm key r cache (read_comm r.text)

unfoldable pub cached_comm :
    SchedDelayConfig → ℕ → CommReading → Map ℕ CommCacheEntry → Option Bytes × Map ℕ CommCacheEntry
cached_comm c key r cache =
    looked_up (c.sched_proc_cache_refresh_ms * 1000000) key r cache (find key cache)

abbrev pub contains : List Bytes → Bytes → Bool
contains [] value = false
contains (name ∷ names) value = bytes_eq name value || contains names value

abbrev pub no_filter : List Bytes → Bool
no_filter [] = true
no_filter (name ∷ names) = false

-- The test on an entry of the three maps.
abbrev pub is_expired : ℕ → ℕ → ℕ → Bool
is_expired now_ms ttl last_seen_ms = not (last_seen_ms == 0) && leb ttl (sub64 now_ms last_seen_ms)

unfoldable pub prune_expired_state : ℕ → ℕ → SchedDelayCollector → SchedDelayCollector
prune_expired_state state_ttl_sec now_ms s =
    let ttl = ttl_ms state_ttl_sec in
    record s {
      baselines = erase_if (λ (b : Baseline). is_expired now_ms ttl b.last_seen_ms) s.baselines;
      process_comm_cache =
          erase_if (λ (e : CommCacheEntry). is_expired now_ms ttl e.last_seen_ms)
            s.process_comm_cache;
      thread_comm_cache =
          erase_if (λ (e : CommCacheEntry). is_expired now_ms ttl e.last_seen_ms)
            s.thread_comm_cache;
    }

-- The locals of `collect`, and whether it has returned.
pub record Progress : Type 0 where
  pub collector : SchedDelayCollector
  pub samples : List SchedDelaySample
  pub scanned_threads : ℕ
  pub returned : Bool

abbrev pub fail_once : SchedDelayCollector → SchedDelayCollector
fail_once s = record s { last_failure_count = s.last_failure_count + 1 }

unfoldable pub sched_sample : ℤ → ℤ → ℕ → ℕ → Baseline → SchedDelaySample
sched_sample pid tid wait switches previous =
    let delta_wait = wait - previous.wait_sum_us in
    let delta_switches = switches - previous.involuntary_switches in
    record {
      pid = pid;
      tid = tid;
      delta_wait_sum_us = delta_wait;
      delta_involuntary_switches = delta_switches;
      max_wait_us = delta_wait;
      avg_wait_us = if delta_switches == 0 then delta_wait else delta_wait / delta_switches;
      aggregate_count = delta_switches;
      valid = true;
    }

-- What a reading adds to the samples: nothing without a baseline, or where a counter went back.
abbrev pub new_samples : ℤ → ℤ → ℕ → ℕ → Option Baseline → List SchedDelaySample
new_samples pid tid wait switches none = []
new_samples pid tid wait switches (some previous) =
    if ltb wait previous.wait_sum_us || ltb switches previous.involuntary_switches
    then []
    else sched_sample pid tid wait switches previous ∷ []

abbrev pub observe : ℕ → ℤ → ℤ → Option (ℕ × ℕ) → Progress → Progress
observe now_ms pid tid none p = p
observe now_ms pid tid (some (wait, switches)) p =
    let key = sched_key pid tid in
    record p {
      samples = p.samples ++ new_samples pid tid wait switches (find key p.collector.baselines);
      collector = record p.collector {
        baselines =
            assign key
              (record {
                wait_sum_us = wait;
                involuntary_switches = switches;
                last_seen_ms = now_ms;
              })
              p.collector.baselines;
      };
    }

-- should_scan_thread on the name of a thread, if it is known.
abbrev pub thread_listed : SchedDelayConfig → Option Bytes → Bool
thread_listed c none = false
thread_listed c (some comm) = contains c.sched_thread_whitelist comm

-- The body of the loop over the threads behind the limits.
abbrev pub scan_thread : SchedDelayConfig → ℕ → ℤ → TaskReading → Option ℤ → Progress → Progress
scan_thread c now_ms pid task none p = p
scan_thread c now_ms pid task (some tid) p =
    let counted = record p { scanned_threads = p.scanned_threads + 1 } in
    let (comm, cache) = cached_comm c (sched_key pid tid) task.comm p.collector.thread_comm_cache in
    let named = record counted { collector = record p.collector { thread_comm_cache = cache } } in
    if no_filter c.sched_thread_whitelist
    then observe now_ms pid tid task.sched counted
    else if thread_listed c comm
    then observe now_ms pid tid task.sched named
    else named

abbrev pub scan_task : SchedDelayConfig → ℕ → ℤ → TaskReading → Progress → Progress
scan_task c now_ms pid task p =
    if p.returned
    then p
    else if leb c.sched_max_targets (length p.samples)
    then record p { returned = true }
    else if leb c.sched_proc_max_scan_threads p.scanned_threads
    then record p { returned = true; collector = fail_once p.collector }
    else scan_thread c now_ms pid task task.tid p

unfoldable pub scan_tasks : SchedDelayConfig → ℕ → ℤ → List TaskReading → Progress → Progress
scan_tasks c now_ms pid [] p = p
scan_tasks c now_ms pid (task ∷ tasks) p =
    scan_tasks c now_ms pid tasks (scan_task c now_ms pid task p)

abbrev pub scan_task_dir :
    SchedDelayConfig → ℕ → ℤ → Option (List TaskReading) → Progress → Progress
scan_task_dir c now_ms pid none p = record p { collector = fail_once p.collector }
scan_task_dir c now_ms pid (some tasks) p = scan_tasks c now_ms pid tasks p

abbrev pub is_pid : ℤ → ℤ → Bool
is_pid pid own = to_u32 pid == to_u32 own

abbrev pub should_consider_process_id : SchedDelayConfig → ℤ → ℤ → Bool
should_consider_process_id c own pid = not (no_filter c.sched_process_whitelist) || is_pid pid own

abbrev pub should_scan_process : SchedDelayConfig → ℤ → ℤ → Option Bytes → Bool
should_scan_process c own pid none = false
should_scan_process c own pid (some comm) =
    if no_filter c.sched_process_whitelist
    then is_pid pid own
    else contains c.sched_process_whitelist comm

abbrev pub scan_numbered :
    SchedDelayConfig → ℤ → ℕ → ProcessReading → Option ℤ → Progress → Progress
scan_numbered c own now_ms process none p = p
scan_numbered c own now_ms process (some pid) p =
    let (comm, cache) = cached_comm c (to_u32 pid) process.comm p.collector.process_comm_cache in
    let named = record p { collector = record p.collector { process_comm_cache = cache } } in
    if not (should_consider_process_id c own pid)
    then p
    else if should_scan_process c own pid comm
    then scan_task_dir c now_ms pid process.tasks named
    else named

unfoldable pub scan_processes : SchedDelayConfig → ℤ → ℕ → List ProcessReading → Progress → Progress
scan_processes c own now_ms [] p = p
scan_processes c own now_ms (process ∷ processes) p =
    let next = scan_numbered c own now_ms process process.pid p in
    scan_processes c own now_ms processes (if p.returned then p else next)

abbrev pub finish : Bool → Progress → List SchedDelaySample × SchedDelayCollector
finish overrun p = (p.samples, if overrun then fail_once p.collector else p.collector)

abbrev pub scan_proc :
    SchedDelayConfig
    → ℤ
    → ℕ
    → Option (List ProcessReading)
    → Bool
    → SchedDelayCollector
    → List SchedDelaySample × SchedDelayCollector
scan_proc c own now_ms none overrun s = ([], fail_once s)
scan_proc c own now_ms (some processes) overrun s = finish overrun (
    scan_processes c own now_ms processes
      (record { collector = s; samples = []; scanned_threads = 0; returned = false }))

-- `own` is the process id of the agent.
unfoldable pub collect_sched_delay :
    ℕ
    → SchedDelayConfig
    → ℤ
    → ℕ
    → Option (List ProcessReading)
    → Bool
    → SchedDelayCollector
    → List SchedDelaySample × SchedDelayCollector
collect_sched_delay state_ttl_sec c own now_ms processes overrun s =
    let pruned = record (prune_expired_state state_ttl_sec now_ms s) { last_failure_count = 0 } in
    if not c.sched_delay_enable
    then ([], pruned)
    else scan_proc c own now_ms processes overrun pruned
