-- ===== src/Collectors/SchedDelay/Limits.antt =====
-- The samples of a round of the collector of scheduling delay, and how many there are.
use minilisysm.Prelude.{
  ℕ, ◌-◌, ◌/◌, ◌≤◌, ◌<◌, ◌≡◌, refl, Bool, true, false, ◌||◌, not, Option, none, some, List, [], ◌∷◌,
  ◌++◌, ℤ, nat_eq, length, length-append, leb, ltb, if◌then◌else◌, arith, inl, inr, Bool-cases,
}
use minilisysm.Map.{find}
use minilisysm.Config.{SchedDelayConfig}
use minilisysm.Samples.{SchedDelaySample}
use minilisysm.Rules.Engine.Keys.{sched_key, to_u32}
use minilisysm.Collectors.SchedDelay.{
  Baseline, SchedDelayCollector, TaskReading, ProcessReading, cached_comm, no_filter,
  prune_expired_state, Progress, sched_sample, new_samples, observe, thread_listed, scan_thread,
  scan_task, scan_tasks, scan_task_dir, should_consider_process_id, should_scan_process,
  scan_numbered, scan_processes, scan_proc, collect_sched_delay,
}

-- A sample that adds up.
abbrev pub IsConsistent : SchedDelaySample → Type 0
IsConsistent s =
    (s.max_wait_us ≡ s.delta_wait_sum_us)
    × (s.avg_wait_us ≤ s.delta_wait_sum_us)
    × (s.aggregate_count ≡ s.delta_involuntary_switches)
    × (s.valid ≡ true)

abbrev pub AllConsistent : List SchedDelaySample → Type 0
AllConsistent [] = Unit
AllConsistent (s ∷ ss) = IsConsistent s × AllConsistent ss

-- What holds of the locals all along.
abbrev pub InLimits : SchedDelayConfig → Progress → Type 0
InLimits c p =
    (length p.samples ≤ c.sched_max_targets)
    × (p.scanned_threads ≤ c.sched_proc_max_scan_threads)
    × AllConsistent p.samples

AllConsistent-append :
    (a b : List SchedDelaySample) → AllConsistent a → AllConsistent b → AllConsistent (a ++ b)
AllConsistent-append [] b ha hb = hb
AllConsistent-append (s ∷ a) b ha hb = (ha.0, AllConsistent-append a b ha.1 hb)

quotient_le : (a b : ℕ) → a / b ≤ a
quotient_le a b = omega arith

sched_sample-IsConsistent :
    (pid tid : ℤ) (wait switches : ℕ) (previous : Baseline)
    → IsConsistent (sched_sample pid tid wait switches previous)
unfolding sched_sample
sched_sample-IsConsistent pid tid wait switches previous = (
  refl,
  ground
      (arith, quotient_le (wait - previous.wait_sum_us) (switches - previous.involuntary_switches)),
  refl,
  refl,
)

new_samples-AllConsistent :
    (pid tid : ℤ) (wait switches : ℕ) (o : Option Baseline)
    → AllConsistent (new_samples pid tid wait switches o)
      × (length (new_samples pid tid wait switches o) ≤ 1)
new_samples-AllConsistent pid tid wait switches none = (tt, omega arith)
new_samples-AllConsistent pid tid wait switches (some previous) =
    elim (Bool-cases
      (ltb wait previous.wait_sum_us || ltb switches previous.involuntary_switches)) [
        | inl e ↦ rw e (tt, omega arith)
        | inr e ↦ rw e ((sched_sample-IsConsistent pid tid wait switches previous, tt), omega arith)
      ]

-- One more sample at most.
observe-samples :
    (c : SchedDelayConfig) (now_ms : ℕ) (pid tid : ℤ) (o : Option (ℕ × ℕ)) (p : Progress)
    → length p.samples < c.sched_max_targets
    → p.scanned_threads ≤ c.sched_proc_max_scan_threads
    → AllConsistent p.samples
    → InLimits c (observe now_ms pid tid o p)
observe-samples c now_ms pid tid none p few low h = (omega arith, low, h)
observe-samples c now_ms pid tid (some (wait, switches)) p few low h =
    let new = new_samples pid tid wait switches (find (sched_key pid tid) p.collector.baselines) in
    let (sound, one) =
      new_samples-AllConsistent pid tid wait switches
        (find (sched_key pid tid) p.collector.baselines) in
    (
      omega (arith, length-append p.samples new, one),
      low,
      AllConsistent-append p.samples new h sound,
    )

scan_thread-InLimits :
    (c : SchedDelayConfig) (now_ms : ℕ) (pid : ℤ) (task : TaskReading) (o : Option ℤ) (p : Progress)
    → InLimits c p
    → length p.samples < c.sched_max_targets
    → p.scanned_threads < c.sched_proc_max_scan_threads
    → InLimits c (scan_thread c now_ms pid task o p)
scan_thread-InLimits c now_ms pid task none p h few low = h
scan_thread-InLimits c now_ms pid task (some tid) p h few low =
    let (comm, cache) = cached_comm c (sched_key pid tid) task.comm p.collector.thread_comm_cache in
    elim (Bool-cases (no_filter c.sched_thread_whitelist)) [
      | inl e ↦ rw e (observe-samples c now_ms pid tid task.sched _ few (omega arith) h.2)
      | inr e ↦ elim (Bool-cases (thread_listed c comm)) [
        | inl f ↦ rw (e, f) (observe-samples c now_ms pid tid task.sched _ few (omega arith) h.2)
        | inr f ↦ rw (e, f) (h.0, omega arith, h.2)
      ]
    ]

if-InLimits :
    (c : SchedDelayConfig) (b : Bool) (p q : Progress)
    → (b ≡ true → InLimits c p)
    → (b ≡ false → InLimits c q)
    → InLimits c (if b then p else q)
if-InLimits c true p q h h' = h refl
if-InLimits c false p q h h' = h' refl

scan_task-InLimits :
    (c : SchedDelayConfig) (now_ms : ℕ) (pid : ℤ) (task : TaskReading) (p : Progress)
    → InLimits c p
    → InLimits c (scan_task c now_ms pid task p)
scan_task-InLimits c now_ms pid task p h =
    if-InLimits c p.returned p _ (λ e. h)
      (λ e.
        if-InLimits c (leb c.sched_max_targets (length p.samples)) _ _ (λ f. h)
          (λ f.
            if-InLimits c (leb c.sched_proc_max_scan_threads p.scanned_threads) _ _ (λ g. h)
              (λ g.
                scan_thread-InLimits c now_ms pid task task.tid p h (ground arith) (ground arith))))

scan_tasks-InLimits :
    (c : SchedDelayConfig) (now_ms : ℕ) (pid : ℤ) (tasks : List TaskReading) (p : Progress)
    → InLimits c p
    → InLimits c (scan_tasks c now_ms pid tasks p)
unfolding scan_tasks
scan_tasks-InLimits c now_ms pid [] p h = h
scan_tasks-InLimits c now_ms pid (task ∷ tasks) p h =
    scan_tasks-InLimits c now_ms pid tasks (scan_task c now_ms pid task p)
      (scan_task-InLimits c now_ms pid task p h)

scan_task_dir-InLimits :
    (c : SchedDelayConfig) (now_ms : ℕ) (pid : ℤ) (o : Option (List TaskReading)) (p : Progress)
    → InLimits c p
    → InLimits c (scan_task_dir c now_ms pid o p)
scan_task_dir-InLimits c now_ms pid none p h = h
scan_task_dir-InLimits c now_ms pid (some tasks) p h = scan_tasks-InLimits c now_ms pid tasks p h

scan_numbered-InLimits :
    (c : SchedDelayConfig) (own : ℤ) (now_ms : ℕ) (process : ProcessReading) (o : Option ℤ)
    (p : Progress)
    → InLimits c p
    → InLimits c (scan_numbered c own now_ms process o p)
scan_numbered-InLimits c own now_ms process none p h = h
scan_numbered-InLimits c own now_ms process (some pid) p h =
    let (comm, cache) = cached_comm c (to_u32 pid) process.comm p.collector.process_comm_cache in
    elim (Bool-cases (not (should_consider_process_id c own pid))) [
      | inl e ↦ rw e h
      | inr e ↦ elim (Bool-cases (should_scan_process c own pid comm)) [
        | inl f ↦ rw (e, f) (scan_task_dir-InLimits c now_ms pid process.tasks _ h)
        | inr f ↦ rw (e, f) h
      ]
    ]

scan_processes-InLimits :
    (c : SchedDelayConfig) (own : ℤ) (now_ms : ℕ) (processes : List ProcessReading) (p : Progress)
    → InLimits c p
    → InLimits c (scan_processes c own now_ms processes p)
unfolding scan_processes
scan_processes-InLimits c own now_ms [] p h = h
scan_processes-InLimits c own now_ms (process ∷ processes) p h =
    let next = scan_numbered c own now_ms process process.pid p in
    scan_processes-InLimits c own now_ms processes (if p.returned then p else next) (
      if-InLimits c p.returned p next (λ e. h)
        (λ e. scan_numbered-InLimits c own now_ms process process.pid p h))

scan_proc-samples :
    (c : SchedDelayConfig) (own : ℤ) (now_ms : ℕ) (o : Option (List ProcessReading))
    (overrun : Bool) (s : SchedDelayCollector)
    → (length (scan_proc c own now_ms o overrun s).0 ≤ c.sched_max_targets)
      × AllConsistent (scan_proc c own now_ms o overrun s).0
scan_proc-samples c own now_ms none overrun s = (omega arith, tt)
scan_proc-samples c own now_ms (some processes) overrun s =
    let h =
      scan_processes-InLimits c own now_ms processes
        (record { collector = s; samples = []; scanned_threads = 0; returned = false })
        (omega arith, omega arith, tt) in
    (h.0, h.2)

-- Whatever is read, a round yields no more samples than sched_max_targets, and each of them is
-- valid, has its whole wait as its longest, an average that is not above it, and counts the
-- involuntary switches.
pub collect_sched_delay-samples :
    (state_ttl_sec : ℕ) (c : SchedDelayConfig) (own : ℤ) (now_ms : ℕ)
    (processes : Option (List ProcessReading)) (overrun : Bool) (s : SchedDelayCollector)
    → let (samples, after) = collect_sched_delay state_ttl_sec c own now_ms processes overrun s in
      (length samples ≤ c.sched_max_targets) × AllConsistent samples
unfolding collect_sched_delay
collect_sched_delay-samples state_ttl_sec c own now_ms processes overrun s =
    let pruned = record (prune_expired_state state_ttl_sec now_ms s) { last_failure_count = 0 } in
    elim (Bool-cases (not c.sched_delay_enable)) [
      | inl e ↦ rw e (omega arith, tt)
      | inr e ↦ rw e (scan_proc-samples c own now_ms processes overrun pruned)
    ]
