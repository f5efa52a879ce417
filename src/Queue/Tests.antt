-- ===== src/Queue/Tests.antt =====
-- Runs of the queue at concrete inputs, and each of its theorems at one.
use minilisysm.Prelude.{
  ◌||◌, set, ℕ, ◌+◌, ◌≡◌, refl, ◌≢◌, Bool, true, false, some, List, [], ◌∷◌, ◌++◌, arith, u64,
}
use minilisysm.Event.{
  EventLevel, info, recovery, warning, critical, is_critical, is_warning, is_info, is_recovery,
}
use minilisysm.Queue.{
  Ring, init, stats, push, pop, depth, increment, should_reject_for_reserve, record_drop,
  update_high_watermark,
}
use minilisysm.Queue.Spec
use minilisysm.Queue.Spec.{Op, pushes, pops, pushed, popped}
use minilisysm.Queue.Inv.{IsValid, init-IsValid}
use minilisysm.Queue.Refine.{contents, policy}
use minilisysm.Queue.Run.{run, run_refines}
use minilisysm.Queue.Statistics.{peak, refusals, run-high_watermark, run-counters}
use minilisysm.Queue.Reserve.{reserve_serves_criticals, criticals}
use minilisysm.Queue.Threads.{
  State, start, Reach, here, next, check, admit, write, publish, load, loaded, checked, admitted,
  written, published,
}
use minilisysm.Queue.Threads.Safety.{fifo_under_interleaving, slots_apart}

-- Three slots, one of them for critical events.
abbrev small : Ring ℕ
small = init 0 3 1 true true

abbrev script : List (Op ℕ)
script =
    pushes 7 info
    ∷ pushes 8 warning
    ∷ pushes 9 warning
    ∷ pushes 10 critical
    ∷ pops
    ∷ pushes 11 recovery
    ∷ pushes 12 critical
    ∷ pushes 13 critical
    ∷ []

script_replies :
    (run 0 small script).0
    ≡ pushed true
      ∷ pushed true
      ∷ pushed false
      ∷ pushed true
      ∷ popped (some 7)
      ∷ pushed false
      ∷ pushed true
      ∷ pushed false
      ∷ []
unfolding run init push pop should_reject_for_reserve record_drop update_high_watermark depth
script_replies = refl

small-IsValid : IsValid small
small-IsValid = init-IsValid 0 3 1 true true (omega arith)

run_refines_example :
    let (rs, r) = run 0 small script in
    (rs, contents 0 r) ≡ Spec.run (policy small) (contents 0 small) script
run_refines_example = run_refines 0 small script small-IsValid

run-high_watermark_example :
    (run 0 small script).1.high_watermark
    ≡ peak small.high_watermark (policy small) (contents 0 small) script
run-high_watermark_example = run-high_watermark 0 small script small-IsValid

run-counters_example :
    let refused =
      λ (among : EventLevel → Bool). refusals among (policy small) (contents 0 small) script in
    let s = stats (run 0 small script).1 in
    (u64 s.push_fail_count ≡ u64 (small.push_fail_count + refused (λ _. true)))
    × (u64 s.dropped_critical_count ≡ u64 (small.dropped_critical_count + refused is_critical))
    × (u64 s.dropped_warning_count ≡ u64 (small.dropped_warning_count + refused is_warning))
    × (u64 s.dropped_info_count
        ≡ u64 (small.dropped_info_count + refused (λ l. is_info l || is_recovery l)))
run-counters_example = run-counters 0 small script small-IsValid

reserve_serves_criticals_example :
    (run 0 small ((pushes 7 info ∷ pushes 8 info ∷ pushes 9 info ∷ []) ++ criticals (10 ∷ []))).0
    ≡ (run 0 small (pushes 7 info ∷ pushes 8 info ∷ pushes 9 info ∷ [])).0 ++ pushed true ∷ []
unfolding init depth
reserve_serves_criticals_example =
    reserve_serves_criticals 0 small (pushes 7 info ∷ pushes 8 info ∷ pushes 9 info ∷ []) (10 ∷ [])
      small-IsValid refl refl (omega arith) (refl, (refl, (refl, tt))) (omega arith)

-- One item sent, and the consumer about to take it.
abbrev s0 : State ℕ
s0 = start 0 3 1 true true

abbrev s1 : State ℕ
s1 = record s0 { producer = checked 7 info }

abbrev s2 : State ℕ
s2 = record s1 { producer = admitted 7 }

abbrev s3 : State ℕ
s3 = record s2 { ring = record s2.ring { buffer = set s2.buffer s2.head 7 }; producer = written 7 }

abbrev s4 : State ℕ
s4 = record s3 {
  ring = record s3.ring { head = increment s3.capacity s3.head };
  producer = published;
  sent = s3.sent ++ 7 ∷ [];
}

abbrev s5 : State ℕ
s5 = record s4 { consumer = loaded }

reach_s5 : Reach 0 s0 s5
unfolding start init should_reject_for_reserve depth
reach_s5 =
    next
      (next
        (next (next (next here (check 7 info refl (omega arith))) (admit 7 info refl refl))
          (write 7 refl))
        (publish 7 refl))
      (load refl (omega arith))

fifo_under_interleaving_example : s5.sent ≡ s5.received ++ contents 0 s5.ring
fifo_under_interleaving_example = fifo_under_interleaving 0 3 1 true true (omega arith) reach_s5

slots_apart_example : s5.head ≢ s5.tail
slots_apart_example = slots_apart 0 3 1 true true (omega arith) reach_s5 (λ e. cc)
