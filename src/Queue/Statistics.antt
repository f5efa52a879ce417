-- ===== src/Queue/Statistics.antt =====
-- `stats` of the ring: what the counters and the high-watermark say after a sequence of calls.
use minilisysm.Prelude.{
  ℕ, ◌+◌, ◌≡◌, refl, ◌∙◌, ap, max, Bool, true, false, ◌||◌, List, [], ◌∷◌, length, arith, u64,
  if◌then◌else◌,
}
use minilisysm.Event.{EventLevel, is_critical, is_warning, is_info, is_recovery}
use minilisysm.Queue.{Ring, stats, push, pop, record_drop, update_high_watermark, depth}
use minilisysm.Queue.Spec
use minilisysm.Queue.Spec.{Policy, Op, pushes, pops, accepts}
use minilisysm.Queue.Window.{length-window}
use minilisysm.Queue.Inv.{IsValid, push-IsValid, pop-IsValid}
use minilisysm.Queue.Refine.{
  contents, policy, stored, push_elim, pop_elim, push_refines, pop_refines, policy-push, policy-pop,
}
use minilisysm.Queue.Run.{run}

module _ {ℓ} {A : Type ℓ} where
  pop-high_watermark :
      (blank : A) (r : Ring A) → IsValid r → (pop blank r).1.high_watermark ≡ r.high_watermark
  pop-high_watermark blank r v =
      pop_elim (λ p. p.1.high_watermark ≡ r.high_watermark) blank r v (λ _. refl) (λ _ _ _. refl)

  stored-high_watermark :
      (r : Ring A) (x : A)
      → depth (stored r x) ≡ depth r + 1
      → (stored r x).high_watermark ≡ max r.high_watermark (depth r + 1)
  unfolding update_high_watermark depth
  stored-high_watermark r x e = ground arith

  -- How many pushes of the levels in `among` a queue turns away.
  pub refusals : (EventLevel → Bool) → Policy → List A → List (Op A) → ℕ
  refusals among p q [] = 0
  refusals among p q (pushes x level ∷ ops) =
      (if accepts p (length q) level then 0 else if among level then 1 else 0)
      + refusals among p (Spec.push p q x level).1 ops
  refusals among p q (pops ∷ ops) = refusals among p (Spec.pop q).1 ops

  -- The largest number of items after an accepted push, from `m` on.
  pub peak : ℕ → Policy → List A → List (Op A) → ℕ
  peak m p q [] = m
  peak m p q (pushes x level ∷ ops) =
      peak (if accepts p (length q) level then max m (length q + 1) else m) p
        (Spec.push p q x level).1 ops
  peak m p q (pops ∷ ops) = peak m p (Spec.pop q).1 ops

  push-high_watermark :
      (blank : A) (r : Ring A) (x : A) (level : EventLevel)
      → IsValid r
      → (push r x level).1.high_watermark ≡ (
          if accepts (policy r) (length (contents blank r)) level
          then max r.high_watermark (length (contents blank r) + 1)
          else r.high_watermark)
  unfolding record_drop
  push-high_watermark blank r x level v =
      rw (length-window blank r.buffer r.capacity r.tail (depth r)) (
        push_elim
          (λ p. p.1.high_watermark ≡ (
            if accepts (policy r) (depth r) level
            then max r.high_watermark (depth r + 1)
            else r.high_watermark))
          r x level v (λ e _. rw e) (λ e _. rw e) (λ e d. rw e (stored-high_watermark r x d)))

  -- After any sequence of calls on a valid ring the high-watermark is the largest of the one before
  -- and the depths that the bounded queue reached at an accepted push.
  pub run-high_watermark :
      (blank : A) (r : Ring A) (ops : List (Op A))
      → IsValid r
      → (run blank r ops).1.high_watermark ≡ peak r.high_watermark (policy r) (contents blank r) ops
  unfolding run peak
  run-high_watermark blank r [] v = refl
  run-high_watermark blank r (pushes x level ∷ ops) v =
      run-high_watermark blank (push r x level).1 ops (push-IsValid r x level v)
      ∙ rw
          (
            policy-push r x level v,
            ap (λ p. p.1) (push_refines blank r x level v),
            push-high_watermark blank r x level v,
          )
          refl
  run-high_watermark blank r (pops ∷ ops) v =
      run-high_watermark blank (pop blank r).1 ops (pop-IsValid blank r v)
      ∙ rw
          (
            policy-pop blank r v,
            ap (λ p. p.1) (pop_refines blank r v),
            pop-high_watermark blank r v,
          )
          refl

  module _ (field : Ring A → ℕ) (among : EventLevel → Bool) where
    abbrev CountsPush : Type ℓ
    CountsPush =
        (blank : A) (r : Ring A) (x : A) (level : EventLevel)
        → IsValid r
        → u64 (field (push r x level).1)
          ≡ u64 (
              field r
              + (if accepts (policy r) (length (contents blank r)) level
                  then 0
                  else if among level
                  then 1
                  else 0))

    abbrev IgnoresPop : Type ℓ
    IgnoresPop = (blank : A) (r : Ring A) → IsValid r → field (pop blank r).1 ≡ field r

    run-count :
        CountsPush
        → IgnoresPop
        → (blank : A) (r : Ring A) (ops : List (Op A)) → IsValid r
        → u64 (field (run blank r ops).1)
          ≡ u64 (field r + refusals among (policy r) (contents blank r) ops)
    unfolding run refusals
    run-count counts ignores blank r [] v = omega arith
    run-count counts ignores blank r (pushes x level ∷ ops) v =
        let rest : u64 (field (run blank (push r x level).1 ops).1)
            ≡ u64 (
                field (push r x level).1
                + refusals among (policy r) (Spec.push (policy r) (contents blank r) x level).1
                    ops) =
          run-count counts ignores blank (push r x level).1 ops (push-IsValid r x level v)
          ∙ rw (policy-push r x level v, ap (λ p. p.1) (push_refines blank r x level v)) refl in
        omega (arith, counts blank r x level v, rest)
    run-count counts ignores blank r (pops ∷ ops) v =
        run-count counts ignores blank (pop blank r).1 ops (pop-IsValid blank r v)
        ∙ rw (policy-pop blank r v, ap (λ p. p.1) (pop_refines blank r v), ignores blank r v) refl

  -- A counter that `record_drop` raises at some levels.
  CountsPush_of_drop :
      (field : Ring A → ℕ) (among : EventLevel → Bool)
      → ((r : Ring A) (level : EventLevel) (by_reserve : Bool)
          → u64 (field (record_drop r level by_reserve))
            ≡ u64 (field r + (if among level then 1 else 0)))
      → ((r : Ring A) (x : A) → field (stored r x) ≡ field r)
      → CountsPush field among
  CountsPush_of_drop field among drops stores blank r x level v =
      rw (length-window blank r.buffer r.capacity r.tail (depth r)) (
        push_elim
          (λ p.
            u64 (field p.1)
            ≡ u64 (
                field r
                + (if accepts (policy r) (depth r) level then 0 else if among level then 1 else 0)))
          r x level v (λ e _. rw e (drops r level false)) (λ e _. rw e (drops r level true))
          (λ e _. rw (e, stores r x) (omega arith)))

  -- After any sequence of calls on a valid ring the drop statistics have grown by the pushes that
  -- the bounded queue refuses, counted by level, up to the wrap of the 64-bit counters.
  pub run-counters :
      (blank : A) (r : Ring A) (ops : List (Op A))
      → IsValid r
      → let refused =
          λ (among : EventLevel → Bool). refusals among (policy r) (contents blank r) ops in
        let s = stats (run blank r ops).1 in
        (u64 s.push_fail_count ≡ u64 (r.push_fail_count + refused (λ _. true)))
        × (u64 s.dropped_critical_count ≡ u64 (r.dropped_critical_count + refused is_critical))
        × (u64 s.dropped_warning_count ≡ u64 (r.dropped_warning_count + refused is_warning))
        × (u64 s.dropped_info_count
            ≡ u64 (r.dropped_info_count + refused (λ l. is_info l || is_recovery l)))
  unfolding record_drop update_high_watermark stats
  run-counters blank r ops v = (
    run-count (λ q. q.push_fail_count) (λ _. true)
        (CountsPush_of_drop (λ q. q.push_fail_count) (λ _. true) (λ r l b. omega arith)
          (λ _ _. refl))
        (λ blank r v.
          pop_elim (λ p. p.1.push_fail_count ≡ r.push_fail_count) blank r v (λ _. refl)
            (λ _ _ _. refl))
        blank r ops v,
    run-count (λ q. q.dropped_critical_count) is_critical
        (CountsPush_of_drop (λ q. q.dropped_critical_count) is_critical (λ r l b. ground arith)
          (λ _ _. refl))
        (λ blank r v.
          pop_elim (λ p. p.1.dropped_critical_count ≡ r.dropped_critical_count) blank r v
            (λ _. refl) (λ _ _ _. refl))
        blank r ops v,
    run-count (λ q. q.dropped_warning_count) is_warning
        (CountsPush_of_drop (λ q. q.dropped_warning_count) is_warning (λ r l b. ground arith)
          (λ _ _. refl))
        (λ blank r v.
          pop_elim (λ p. p.1.dropped_warning_count ≡ r.dropped_warning_count) blank r v (λ _. refl)
            (λ _ _ _. refl))
        blank r ops v,
    run-count (λ q. q.dropped_info_count) (λ l. is_info l || is_recovery l)
        (CountsPush_of_drop (λ q. q.dropped_info_count) (λ l. is_info l || is_recovery l)
          (λ r l b. ground arith) (λ _ _. refl))
        (λ blank r v.
          pop_elim (λ p. p.1.dropped_info_count ≡ r.dropped_info_count) blank r v (λ _. refl)
            (λ _ _ _. refl))
        blank r ops v,
  )
