-- ===== src/Queue/Reserve.antt =====
-- What the reserved slots are worth: events below critical leave them free.
use minilisysm.Prelude.{
  ℕ, ◌+◌, ◌-◌, ◌≤◌, ◌≡◌, refl, ◌≡⟨◌⟩◌, ◌∎, sym, ap, ap₂, inl, inr, Bool-cases, min, true, false,
  List, [], ◌∷◌, ◌++◌, map, length, length-append, arith,
}
use minilisysm.Event.{EventLevel, critical, is_critical}
use minilisysm.Queue.{Ring, depth, usable_capacity}
use minilisysm.Queue.Spec
use minilisysm.Queue.Spec.{Policy, Op, pushes, pops, Reply, pushed, popped, accepts, quota}
use minilisysm.Queue.Window.{length-window}
use minilisysm.Queue.Inv.{IsValid}
use minilisysm.Queue.Refine.{contents, policy}
use minilisysm.Queue.Run.{run, run_refines}

abbrev NotCritical {ℓ} : {A : Type ℓ} → List (Op A) → Type 0
NotCritical [] = Unit
NotCritical (pushes x level ∷ ops) = (is_critical level ≡ false) × NotCritical ops
NotCritical (pops ∷ ops) = NotCritical ops

abbrev pub reserve : Policy → ℕ
reserve p = min p.reserved (p.usable - 1)

module _ {ℓ} {A : Type ℓ} where
  abbrev pub criticals : List A → List (Op A)
  criticals = map (λ x. pushes x critical)

  module _ (p : Policy) (di : p.drop_info ≡ true) (dw : p.drop_warning ≡ true) where
    push_keeps_reserve :
        (q : List A) (x : A) (level : EventLevel)
        → is_critical level ≡ false
        → length q + reserve p ≤ p.usable
        → length (Spec.push p q x level).1 + reserve p ≤ p.usable
    unfolding Spec.push
    push_keeps_reserve q x critical n h = cc
    push_keeps_reserve q x level n h = ground (arith, length-append q (x ∷ []))

    run_keeps_reserve :
        (q : List A) (ops : List (Op A))
        → NotCritical ops
        → length q + reserve p ≤ p.usable
        → length (Spec.run p q ops).1 + reserve p ≤ p.usable
    unfolding Spec.run Spec.pop
    run_keeps_reserve q [] n h = h
    run_keeps_reserve q (pushes x level ∷ ops) n h =
        run_keeps_reserve (Spec.push p q x level).1 ops n.1 (push_keeps_reserve q x level n.0 h)
    run_keeps_reserve [] (pops ∷ ops) n h = run_keeps_reserve [] ops n h
    run_keeps_reserve (y ∷ q) (pops ∷ ops) n h = run_keeps_reserve q ops n (omega arith)

  serve_criticals :
      (p : Policy) (q : List A) (xs : List A)
      → length q + length xs ≤ p.usable
      → (Spec.run p q (criticals xs)).0 ≡ map (λ _. pushed true) xs
  unfolding Spec.run Spec.push
  serve_criticals p q [] h = refl
  serve_criticals p q (x ∷ xs) h = elim (Bool-cases (accepts p (length q) critical)) [
    | inl e ↦ rw e (
        ap (λ rs. pushed true ∷ rs)
          (serve_criticals p (q ++ x ∷ []) xs (omega (arith, length-append q (x ∷ [])))))
    | inr e ↦ absurd (ground arith)
  ]

  run-append :
      (p : Policy) (q : List A) (ops more : List (Op A))
      → (Spec.run p q (ops ++ more)).0
        ≡ (Spec.run p q ops).0 ++ (Spec.run p (Spec.run p q ops).1 more).0
  unfolding Spec.run
  run-append p q [] more = refl
  run-append p q (pushes x level ∷ ops) more =
      ap (λ rs. pushed (Spec.push p q x level).0 ∷ rs)
        (run-append p (Spec.push p q x level).1 ops more)
  run-append p q (pops ∷ ops) more =
      ap (λ rs. popped (Spec.pop q).0 ∷ rs) (run-append p (Spec.pop q).1 ops more)

  -- In a valid ring that drops info and warning events for the reserve and starts with the reserve
  -- free, no traffic below critical uses the reserve up: as many critical events as it has slots
  -- are then accepted one after another, and the replies before them are not affected.
  pub reserve_serves_criticals :
      (blank : A) (r : Ring A) (ops : List (Op A)) (xs : List A)
      → IsValid r
      → r.drop_info_when_reserved ≡ true
      → r.drop_warning_when_reserved ≡ true
      → depth r + reserve (policy r) ≤ usable_capacity r
      → NotCritical ops
      → length xs ≤ reserve (policy r)
      → (run blank r (ops ++ criticals xs)).0 ≡ (run blank r ops).0 ++ map (λ _. pushed true) xs
  reserve_serves_criticals blank r ops xs v di dw free n few =
      let p = policy r in
      let q = contents blank r in
      let size = length-window blank r.buffer r.capacity r.tail (depth r) in
      let room = run_keeps_reserve p di dw q ops n (omega (arith, size)) in
      (run blank r (ops ++ criticals xs)).0
      ≡⟨ ap (λ t. t.0) (run_refines blank r (ops ++ criticals xs) v) ⟩
        (Spec.run p q (ops ++ criticals xs)).0
      ≡⟨ run-append p q ops (criticals xs) ⟩
        (Spec.run p q ops).0 ++ (Spec.run p (Spec.run p q ops).1 (criticals xs)).0
      ≡⟨ ap₂ ◌++◌ (ap (λ t. t.0) (sym (run_refines blank r ops v)))
          (serve_criticals p (Spec.run p q ops).1 xs (omega arith)) ⟩
        (run blank r ops).0 ++ map (λ _. pushed true) xs ∎
