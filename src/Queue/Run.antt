-- ===== src/Queue/Run.antt =====
-- Sequences of calls of one ring, and what they return.
use minilisysm.Prelude.{◌≡◌, refl, ◌∙◌, ap, List, [], ◌∷◌}
use minilisysm.Queue.{Ring, push, pop}
use minilisysm.Queue.Spec
use minilisysm.Queue.Spec.{Policy, Op, pushes, pops, Reply, pushed, popped, accepts, quota}
use minilisysm.Queue.Inv.{IsValid, push-IsValid, pop-IsValid}
use minilisysm.Queue.Refine.{contents, policy, push_refines, pop_refines, policy-push, policy-pop}

module _ {ℓ} {A : Type ℓ} where
  -- A thread that calls the ring, with what each call returns.
  unfoldable pub run : A → Ring A → List (Op A) → List (Reply A) × Ring A
  run blank r [] = ([], r)
  run blank r (pushes x level ∷ ops) =
      let (b, r') = push r x level in let (rs, r'') = run blank r' ops in (pushed b ∷ rs, r'')
  run blank r (pops ∷ ops) =
      let (o, r') = pop blank r in let (rs, r'') = run blank r' ops in (popped o ∷ rs, r'')

  -- From a ring whose positions are valid, any sequence of calls of `push` and `pop` replies as the
  -- bounded queue does that holds its contents and admits by its policy, and ends with the contents
  -- of that queue.
  pub run_refines :
      (blank : A) (r : Ring A) (ops : List (Op A))
      → IsValid r
      → let (rs, r') = run blank r ops in
        (rs, contents blank r') ≡ Spec.run (policy r) (contents blank r) ops
  unfolding run Spec.run
  run_refines blank r [] v = refl
  run_refines blank r (pushes x level ∷ ops) v =
      let r' = (push r x level).1 in
      let rest : List A → List (Reply A) × List A = λ q. Spec.run (policy r) q ops in
      ap (λ (rs, q). (pushed (push r x level).0 ∷ rs, q))
        (run_refines blank r' ops (push-IsValid r x level v) ∙ rw (policy-push r x level v) refl)
      ∙ ap (λ (b, q). (pushed b ∷ (rest q).0, (rest q).1)) (push_refines blank r x level v)
  run_refines blank r (pops ∷ ops) v =
      let r' = (pop blank r).1 in
      let rest : List A → List (Reply A) × List A = λ q. Spec.run (policy r) q ops in
      ap (λ (rs, q). (popped (pop blank r).0 ∷ rs, q))
        (run_refines blank r' ops (pop-IsValid blank r v) ∙ rw (policy-pop blank r v) refl)
      ∙ ap (λ (o, q). (popped o ∷ (rest q).0, (rest q).1)) (pop_refines blank r v)

  -- Any sequence of calls of `push` and `pop` on a ring whose positions are valid leaves them
  -- valid.
  pub run-IsValid :
      (blank : A) (r : Ring A) (ops : List (Op A)) → IsValid r → IsValid (run blank r ops).1
  unfolding run
  run-IsValid blank r [] v = v
  run-IsValid blank r (pushes x level ∷ ops) v =
      run-IsValid blank (push r x level).1 ops (push-IsValid r x level v)
  run-IsValid blank r (pops ∷ ops) v = run-IsValid blank (pop blank r).1 ops (pop-IsValid blank r v)
