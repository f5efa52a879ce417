-- ===== src/Queue/Drain.antt =====
-- `while (queue.pop(event))`, which empties a ring that no thread adds to any more.
use minilisysm.Prelude.{
  ℕ, zero, suc, ◌<◌, ◌≡◌, ap, ◌∙◌, Option, none, some, List, [], ◌∷◌, length, arith,
}
use minilisysm.Queue.{Ring, pop}
use minilisysm.Queue.Spec
use minilisysm.Queue.Inv.{IsValid, pop-IsValid}
use minilisysm.Queue.Refine.{contents, pop_refines}

module _ {ℓ} {A : Type ℓ} where
  abbrev pub followed : A → Option (List A × Ring A) → Option (List A × Ring A)
  followed x none = none
  followed x (some (xs, r)) = some (x ∷ xs, r)

  -- The loop on the result of a pop, and what it does after it.
  abbrev pub drained : Option A → Ring A → Option (List A × Ring A) → Option (List A × Ring A)
  drained none r rest = some ([], r)
  drained (some x) r rest = followed x rest

  -- What the loop takes, in order; `none` is the fuel running out.
  unfoldable pub drain : ℕ → A → Ring A → Option (List A × Ring A)
  drain zero blank r = none
  drain (suc fuel) blank r =
      let (o, r') = pop blank r in let rest = drain fuel blank r' in drained o r' rest

  -- The loop ends with an empty ring and has taken what the ring held, oldest first; more fuel than
  -- the ring holds items is enough. The positions of the ring are valid.
  pub drain-contents :
      (fuel : ℕ) (blank : A) (r : Ring A)
      → IsValid r
      → length (contents blank r) < fuel
      → (after : Ring A) × (drain fuel blank r ≡ some (contents blank r, after))
        × (contents blank after ≡ [])
        × IsValid after
  unfolding drain Spec.pop
  drain-contents zero blank r v enough = absurd (omega arith)
  drain-contents (suc fuel) blank r v enough =
      taken (drain-contents fuel blank (pop blank r).1 (pop-IsValid blank r v)) (contents blank r)
        enough (pop_refines blank r v)
    where
      taken :
          (length (contents blank (pop blank r).1) < fuel
            → (after : Ring A) × (drain fuel blank (pop blank r).1
                ≡ some (contents blank (pop blank r).1, after))
              × (contents blank after ≡ [])
              × IsValid after)
          → (q : List A) → length q < suc fuel
          → let (o, r') = pop blank r in
            (o, contents blank r') ≡ Spec.pop q
            → (after : Ring A) × (drain (suc fuel) blank r ≡ some (q, after))
              × (contents blank after ≡ [])
              × IsValid after
      taken rest [] h e =
          let o = ap (λ p. p.0) e in
          (
            (pop blank r).1,
            ap (λ o. drained o (pop blank r).1 (drain fuel blank (pop blank r).1)) o,
            ap (λ p. p.1) e,
            pop-IsValid blank r v,
          )
      taken rest (x ∷ q) h e =
          let o = ap (λ p. p.0) e in
          let left : contents blank (pop blank r).1 ≡ q = ap (λ p. p.1) e in
          let (after, ends, empty, valid) = rest (omega (arith, ap length left)) in
          (
            after,
            ap (λ o. drained o (pop blank r).1 (drain fuel blank (pop blank r).1)) o
                ∙ ap (followed x) (ends ∙ ap (λ q. some (q, after)) left),
            empty,
            valid,
          )
