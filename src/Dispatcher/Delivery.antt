-- ===== src/Dispatcher/Delivery.antt =====
-- What a dispatcher does with the events of its source.
use minilisysm.Prelude.{
  ℕ, zero, suc, ◌<◌, ◌≡◌, refl, ap, sym, ◌∙◌, some, List, [], ◌∷◌, map, length, arith,
}
use minilisysm.Event.{EventLevel}
use minilisysm.Queue.{Ring, push, pop}
use minilisysm.Queue.Spec
use minilisysm.Queue.Inv.{IsValid, pop-IsValid}
use minilisysm.Queue.Refine.{contents, pop_refines}
use minilisysm.Dispatcher.{Dispatcher, push_each, dispatch, dispatched, drain_source}

module _ {A : Type 0} (level : A → EventLevel) where
  -- Events dispatched one after another.
  unfoldable pub dispatch_all : List A → Dispatcher level → Dispatcher level
  dispatch_all [] d = d
  dispatch_all (event ∷ events) d = dispatch_all events (dispatch level event d)

  -- Events offered to one queue, one after another.
  unfoldable pub push_all : List A → Ring A → Ring A
  push_all [] q = q
  push_all (event ∷ events) q = push_all events (push q event (level event)).1

  push_each-map :
      (event : A) (qs : List (Ring A))
      → (push_each level event qs).1 ≡ map (λ q. (push q event (level event)).1) qs
  unfolding push_each
  push_each-map event [] = refl
  push_each-map event (q ∷ qs) =
      ap (λ qs'. (push q event (level event)).1 ∷ qs') (push_each-map event qs)

  map-push_all :
      (event : A) (events : List A) (qs : List (Ring A))
      → map (push_all events) (map (λ q. (push q event (level event)).1) qs)
        ≡ map (push_all (event ∷ events)) qs
  unfolding push_all
  map-push_all event events [] = refl
  map-push_all event events (q ∷ qs) =
      ap (λ qs'. push_all (event ∷ events) q ∷ qs') (map-push_all event events qs)

  map-id : (qs : List (Ring A)) → map (push_all []) qs ≡ qs
  unfolding push_all
  map-id [] = refl
  map-id (q ∷ qs) = ap (λ qs'. q ∷ qs') (map-id qs)

  -- Every queue of a dispatcher is offered every event once and in order, whatever the other queues
  -- refuse.
  pub dispatch_all-queues :
      (events : List A) (d : Dispatcher level)
      → (dispatch_all events d).sink_queues ≡ map (push_all events) d.sink_queues
  unfolding dispatch_all dispatch
  dispatch_all-queues [] d = sym (map-id d.sink_queues)
  dispatch_all-queues (event ∷ events) d =
      dispatch_all-queues events (dispatch level event d)
      ∙ ap (map (push_all events)) (push_each-map event d.sink_queues)
      ∙ map-push_all event events d.sink_queues

  -- The loop that empties the source ends, and has dispatched what the source held, oldest first;
  -- more fuel than the source holds events is enough. The positions of the source are valid.
  pub drain_source-dispatches :
      (fuel : ℕ) (blank : A) (source : Ring A) (d : Dispatcher level)
      → IsValid source
      → length (contents blank source) < fuel
      → (after : Ring A) × (drain_source level fuel blank source d
          ≡ some (after, dispatch_all (contents blank source) d))
        × (contents blank after ≡ [])
  unfolding drain_source Spec.pop dispatch_all
  drain_source-dispatches zero blank source d v enough = absurd (omega arith)
  drain_source-dispatches (suc fuel) blank source d v enough =
      taken
        (λ d.
          drain_source-dispatches fuel blank (pop blank source).1 d (pop-IsValid blank source v))
        (contents blank source) enough (pop_refines blank source v)
    where
      source' : Ring A
      source' = (pop blank source).1

      taken :
          ((d : Dispatcher level)
            → length (contents blank (pop blank source).1) < fuel
            → (after : Ring A) × (drain_source level fuel blank (pop blank source).1 d
                ≡ some (after, dispatch_all (contents blank (pop blank source).1) d))
              × (contents blank after ≡ []))
          → (q : List A) → length q < suc fuel
          → ((pop blank source).0, contents blank (pop blank source).1) ≡ Spec.pop q
          → (after : Ring A) × (drain_source level (suc fuel) blank source d
              ≡ some (after, dispatch_all q d))
            × (contents blank after ≡ [])
      taken rest [] h e = (
        source',
        ap (λ o. dispatched level o source' d (drain_source level fuel blank source'))
            (ap (λ p. p.0) e),
        ap (λ p. p.1) e,
      )
      taken rest (event ∷ q) h e =
          let left : contents blank (pop blank source).1 ≡ q = ap (λ p. p.1) e in
          let (after, ends, empty) =
            rest (dispatch level event d) (omega (arith, ap length left)) in
          (
            after,
            ap (λ o. dispatched level o source' d (drain_source level fuel blank source'))
                  (ap (λ p. p.0) e)
                ∙ ends
                ∙ ap (λ q. some (after, dispatch_all q (dispatch level event d))) left,
            empty,
          )
