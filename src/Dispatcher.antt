-- ===== src/Dispatcher.antt =====
-- src/runtime/event_dispatcher.cpp, with SinkStats of include/minilisysm/interfaces/event_sink.hpp.
-- The queues are never null, since add_input_queue returns none.
pub mod Delivery
pub mod Group
pub mod Tests
use minilisysm.Prelude.{
  ℕ, zero, suc, ◌+◌, max, Bool, true, false, Option, none, some, List, [], ◌∷◌, map, add64,
  if◌then◌else◌,
}
use minilisysm.Event.{EventLevel}
use minilisysm.Queue.{Ring, push, pop}

-- The level of an event is a function of it.
module _ {A : Type 0} (level : A → EventLevel) where
  pub record Dispatcher : Type 0 where
    pub sink_queues : List (Ring A)
    pub consumed_events : ℕ
    pub sink_queue_push_failures : ℕ

  -- The loop of `dispatch`: the queues, and how many pushes fail.
  unfoldable pub push_each : A → List (Ring A) → ℕ × List (Ring A)
  push_each event [] = (0, [])
  push_each event (q ∷ qs) =
      let (ok, q') = push q event (level event) in
      let (failures, qs') = push_each event qs in (if ok then failures else failures + 1, q' ∷ qs')

  unfoldable pub dispatch : A → Dispatcher → Dispatcher
  dispatch event d =
      let (failures, queues) = push_each event d.sink_queues in
      record {
        sink_queues = queues;
        consumed_events = add64 d.consumed_events 1;
        sink_queue_push_failures = add64 d.sink_queue_push_failures failures;
      }

  abbrev pub dispatched :
      Option A
      → Ring A
      → Dispatcher
      → (Dispatcher → Option (Ring A × Dispatcher))
      → Option (Ring A × Dispatcher)
  dispatched none r d rest = some (r, d)
  dispatched (some event) r d rest = rest (dispatch event d)

  -- `while (source_queue_.pop(event))`; `none` is the fuel running out.
  unfoldable pub drain_source : ℕ → A → Ring A → Dispatcher → Option (Ring A × Dispatcher)
  drain_source zero blank source d = none
  drain_source (suc fuel) blank source d =
      let (o, source') = pop blank source in
      let rest = drain_source fuel blank source' in dispatched o source' d rest
