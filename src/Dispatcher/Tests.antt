-- ===== src/Dispatcher/Tests.antt =====
-- The dispatcher at concrete inputs, and each of its theorems at one.
use minilisysm.Prelude.{
  ℕ, ◌<◌, ◌≡◌, refl, true, false, some, [], ◌∷◌, map, ◌==◌, if◌then◌else◌, length, arith,
}
use minilisysm.Event.{EventLevel, info, critical}
use minilisysm.Queue.{Ring, init, push, should_reject_for_reserve, depth, update_high_watermark}
use minilisysm.Queue.Inv.{IsValid, init-IsValid, push-IsValid}
use minilisysm.Queue.Refine.{contents}
use minilisysm.Dispatcher.{Dispatcher, drain_source}
use minilisysm.Dispatcher.Delivery.{
  dispatch_all, push_all, dispatch_all-queues, drain_source-dispatches,
}
use minilisysm.Dispatcher.Group.{Group, start_group, IsAll, start_group-IsAll}

abbrev level : ℕ → EventLevel
level n = if n == 0 then critical else info

-- A queue of three slots and one of one.
abbrev two_sinks : Dispatcher level
two_sinks = record {
  sink_queues = init 0 3 0 true true ∷ init 0 1 0 true true ∷ [];
  consumed_events = 0;
  sink_queue_push_failures = 0;
}

dispatch_all-queues_example :
    (dispatch_all level (4 ∷ 0 ∷ []) two_sinks).sink_queues
    ≡ map (push_all level (4 ∷ 0 ∷ [])) two_sinks.sink_queues
dispatch_all-queues_example = dispatch_all-queues level (4 ∷ 0 ∷ []) two_sinks

abbrev source : Ring ℕ
source = (push (init 0 3 0 true true) 5 info).1

source-IsValid : IsValid source
source-IsValid =
    push-IsValid (init 0 3 0 true true) 5 info (init-IsValid 0 3 0 true true (omega arith))

one_event : length (contents 0 source) < 2
unfolding push init should_reject_for_reserve depth update_high_watermark
one_event = omega arith

drain_source-dispatches_example :
    (after : Ring ℕ) × (drain_source level 2 0 source two_sinks
      ≡ some (after, dispatch_all level (contents 0 source) two_sinks))
    × (contents 0 after ≡ [])
drain_source-dispatches_example =
    drain_source-dispatches level 2 0 source two_sinks source-IsValid one_event

-- The second sink does not start.
abbrev group : Group
group = record {
  running = false;
  sinks =
      record { running = false; starts = true } ∷ record { running = false; starts = false } ∷ [];
  dispatchers = record { running = false; starts = true } ∷ [];
}

group-IsAll : IsAll false group
group-IsAll = (refl, (refl, (refl, tt)), (refl, tt))

start_group-IsAll_example : IsAll (start_group group).0 (start_group group).1
start_group-IsAll_example = start_group-IsAll group group-IsAll
