-- ===== src/Dispatcher/Group.antt =====
-- EventDispatcherGroup. A component is a sink or a dispatcher: whether its thread runs, and whether
-- its `start` succeeds. EventDispatcher::start always does; what a sink needs is its own.
use minilisysm.Prelude.{
  ℕ, max, ◌≡◌, refl, subst, Bool, true, false, List, [], ◌∷◌, map, add64, arith, if◌then◌else◌, inl,
  inr, Bool-cases,
}

pub record Component : Type 0 where
  pub running : Bool
  pub starts : Bool

pub record Group : Type 0 where
  pub running : Bool
  pub sinks : List Component
  pub dispatchers : List Component

-- `start` of a component; the guard of `EventDispatcherGroup::start` sees to it that none runs. A
-- sink that the configuration disables would return true and not run: StorageFactory in
-- src/storage/storage_factory.cpp makes no such sink, so a group has none.
abbrev pub start_component : Component → Component
start_component x = record x { running = x.starts }

abbrev pub stop_component : Component → Component
stop_component x = record x { running = false }

-- A loop of starts, up to one that fails.
unfoldable pub start_each : List Component → Bool × List Component
start_each [] = (true, [])
start_each (x ∷ xs) =
    let (ok, xs') = start_each xs in
    let x' = start_component x in if x'.running then (ok, x' ∷ xs') else (false, x' ∷ xs)

unfoldable pub stop_components : Group → Group
stop_components g = record g {
  dispatchers = map stop_component g.dispatchers;
  sinks = map stop_component g.sinks;
}

unfoldable pub start_group : Group → Bool × Group
start_group g =
    let (sinks_ok, sinks) = start_each g.sinks in
    let (dispatchers_ok, dispatchers) = start_each g.dispatchers in
    if g.running
    then (true, g)
    else if sinks_ok
    then (if dispatchers_ok
        then (true, record { running = true; sinks = sinks; dispatchers = dispatchers })
        else (
          false,
          stop_components (record { running = false; sinks = sinks; dispatchers = dispatchers }),
        ))
    else (
      false,
      stop_components (record { running = false; sinks = sinks; dispatchers = g.dispatchers }),
    )

unfoldable pub stop_group : Group → Group
stop_group g =
    let stopped = stop_components (record g { running = false }) in if g.running then stopped else g

abbrev pub AllRun : Bool → List Component → Type 0
AllRun b [] = Unit
AllRun b (x ∷ xs) = (x.running ≡ b) × AllRun b xs

-- All of a group runs, or none of it does.
abbrev pub IsAll : Bool → Group → Type 0
IsAll b g = (g.running ≡ b) × AllRun b g.sinks × AllRun b g.dispatchers

start_each-AllRun : (xs : List Component) → (start_each xs).0 ≡ true → AllRun true (start_each xs).1
unfolding start_each
start_each-AllRun [] h = tt
start_each-AllRun (x ∷ xs) h = elim (Bool-cases (start_component x).running) [
  | inl e ↦ rw e (refl, start_each-AllRun xs (ground arith))
  | inr e ↦ absurd (ground arith)
]

stop-AllRun : (xs : List Component) → AllRun false (map stop_component xs)
stop-AllRun [] = tt
stop-AllRun (x ∷ xs) = (refl, stop-AllRun xs)

pub stop_components-IsAll : (g : Group) → g.running ≡ false → IsAll false (stop_components g)
unfolding stop_components
stop_components-IsAll g h = (h, stop-AllRun g.sinks, stop-AllRun g.dispatchers)

-- A start that returns true leaves the group and every sink and dispatcher running; one that returns
-- false, since a sink does not start, leaves none of them running, whatever had been started before
-- it failed. The group was running as a whole or not at all.
pub start_group-IsAll : (g : Group) → IsAll g.running g → IsAll (start_group g).0 (start_group g).1
unfolding start_group
start_group-IsAll g h = elim (Bool-cases g.running) [
  | inl e ↦ let all : IsAll true g = subst (λ b. IsAll b g) e h in rw e (refl, all.1, all.2)
  | inr e ↦ elim (Bool-cases (start_each g.sinks).0) [
    | inl f ↦ elim (Bool-cases (start_each g.dispatchers).0) [
      | inl d ↦ rw (e, f, d) (refl, start_each-AllRun g.sinks f, start_each-AllRun g.dispatchers d)
      | inr d ↦ rw (e, f, d) (stop_components-IsAll _ refl)
    ]
    | inr f ↦ rw (e, f) (stop_components-IsAll _ refl)
  ]
]

-- A stop leaves none of a group running.
pub stop_group-IsAll : (g : Group) → IsAll g.running g → IsAll false (stop_group g)
unfolding stop_group
stop_group-IsAll g h = elim (Bool-cases g.running) [
  | inl e ↦ rw e (stop_components-IsAll (record g { running = false }) refl)
  | inr e ↦ let all : IsAll false g = subst (λ b. IsAll b g) e h in rw e (refl, all.1, all.2)
]

-- The counters of a dispatcher, and those of include/minilisysm/interfaces/event_sink.hpp that the
-- group adds up.
pub record DispatcherStats : Type 0 where
  pub consumed_events : ℕ
  pub sink_queue_push_failures : ℕ
  pub sink_queue_dropped_events : ℕ
  pub sink_queue_dropped_critical_events : ℕ
  pub sink_queue_reserve_reject_events : ℕ
  pub sink_queue_depth : ℕ
  pub sink_queue_capacity : ℕ
  pub sink_queue_high_watermark : ℕ

pub record SinkQueueStats : Type 0 where
  pub dropped_events : ℕ
  pub dropped_critical_events : ℕ
  pub reserve_reject_events : ℕ
  pub queue_depth : ℕ
  pub queue_capacity : ℕ
  pub queue_high_watermark : ℕ

unfoldable pub add_dispatchers : List (ℕ × ℕ) → DispatcherStats → DispatcherStats
add_dispatchers [] total = total
add_dispatchers ((consumed, failures) ∷ ds) total = add_dispatchers ds (record total {
  consumed_events = add64 total.consumed_events consumed;
  sink_queue_push_failures = add64 total.sink_queue_push_failures failures;
})

unfoldable pub add_sinks : List SinkQueueStats → DispatcherStats → DispatcherStats
add_sinks [] total = total
add_sinks (current ∷ sinks) total = add_sinks sinks (record total {
  sink_queue_dropped_events = add64 total.sink_queue_dropped_events current.dropped_events;
  sink_queue_dropped_critical_events =
      add64 total.sink_queue_dropped_critical_events current.dropped_critical_events;
  sink_queue_reserve_reject_events =
      add64 total.sink_queue_reserve_reject_events current.reserve_reject_events;
  sink_queue_depth = add64 total.sink_queue_depth current.queue_depth;
  sink_queue_capacity = add64 total.sink_queue_capacity current.queue_capacity;
  sink_queue_high_watermark = max total.sink_queue_high_watermark current.queue_high_watermark;
})

abbrev pub no_stats : DispatcherStats
no_stats = record {
  consumed_events = 0;
  sink_queue_push_failures = 0;
  sink_queue_dropped_events = 0;
  sink_queue_dropped_critical_events = 0;
  sink_queue_reserve_reject_events = 0;
  sink_queue_depth = 0;
  sink_queue_capacity = 0;
  sink_queue_high_watermark = 0;
}

unfoldable pub group_stats : List (ℕ × ℕ) → List SinkQueueStats → DispatcherStats
group_stats dispatchers sinks = add_sinks sinks (add_dispatchers dispatchers no_stats)
