-- ===== src/Network/Drained.antt =====
-- NetworkEventSink::drain_queues_once, from its queues to the log: pop, serialize, append.
use minilisysm.Prelude.{
  ℕ, ◌<◌, ◌≡◌, refl, ap, sym, ◌∙◌, Option, none, some, List, [], ◌∷◌, ◌++◌, length, Bytes,
}
use minilisysm.Event.{InternalEvent}
use minilisysm.Config.{MonitorConfig}
use minilisysm.Queue.{Ring}
use minilisysm.Queue.Drain.{drain, drain-contents}
use minilisysm.Queue.Inv.{IsValid}
use minilisysm.Queue.Refine.{contents}
use minilisysm.Serializer.{to_json_line}
use minilisysm.Serializer.Frame.{IsPrintable}
use minilisysm.Wal.{Write}
use minilisysm.Wal.Rewrite.{Disk}
use minilisysm.Network.{NetworkEventSink, offer, enforce, Call, offered, enforced, step, run}

module _ {W : Type 0} (print : W → Bytes) (beyond : ℕ → Bytes) (config : MonitorConfig W) where
  -- The loop over one queue, on the events that it pops.
  unfoldable pub offer_each :
      (InternalEvent W → Write) → NetworkEventSink → List (InternalEvent W) → NetworkEventSink
  offer_each writes sink [] = sink
  offer_each writes sink (event ∷ events) =
      let line = to_json_line print beyond config event in
      offer_each writes (offer config.network (writes event) sink event.level line).1 events

  abbrev pub after_drain :
      Option (List (InternalEvent W) × Ring (InternalEvent W))
      → (List (InternalEvent W) → NetworkEventSink)
      → Ring (InternalEvent W)
      → NetworkEventSink × Ring (InternalEvent W)
  after_drain none offers q = (offers [], q)
  after_drain (some (events, q')) offers q = (offers events, q')

  -- `drain_queues_once`, with fuel for the loop over a queue.
  unfoldable pub drain_queues :
      ℕ
      → InternalEvent W
      → (InternalEvent W → Write)
      → NetworkEventSink
      → List (Ring (InternalEvent W))
      → NetworkEventSink × List (Ring (InternalEvent W))
  drain_queues fuel blank writes sink [] = (sink, [])
  drain_queues fuel blank writes sink (q ∷ qs) =
      let (sink', q') = after_drain (drain fuel blank q) (offer_each writes sink) q in
      let (sink'', qs') = drain_queues fuel blank writes sink' qs in (sink'', q' ∷ qs')

  unfoldable pub drain_queues_once :
      ℕ
      → InternalEvent W
      → (InternalEvent W → Write)
      → Disk
      → NetworkEventSink
      → List (Ring (InternalEvent W))
      → NetworkEventSink × List (Ring (InternalEvent W))
  drain_queues_once fuel blank writes disk sink queues =
      let (sink', queues') = drain_queues fuel blank writes sink queues in
      (enforce config.network disk sink', queues')

  -- The calls for the events of the queues.
  abbrev pub offers : (InternalEvent W → Write) → List (InternalEvent W) → List Call
  offers writes [] = []
  offers writes (event ∷ events) =
      offered event.level (to_json_line print beyond config event) (writes event)
      ∷ offers writes events

  abbrev pub held : InternalEvent W → List (Ring (InternalEvent W)) → List (InternalEvent W)
  held blank [] = []
  held blank (q ∷ qs) = contents blank q ++ held blank qs

  abbrev pub AllValid : ℕ → InternalEvent W → List (Ring (InternalEvent W)) → Type 0
  AllValid fuel blank [] = Unit
  AllValid fuel blank (q ∷ qs) =
      IsValid q × (length (contents blank q) < fuel) × AllValid fuel blank qs

  run-append :
      (sink : NetworkEventSink) (a b : List Call)
      → run config.network sink (a ++ b) ≡ run config.network (run config.network sink a) b
  unfolding run
  run-append sink [] b = refl
  run-append sink (call ∷ a) b = run-append (step config.network sink call) a b

  offer_each-run :
      (writes : InternalEvent W → Write) (sink : NetworkEventSink) (events : List (InternalEvent W))
      → offer_each writes sink events ≡ run config.network sink (offers writes events)
  unfolding offer_each run step
  offer_each-run writes sink [] = refl
  offer_each-run writes sink (event ∷ events) =
      offer_each-run writes
        (offer config.network (writes event) sink event.level
          (to_json_line print beyond config event)).1
        events

  offers-append :
      (writes : InternalEvent W → Write) (a b : List (InternalEvent W))
      → offers writes (a ++ b) ≡ offers writes a ++ offers writes b
  offers-append writes [] b = refl
  offers-append writes (event ∷ a) b =
      ap (λ cs. offered event.level (to_json_line print beyond config event) (writes event) ∷ cs)
        (offers-append writes a b)

  drain_queues-run :
      (fuel : ℕ) (blank : InternalEvent W) (writes : InternalEvent W → Write)
      (sink : NetworkEventSink) (queues : List (Ring (InternalEvent W)))
      → AllValid fuel blank queues
      → (drain_queues fuel blank writes sink queues).0
        ≡ run config.network sink (offers writes (held blank queues))
  unfolding drain_queues run
  drain_queues-run fuel blank writes sink [] h = refl
  drain_queues-run fuel blank writes sink (q ∷ qs) h =
      let (after, ends, empty, valid) = drain-contents fuel blank q h.0 h.1 in
      let taken = contents blank q in
      ap (λ o. (drain_queues fuel blank writes (after_drain o (offer_each writes sink) q).0 qs).0)
        ends
      ∙ drain_queues-run fuel blank writes (offer_each writes sink taken) qs h.2
      ∙ ap (λ s. run config.network s (offers writes (held blank qs)))
          (offer_each-run writes sink taken)
      ∙ sym (run-append sink (offers writes taken) (offers writes (held blank qs)))
      ∙ ap (run config.network sink) (sym (offers-append writes taken (held blank qs)))

  -- Draining the queues offers the line of every event that they hold, queue after queue and oldest
  -- first, and then enforces the limit of the log. The positions of the queues are valid, and the
  -- fuel is more than any holds.
  pub drain_queues_once-run :
      (fuel : ℕ) (blank : InternalEvent W) (writes : InternalEvent W → Write) (disk : Disk)
      (sink : NetworkEventSink) (queues : List (Ring (InternalEvent W)))
      → AllValid fuel blank queues
      → (drain_queues_once fuel blank writes disk sink queues).0
        ≡ run config.network sink (offers writes (held blank queues) ++ enforced disk ∷ [])
  unfolding drain_queues_once run step
  drain_queues_once-run fuel blank writes disk sink queues h =
      ap (enforce config.network disk) (drain_queues-run fuel blank writes sink queues h)
      ∙ sym (run-append sink (offers writes (held blank queues)) (enforced disk ∷ []))

  abbrev pub AllPrintable : List (InternalEvent W) → Type 0
  AllPrintable [] = Unit
  AllPrintable (event ∷ events) = IsPrintable print beyond event × AllPrintable events
