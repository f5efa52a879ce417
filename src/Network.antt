-- ===== src/Network.antt =====
-- The worker of src/storage/network_event_sink.cpp: what it does with the events that it takes from
-- its queues, with the batches that it posts and when it is started. Whether a POST gets a 2xx
-- answer, and what the file system does, are arguments.
pub mod Sound
pub mod Delivery
pub mod Drained
pub mod Retry
pub mod Endpoint
pub mod Tests
use minilisysm.Prelude.{
  ℕ, ◌+◌, min, Bool, true, false, ◌&&◌, not, List, [], ◌∷◌, ◌++◌, Bytes, length, take, add64,
  if◌then◌else◌,
}
use minilisysm.Event.{EventLevel, is_critical}
use minilisysm.Config.{NetworkConfig}
use minilisysm.Wal.{WalRecord, record_at, Wal, Write, append_wal, load_wal}
use minilisysm.Wal.Rewrite.{Disk, rewrite_wal, wal_over_limit, enforce_wal_limit}
use minilisysm.Wal.Staged.{json_lines}

pub record Counters : Type 0 where
  pub accepted_events : ℕ
  pub write_errors : ℕ
  pub sent_events : ℕ
  pub send_errors : ℕ
  pub wal_overflow_dropped_events : ℕ

pub record NetworkEventSink : Type 0 where
  pub wal : Wal
  pub counters : Counters

abbrev pub no_counters : Counters
no_counters = record {
  accepted_events = 0;
  write_errors = 0;
  sent_events = 0;
  send_errors = 0;
  wal_overflow_dropped_events = 0;
}

abbrev pub count_overflow : Counters → Counters
count_overflow k = record k { wal_overflow_dropped_events = add64 k.wal_overflow_dropped_events 1 }

abbrev pub after_append : NetworkEventSink → Bytes → Bool × Wal → Bool × NetworkEventSink
after_append sink line (true, w) = (
  true,
  record {
    wal = record w { pending = w.pending ++ record_at w.current_wal_path line ∷ [] };
    counters = record sink.counters { accepted_events = add64 sink.counters.accepted_events 1 };
  },
)
after_append sink line (false, w) = (
  false,
  record {
    wal = w;
    counters = record sink.counters { write_errors = add64 sink.counters.write_errors 1 };
  },
)

-- The body of the loop of drain_queues_once for an event of a level with its line; the result says
-- whether the event is accepted.
unfoldable pub offer :
    NetworkConfig → Write → NetworkEventSink → EventLevel → Bytes → Bool × NetworkEventSink
offer c write sink level line =
    if wal_over_limit c sink.wal && not (is_critical level)
    then (false, record sink { counters = count_overflow sink.counters })
    else after_append sink line (append_wal c write sink.wal line)

-- The calls of `enforce_wal_limit` after the loops.
abbrev pub enforce : NetworkConfig → Disk → NetworkEventSink → NetworkEventSink
enforce c disk sink = record sink { wal = enforce_wal_limit c disk sink.wal }

-- The lines that flush_pending posts.
abbrev pub batch_of : NetworkConfig → Wal → List Bytes
batch_of c w = take (min (length w.pending) c.network_batch_size) (json_lines w.pending)

abbrev pub after_ack : NetworkEventSink → List Bytes → Bool × Wal → Bool × NetworkEventSink
after_ack sink batch (ok, w) = (
  ok,
  record {
    wal = w;
    counters = record sink.counters {
      sent_events = add64 sink.counters.sent_events (length batch);
    };
  },
)

abbrev pub flush_batch :
    NetworkConfig → Bool → Disk → NetworkEventSink → List Bytes → Bool × NetworkEventSink
flush_batch c posted disk sink [] = (true, sink)
flush_batch c posted disk sink (line ∷ batch) =
    let acked =
      after_ack sink (line ∷ batch) (rewrite_wal c disk (length (line ∷ batch)) sink.wal) in
    let failed = record sink.counters { send_errors = add64 sink.counters.send_errors 1 } in
    if posted then acked else (false, record sink { counters = failed })

unfoldable pub flush_pending :
    NetworkConfig → Bool → Disk → NetworkEventSink → Bool × NetworkEventSink
flush_pending c posted disk sink = flush_batch c posted disk sink (batch_of c sink.wal)

-- A new process: the constructor, and `load_wal` in `start`.
unfoldable pub restart : NetworkEventSink → NetworkEventSink
restart sink = record { wal = load_wal sink.wal.dir; counters = no_counters }

-- What happens to a sink, one after another. A crash is in the middle of a write, after a number of
-- bytes; a crash in a rewrite is one whose remaining steps fail, before a restart.
pub data Call : Type 0 where
  offered : EventLevel → Bytes → Write → Call
  enforced : Disk → Call
  flushed : Bool → Disk → Call
  restarted : Call

unfoldable pub step : NetworkConfig → NetworkEventSink → Call → NetworkEventSink
step c sink (offered level line write) = (offer c write sink level line).1
step c sink (enforced disk) = enforce c disk sink
step c sink (flushed posted disk) = (flush_pending c posted disk sink).1
step c sink restarted = restart sink

unfoldable pub run : NetworkConfig → NetworkEventSink → List Call → NetworkEventSink
run c sink [] = sink
run c sink (call ∷ calls) = run c (step c sink call) calls

-- The lines that a call accepts.
unfoldable pub accepts : NetworkConfig → NetworkEventSink → Call → List Bytes
accepts c sink (offered level line write) =
    if (offer c write sink level line).0 then line ∷ [] else []
accepts c sink _ = []

-- The lines that a call delivers.
unfoldable pub delivers : NetworkConfig → NetworkEventSink → Call → List Bytes
delivers c sink (flushed posted disk) = if posted then batch_of c sink.wal else []
delivers c sink _ = []

abbrev pub all_accepted : NetworkConfig → NetworkEventSink → List Call → List Bytes
all_accepted c sink [] = []
all_accepted c sink (call ∷ calls) = accepts c sink call ++ all_accepted c (step c sink call) calls

abbrev pub all_delivered : NetworkConfig → NetworkEventSink → List Call → List Bytes
all_delivered c sink [] = []
all_delivered c sink (call ∷ calls) =
    delivers c sink call ++ all_delivered c (step c sink call) calls
