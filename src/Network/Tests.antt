-- ===== src/Network/Tests.antt =====
-- The network sink at concrete inputs, and each of its theorems at one.
use mathlib.Core.List.{Memᴰ, cons-ne-nil}
use mathlib.Core.List.Memᴰ.{head}
use minilisysm.Prelude.{
  ℕ, ◌*◌, ◌^◌, min, ◌≡◌, refl, ◌⊎◌, inr, Bool, true, false, none, some, List, [], ◌∷◌, ◌++◌, length,
  pos, ◌==◌, Bytes, codes, arith, if◌then◌else◌, bytes_equality, bytes_eq, lines, break_at_last,
  from_chars, digits,
}
use minilisysm.Prelude.Decimal.{decimal}
use minilisysm.Event.{info, critical, InternalEvent, memory_pressure, active}
use minilisysm.Config.{NetworkConfig, default_network, default_config}
use minilisysm.Double.{whole_double}
use minilisysm.Queue.{Ring, init, push, should_reject_for_reserve, depth, update_high_watermark}
use minilisysm.Queue.Inv.{init-IsValid, push-IsValid}
use minilisysm.Network.Retry.{
  Retry, retry_step, failures, AllDue, failures-retry_ms, flush_all, flush_all-ends,
}
use minilisysm.Network.Endpoint.{parse_endpoint, stoi_port, parse_endpoint-throws}
use minilisysm.Network.Drained.{drain_queues_once, offers, held, AllValid, drain_queues_once-run}
use minilisysm.Map.{find, assign, erase}
use minilisysm.Wal.{
  record_at, complete, short, load_wal, next_wal_path, append_wal, write_line, sort_segments,
  insert_segment, name_lt, max_index, load_segments, records_of,
}
use minilisysm.Wal.Index.{wal_name, wal_index_from_path, stoull, skip_spaces}
use minilisysm.Wal.Rewrite.{
  Disk, rewrite_wal, stage, staged_records, publish_segments, remove_old, next_index, wal_bytes,
  enforce_wal_limit,
}
use minilisysm.Wal.Staged.{json_lines}
use minilisysm.Wal.Durable.{IsDurable, load_wal-IsDurable}
use minilisysm.Network.{
  NetworkEventSink, no_counters, batch_of, offer, flush_pending, restart, Call, offered, enforced,
  flushed, restarted, step, run, accepts, delivers, all_accepted, all_delivered,
}
use minilisysm.Network.Sound.{AllAllowed, AlwaysRoom}
use minilisysm.Network.Delivery.{run_delivers, flush_pending-pending}

abbrev fine : Disk
fine = record { written = λ i. true; renamed = λ i. true; published = true; removed = λ name. true }

-- The directory cannot be synced after the renames.
abbrev unpublished : Disk
unpublished = record fine { published = false }

abbrev line_a : Bytes
line_a = codes "a" ++ 10 ∷ []

abbrev line_b : Bytes
line_b = codes "b" ++ 10 ∷ []

abbrev fresh_sink : NetworkEventSink
fresh_sink = record { wal = load_wal []; counters = no_counters }

-- The second line is torn by a crash, and the first is posted twice.
abbrev calls : List Call
calls =
    offered critical line_a complete
    ∷ flushed true unpublished
    ∷ offered info line_b (short 3)
    ∷ restarted
    ∷ flushed true fine
    ∷ []

fresh-IsDurable : IsDurable fresh_sink.wal
fresh-IsDurable = load_wal-IsDurable [] tt (omega arith)

calls-AllAllowed : AllAllowed false calls
calls-AllAllowed = (
  (codes "a", refl, refl, λ e. cons-ne-nil _ _ e),
  (tt, ((codes "b", refl, refl, λ e. cons-ne-nil _ _ e), (tt, (tt, tt)))),
)

test_delivered : all_delivered default_network fresh_sink calls ≡ line_a ∷ line_a ∷ line_b ∷ []
unfolding step accepts delivers offer flush_pending restart append_wal write_line load_wal
    next_wal_path sort_segments insert_segment name_lt max_index load_segments records_of wal_name
    wal_index_from_path stoull skip_spaces rewrite_wal stage staged_records publish_segments
    remove_old next_index wal_bytes enforce_wal_limit find assign erase decimal lines break_at_last
    from_chars digits bytes_eq
test_delivered = refl

-- Without a restart after a torn write, the next line joins the fragment: what is loaded later is
-- another line.
test_glued :
    json_lines
      (run default_network fresh_sink (
        offered critical line_a (short 2)
        ∷ offered critical line_b complete
        ∷ restarted
        ∷ [])).wal.pending
    ≡ (codes "0" ++ 9 ∷ line_b) ∷ []
unfolding run step offer restart append_wal write_line load_wal next_wal_path sort_segments
    insert_segment name_lt max_index load_segments records_of wal_name wal_index_from_path stoull
    skip_spaces rewrite_wal stage staged_records publish_segments remove_old next_index wal_bytes
    enforce_wal_limit find assign erase decimal lines break_at_last from_chars digits bytes_eq
test_glued = refl

calls-AlwaysRoom : AlwaysRoom default_network fresh_sink calls
unfolding step accepts delivers offer flush_pending restart append_wal write_line load_wal
    next_wal_path sort_segments insert_segment name_lt max_index load_segments records_of wal_name
    wal_index_from_path stoull skip_spaces rewrite_wal stage staged_records publish_segments
    remove_old next_index wal_bytes enforce_wal_limit find assign erase decimal lines break_at_last
    from_chars digits bytes_eq
calls-AlwaysRoom = (omega arith, (omega arith, (omega arith, (omega arith, (omega arith, tt)))))

line_a-accepted : Memᴰ line_a (all_accepted default_network fresh_sink calls)
unfolding step accepts delivers offer flush_pending restart append_wal write_line load_wal
    next_wal_path sort_segments insert_segment name_lt max_index load_segments records_of wal_name
    wal_index_from_path stoull skip_spaces rewrite_wal stage staged_records publish_segments
    remove_old next_index wal_bytes enforce_wal_limit find assign erase decimal lines break_at_last
    from_chars digits bytes_eq
line_a-accepted = head refl

run_delivers_example :
    Memᴰ line_a (all_delivered default_network fresh_sink calls)
    ⊎ Memᴰ line_a (json_lines (run default_network fresh_sink calls).wal.pending)
run_delivers_example =
    run_delivers default_network false fresh_sink calls line_a fresh-IsDurable calls-AllAllowed
      calls-AlwaysRoom (inr line_a-accepted)

-- Two lines pending, and a server that takes the first and refuses the second.
abbrev two_pending : NetworkEventSink
two_pending = record fresh_sink {
  wal = record fresh_sink.wal {
    pending = record_at (codes "x") line_a ∷ record_at (codes "x") line_b ∷ [];
  };
}

abbrev one_by_one : NetworkConfig
one_by_one = record default_network { network_batch_size = 1 }

abbrev outcomes : ℕ → Bool × Disk
outcomes n = (n == 2, fine)

-- The first of two lines is posted, and the log replaced.
flush_pending-pending_example :
    let (ok, after) = flush_pending one_by_one true fine two_pending in
    ((if ok then delivers one_by_one two_pending (flushed true fine) else [])
        ++ json_lines after.wal.pending
      ≡ line_a ∷ line_b ∷ [])
    × ((true ≡ true)
        ⊎ ((after.wal ≡ two_pending.wal)
            × ((batch_of one_by_one two_pending.wal ≡ []) ⊎ (ok ≡ false))))
flush_pending-pending_example = flush_pending-pending one_by_one true fine two_pending

-- The line that is taken is the one that was posted.
test_taken : json_lines (flush_pending one_by_one true fine two_pending).1.wal.pending ≡ line_b ∷ []
unfolding flush_pending rewrite_wal stage staged_records publish_segments remove_old next_index
    wal_bytes find assign erase decimal append_wal next_wal_path wal_name wal_index_from_path
test_taken = refl

flush_all-ends_example :
    (final : NetworkEventSink) × (dropped : List Bytes) × (flush_all one_by_one 3 outcomes
        two_pending
      ≡ some final)
    × (json_lines two_pending.wal.pending ≡ dropped ++ json_lines final.wal.pending)
flush_all-ends_example =
    flush_all-ends one_by_one 3 outcomes two_pending (omega arith) (omega arith)

abbrev times : List ℕ
times = 5 ∷ 1005 ∷ 4000 ∷ []

abbrev first_try : Retry
first_try = record { retry_ms = 1000; next_flush = 5; retry_count = 0 }

due : AllDue default_network times first_try
unfolding retry_step
due = (omega arith, (omega arith, (omega arith, tt)))

failures-retry_ms_example :
    (failures default_network times first_try).retry_ms
    ≡ min
        (default_network.network_retry_base_ms * 2 ^ length times)
        default_network.network_retry_max_ms
failures-retry_ms_example =
    failures-retry_ms default_network times first_try (omega arith) (omega arith) refl due

no_number : stoi_port (codes "http") ≡ none
unfolding stoi_port skip_spaces from_chars digits
no_number = refl

parse_endpoint-throws_example :
    parse_endpoint (codes "http://" ++ codes "host" ++ b':' ∷ codes "http") ≡ none
parse_endpoint-throws_example =
    parse_endpoint-throws (codes "host") (codes "http") refl refl refl no_number

-- A port that does not fit 16 bits is taken modulo 2^16.
test_port : stoi_port (codes "65537") ≡ some 1
unfolding stoi_port skip_spaces from_chars digits
test_port = refl

abbrev print : ℕ → Bytes
print n = decimal 20 n (codes ".000")

abbrev beyond : ℕ → Bytes
beyond n = []

abbrev event : InternalEvent ℕ
event = record {
  sequence = 7;
  realtime_ms = 1000;
  monotonic_ms = 20;
  boottime_ms = 30;
  rule_id = 1;
  event_type = memory_pressure;
  level = critical;
  status = active;
  target = [];
  pid = pos 0;
  tid = pos 0;
  value = 5;
  warning_threshold = 6;
  critical_threshold = 9;
  window_sec = 10;
  continuous_hit_count = 2;
  first_seen_ms = 11;
  last_seen_ms = 12;
  hit_count = 2;
  evidence_count = 0;
  evidence = [];
}

abbrev queue : Ring (InternalEvent ℕ)
queue = (push (init event 3 0 true true) event critical).1

queue-AllValid : AllValid print beyond default_config 2 event (queue ∷ [])
unfolding push init should_reject_for_reserve depth update_high_watermark
queue-AllValid = (
  push-IsValid (init event 3 0 true true) event critical
      (init-IsValid event 3 0 true true (omega arith)),
  omega arith,
  tt,
)

drain_queues_once-run_example :
    (drain_queues_once print beyond default_config 2 event
      (λ e. complete)
      fine
      fresh_sink
      (queue ∷ [])).0
    ≡ run default_network fresh_sink (
        offers print beyond default_config
          (λ e. complete)
          (held print beyond default_config event (queue ∷ []))
        ++ enforced fine ∷ [])
drain_queues_once-run_example =
    drain_queues_once-run print beyond default_config 2 event (λ e. complete) fine fresh_sink
      (queue ∷ []) queue-AllValid
