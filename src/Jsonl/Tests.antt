-- ===== src/Jsonl/Tests.antt =====
-- The JSONL sink at concrete inputs, and each of its theorems at one.
use minilisysm.Prelude.{
  ℕ, ◌+◌, ◌*◌, ◌≤◌, ◌≡◌, ◌⊎◌, refl, true, false, List, [], ◌∷◌, Bytes, codes, bytes_equality,
  bytes_eq, arith, mul64,
}
use minilisysm.Prelude.Decimal.{decimal}
use minilisysm.Event.{critical}
use minilisysm.Config.{PersistenceConfig, default_persistence}
use minilisysm.Map.{Map, find, assign, erase}
use minilisysm.Jsonl.{JsonlEventSink, Storage, open_next_file, rotate_if_needed, write_event}
use minilisysm.Jsonl.Fsync.{
  FsyncState, Sync, FsyncCall, sync_file, open_window, fsync_if_allowed, syncs, Timed, syncs-bound,
}
use minilisysm.Jsonl.Cache.{
  total_size, insert_file, sort_files, remove_files, enforce_cache_limit, OnlyCurrent,
  enforce_cache_limit-within,
}

abbrev synced : Sync
synced = record {
  flushed = true;
  opened = true;
  synced = true;
  directory_opened = true;
  directory_synced = true;
}

abbrev no_sync : FsyncState
no_sync = record {
  fsync_count = 0;
  fsync_failures = 0;
  fsync_rate_limited = 0;
  fsync_window_start_ms = 0;
  fsync_in_window = 0;
  needs_directory_sync = false;
}

abbrev at : ℕ → FsyncCall
at now = record { level = critical; now = now; outcome = synced }

abbrev sync_calls : List FsyncCall
sync_calls = at 1 ∷ at 2 ∷ at 59999 ∷ at 60000 ∷ at 60001 ∷ []

abbrev two_a_minute : PersistenceConfig
two_a_minute = record default_persistence { max_fsync_per_minute = 2 }

test_syncs : syncs two_a_minute no_sync sync_calls ≡ 4
unfolding syncs fsync_if_allowed open_window sync_file
test_syncs = refl

sync_calls-Timed : Timed 0 120000 sync_calls
sync_calls-Timed = (
  omega arith,
  omega arith,
  (
    omega arith,
    omega arith,
    (omega arith, omega arith, (omega arith, omega arith, (omega arith, omega arith, tt))),
  ),
)

syncs-bound_example :
    syncs two_a_minute no_sync sync_calls + no_sync.fsync_in_window
    ≤ two_a_minute.max_fsync_per_minute * (1 + 1)
syncs-bound_example =
    syncs-bound two_a_minute 1 0 120000 no_sync sync_calls sync_calls-Timed (omega arith)
      (omega arith) (omega arith) (omega arith) (omega arith)

-- Three files in a cache of no size.
abbrev three_files : Map Bytes Bytes
three_files =
    (codes "jsonl/b", codes "bb") ∷ (codes "jsonl/a", codes "a") ∷ (codes "jsonl/c", codes "c") ∷ []

abbrev no_cache : PersistenceConfig
no_cache = record default_persistence { cache_max_mb = 0 }

enforce_cache_limit-within_example :
    let after =
      enforce_cache_limit no_cache (λ path. 0) (λ path. true) (codes "jsonl/c") [] three_files in
    (total_size after ≤ mul64 (mul64 no_cache.cache_max_mb 1024) 1024)
    ⊎ OnlyCurrent (codes "jsonl/c") [] after
unfolding find bytes_eq
enforce_cache_limit-within_example =
    enforce_cache_limit-within no_cache (λ path. 0) (λ path. true) (codes "jsonl/c") [] three_files
      (λ path. refl) (refl, (refl, (refl, tt)))

-- A removal that fails is counted as if it had freed the file.
test_failed_removal :
    enforce_cache_limit no_cache
      (λ path. 0)
      (λ path. false)
      (codes "jsonl/c")
      []
      ((codes "jsonl/a", codes "a") ∷ (codes "jsonl/b", codes "b") ∷ [])
    ≡ (codes "jsonl/a", codes "a") ∷ (codes "jsonl/b", codes "b") ∷ []
unfolding enforce_cache_limit sort_files insert_file remove_files erase bytes_eq
test_failed_removal = refl

abbrev fine : Storage
fine = record {
  opens = λ i. true;
  summary_opens = λ i. true;
  line_written = true;
  summary_written = true;
  sync = synced;
  last_write_time = λ path. 0;
  removed = λ path. true;
}

abbrev closed : JsonlEventSink
closed = record {
  files = [];
  stream_open = false;
  summary_open = false;
  current_path = [];
  current_summary_path = [];
  current_size = 0;
  file_index = 0;
  written_events = 0;
  write_errors = 0;
  rotated_files = 0;
  fsync = no_sync;
}

-- The first event opens the files.
test_write :
    (write_event default_persistence
      (codes "p")
      fine
      critical
      5
      (codes "line")
      (codes "text")
      closed).1.files
    ≡ (codes "jsonl/p-part000001.jsonl", codes "line")
      ∷ (codes "summary/p-part000001.summary.log", codes "text")
      ∷ []
unfolding write_event open_next_file rotate_if_needed fsync_if_allowed open_window sync_file
    enforce_cache_limit sort_files insert_file remove_files find assign erase bytes_eq decimal
test_write = refl

-- After a line that could not be written, the summary is still open: it does not open again for the
-- next file, which counts as one more error, and the next event has no summary.
test_summary_lost :
    let failed =
      (write_event default_persistence
        (codes "p")
        (record fine { line_written = false })
        critical
        5
        (codes "lost")
        (codes "lost")
        closed).1 in
    let (ok, s) =
      write_event default_persistence
        (codes "p")
        fine
        critical
        6
        (codes "line")
        (codes "text")
        failed in
    (ok ≡ true)
    × (s.write_errors ≡ 2)
    × (s.summary_open ≡ false)
    × (s.files
        ≡ (codes "jsonl/p-part000001.jsonl", [])
          ∷ (codes "summary/p-part000001.summary.log", [])
          ∷ (codes "jsonl/p-part000002.jsonl", codes "line")
          ∷ [])
unfolding write_event open_next_file rotate_if_needed fsync_if_allowed open_window sync_file
    enforce_cache_limit sort_files insert_file remove_files find assign erase bytes_eq decimal
test_summary_lost = (refl, refl, refl, refl)
