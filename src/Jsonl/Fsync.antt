-- ===== src/Jsonl/Fsync.antt =====
-- JsonlEventSink::fsync_if_allowed, and how often it syncs.
use minilisysm.Prelude.{
  ℕ, zero, suc, ◌+◌, ◌*◌, ◌^◌, ◌≤◌, ◌<◌, ◌≡◌, Bool, true, false, ◌&&◌, ◌||◌, not, List, [], ◌∷◌,
  u32, add64, sub64, leb, if◌then◌else◌, arith, inl, inr, ◌⊎◌,
}
use minilisysm.Event.{EventLevel, is_critical}
use minilisysm.Config.{PersistenceConfig}

pub record FsyncState : Type 0 where
  pub fsync_count : ℕ
  pub fsync_failures : ℕ
  pub fsync_rate_limited : ℕ
  pub fsync_window_start_ms : ℕ
  pub fsync_in_window : ℕ
  pub needs_directory_sync : Bool

-- Which of the calls of a sync succeed.
pub record Sync : Type 0 where
  pub flushed : Bool
  pub opened : Bool
  pub synced : Bool
  pub directory_opened : Bool
  pub directory_synced : Bool

abbrev pub count_failure : FsyncState → FsyncState
count_failure f = record f { fsync_failures = add64 f.fsync_failures 1 }

abbrev pub count_sync : FsyncState → FsyncState
count_sync f = record f { fsync_count = add64 f.fsync_count 1; needs_directory_sync = false }

-- The sync of the file, and of its directory where the file is new.
unfoldable pub sync_file : Sync → FsyncState → FsyncState
sync_file sync f =
    if not (sync.opened && sync.synced)
    then count_failure f
    else if f.needs_directory_sync && not (sync.directory_opened && sync.directory_synced)
    then count_failure f
    else count_sync f

-- The window that a reading of the clock falls in.
unfoldable pub open_window : ℕ → FsyncState → FsyncState
open_window now f =
    if leb 60000 (sub64 now f.fsync_window_start_ms)
    then record f { fsync_window_start_ms = now; fsync_in_window = 0 }
    else f

-- The result says whether a sync is tried.
unfoldable pub fsync_if_allowed :
    PersistenceConfig → EventLevel → ℕ → Sync → FsyncState → Bool × FsyncState
fsync_if_allowed c level now sync f =
    let g = open_window now f in
    let tried = sync_file sync (record g { fsync_in_window = u32 (g.fsync_in_window + 1) }) in
    let limited = record g { fsync_rate_limited = add64 g.fsync_rate_limited 1 } in
    if not c.critical_fsync || not (is_critical level)
    then (false, f)
    else if not sync.flushed
    then (false, count_failure f)
    else if leb c.max_fsync_per_minute g.fsync_in_window
    then (false, limited)
    else (true, tried)

pub record FsyncCall : Type 0 where
  pub level : EventLevel
  pub now : ℕ
  pub outcome : Sync

abbrev pub count_of : Bool → ℕ
count_of true = 1
count_of false = 0

-- How many syncs a sequence of calls tries.
unfoldable pub syncs : PersistenceConfig → FsyncState → List FsyncCall → ℕ
syncs c f [] = 0
syncs c f (call ∷ calls) =
    let (tried, g) = fsync_if_allowed c call.level call.now call.outcome f in
    count_of tried + syncs c g calls

-- The clock does not go back, and stays below `limit`.
abbrev pub Timed : ℕ → ℕ → List FsyncCall → Type 0
Timed from limit [] = Unit
Timed from limit (call ∷ calls) =
    (from ≤ call.now) × (call.now < limit) × Timed call.now limit calls

sync_file-window :
    (sync : Sync) (f : FsyncState)
    → ((sync_file sync f).fsync_window_start_ms ≡ f.fsync_window_start_ms)
      × ((sync_file sync f).fsync_in_window ≡ f.fsync_in_window)
unfolding sync_file
sync_file-window sync f = (ground arith, ground arith)

-- A call stays in the window or opens one, and counts what it tries.
fsync-step :
    (c : PersistenceConfig) (level : EventLevel) (now : ℕ) (sync : Sync) (f : FsyncState)
    → f.fsync_window_start_ms ≤ now
    → now < 2 ^ 64
    → f.fsync_in_window ≤ c.max_fsync_per_minute
    → c.max_fsync_per_minute < 2 ^ 32
    → let (tried, g) = fsync_if_allowed c level now sync f in
      (g.fsync_in_window ≤ c.max_fsync_per_minute)
      × (g.fsync_window_start_ms ≤ now)
      × (((g.fsync_window_start_ms ≡ f.fsync_window_start_ms)
            × (g.fsync_in_window ≡ f.fsync_in_window + count_of tried))
          ⊎ ((f.fsync_window_start_ms + 60000 ≤ now)
              × (g.fsync_window_start_ms ≡ now)
              × (g.fsync_in_window ≡ count_of tried)))
unfolding fsync_if_allowed open_window sync_file
fsync-step c level now sync f low high few small = ground arith

times_one : (m k : ℕ) → m * (k + 1) ≡ m * k + m
times_one m k = grind arith

times_next : (m k : ℕ) → m * (suc k + 1) ≡ m * (k + 1) + m
times_next m k = grind arith

-- From the start of a window, in less than k + 1 times 60 seconds, at most k + 1 times the limit of
-- syncs are tried, less those that the window has had. The clock does not go back and stays below
-- 2^64, and the window has had no more than the limit, which is below 2^32.
pub syncs-bound :
    (c : PersistenceConfig) (k from limit : ℕ) (f : FsyncState) (calls : List FsyncCall)
    → Timed from limit calls
    → f.fsync_window_start_ms ≤ from
    → limit ≤ f.fsync_window_start_ms + 60000 * (k + 1)
    → limit < 2 ^ 64
    → f.fsync_in_window ≤ c.max_fsync_per_minute
    → c.max_fsync_per_minute < 2 ^ 32
    → syncs c f calls + f.fsync_in_window ≤ c.max_fsync_per_minute * (k + 1)
unfolding syncs
syncs-bound c k from limit f [] timed low high word few small =
    omega (arith, times_one c.max_fsync_per_minute k)
syncs-bound c zero from limit f (call ∷ calls) timed low high word few small =
    let g = (fsync_if_allowed c call.level call.now call.outcome f).1 in
    let (few', low', next) =
      fsync-step c call.level call.now call.outcome f (omega arith) (omega arith) few small in
    elim next [
      | inl same ↦ omega (
        arith,
        syncs-bound c zero call.now limit g calls timed.2 low' (omega arith) word few' small,
        same.0,
        same.1,
      )
      | inr new ↦ absurd (omega (arith, new.0, timed.1, high))
    ]
syncs-bound c (suc k) from limit f (call ∷ calls) timed low high word few small =
    let g = (fsync_if_allowed c call.level call.now call.outcome f).1 in
    let (few', low', next) =
      fsync-step c call.level call.now call.outcome f (omega arith) (omega arith) few small in
    elim next [
      | inl same ↦ omega (
        arith,
        syncs-bound c (suc k) call.now limit g calls timed.2 low' (omega arith) word few' small,
        same.0,
        same.1,
      )
      | inr new ↦ omega (
        arith,
        syncs-bound c k call.now limit g calls timed.2 low' (omega arith) word few' small,
        new.0,
        new.1,
        new.2,
        times_next c.max_fsync_per_minute k,
      )
    ]
