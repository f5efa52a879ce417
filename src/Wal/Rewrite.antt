-- ===== src/Wal/Rewrite.antt =====
-- The replacement of the files of the log by a new generation: rewrite_wal_locked, wal_bytes and
-- enforce_wal_limit of src/storage/network_event_sink.cpp.
use minilisysm.Prelude.{
  ℕ, zero, suc, ◌+◌, min, max, Bool, true, false, ◌&&◌, ◌||◌, Option, none, some, List, [], ◌∷◌,
  map, ◌++◌, Bytes, bytes_equality, length, add64, mul64, ltb, leb, ◌==◌, if◌then◌else◌,
}
use minilisysm.Map.{Map, assign, erase}
use minilisysm.Config.{NetworkConfig}
use minilisysm.Wal.Index.{wal_name, wal_index_from_path}
use minilisysm.Wal.{WalRecord, record_at, Wal, wal_entry, segment_bytes}

-- A segment of the next generation.
pub record StagedSegment : Type 0 where
  pub name : Bytes
  pub size : ℕ
  pub json_lines : List Bytes

abbrev pub entries : List Bytes → Bytes
entries [] = []
entries (line ∷ ls) = wal_entry line ++ entries ls

-- The loops that write the segments: `size` and `ls` are what the segment of number `index` has so
-- far.
unfoldable pub stage : ℕ → ℕ → ℕ → List Bytes → List WalRecord → List StagedSegment
stage limit index size ls [] = record { name = wal_name index; size = size; json_lines = ls } ∷ []
stage limit index size ls (r ∷ rs) =
    let fits = size == 0 || limit == 0 || ltb size limit in
    let rest =
      stage limit (if fits then index else add64 index 1)
        ((if fits then size else 0) + (length r.json_line + 2))
        ((if fits then ls else []) ++ r.json_line ∷ []) rs in
    if fits then rest else record { name = wal_name index; size = size; json_lines = ls } ∷ rest

-- The records with the path of their segment.
unfoldable pub staged_records : List StagedSegment → List WalRecord
staged_records [] = []
staged_records (s ∷ ss) = map (record_at s.name) s.json_lines ++ staged_records ss

-- What the file system does while a generation is replaced: whether the segment of a position is
-- created, written and synced, whether it is renamed, whether the directory is synced then, and
-- whether an old file is removed.
pub record Disk : Type 0 where
  pub written : ℕ → Bool
  pub renamed : ℕ → Bool
  pub published : Bool
  pub removed : Bytes → Bool

abbrev pub all_written : (ℕ → Bool) → ℕ → List StagedSegment → Bool
all_written written i [] = true
all_written written i (s ∷ ss) = written i && all_written written (i + 1) ss

-- The loop of the renames, up to one that fails.
unfoldable pub publish_segments :
    (ℕ → Bool) → ℕ → List StagedSegment → Map Bytes Bytes → Bool × Map Bytes Bytes
publish_segments renamed i [] dir = (true, dir)
publish_segments renamed i (s ∷ ss) dir =
    let rest = publish_segments renamed (i + 1) ss (assign s.name (entries s.json_lines) dir) in
    if renamed i then rest else (false, dir)

unfoldable pub remove_old : (Bytes → Bool) → Map Bytes Bytes → Map Bytes Bytes → Map Bytes Bytes
remove_old removed [] dir = dir
remove_old removed ((name, text) ∷ old) dir =
    remove_old removed old (if removed name then erase name dir else dir)

abbrev pub after_index : ℕ → Option ℕ → ℕ
after_index n none = n
after_index n (some index) = max n (add64 index 1)

unfoldable pub next_index : ℕ → Map Bytes Bytes → ℕ
next_index n [] = n
next_index n ((name, text) ∷ fs) = next_index (after_index n (wal_index_from_path name)) fs

abbrev pub drop : ℕ → List WalRecord → List WalRecord
drop zero rs = rs
drop (suc n) [] = []
drop (suc n) (r ∷ rs) = drop n rs

-- The last segment that was staged; there is one.
abbrev pub last_segment : List StagedSegment → StagedSegment
last_segment [] = record { name = []; size = 0; json_lines = [] }
last_segment (s ∷ []) = s
last_segment (s ∷ t ∷ ss) = last_segment (t ∷ ss)

abbrev pub replaced : Disk → Wal → ℕ → List StagedSegment → Bool → Map Bytes Bytes → Bool × Wal
replaced disk w next staged true dir = (
  true,
  record {
    dir = remove_old disk.removed w.dir dir;
    pending = staged_records staged;
    current_wal_path = (last_segment staged).name;
    current_wal_size = (last_segment staged).size;
    current_wal_index = add64 next (length staged);
  },
)
replaced disk w next staged false dir = (false, record w { dir = dir })

unfoldable pub rewrite_wal : NetworkConfig → Disk → ℕ → Wal → Bool × Wal
rewrite_wal c disk acked w =
    let remaining = drop (min acked (length w.pending)) w.pending in
    let next = next_index w.current_wal_index w.dir in
    let staged = stage (segment_bytes c) next 0 [] remaining in
    let (renamed, dir) = publish_segments disk.renamed 0 staged w.dir in
    if all_written disk.written 0 staged
    then replaced disk w next staged (renamed && disk.published) dir
    else (false, w)

unfoldable pub wal_bytes : Map Bytes Bytes → ℕ
wal_bytes [] = 0
wal_bytes ((name, text) ∷ fs) = length text + wal_bytes fs

abbrev pub wal_over_limit : NetworkConfig → Wal → Bool
wal_over_limit c w = leb (mul64 (mul64 c.network_wal_max_mb 1024) 1024) (wal_bytes w.dir)

unfoldable pub enforce_wal_limit : NetworkConfig → Disk → Wal → Wal
enforce_wal_limit c disk w =
    let after = (rewrite_wal c disk 0 w).1 in if wal_over_limit c w then after else w
