-- ===== src/Wal.antt =====
-- The write-ahead log of src/storage/network_event_sink.cpp. The directory is the contents of its
-- files whose names end in ".wal"; a file that is being staged has another ending and is left out
-- until it is renamed. What the file system does in a call is an argument.
pub mod Index
pub mod Rewrite
pub mod Names
pub mod Records
pub mod Stored
pub mod Staged
pub mod Published
pub mod Durable
pub mod Replaced
use minilisysm.Prelude.{
  ℕ, zero, suc, ◌+◌, ◌-◌, ◌*◌, ◌%◌, ◌^◌, min, max, Bool, true, false, ◌&&◌, ◌||◌, Option, none,
  some, List, [], ◌∷◌, map, ◌++◌, Bytes, codes, bytes_equality, lines, break_at_last, length, take,
  replicate, add64, mul64, digits, from_chars, ltb, leb, ◌==◌, if◌then◌else◌,
}
use minilisysm.Map.{Map, find, assign}
use minilisysm.Config.{NetworkConfig}
use minilisysm.Wal.Index.{wal_name, wal_index_from_path}

pub record WalRecord : Type 0 where
  pub path : Bytes
  pub json_line : Bytes

abbrev pub record_at : Bytes → Bytes → WalRecord
record_at name line = record { path = name; json_line = line }

pub record Wal : Type 0 where
  pub dir : Map Bytes Bytes
  pub pending : List WalRecord
  pub current_wal_path : Bytes
  pub current_wal_size : ℕ
  pub current_wal_index : ℕ

abbrev pub text_of : Option Bytes → Bytes
text_of none = []
text_of (some text) = text

abbrev pub segment_bytes : NetworkConfig → ℕ
segment_bytes c = mul64 (mul64 c.network_wal_segment_mb 1024) 1024

-- next_wal_path, stored where its callers store it.
unfoldable pub next_wal_path : Wal → Wal
next_wal_path w = record w {
  current_wal_path = wal_name w.current_wal_index;
  current_wal_index = add64 w.current_wal_index 1;
}

-- What is written for a line.
abbrev pub wal_entry : Bytes → Bytes
wal_entry line = b'0' ∷ 9 ∷ line

-- What happens to a write: it is complete, the file cannot be opened, or it fails after a number
-- of bytes.
pub data Write : Type 0 where
  complete : Write
  not_opened : Write
  short : ℕ → Write

abbrev pub append_to : Bytes → Wal → Map Bytes Bytes
append_to text w = assign w.current_wal_path (text_of (find w.current_wal_path w.dir) ++ text) w.dir

unfoldable pub write_line : Write → Wal → Bytes → Bool × Wal
write_line complete w line = (
  true,
  record w {
    dir = append_to (wal_entry line) w;
    current_wal_size = w.current_wal_size + (length line + 2);
  },
)
write_line not_opened w line = (false, w)
write_line (short n) w line = (false, record w { dir = append_to (take n (wal_entry line)) w })

abbrev pub no_path : Bytes → Bool
no_path [] = true
no_path (c ∷ s) = false

abbrev pub named_segment : Wal → Wal
named_segment w = if no_path w.current_wal_path then next_wal_path w else w

abbrev pub rotated_segment : NetworkConfig → Wal → Wal
rotated_segment c w =
    if leb (segment_bytes c) w.current_wal_size
    then record (next_wal_path w) { current_wal_size = 0 }
    else w

-- The log with the segment that a line is appended to.
abbrev pub current_segment : NetworkConfig → Wal → Wal
current_segment c w = rotated_segment c (named_segment w)

unfoldable pub append_wal : NetworkConfig → Write → Wal → Bytes → Bool × Wal
append_wal c write w line = write_line write (current_segment c w) line

-- The line that a line of a file is a record of.
abbrev pub record_of : Bytes → Option Bytes
record_of (a ∷ b ∷ c ∷ text) = if a == b'0' && b == 9 then some (c ∷ text ++ 10 ∷ []) else none
record_of _ = none

abbrev pub keep : Option Bytes → List Bytes → List Bytes
keep none ls = ls
keep (some l) ls = l ∷ ls

unfoldable pub records_of : List Bytes → List Bytes
records_of [] = []
records_of (l ∷ ls) = keep (record_of l) (records_of ls)

-- The lines that a file holds.
abbrev pub records : Bytes → List Bytes
records text = records_of (lines text)

-- The order of std::filesystem::path on the names of one directory.
unfoldable pub name_lt : Bytes → Bytes → Bool
name_lt [] [] = false
name_lt [] (d ∷ t) = true
name_lt (c ∷ s) [] = false
name_lt (c ∷ s) (d ∷ t) = let rest = name_lt s t in ltb c d || (c == d && rest)

unfoldable pub insert_segment : Bytes × Bytes → Map Bytes Bytes → Map Bytes Bytes
insert_segment f [] = f ∷ []
insert_segment f (g ∷ fs) =
    let rest = g ∷ insert_segment f fs in if name_lt f.0 g.0 then f ∷ g ∷ fs else rest

-- std::sort of the segments.
unfoldable pub sort_segments : Map Bytes Bytes → Map Bytes Bytes
sort_segments [] = []
sort_segments (f ∷ fs) = insert_segment f (sort_segments fs)

abbrev pub index_or : ℕ → Option ℕ → ℕ
index_or n none = n
index_or n (some index) = max n index

unfoldable pub max_index : ℕ → Map Bytes Bytes → ℕ
max_index n [] = n
max_index n ((name, text) ∷ fs) = max_index (index_or n (wal_index_from_path name)) fs

unfoldable pub load_segments : Map Bytes Bytes → List WalRecord
load_segments [] = []
load_segments ((name, text) ∷ fs) = map (record_at name) (records text) ++ load_segments fs

unfoldable pub load_wal : Map Bytes Bytes → Wal
load_wal dir =
    let segments = sort_segments dir in
    next_wal_path (record {
      dir = dir;
      pending = load_segments segments;
      current_wal_path = [];
      current_wal_size = 0;
      current_wal_index = add64 (max_index 0 segments) 1;
    })
