-- ===== src/Wal/Index.antt =====
-- The names of the files of the log: wal_path_for_index, next_wal_path and wal_index_from_path of
-- src/storage/network_event_sink.cpp.
use minilisysm.Prelude.{
  ℕ, ◌-◌, ◌%◌, ◌^◌, Bool, ◌&&◌, ◌||◌, Option, none, some, [], ◌∷◌, ◌++◌, Bytes, codes,
  bytes_equality, break_at_last, length, replicate, from_chars, leb, ◌==◌, if◌then◌else◌,
}
use mathlib.Core.Option
use minilisysm.Prelude.Decimal.{decimal}

-- The number in the name of a file.
abbrev pub pad : Bytes → Bytes
pad text = replicate (6 - length text) b'0' ++ text

unfoldable pub wal_name : ℕ → Bytes
wal_name index = codes "events_" ++ pad (decimal 20 index []) ++ codes ".wal"

-- std::filesystem::path::stem
abbrev pub before_mark : Bytes → Option (Bytes × Bytes) → Bytes
before_mark name none = name
before_mark name (some (before, after)) = before

abbrev pub stem : Bytes → Bytes
stem name = before_mark name (break_at_last b'.' name)

-- std::stoull in base 10, with an exception as `none`.
abbrev pub is_blank : ℕ → Bool
is_blank c = c == b' ' || leb 9 c && leb c 13

unfoldable pub skip_spaces : Bytes → Bytes
skip_spaces [] = []
skip_spaces (c ∷ s) = let rest = skip_spaces s in if is_blank c then rest else c ∷ s

abbrev pub unsigned_value : Bytes → Option ℕ
unsigned_value s = Option.map (λ (value, rest). value) (from_chars (2 ^ 64) s)

abbrev pub signed_value : Bytes → Option ℕ
signed_value [] = none
signed_value (c ∷ s) =
    if c == b'+'
    then unsigned_value s
    else if c == b'-'
    then Option.map (λ value. (2 ^ 64 - value) % 2 ^ 64) (unsigned_value s)
    else unsigned_value (c ∷ s)

unfoldable pub stoull : Bytes → Option ℕ
stoull s = signed_value (skip_spaces s)

abbrev pub stem_index : Option (Bytes × Bytes) → Option ℕ
stem_index none = none
stem_index (some (before, after)) = stoull after

unfoldable pub wal_index_from_path : Bytes → Option ℕ
wal_index_from_path name = stem_index (break_at_last b'_' (stem name))
