-- ===== src/Ini.antt =====
-- src/core/config.cpp: the parsing of the configuration file and of its values. The lines of the
-- file are an argument, none for a file that cannot be opened.
pub mod Items
mod Tests
use minilisysm.Prelude.{
  ℕ, zero, suc, ◌+◌, ◌^◌, ℤ, pos, negsuc, Bool, true, false, not, ◌&&◌, ◌||◌, Option, none, some,
  List, [], ◌∷◌, Bytes, codes, bytes_equality, from_chars, break_at, ltb, leb, ◌==◌, if◌then◌else◌,
}
use minilisysm.Map.{Map, find, assign}
use minilisysm.Validate.{lower, one_of}

abbrev pub Section : Type 0
Section = Map Bytes Bytes

abbrev pub Ini : Type 0
Ini = Map Bytes Section

-- std::isspace, in the "C" locale
abbrev pub is_space : ℕ → Bool
is_space c = c == b' ' || leb 9 c && leb c 13

abbrev pub is_blank : Bytes → Bool
is_blank [] = true
is_blank (c ∷ s) = false

unfoldable pub trim_begin : Bytes → Bytes
trim_begin [] = []
trim_begin (c ∷ s) = let rest = trim_begin s in if is_space c then rest else c ∷ s

unfoldable pub trim_end : Bytes → Bytes
trim_end [] = []
trim_end (c ∷ s) = let rest = trim_end s in if is_blank rest && is_space c then [] else c ∷ rest

unfoldable pub trim : Bytes → Bytes
trim s = trim_end (trim_begin s)

-- `line.resize(comment)`
unfoldable pub cut_comment : Bytes → Bytes
cut_comment [] = []
cut_comment (c ∷ s) = let rest = cut_comment s in if c == b'#' || c == b';' then [] else c ∷ rest

abbrev pub negated : ℕ → ℤ
negated zero = pos 0
negated (suc n) = negsuc n

abbrev pub front_is : ℕ → Bytes → Bool
front_is mark [] = false
front_is mark (c ∷ s) = c == mark

abbrev pub back_is : ℕ → Bytes → Bool
back_is mark [] = false
back_is mark (c ∷ []) = c == mark
back_is mark (c ∷ x ∷ s) = back_is mark (x ∷ s)

abbrev pub drop_last : Bytes → Bytes
drop_last [] = []
drop_last (c ∷ []) = []
drop_last (c ∷ x ∷ s) = c ∷ drop_last (x ∷ s)

-- `substr(1, size - 2)`
abbrev pub inside : Bytes → Bytes
inside [] = []
inside (c ∷ s) = drop_last s

abbrev pub section_of : Bytes → Ini → Section
section_of section ini = elim (find section ini) [ none ↦ [] | some entries ↦ entries ]

-- One turn of the loop of parse_ini, with the current section.
unfoldable pub parse_line : Bytes → Ini × Bytes → Ini × Bytes
parse_line line (ini, section) =
    let cleaned = trim (cut_comment line) in
    let (key, value) = break_at b'=' cleaned in
    if is_blank cleaned
    then (ini, section)
    else if front_is b'[' cleaned && back_is b']' cleaned
    then (ini, trim (inside cleaned))
    else elim value [
      | none ↦ (ini, section)
      | some text ↦ if is_blank section then (ini, section) else (
        assign section (assign (trim key) (trim text) (section_of section ini)) ini,
        section,
      )
    ]

unfoldable pub parse_lines : List Bytes → Ini × Bytes → Ini × Bytes
parse_lines [] state = state
parse_lines (line ∷ lines) state = parse_lines lines (parse_line line state)

unfoldable pub parse_ini : List Bytes → Ini
parse_ini lines = (parse_lines lines ([], [])).0

unfoldable pub find_value : Ini → Bytes → Bytes → Option Bytes
find_value ini section key = elim (find section ini) [
  | none ↦ none
  | some entries ↦ find key entries
]

unfoldable pub parse_bool : Bytes → Bool
parse_bool value = one_of (codes "true" ∷ codes "1" ∷ codes "yes" ∷ codes "on" ∷ []) (lower value)

abbrev pub parsed_or : ℕ → Option (ℕ × Bytes) → ℕ
parsed_or target none = target
parsed_or target (some (parsed, rest)) = parsed

abbrev pub int_or : ℕ → ℕ → Option Bytes → ℕ
int_or limit target none = target
int_or limit target (some value) = parsed_or target (from_chars limit value)

-- Into an unsigned type below `limit`; text after the number is not looked at.
unfoldable pub assign_int : ℕ → Ini → Bytes → Bytes → ℕ → ℕ
assign_int limit ini section key target = int_or limit target (find_value ini section key)

-- std::from_chars into an `int`
unfoldable pub from_chars_int : Bytes → Option ℤ
from_chars_int [] = none
from_chars_int (c ∷ s) =
    if c == b'-'
    then elim (from_chars (2 ^ 31 + 1) s) [ none ↦ none | some (n, rest) ↦ some (negated n) ]
    else elim (from_chars (2 ^ 31) (c ∷ s)) [ none ↦ none | some (n, rest) ↦ some (pos n) ]

unfoldable pub assign_signed : Ini → Bytes → Bytes → ℤ → ℤ
assign_signed ini section key target = elim (find_value ini section key) [
  | none ↦ target
  | some value ↦ elim (from_chars_int value) [ none ↦ target | some parsed ↦ parsed ]
]

unfoldable pub assign_bool : Ini → Bytes → Bytes → Bool → Bool
assign_bool ini section key target = elim (find_value ini section key) [
  | none ↦ target
  | some value ↦ parse_bool value
]

unfoldable pub assign_string : Ini → Bytes → Bytes → Bytes → Bytes
assign_string ini section key target = elim (find_value ini section key) [
  | none ↦ target
  | some value ↦ value
]

-- The fields between commas; an empty one at the end is left out, as the loop does.
unfoldable pub fields : Bytes → List Bytes
fields [] = []
fields (c ∷ s) =
    let rest = fields s in
    if c == b','
    then [] ∷ rest
    else elim rest [ [] ↦ (c ∷ []) ∷ [] | field ∷ others ↦ (c ∷ field) ∷ others ]

-- The fields, trimmed, without the blank ones.
unfoldable pub items : List Bytes → List Bytes
items [] = []
items (field ∷ others) =
    let rest = items others in if is_blank (trim field) then rest else trim field ∷ rest

unfoldable pub split_csv : Bytes → List Bytes
split_csv value = items (fields value)

unfoldable pub assign_csv : Ini → Bytes → Bytes → List Bytes → List Bytes
assign_csv ini section key target = elim (find_value ini section key) [
  | none ↦ target
  | some value ↦ split_csv value
]
