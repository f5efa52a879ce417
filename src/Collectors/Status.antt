-- ===== src/Collectors/Status.antt =====
-- src/collectors/meminfo_collector.cpp and self_status_collector.cpp. The text of /proc/meminfo and
-- of /proc/self/status is an argument, `none` where it cannot be read.
use minilisysm.Prelude.{
  ℕ, ◌+◌, ◌-◌, ◌*◌, ◌<◌, ◌^◌, ◌≡◌, refl, Bool, true, false, ◌&&◌, ◌||◌, Option, none, some, List,
  [], ◌∷◌, ◌++◌, Bytes, codes, is_digit, digits, from_chars, lines, ltb, lt→ltb, ◌==◌, arith,
  if◌then◌else◌,
}
use mathlib.Core.Option
use minilisysm.Samples.{MeminfoSample}

pub record SelfStatusSample : Type 0 where
  pub vm_rss_kb : ℕ
  pub valid : Bool

abbrev pub empty_meminfo : MeminfoSample
empty_meminfo = record {
  mem_total_kb = 0;
  mem_available_kb = 0;
  swap_free_kb = 0;
  sreclaimable_kb = 0;
  sunreclaim_kb = 0;
  valid = false;
}

abbrev pub is_separator : ℕ → Bool
is_separator c = c == b':' || c == b' ' || c == 9

unfoldable pub skip_separators : Bytes → Bytes
skip_separators [] = []
skip_separators (c ∷ s) = let rest = skip_separators s in if is_separator c then rest else c ∷ s

-- What follows `key`, if the line is longer than it and starts with it.
unfoldable pub after_key : Bytes → Bytes → Option Bytes
after_key [] [] = none
after_key (c ∷ line) [] = some (c ∷ line)
after_key [] (k ∷ key) = none
after_key (c ∷ line) (k ∷ key) = let rest = after_key line key in if c == k then rest else none

-- What is parsed after the key.
abbrev pub parsed_value : Option Bytes → Option ℕ
parsed_value none = none
parsed_value (some rest) =
    Option.map (λ (value, unit). value) (from_chars (2 ^ 64) (skip_separators rest))

-- The value that is stored, or `none` for false.
unfoldable pub parse_kb_line : Bytes → Bytes → Option ℕ
parse_kb_line line key = parsed_value (after_key line key)

-- The chain of `||`: the first key that can be parsed.
unfoldable pub read_line : Bytes → MeminfoSample → MeminfoSample
read_line line sample = elim (parse_kb_line line (codes "MemTotal")) [
  | some kb ↦ record sample { mem_total_kb = kb }
  | none ↦ elim (parse_kb_line line (codes "MemAvailable")) [
    | some kb ↦ record sample { mem_available_kb = kb }
    | none ↦ elim (parse_kb_line line (codes "SwapFree")) [
      | some kb ↦ record sample { swap_free_kb = kb }
      | none ↦ elim (parse_kb_line line (codes "SReclaimable")) [
        | some kb ↦ record sample { sreclaimable_kb = kb }
        | none ↦ elim (parse_kb_line line (codes "SUnreclaim")) [
          | some kb ↦ record sample { sunreclaim_kb = kb }
          | none ↦ sample
        ]
      ]
    ]
  ]
]

unfoldable pub read_lines : List Bytes → MeminfoSample → MeminfoSample
read_lines [] sample = sample
read_lines (line ∷ others) sample = read_lines others (read_line line sample)

-- MeminfoCollector::collect
unfoldable pub collect_meminfo : Option Bytes → MeminfoSample
collect_meminfo none = empty_meminfo
collect_meminfo (some content) =
    let sample = read_lines (lines content) empty_meminfo in
    record sample { valid = ltb 0 sample.mem_total_kb && ltb 0 sample.mem_available_kb }

unfoldable pub find_vm_rss : List Bytes → Option ℕ
find_vm_rss [] = none
find_vm_rss (line ∷ others) = elim (parse_kb_line line (codes "VmRSS")) [
  | some kb ↦ some kb
  | none ↦ find_vm_rss others
]

-- SelfStatusCollector::collect
unfoldable pub collect_self_status : Option Bytes → SelfStatusSample
collect_self_status none = record { vm_rss_kb = 0; valid = false }
collect_self_status (some content) = elim (find_vm_rss (lines content)) [
  | some kb ↦ record { vm_rss_kb = kb; valid = true }
  | none ↦ record { vm_rss_kb = 0; valid = false }
]

-- A text of digits, of separators, and one that does not go on with a digit.
abbrev pub AllDigits : Bytes → Type 0
AllDigits [] = Unit
AllDigits (c ∷ s) = (is_digit c ≡ true) × AllDigits s

abbrev pub AllSeparators : Bytes → Type 0
AllSeparators [] = Unit
AllSeparators (c ∷ s) = (is_separator c ≡ true) × AllSeparators s

abbrev pub NoDigitFirst : Bytes → Type 0
NoDigitFirst [] = Unit
NoDigitFirst (c ∷ s) = is_digit c ≡ false

-- The number that a text of digits stands for, after the digits of `n`.
abbrev pub number : ℕ → Bytes → ℕ
number n [] = n
number n (c ∷ s) = number (n * 10 + (c - b'0')) s

digits-number :
    (ds rest : Bytes) (n : ℕ)
    → AllDigits ds
    → NoDigitFirst rest
    → digits n (ds ++ rest) ≡ (number n ds, rest)
unfolding digits
digits-number [] [] n h g = refl
digits-number [] (c ∷ s) n h g = rw g refl
digits-number (c ∷ ds) rest n h g = rw h.0 (digits-number ds rest (n * 10 + (c - b'0')) h.1 g)

after_key-append : (key rest : Bytes) (c : ℕ) → after_key (key ++ c ∷ rest) key ≡ some (c ∷ rest)
unfolding after_key
after_key-append [] rest c = refl
after_key-append (k ∷ key) rest c = ground (arith, after_key-append key rest c)

skip-digit :
    (seps rest : Bytes) (c : ℕ)
    → AllSeparators seps
    → is_digit c ≡ true
    → skip_separators (seps ++ c ∷ rest) ≡ c ∷ rest
unfolding skip_separators
skip-digit [] rest c h dig = ground arith
skip-digit (x ∷ seps) rest c h dig = rw h.0 (skip-digit seps rest c h.1 dig)

-- A line of the key, one or more separators, the digits of a number below 2 ^ 64, and a rest that
-- does not go on with a digit, is read as that number.
pub parse_kb_line-number :
    (key seps ds rest : Bytes) (s c : ℕ)
    → AllSeparators (s ∷ seps)
    → AllDigits (c ∷ ds)
    → NoDigitFirst rest
    → number 0 (c ∷ ds) < 2 ^ 64
    → parse_kb_line (key ++ s ∷ (seps ++ c ∷ (ds ++ rest))) key ≡ some (number 0 (c ∷ ds))
unfolding parse_kb_line from_chars
parse_kb_line-number key seps ds rest s c hs hd g fits =
    rw
      (
        after_key-append key (seps ++ c ∷ (ds ++ rest)) s,
        skip-digit (s ∷ seps) (ds ++ rest) c hs hd.0,
      )
      (rw (digits-number (c ∷ ds) rest 0 hd g, hd.0, lt→ltb _ _ fits) refl)
