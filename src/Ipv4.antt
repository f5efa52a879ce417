-- ===== src/Ipv4.antt =====
-- src/core/config.cpp: valid_ipv4, the test of an address in dotted decimals.
use minilisysm.Prelude.{
  ℕ, zero, suc, ◌^◌, Bool, true, false, not, ◌&&◌, none, some, List, [], ◌∷◌, Bytes, ltb,
  from_chars, break_at,
}

-- One octet: all of the text is a number of at most 255.
unfoldable pub valid_octet : Bytes → Bool
valid_octet part = elim (from_chars (2 ^ 32) part) [
  | some (parsed, []) ↦ not (ltb 255 parsed)
  | some (parsed, c ∷ rest) ↦ false
  | none ↦ false
]

-- The octets from one on, `more` of which follow it.
unfoldable pub valid_octets : ℕ → Bytes → Bool
valid_octets zero s =
    let (part, after) = break_at b'.' s in
    elim after [ none ↦ valid_octet part | some rest ↦ false ]
valid_octets (suc more) s =
    let (part, after) = break_at b'.' s in
    elim after [
      | none ↦ false
      | some rest ↦ let others = valid_octets more rest in valid_octet part && others
    ]

abbrev pub valid_ipv4 : Bytes → Bool
valid_ipv4 = valid_octets 3

abbrev pub all_valid_ipv4 : List Bytes → Bool
all_valid_ipv4 [] = true
all_valid_ipv4 (client ∷ clients) = valid_ipv4 client && all_valid_ipv4 clients
