-- ===== src/Ini/Items.antt =====
-- What trim and split_csv leave of a text.
use minilisysm.Prelude.{◌≡◌, ◌&&◌, refl, ◌∙◌, ap, false, List, [], ◌∷◌, Bytes, Bool-cases, inl, inr}
use minilisysm.Ini.{is_space, is_blank, trim_begin, trim_end, trim, items, fields, split_csv}

trim_end_idem : (s : Bytes) → trim_end (trim_end s) ≡ trim_end s
unfolding trim_end
trim_end_idem [] = refl
trim_end_idem (c ∷ s) = elim (Bool-cases (is_blank (trim_end s) && is_space c)) [
  | inl blank ↦ rw blank refl
  | inr kept ↦ rw (kept, trim_end_idem s, kept) refl
]

-- A text that does not start with a space keeps its start.
abbrev NoSpaceFirst : Bytes → Type 0
NoSpaceFirst [] = Unit
NoSpaceFirst (c ∷ s) = is_space c ≡ false

trim_begin-NoSpaceFirst : (s : Bytes) → NoSpaceFirst (trim_begin s)
unfolding trim_begin
trim_begin-NoSpaceFirst [] = tt
trim_begin-NoSpaceFirst (c ∷ s) = elim (Bool-cases (is_space c)) [
  | inl space ↦ rw space (trim_begin-NoSpaceFirst s)
  | inr other ↦ rw other other
]

trim_begin-trim_end : (s : Bytes) → NoSpaceFirst s → trim_begin (trim_end s) ≡ trim_end s
unfolding trim_begin trim_end
trim_begin-trim_end [] h = refl
trim_begin-trim_end (c ∷ s) h = elim (Bool-cases (is_blank (trim_end s) && is_space c)) [
  | inl blank ↦ rw blank refl
  | inr kept ↦ rw (kept, h) refl
]

pub trim_idem : (s : Bytes) → trim (trim s) ≡ trim s
unfolding trim
trim_idem s =
    ap trim_end (trim_begin-trim_end (trim_begin s) (trim_begin-NoSpaceFirst s))
    ∙ trim_end_idem (trim_begin s)

-- Each is trimmed and not blank.
abbrev pub AllTrimmed : List Bytes → Type 0
AllTrimmed [] = Unit
AllTrimmed (item ∷ others) = (trim item ≡ item) × (is_blank item ≡ false) × AllTrimmed others

items-AllTrimmed : (texts : List Bytes) → AllTrimmed (items texts)
unfolding items
items-AllTrimmed [] = tt
items-AllTrimmed (text ∷ others) = elim (Bool-cases (is_blank (trim text))) [
  | inl blank ↦ rw blank (items-AllTrimmed others)
  | inr kept ↦ rw kept (trim_idem text, kept, items-AllTrimmed others)
]

-- Every item of a list of values that are separated by commas has no space at either end and is
-- not empty.
pub split_csv-AllTrimmed : (value : Bytes) → AllTrimmed (split_csv value)
unfolding split_csv
split_csv-AllTrimmed value = items-AllTrimmed (fields value)
