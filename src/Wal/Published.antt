-- ===== src/Wal/Published.antt =====
-- A generation that is published holds the records that it was staged from, and no file that was
-- there before is written over.
use mathlib.Core.List.{Memᴰ}
use mathlib.Core.List.Memᴰ
use minilisysm.Prelude.{
  ℕ, ◌+◌, ◌<◌, ◌≤◌, ◌^◌, ◌≡◌, ◌≢◌, refl, sym, ◌∙◌, subst, Bool, true, false, none, some, List, [],
  ◌∷◌, map, arith, Bytes, bytes_equality, bytes_eq, bytes_eq_iff, inl, inr, ◌⊎◌, Bool-cases,
  if◌then◌else◌,
}
use minilisysm.Prelude.Framing.{is_whole}
use minilisysm.Map.{
  Map, find, assign, erase, find-assign, find-erase, Distinct, assign-Distinct, erase-Distinct,
}
use minilisysm.Wal.{WalRecord, record_at}
use minilisysm.Wal.Index.{wal_name}
use minilisysm.Wal.Rewrite.{StagedSegment, staged_records, publish_segments, remove_old, entries}
use minilisysm.Wal.Names.{wal_name-injective}
use minilisysm.Wal.Records.{is_whole-entries, records-entries}
use minilisysm.Wal.Stored.{Stored}
use minilisysm.Wal.Staged.{Numbered}

-- A name that no segment has.
abbrev pub IsOther : ℕ → Bytes → Type 0
IsOther k name = (j : ℕ) → k ≤ j → j < 2 ^ 64 → name ≢ wal_name j

bytes_ne : (a b : Bytes) → b ≢ a → bytes_eq a b ≡ false
bytes_ne a b h = ground (arith, bytes_eq_iff a b, h)

find-assign_other :
    (k name : Bytes) (text : Bytes) (dir : Map Bytes Bytes)
    → name ≢ k
    → find name (assign k text dir) ≡ find name dir
find-assign_other k name text dir h = find-assign k name text dir ∙ rw (bytes_ne k name h) refl

pub find-publish_other :
    (renamed : ℕ → Bool) (i k : ℕ) (ss : List StagedSegment) (dir : Map Bytes Bytes) (name : Bytes)
    → Numbered k ss
    → IsOther k name
    → find name (publish_segments renamed i ss dir).1 ≡ find name dir
unfolding publish_segments
find-publish_other renamed i k [] dir name h other = refl
find-publish_other renamed i k (s ∷ ss) dir name h other = elim (Bool-cases (renamed i)) [
  | inl e ↦ rw e (
      find-publish_other renamed (i + 1) (k + 1) ss (assign s.name (entries s.json_lines) dir) name
        h.3 (λ j low high. other j (omega arith) high)
      ∙ find-assign_other s.name name (entries s.json_lines) dir
          (λ same. other k (omega arith) h.1 (same ∙ h.0)))
  | inr e ↦ rw e refl
]

find-assign_same :
    (name text : Bytes) (dir : Map Bytes Bytes) → find name (assign name text dir) ≡ some text
find-assign_same name text dir =
    find-assign name name text dir ∙ rw ((bytes_eq_iff name name).1 refl) refl

-- The file of a segment, once the later ones are renamed too.
segment-found :
    (renamed : ℕ → Bool) (i k : ℕ) (s : StagedSegment) (ss : List StagedSegment)
    (dir : Map Bytes Bytes)
    → Numbered k (s ∷ ss)
    → find s.name (publish_segments renamed i ss (assign s.name (entries s.json_lines) dir)).1
      ≡ some (entries s.json_lines)
segment-found renamed i k s ss dir h =
    find-publish_other renamed i (k + 1) ss (assign s.name (entries s.json_lines) dir) s.name h.3
      (λ j low high same.
        absurd (number_ne k j low (wal_name-injective k j h.1 high (sym h.0 ∙ same))))
    ∙ find-assign_same s.name (entries s.json_lines) dir
  where
    number_ne : (k j : ℕ) → k + 1 ≤ j → k ≢ j
    number_ne k j low e = omega arith

-- After the renames, every record is in the file at its new path.
pub publish_segments-Stored :
    (renamed : ℕ → Bool) (i k : ℕ) (ss : List StagedSegment) (dir : Map Bytes Bytes) (r : WalRecord)
    → Numbered k ss
    → (publish_segments renamed i ss dir).0 ≡ true
    → Memᴰ r (staged_records ss)
    → Stored (publish_segments renamed i ss dir).1 r
unfolding publish_segments staged_records
publish_segments-Stored renamed i k [] dir r h ok there = elim there [ ]
publish_segments-Stored renamed i k (s ∷ ss) dir r h ok there = elim (Bool-cases (renamed i)) [
  | inl e ↦ rw e (elim (Memᴰ.append_cases (map (record_at s.name) s.json_lines) there) [
    | inl here ↦
        let (line, lines, same) = Memᴰ.of_map (record_at s.name) s.json_lines here in
        subst
          (Stored
            (publish_segments renamed (i + 1) ss (assign s.name (entries s.json_lines) dir)).1)
          same
          (
            entries s.json_lines,
            segment-found renamed (i + 1) k s ss dir h,
            subst (λ ls. Memᴰ line ls) (sym (records-entries s.json_lines h.2)) lines,
          )
    | inr later ↦
        publish_segments-Stored renamed (i + 1) (k + 1) ss
          (assign s.name (entries s.json_lines) dir) r h.3 (ground arith) later
  ])
  | inr e ↦ absurd (ground arith)
]

-- A file is one that was there or has whole lines.
pub publish_segments-is_whole :
    (renamed : ℕ → Bool) (i k : ℕ) (ss : List StagedSegment) (dir : Map Bytes Bytes)
    (name text : Bytes)
    → Numbered k ss
    → find name (publish_segments renamed i ss dir).1 ≡ some text
    → (is_whole text ≡ true) ⊎ (find name dir ≡ some text)
unfolding publish_segments
publish_segments-is_whole renamed i k [] dir name text h found = inr found
publish_segments-is_whole renamed i k (s ∷ ss) dir name text h found =
    elim (Bool-cases (renamed i)) [
      | inl e ↦
          let dir' = assign s.name (entries s.json_lines) dir in
          elim (publish_segments-is_whole renamed (i + 1) (k + 1) ss dir' name text h.3
            (ground arith)) [
              | inl whole ↦ inl whole
              | inr before ↦ ground (
                arith,
                find-assign s.name name (entries s.json_lines) dir,
                is_whole-entries s.json_lines h.2,
              )
            ]
      | inr e ↦ inr (ground arith)
    ]

pub publish_segments-Distinct :
    (renamed : ℕ → Bool) (i : ℕ) (ss : List StagedSegment) (dir : Map Bytes Bytes)
    → Distinct dir
    → Distinct (publish_segments renamed i ss dir).1
unfolding publish_segments
publish_segments-Distinct renamed i [] dir h = h
publish_segments-Distinct renamed i (s ∷ ss) dir h = elim (Bool-cases (renamed i)) [
  | inl e ↦ rw e (
      publish_segments-Distinct renamed (i + 1) ss (assign s.name (entries s.json_lines) dir)
        (assign-Distinct s.name (entries s.json_lines) dir h))
  | inr e ↦ rw e h
]

pub find-remove_old_other :
    (removed : Bytes → Bool) (old dir : Map Bytes Bytes) (name : Bytes)
    → find name old ≡ none
    → find name (remove_old removed old dir) ≡ find name dir
unfolding find remove_old
find-remove_old_other removed [] dir name h = refl
find-remove_old_other removed ((n, t) ∷ old) dir name h = ground (
  arith,
  find-remove_old_other removed old (if removed n then erase n dir else dir) name,
  find-erase n name dir,
)

pub find_of_remove_old :
    (removed : Bytes → Bool) (old dir : Map Bytes Bytes) (name text : Bytes)
    → find name (remove_old removed old dir) ≡ some text
    → find name dir ≡ some text
unfolding remove_old
find_of_remove_old removed [] dir name text h = h
find_of_remove_old removed ((n, t) ∷ old) dir name text h = ground (
  arith,
  find_of_remove_old removed old (if removed n then erase n dir else dir) name text h,
  find-erase n name dir,
)

pub remove_old-Distinct :
    (removed : Bytes → Bool) (old dir : Map Bytes Bytes)
    → Distinct dir
    → Distinct (remove_old removed old dir)
unfolding remove_old
remove_old-Distinct removed [] dir h = h
remove_old-Distinct removed ((n, t) ∷ old) dir h =
    remove_old-Distinct removed old (if removed n then erase n dir else dir)
      (ground (arith, erase-Distinct n dir h))
