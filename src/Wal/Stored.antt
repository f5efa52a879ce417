-- ===== src/Wal/Stored.antt =====
-- What the files of the log hold is what `load_wal` brings back.
use mathlib.Core.List.{Memᴰ}
use mathlib.Core.List.Memᴰ
use minilisysm.Prelude.{
  max, ◌≡◌, refl, ap, sym, ◌∙◌, subst, some, List, [], ◌∷◌, map, ◌++◌, arith, Bytes, bytes_equality,
  inl, inr, ◌⊎◌, Bool-cases, if◌then◌else◌,
}
use minilisysm.Prelude.Framing.{IsLine}
use minilisysm.Map.{Map, find, Distinct, memᴰ_of_find, find_of_memᴰ}
use minilisysm.Wal.{
  WalRecord, record_at, records, name_lt, insert_segment, sort_segments, load_segments,
}
use minilisysm.Wal.Names.{top, after}
use minilisysm.Wal.Index.{wal_index_from_path}
use minilisysm.Wal.Records.{AllLines, records-AllLines}

-- A record is in the file at its path.
abbrev pub Stored : Map Bytes Bytes → WalRecord → Type 0
Stored dir r = (text : Bytes) × (find r.path dir ≡ some text) × Memᴰ r.json_line (records text)

insert_intro :
    (g f : Bytes × Bytes) (fs : Map Bytes Bytes)
    → (g ≡ f) ⊎ Memᴰ g fs
    → Memᴰ g (insert_segment f fs)
unfolding insert_segment
insert_intro g f [] (inl e) = Memᴰ.head e
insert_intro g f [] (inr there) = Memᴰ.tail there
insert_intro g f (h ∷ fs) there = elim (Bool-cases (name_lt f.0 h.0)) [
  | inl e ↦ rw e (elim there [ inl same ↦ Memᴰ.head same | inr later ↦ Memᴰ.tail later ])
  | inr e ↦ rw e (elim there [
    | inl same ↦ Memᴰ.tail (insert_intro g f fs (inl same))
    | inr later ↦ elim (Memᴰ.cases_cons later) [
      | inl here ↦ Memᴰ.head here
      | inr rest ↦ Memᴰ.tail (insert_intro g f fs (inr rest))
    ]
  ])
]

insert_elim :
    (g f : Bytes × Bytes) (fs : Map Bytes Bytes)
    → Memᴰ g (insert_segment f fs)
    → (g ≡ f) ⊎ Memᴰ g fs
unfolding insert_segment
insert_elim g f [] there = Memᴰ.cases_cons there
insert_elim g f (h ∷ fs) there = elim (Bool-cases (name_lt f.0 h.0)) [
  | inl e ↦
      Memᴰ.cases_cons
        (subst (λ b. Memᴰ g (if b then f ∷ h ∷ fs else h ∷ insert_segment f fs)) e there)
  | inr e ↦
      elim (Memᴰ.cases_cons
        (subst (λ b. Memᴰ g (if b then f ∷ h ∷ fs else h ∷ insert_segment f fs)) e there)) [
          | inl here ↦ inr (Memᴰ.head here)
          | inr rest ↦ elim (insert_elim g f fs rest) [
            | inl same ↦ inl same
            | inr later ↦ inr (Memᴰ.tail later)
          ]
        ]
]

-- Sorting keeps every file.
sort_intro : (f : Bytes × Bytes) (fs : Map Bytes Bytes) → Memᴰ f fs → Memᴰ f (sort_segments fs)
unfolding sort_segments
sort_intro f [] there = there
sort_intro f (g ∷ fs) there = elim (Memᴰ.cases_cons there) [
  | inl same ↦ insert_intro f g (sort_segments fs) (inl same)
  | inr later ↦ insert_intro f g (sort_segments fs) (inr (sort_intro f fs later))
]

sort_elim : (f : Bytes × Bytes) (fs : Map Bytes Bytes) → Memᴰ f (sort_segments fs) → Memᴰ f fs
unfolding sort_segments
sort_elim f [] there = there
sort_elim f (g ∷ fs) there = elim (insert_elim f g (sort_segments fs) there) [
  | inl same ↦ Memᴰ.head same
  | inr later ↦ Memᴰ.tail (sort_elim f fs later)
]

top-insert :
    (f : Bytes × Bytes) (fs : Map Bytes Bytes)
    → top (insert_segment f fs) ≡ max (after (wal_index_from_path f.0)) (top fs)
unfolding insert_segment
top-insert f [] = refl
top-insert f (g ∷ fs) = ground (arith, top-insert f fs)

pub top-sort : (fs : Map Bytes Bytes) → top (sort_segments fs) ≡ top fs
unfolding sort_segments
top-sort [] = refl
top-sort (f ∷ fs) =
    top-insert f (sort_segments fs) ∙ ap (max (after (wal_index_from_path f.0))) (top-sort fs)

load_intro :
    (name text line : Bytes) (fs : Map Bytes Bytes)
    → Memᴰ (name, text) fs
    → Memᴰ line (records text)
    → Memᴰ (record_at name line) (load_segments fs)
unfolding load_segments
load_intro name text line [] file there = elim file [ ]
load_intro name text line ((n, t) ∷ fs) (Memᴰ.head same) there =
    subst
      (λ (p : Bytes × Bytes).
        Memᴰ (record_at name line) (map (record_at p.0) (records p.1) ++ load_segments fs))
      same (Memᴰ.append_left (load_segments fs) (Memᴰ.map (record_at name) there))
load_intro name text line ((n, t) ∷ fs) (Memᴰ.tail later) there =
    Memᴰ.append_right (map (record_at n) (records t)) (load_intro name text line fs later there)

load_elim :
    (r : WalRecord) (fs : Map Bytes Bytes)
    → Memᴰ r (load_segments fs)
    → (text : Bytes) × Memᴰ (r.path, text) fs × Memᴰ r.json_line (records text)
unfolding load_segments
load_elim r [] there = elim there [ ]
load_elim r ((n, t) ∷ fs) there = elim (Memᴰ.append_cases (map (record_at n) (records t)) there) [
  | inl here ↦
      let (line, lines, e) = Memᴰ.of_map (record_at n) (records t) here in
      (
        t,
        Memᴰ.head (ap (λ (q : WalRecord). (q.path, t)) (sym e)),
        Memᴰ.cast (ap (λ (q : WalRecord). q.json_line) (sym e)) lines,
      )
  | inr later ↦ let (text, file, line) = load_elim r fs later in (text, Memᴰ.tail file, line)
]

-- Every record of a file is loaded.
pub load_complete :
    (r : WalRecord) (dir : Map Bytes Bytes)
    → Stored dir r
    → Memᴰ r (load_segments (sort_segments dir))
load_complete r dir (text, found, line) =
    load_intro r.path text r.json_line (sort_segments dir)
      (sort_intro (r.path, text) dir (memᴰ_of_find r.path text dir found)) line

-- What is loaded is a line of a file.
pub load_sound :
    (r : WalRecord) (dir : Map Bytes Bytes)
    → Distinct dir
    → Memᴰ r (load_segments (sort_segments dir))
    → Stored dir r × IsLine r.json_line
load_sound r dir distinct there =
    let (text, file, line) = load_elim r (sort_segments dir) there in
    (
      (text, find_of_memᴰ r.path text dir distinct (sort_elim (r.path, text) dir file), line),
      line_of (records text) line (records-AllLines text),
    )
  where
    line_of : (ls : List Bytes) → Memᴰ r.json_line ls → AllLines ls → IsLine r.json_line
    line_of (l ∷ ls) (Memᴰ.head e) h = subst IsLine (sym e) h.0
    line_of (l ∷ ls) (Memᴰ.tail later) h = line_of ls later h.1
    line_of [] later h = elim later [ ]
