-- ===== src/Wal/Durable.antt =====
-- Nothing that the log has accepted is lost before it is acknowledged.
use mathlib.Core.Option.{none-ne-some}
use mathlib.Core.List.{Memᴰ}
use mathlib.Core.List.Memᴰ
use minilisysm.Prelude.{
  ℕ, zero, suc, ◌+◌, ◌<◌, ◌≤◌, ◌^◌, max, ◌≡◌, refl, ap, sym, ◌∙◌, subst, true, some, List, [], ◌∷◌,
  ◌++◌, arith, Bytes, bytes_equality, bytes_eq, bytes_eq_iff, length, leb, add64, inl, inr, ◌⊎◌,
  Bool-cases, Option-cases,
}
use minilisysm.Prelude.Framing.{IsLine, is_whole, is_whole-append}
use minilisysm.Config.{NetworkConfig}
use minilisysm.Map.{Map, find, find-assign, Distinct, assign-Distinct}
use minilisysm.Wal.{
  WalRecord, record_at, Wal, records, next_wal_path, complete, write_line, named_segment,
  rotated_segment, current_segment, append_to, text_of, segment_bytes, wal_entry, no_path,
  load_segments, sort_segments, load_wal, max_index,
}
use minilisysm.Wal.Index.{wal_name}
use minilisysm.Wal.Rewrite.{drop}
use minilisysm.Wal.Names.{top, find-fresh, max_index-bounds}
use minilisysm.Wal.Records.{AllLines, records-append, records-wal_entry, is_whole-wal_entry}
use minilisysm.Wal.Stored.{Stored, load_sound, top-sort}
use minilisysm.Wal.Staged.{json_lines, json_lines-append, AllLines-append}

-- A file that can be appended to ends with a whole line: the current one, and one whose number is
-- still to come.
pub record IsDurable (w : Wal) : Type 0 where
  pub stored : (r : WalRecord) → Memᴰ r w.pending → Stored w.dir r
  pub pending_lines : AllLines (json_lines w.pending)
  pub distinct : Distinct w.dir
  pub whole_current :
      (text : Bytes) → find w.current_wal_path w.dir ≡ some text → is_whole text ≡ true
  pub whole_next :
      (k : ℕ) (text : Bytes)
      → w.current_wal_index ≤ k
      → k < 2 ^ 64
      → find (wal_name k) w.dir ≡ some text
      → is_whole text ≡ true

-- The numbers of the files that the next call can need are below 2^64.
abbrev pub HasRoom : Wal → Type 0
HasRoom w = max w.current_wal_index (top w.dir) + length w.pending + 2 < 2 ^ 64

next_wal_path-IsDurable :
    (w : Wal) → IsDurable w → w.current_wal_index + 1 < 2 ^ 64 → IsDurable (next_wal_path w)
unfolding next_wal_path
next_wal_path-IsDurable w v room = record {
  stored = v.stored;
  pending_lines = v.pending_lines;
  distinct = v.distinct;
  whole_current =
      λ text found. v.whole_next w.current_wal_index text (omega arith) (omega arith) found;
  whole_next = λ k text low high found. v.whole_next k text (omega arith) high found;
}

resized-IsDurable : (w : Wal) (n : ℕ) → IsDurable w → IsDurable (record w { current_wal_size = n })
resized-IsDurable w n v = record {
  stored = v.stored;
  pending_lines = v.pending_lines;
  distinct = v.distinct;
  whole_current = v.whole_current;
  whole_next = v.whole_next;
}

named_segment-index :
    (w : Wal)
    → w.current_wal_index + 2 < 2 ^ 64
    → (named_segment w).current_wal_index ≤ w.current_wal_index + 1
unfolding next_wal_path
named_segment-index w room = ground arith

named_segment-IsDurable :
    (w : Wal) → IsDurable w → w.current_wal_index + 2 < 2 ^ 64 → IsDurable (named_segment w)
named_segment-IsDurable w v room = elim (Bool-cases (no_path w.current_wal_path)) [
  | inl e ↦ rw e (next_wal_path-IsDurable w v (omega arith))
  | inr e ↦ rw e v
]

rotated_segment-IsDurable :
    (c : NetworkConfig) (w : Wal)
    → IsDurable w
    → w.current_wal_index + 1 < 2 ^ 64
    → IsDurable (rotated_segment c w)
rotated_segment-IsDurable c w v room =
    elim (Bool-cases (leb (segment_bytes c) w.current_wal_size)) [
      | inl e ↦ rw e (resized-IsDurable (next_wal_path w) 0 (next_wal_path-IsDurable w v room))
      | inr e ↦ rw e v
    ]

-- Which segment a line goes to makes no difference to what is stored.
pub current_segment-IsDurable :
    (c : NetworkConfig) (w : Wal)
    → IsDurable w
    → w.current_wal_index + 2 < 2 ^ 64
    → IsDurable (current_segment c w)
current_segment-IsDurable c w v room =
    rotated_segment-IsDurable c (named_segment w) (named_segment-IsDurable w v room)
      (omega (arith, named_segment-index w room))

pub length-drop : (n : ℕ) (rs : List WalRecord) → length (drop n rs) ≤ length rs
length-drop zero rs = omega arith
length-drop (suc n) [] = omega arith
length-drop (suc n) (r ∷ rs) = omega (arith, length-drop n rs)

pub drop-AllLines :
    (n : ℕ) (rs : List WalRecord) → AllLines (json_lines rs) → AllLines (json_lines (drop n rs))
drop-AllLines zero rs h = h
drop-AllLines (suc n) [] h = tt
drop-AllLines (suc n) (r ∷ rs) h = drop-AllLines n rs h.1

module _ (w : Wal) (v : IsDurable w) where
  current_text : Bytes
  current_text = text_of (find w.current_wal_path w.dir)

  current_is_whole : is_whole (text_of (find w.current_wal_path w.dir)) ≡ true
  current_is_whole = elim (Option-cases (find w.current_wal_path w.dir)) [
    | inl e ↦ rw e refl
    | inr (text, e) ↦ rw e (v.whole_current text e)
  ]

  find-append_to :
      (x : Bytes)
      → find w.current_wal_path (append_to x w)
        ≡ some (text_of (find w.current_wal_path w.dir) ++ x)
  find-append_to x =
      find-assign w.current_wal_path w.current_wal_path
        (text_of (find w.current_wal_path w.dir) ++ x) w.dir
      ∙ rw ((bytes_eq_iff w.current_wal_path w.current_wal_path).1 refl) refl

  -- A file keeps its records, whatever is written at its end.
  pub append-Stored : (x : Bytes) (r : WalRecord) → Stored w.dir r → Stored (append_to x w) r
  append-Stored x r (text, found, there) = elim (Bool-cases (bytes_eq w.current_wal_path r.path)) [
    | inl e ↦
        let same : w.current_wal_path ≡ r.path = (bytes_eq_iff w.current_wal_path r.path).0 e in
        let held : text_of (find w.current_wal_path w.dir) ≡ text =
          ap (λ p. text_of (find p w.dir)) same ∙ ap text_of found in
        (
          text_of (find w.current_wal_path w.dir) ++ x,
          ap (λ p. find p (append_to x w)) (sym same) ∙ find-append_to x,
          subst (λ ls. Memᴰ r.json_line ls)
              (sym (records-append (text_of (find w.current_wal_path w.dir)) x current_is_whole))
              (Memᴰ.append_left (records x)
                (subst (λ t. Memᴰ r.json_line (records t)) (sym held) there)),
        )
    | inr e ↦ (
      text,
      find-assign w.current_wal_path r.path (text_of (find w.current_wal_path w.dir) ++ x) w.dir
          ∙ rw e found,
      there,
    )
  ]

  append-Stored_new :
      (line : Bytes)
      → IsLine line
      → Stored (append_to (wal_entry line) w) (record_at w.current_wal_path line)
  append-Stored_new line is_line = (
    text_of (find w.current_wal_path w.dir) ++ wal_entry line,
    find-append_to (wal_entry line),
    subst (λ ls. Memᴰ line ls)
        (sym (
          records-append (text_of (find w.current_wal_path w.dir)) (wal_entry line) current_is_whole
          ∙ ap (λ ls. records (text_of (find w.current_wal_path w.dir)) ++ ls)
              (records-wal_entry line is_line)))
        (Memᴰ.append_right (records (text_of (find w.current_wal_path w.dir))) (Memᴰ.head refl)),
  )

  append-is_whole :
      (line name text : Bytes)
      → IsLine line
      → find name (append_to (wal_entry line) w) ≡ some text
      → (is_whole text ≡ true) ⊎ (find name w.dir ≡ some text)
  append-is_whole line name text is_line found =
      let whole =
        is_whole-append (text_of (find w.current_wal_path w.dir)) (wal_entry line) current_is_whole
          (is_whole-wal_entry line is_line) in
      ground (
        arith,
        find-assign w.current_wal_path name
            (text_of (find w.current_wal_path w.dir) ++ wal_entry line) w.dir,
      )

  -- The record of a line, behind the others.
  abbrev pub accepted : Bytes → Wal
  accepted line = record (write_line complete w line).1 {
    pending = w.pending ++ record_at w.current_wal_path line ∷ [];
  }

  pub accepted-IsDurable : (line : Bytes) → IsLine line → IsDurable (accepted line)
  unfolding write_line
  accepted-IsDurable line is_line = record {
    stored = λ r there. elim (Memᴰ.append_cases w.pending there) [
      | inl before ↦ append-Stored (wal_entry line) r (v.stored r before)
      | inr new ↦
          subst (Stored (append_to (wal_entry line) w)) (sym (Memᴰ.eq_of_singleton new))
            (append-Stored_new line is_line)
    ];
    pending_lines =
        subst AllLines (sym (json_lines-append w.pending (record_at w.current_wal_path line ∷ [])))
          (AllLines-append (json_lines w.pending) (line ∷ []) v.pending_lines (is_line, tt));
    distinct =
        assign-Distinct w.current_wal_path
          (text_of (find w.current_wal_path w.dir) ++ wal_entry line) w.dir v.distinct;
    whole_current = λ text found.
        elim (append-is_whole line w.current_wal_path text is_line found) [
          | inl whole ↦ whole
          | inr before ↦ v.whole_current text before
        ];
    whole_next = λ k text low high found.
        elim (append-is_whole line (wal_name k) text is_line found) [
          | inl whole ↦ whole
          | inr before ↦ v.whole_next k text low high before
        ];
  }

AllLines-json_lines :
    (rs : List WalRecord)
    → ((r : WalRecord) → Memᴰ r rs → IsLine r.json_line)
    → AllLines (json_lines rs)
AllLines-json_lines [] h = tt
AllLines-json_lines (r ∷ rs) h =
    (h r (Memᴰ.head refl), AllLines-json_lines rs (λ q there. h q (Memᴰ.tail there)))

fresh_text :
    (k : ℕ) (dir : Map Bytes Bytes) (text : Bytes)
    → k < 2 ^ 64
    → top dir ≤ k
    → find (wal_name k) dir ≡ some text
    → is_whole text ≡ true
fresh_text k dir text high low found =
    absurd (none-ne-some text (sym (find-fresh k dir high low) ∙ found))

-- Whatever the files are, as a crash may leave them, the log that is loaded from them is durable.
pub load_wal-IsDurable :
    (dir : Map Bytes Bytes) → Distinct dir → top dir + 2 < 2 ^ 64 → IsDurable (load_wal dir)
unfolding load_wal next_wal_path
load_wal-IsDurable dir distinct room =
    let segments = sort_segments dir in
    let (above, least, below) = max_index-bounds 0 segments in
    let same = top-sort dir in
    record {
      stored = λ r there. (load_sound r dir distinct there).0;
      pending_lines =
          AllLines-json_lines (load_segments segments)
            (λ r there. (load_sound r dir distinct there).1);
      distinct = distinct;
      whole_current = λ text found.
          fresh_text (add64 (max_index 0 segments) 1) dir text (omega arith) (omega arith) found;
      whole_next = λ k text low high found. fresh_text k dir text high (omega arith) found;
    }
