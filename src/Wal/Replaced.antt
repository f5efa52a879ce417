-- ===== src/Wal/Replaced.antt =====
-- A rewrite of the log keeps it durable.
use mathlib.Core.Option.{none-ne-some}
use mathlib.Core.List.{Memᴰ}
use minilisysm.Prelude.{
  ℕ, ◌<◌, ◌≤◌, ◌^◌, max, min, ◌≡◌, refl, ap, sym, ◌∙◌, subst, Bool, true, false, ◌&&◌, none, some,
  List, [], arith, Bytes, bytes_equality, length, inl, inr, ◌⊎◌, Bool-cases, if◌then◌else◌,
}
use minilisysm.Prelude.Framing.{is_whole}
use minilisysm.Config.{NetworkConfig}
use minilisysm.Map.{Map, find}
use minilisysm.Wal.{WalRecord, Wal, segment_bytes}
use minilisysm.Wal.Index.{wal_name}
use minilisysm.Wal.Rewrite.{
  Disk, StagedSegment, stage, staged_records, publish_segments, remove_old, next_index, drop,
  all_written, replaced, last_segment, rewrite_wal,
}
use minilisysm.Wal.Names.{top, find-fresh, next_index-top}
use minilisysm.Wal.Records.{AllLines}
use minilisysm.Wal.Durable.{IsDurable, HasRoom, length-drop, drop-AllLines}
use minilisysm.Wal.Stored.{Stored}
use minilisysm.Wal.Staged.{
  json_lines, Numbered, stage-Numbered, json_lines-stage, staged-path, last_segment-name,
  stage-ne-nil, length-stage,
}
use minilisysm.Wal.Published.{
  IsOther, find-publish_other, publish_segments-Stored, publish_segments-is_whole,
  publish_segments-Distinct, find-remove_old_other, find_of_remove_old, remove_old-Distinct,
}

module _ (c : NetworkConfig) (disk : Disk) (acked : ℕ) (w : Wal) (v : IsDurable w)
    (room : HasRoom w) where
  abbrev remaining : List WalRecord
  remaining = drop (min acked (length w.pending)) w.pending

  abbrev next : ℕ
  next = next_index w.current_wal_index w.dir

  abbrev staged : List StagedSegment
  staged = stage (segment_bytes c) next 0 [] remaining

  next-top : next ≡ max w.current_wal_index (top w.dir)
  next-top = next_index-top w.current_wal_index w.dir (omega arith)

  length-remaining : length remaining ≤ length w.pending
  length-remaining = length-drop (min acked (length w.pending)) w.pending

  staged-Numbered : Numbered next staged
  staged-Numbered =
      stage-Numbered (segment_bytes c) next 0 [] remaining
        (omega (arith, next-top, length-remaining)) tt
        (drop-AllLines (min acked (length w.pending)) w.pending v.pending_lines)

  -- The segments have names of their own.
  old-IsOther : (name text : Bytes) → find name w.dir ≡ some text → IsOther next name
  old-IsOther name text found j low high same = none-ne-some text (
      sym (find-fresh j w.dir high (omega (arith, next-top)))
      ∙ ap (λ n. find n w.dir) (sym same)
      ∙ found)

  published-kept :
      (r : WalRecord) → Stored w.dir r → Stored (publish_segments disk.renamed 0 staged w.dir).1 r
  published-kept r (text, found, there) = (
    text,
    find-publish_other disk.renamed 0 next staged w.dir r.path staged-Numbered
          (old-IsOther r.path text found)
        ∙ found,
    there,
  )

  abbrev dir' : Map Bytes Bytes
  dir' = (publish_segments disk.renamed 0 staged w.dir).1

  published-whole :
      (name text : Bytes)
      → find name dir' ≡ some text
      → (is_whole text ≡ true) ⊎ (find name w.dir ≡ some text)
  published-whole name text found =
      publish_segments-is_whole disk.renamed 0 next staged w.dir name text staged-Numbered found

  -- A generation that is not published leaves the log as it was, and maybe files beside it.
  unpublished-IsDurable : IsDurable (record w { dir = dir' })
  unpublished-IsDurable = record {
    stored = λ r there. published-kept r (v.stored r there);
    pending_lines = v.pending_lines;
    distinct = publish_segments-Distinct disk.renamed 0 staged w.dir v.distinct;
    whole_current = λ text found. elim (published-whole w.current_wal_path text found) [
      | inl whole ↦ whole
      | inr before ↦ v.whole_current text before
    ];
    whole_next = λ k text low high found. elim (published-whole (wal_name k) text found) [
      | inl whole ↦ whole
      | inr before ↦ v.whole_next k text low high before
    ];
  }

  -- A new file is none of the old ones.
  new-none :
      (j : ℕ) (name : Bytes) → next ≤ j → j < 2 ^ 64 → name ≡ wal_name j → find name w.dir ≡ none
  new-none j name low high same =
      ap (λ n. find n w.dir) same ∙ find-fresh j w.dir high (omega (arith, next-top))

  new-whole :
      (j : ℕ) (name text : Bytes)
      → next ≤ j
      → j < 2 ^ 64
      → name ≡ wal_name j
      → find name (remove_old disk.removed w.dir dir') ≡ some text
      → is_whole text ≡ true
  new-whole j name text low high same found =
      elim (published-whole name text
        (find_of_remove_old disk.removed w.dir dir' name text found)) [
          | inl whole ↦ whole
          | inr before ↦ absurd (none-ne-some text (sym (new-none j name low high same) ∙ before))
        ]

  json_lines-staged : json_lines (staged_records staged) ≡ json_lines remaining
  json_lines-staged = json_lines-stage (segment_bytes c) next 0 [] remaining

  replaced-Stored :
      (publish_segments disk.renamed 0 staged w.dir).0 ≡ true
      → (r : WalRecord) → Memᴰ r (staged_records staged)
      → Stored (remove_old disk.removed w.dir dir') r
  replaced-Stored ok r there =
      let (text, found, line) =
        publish_segments-Stored disk.renamed 0 next staged w.dir r staged-Numbered ok there in
      let (j, low, high, same) = staged-path next staged r staged-Numbered there in
      (
        text,
        find-remove_old_other disk.removed w.dir dir' r.path (new-none j r.path low high same)
            ∙ found,
        line,
      )

  -- A generation that is published takes the place of the log, whichever old files stay.
  replaced-IsDurable :
      (publish_segments disk.renamed 0 staged w.dir).0 ≡ true
      → IsDurable (replaced disk w next staged true dir').1
  replaced-IsDurable ok =
      let (j, low, high, same) =
        last_segment-name next staged (stage-ne-nil (segment_bytes c) next 0 [] remaining)
          staged-Numbered in
      let few = length-stage (segment_bytes c) next 0 [] remaining in
      record {
        stored = replaced-Stored ok;
        pending_lines =
            subst AllLines (sym json_lines-staged)
              (drop-AllLines (min acked (length w.pending)) w.pending v.pending_lines);
        distinct =
            remove_old-Distinct disk.removed w.dir dir'
              (publish_segments-Distinct disk.renamed 0 staged w.dir v.distinct);
        whole_current =
            λ text found. new-whole j (last_segment staged).name text low high same found;
        whole_next = λ k text low' high' found.
            new-whole k (wal_name k) text (omega (arith, few, next-top, length-remaining)) high'
              refl found;
      }

  chosen-IsDurable :
      (ok : Bool)
      → (ok ≡ true → (publish_segments disk.renamed 0 staged w.dir).0 ≡ true)
      → IsDurable (replaced disk w next staged ok dir').1
  chosen-IsDurable true h = replaced-IsDurable (h refl)
  chosen-IsDurable false h = unpublished-IsDurable

  -- A rewrite keeps the log durable, whichever of its steps fails.
  pub rewrite_wal-IsDurable : IsDurable (rewrite_wal c disk acked w).1
  unfolding rewrite_wal
  rewrite_wal-IsDurable = elim (Bool-cases (all_written disk.written 0 staged)) [
    | inl e ↦ rw e (
        chosen-IsDurable ((publish_segments disk.renamed 0 staged w.dir).0 && disk.published)
          (λ both. ground arith))
    | inr e ↦ rw e v
  ]

-- A rewrite that fails leaves the pending lines; one that does not drops the acknowledged ones.
pub json_lines-rewrite_wal :
    (c : NetworkConfig) (disk : Disk) (acked : ℕ) (w : Wal)
    → json_lines (rewrite_wal c disk acked w).1.pending ≡ (
        if (rewrite_wal c disk acked w).0
        then json_lines (drop (min acked (length w.pending)) w.pending)
        else json_lines w.pending)
unfolding rewrite_wal
json_lines-rewrite_wal c disk acked w =
    let kept = drop (min acked (length w.pending)) w.pending in
    let next = next_index w.current_wal_index w.dir in
    ground (arith, json_lines-stage (segment_bytes c) next 0 [] kept)
