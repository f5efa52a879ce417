-- ===== src/Wal/Staged.antt =====
-- The segments that a rewrite stages.
use mathlib.Core.List.{Memᴰ, cons-ne-nil}
use mathlib.Core.List.Memᴰ
use minilisysm.Prelude.{
  ℕ, ◌+◌, ◌<◌, ◌≤◌, ◌^◌, ◌≡◌, ◌≢◌, refl, ap, ap₂, sym, ◌∙◌, subst, ◌||◌, List, [], ◌∷◌, map, ◌++◌,
  append_assoc, arith, Bytes, bytes_equality, length, ltb, ◌==◌, add64, inl, inr, Bool-cases,
}
use minilisysm.Wal.{WalRecord, record_at}
use minilisysm.Wal.Index.{wal_name}
use minilisysm.Wal.Rewrite.{StagedSegment, stage, staged_records, last_segment}
use minilisysm.Wal.Records.{AllLines}

abbrev pub json_lines : List WalRecord → List Bytes
json_lines [] = []
json_lines (r ∷ rs) = r.json_line ∷ json_lines rs

-- The segments have the numbers from `k` on, which are below 2^64, and hold lines.
abbrev pub Numbered : ℕ → List StagedSegment → Type 0
Numbered k [] = Unit
Numbered k (s ∷ ss) =
    (s.name ≡ wal_name k) × (k < 2 ^ 64) × AllLines s.json_lines × Numbered (k + 1) ss

pub AllLines-append : (a b : List Bytes) → AllLines a → AllLines b → AllLines (a ++ b)
AllLines-append [] b ha hb = hb
AllLines-append (l ∷ a) b ha hb = (ha.0, AllLines-append a b ha.1 hb)

next_number : (k : ℕ) → k + 1 < 2 ^ 64 → k + 1 ≡ add64 k 1
next_number k h = omega arith

pub stage-Numbered :
    (limit k size : ℕ) (ls : List Bytes) (rs : List WalRecord)
    → k + length rs < 2 ^ 64
    → AllLines ls
    → AllLines (json_lines rs)
    → Numbered k (stage limit k size ls rs)
unfolding stage
stage-Numbered limit k size ls [] room hl hr = (refl, omega arith, hl, tt)
stage-Numbered limit k size ls (r ∷ rs) room hl hr =
    elim (Bool-cases (size == 0 || limit == 0 || ltb size limit)) [
      | inl e ↦ rw e (
          stage-Numbered limit k (size + (length r.json_line + 2)) (ls ++ r.json_line ∷ []) rs
            (omega arith) (AllLines-append ls (r.json_line ∷ []) hl (hr.0, tt)) hr.1)
      | inr e ↦ rw e (
        refl,
        omega arith,
        hl,
        subst
            (λ j.
              Numbered (k + 1) (stage limit j (0 + (length r.json_line + 2)) (r.json_line ∷ []) rs))
            (next_number k (omega arith))
            (stage-Numbered limit (k + 1) (0 + (length r.json_line + 2)) (r.json_line ∷ []) rs
              (omega arith) (hr.0, tt) hr.1),
      )
    ]

pub json_lines-append : (a b : List WalRecord) → json_lines (a ++ b) ≡ json_lines a ++ json_lines b
json_lines-append [] b = refl
json_lines-append (r ∷ a) b = ap (λ ls. r.json_line ∷ ls) (json_lines-append a b)

json_lines-map : (name : Bytes) (ls : List Bytes) → json_lines (map (record_at name) ls) ≡ ls
json_lines-map name [] = refl
json_lines-map name (l ∷ ls) = ap (λ ls. l ∷ ls) (json_lines-map name ls)

-- The segments hold the lines in order.
pub json_lines-stage :
    (limit k size : ℕ) (ls : List Bytes) (rs : List WalRecord)
    → json_lines (staged_records (stage limit k size ls rs)) ≡ ls ++ json_lines rs
unfolding stage staged_records
json_lines-stage limit k size ls [] =
    json_lines-append (map (record_at (wal_name k)) ls) []
    ∙ ap (λ l. l ++ []) (json_lines-map (wal_name k) ls)
json_lines-stage limit k size ls (r ∷ rs) =
    elim (Bool-cases (size == 0 || limit == 0 || ltb size limit)) [
      | inl e ↦ rw e (
          json_lines-stage limit k (size + (length r.json_line + 2)) (ls ++ r.json_line ∷ []) rs
          ∙ append_assoc ls (r.json_line ∷ []) (json_lines rs))
      | inr e ↦ rw e (
          let rest = stage limit (add64 k 1) (0 + (length r.json_line + 2)) (r.json_line ∷ []) rs in
          json_lines-append (map (record_at (wal_name k)) ls) (staged_records rest)
          ∙ ap₂ (λ a b. a ++ b) (json_lines-map (wal_name k) ls)
              (json_lines-stage limit (add64 k 1) (0 + (length r.json_line + 2)) (r.json_line ∷ [])
                rs))
    ]

-- The path of a record that is staged.
pub staged-path :
    (k : ℕ) (ss : List StagedSegment) (r : WalRecord)
    → Numbered k ss
    → Memᴰ r (staged_records ss)
    → (j : ℕ) × (k ≤ j) × (j < 2 ^ 64) × (r.path ≡ wal_name j)
unfolding staged_records
staged-path k [] r h there = elim there [ ]
staged-path k (s ∷ ss) r h there =
    elim (Memᴰ.append_cases (map (record_at s.name) s.json_lines) there) [
      | inl here ↦
          let (line, lines, same) = Memᴰ.of_map (record_at s.name) s.json_lines here in
          (k, omega arith, h.1, ap (λ (q : WalRecord). q.path) (sym same) ∙ h.0)
      | inr later ↦
          let (j, low, high, same) = staged-path (k + 1) ss r h.3 later in
          (j, omega arith, high, same)
    ]

pub last_segment-name :
    (k : ℕ) (ss : List StagedSegment)
    → ss ≢ []
    → Numbered k ss
    → (j : ℕ) × (k ≤ j) × (j < 2 ^ 64) × ((last_segment ss).name ≡ wal_name j)
last_segment-name k [] full h = absurd (full refl)
last_segment-name k (s ∷ []) full h = (k, omega arith, h.1, h.0)
last_segment-name k (s ∷ t ∷ ss) full h =
    let (j, low, high, same) = last_segment-name (k + 1) (t ∷ ss) (λ e. cons-ne-nil _ _ e) h.3 in
    (j, omega arith, high, same)

pub stage-ne-nil :
    (limit k size : ℕ) (ls : List Bytes) (rs : List WalRecord) → stage limit k size ls rs ≢ []
unfolding stage
stage-ne-nil limit k size ls [] = λ e. cons-ne-nil _ _ e
stage-ne-nil limit k size ls (r ∷ rs) =
    elim (Bool-cases (size == 0 || limit == 0 || ltb size limit)) [
      | inl e ↦
          rw e (stage-ne-nil limit k (size + (length r.json_line + 2)) (ls ++ r.json_line ∷ []) rs)
      | inr e ↦ rw e (λ e. cons-ne-nil _ _ e)
    ]

-- There are no more segments than records, and one where there are none.
pub length-stage :
    (limit k size : ℕ) (ls : List Bytes) (rs : List WalRecord)
    → length (stage limit k size ls rs) ≤ length rs + 1
unfolding stage
length-stage limit k size ls [] = omega arith
length-stage limit k size ls (r ∷ rs) =
    elim (Bool-cases (size == 0 || limit == 0 || ltb size limit)) [
      | inl e ↦
          let below =
            length-stage limit k (size + (length r.json_line + 2)) (ls ++ r.json_line ∷ []) rs in
          rw e (omega (arith, below))
      | inr e ↦
          let below =
            length-stage limit (add64 k 1) (0 + (length r.json_line + 2)) (r.json_line ∷ []) rs in
          rw e (omega (arith, below))
    ]
