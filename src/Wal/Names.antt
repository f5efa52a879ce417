-- ===== src/Wal/Names.antt =====
-- The number of a file is read back from its name.
use mathlib.Core.Option.{some_inj}
use mathlib.Core.List.{cons-ne-nil}
use minilisysm.Prelude.{
  ℕ, zero, suc, ◌+◌, ◌-◌, ◌/◌, ◌%◌, ◌^◌, ◌≤◌, ◌<◌, ◌≡◌, ◌≢◌, refl, ap, sym, ◌∙◌, max, Option, none,
  some, [], ◌∷◌, ◌++◌, arith, Bytes, codes, break_at_last, length, replicate, from_chars, inl, inr,
  bytes_equality, bytes_eq, Bool-cases, bytes_eq_iff,
}
use minilisysm.Prelude.Chars.{break_at_last-append}
use minilisysm.Prelude.Decimal.{
  decimal, IsDigits, decimal-IsDigits, value_of, value_of-decimal, digits_all,
}
use minilisysm.Map.{Map, find}
use minilisysm.Wal.Index.{
  wal_name, wal_index_from_path, pad, before_mark, stem_index, stoull, skip_spaces,
}
use minilisysm.Wal.{max_index, index_or}
use minilisysm.Wal.Rewrite.{next_index, after_index}

pad-IsDigits : (n : ℕ) (s : Bytes) → IsDigits s → IsDigits (replicate n b'0' ++ s)
pad-IsDigits zero s h = h
pad-IsDigits (suc n) s h = (omega arith, omega arith, pad-IsDigits n s h)

value_of-pad : (n : ℕ) (s : Bytes) → value_of 0 (replicate n b'0' ++ s) ≡ value_of 0 s
value_of-pad zero s = refl
value_of-pad (suc n) s = value_of-pad n s

pub no_mark : (mark : ℕ) (s : Bytes) → b'9' < mark → IsDigits s → break_at_last mark s ≡ none
unfolding break_at_last
no_mark mark [] hm h = refl
no_mark mark (c ∷ s) hm h = rw (no_mark mark s hm h.2) (ground arith)

stoull-digits :
    (s : Bytes) (n : ℕ) → s ≢ [] → IsDigits s → value_of 0 s ≡ n → n < 2 ^ 64 → stoull s ≡ some n
unfolding stoull skip_spaces from_chars
stoull-digits [] n full h e small = absurd (full refl)
stoull-digits (c ∷ s) n full h e small = ground (arith, digits_all 0 (c ∷ s) h)

decimal-ne-nil : (fuel n : ℕ) (rest : Bytes) → rest ≢ [] → decimal fuel n rest ≢ []
unfolding decimal
decimal-ne-nil zero n rest h = h
decimal-ne-nil (suc fuel) n rest h =
    ground (arith, decimal-ne-nil fuel (n / 10) ((b'0' + n % 10) ∷ rest) (λ e. cons-ne-nil _ _ e))

pad-ne-nil : (n : ℕ) (s : Bytes) → s ≢ [] → replicate n b'0' ++ s ≢ []
pad-ne-nil zero s h = h
pad-ne-nil (suc n) s h = λ e. cons-ne-nil _ _ e

pub first_digit : (k : ℕ) → decimal 20 k [] ≢ []
unfolding decimal
first_digit k =
    ground (arith, decimal-ne-nil 19 (k / 10) ((b'0' + k % 10) ∷ []) (λ e. cons-ne-nil _ _ e))

index_text : ℕ → Bytes
index_text k = pad (decimal 20 k [])

stoull-pad : (k : ℕ) → k < 2 ^ 64 → stoull (index_text k) ≡ some k
unfolding index_text
stoull-pad k small =
    let text = decimal 20 k [] in
    let n = 6 - length text in
    stoull-digits (pad text) k (pad-ne-nil n text (first_digit k))
      (pad-IsDigits n text (decimal-IsDigits 20 k [] tt))
      (value_of-pad n text ∙ value_of-decimal 20 k [] (omega arith)) small

break_wal : break_at_last b'.' (codes "wal") ≡ none
unfolding break_at_last
break_wal = refl

pub wal_index-wal_name : (k : ℕ) → k < 2 ^ 64 → wal_index_from_path (wal_name k) ≡ some k
unfolding wal_name wal_index_from_path index_text
wal_index-wal_name k small =
    let text = pad (decimal 20 k []) in
    let digit =
      pad-IsDigits (6 - length (decimal 20 k [])) (decimal 20 k []) (decimal-IsDigits 20 k [] tt) in
    ap (λ r. stem_index (break_at_last b'_' (before_mark (wal_name k) r)))
      (break_at_last-append b'.' (codes "events_" ++ text) (codes "wal") break_wal)
    ∙ ap stem_index
        (break_at_last-append b'_' (codes "events") text (no_mark b'_' text (omega arith) digit))
    ∙ stoull-pad k small

pub wal_name-injective : (j k : ℕ) → j < 2 ^ 64 → k < 2 ^ 64 → wal_name j ≡ wal_name k → j ≡ k
wal_name-injective j k hj hk e =
    some_inj.0 (sym (wal_index-wal_name j hj) ∙ ap wal_index_from_path e ∙ wal_index-wal_name k hk)

abbrev pub after : Option ℕ → ℕ
after none = 0
after (some index) = index + 1

-- The least number above those in the names of the files.
abbrev pub top : Map Bytes Bytes → ℕ
top [] = 0
top ((name, text) ∷ fs) = max (after (wal_index_from_path name)) (top fs)

-- No file has a name with a number from `top` on.
pub find-fresh :
    (k : ℕ) (dir : Map Bytes Bytes) → k < 2 ^ 64 → top dir ≤ k → find (wal_name k) dir ≡ none
unfolding find
find-fresh k [] small h = refl
find-fresh k ((name, text) ∷ fs) small h = elim (Bool-cases (bytes_eq name (wal_name k))) [
  | inl e ↦
      let same : wal_index_from_path name ≡ some k =
        ap wal_index_from_path ((bytes_eq_iff name (wal_name k)).0 e)
        ∙ wal_index-wal_name k small in
      absurd (ground arith)
  | inr e ↦ rw e (find-fresh k fs small (omega arith))
]

pub next_index-top :
    (n : ℕ) (dir : Map Bytes Bytes) → top dir < 2 ^ 64 → next_index n dir ≡ max n (top dir)
unfolding next_index
next_index-top n [] h = omega arith
next_index-top n ((name, text) ∷ fs) h =
    next_index-top (after_index n (wal_index_from_path name)) fs (omega arith) ∙ ground arith

pub max_index-bounds :
    (n : ℕ) (dir : Map Bytes Bytes)
    → (top dir ≤ max_index n dir + 1) × (n ≤ max_index n dir) × (max_index n dir ≤ max n (top dir))
unfolding max_index
max_index-bounds n [] = (omega arith, omega arith, omega arith)
max_index-bounds n ((name, text) ∷ fs) =
    let (a, b, c) = max_index-bounds (index_or n (wal_index_from_path name)) fs in
    (ground arith, ground arith, ground arith)
