-- ===== src/Wal/Records.antt =====
-- The lines that a file of the log holds are read back as they were written.
use mathlib.Core.List.{cons-ne-nil}
use minilisysm.Prelude.{
  ℕ, ◌≡◌, ◌≢◌, refl, ap, sym, ◌∙◌, true, false, Option, none, some, List, [], ◌∷◌, ◌++◌, arith,
  Bytes, lines, ◌==◌, inl, inr, Bool-cases,
}
use minilisysm.Prelude.Chars.{prepend}
use minilisysm.Prelude.Framing.{
  newline_free, IsLine, is_whole, is_whole-append, is_whole-line, lines-append, lines_one,
}
use minilisysm.Wal.{wal_entry, record_of, keep, records_of, records}
use minilisysm.Wal.Rewrite.{entries}

records_of-append : (a b : List Bytes) → records_of (a ++ b) ≡ records_of a ++ records_of b
unfolding records_of
records_of-append [] b = refl
records_of-append (l ∷ a) b =
    rw (records_of-append a b) (keep-append (record_of l) (records_of a) (records_of b))
  where
    keep-append : (o : Option Bytes) (x y : List Bytes) → keep o (x ++ y) ≡ keep o x ++ y
    keep-append none x y = refl
    keep-append (some l) x y = refl

pub records-append : (a b : Bytes) → is_whole a ≡ true → records (a ++ b) ≡ records a ++ records b
records-append a b h = ap records_of (lines-append a b h) ∙ records_of-append (lines a) (lines b)

records_of_one :
    (body : Bytes) → body ≢ [] → records_of ((b'0' ∷ 9 ∷ body) ∷ []) ≡ (body ++ 10 ∷ []) ∷ []
unfolding records_of
records_of_one [] full = absurd (full refl)
records_of_one (c ∷ body) full = refl

-- A line that is written is read back.
pub records-wal_entry : (line : Bytes) → IsLine line → records (wal_entry line) ≡ line ∷ []
records-wal_entry line h =
    let (body, e, free, full) = h in
    ap (λ l. records (wal_entry l)) e
    ∙ ap records_of (lines_one (b'0' ∷ 9 ∷ body) free)
    ∙ records_of_one body full
    ∙ ap (λ l. l ∷ []) (sym e)

pub is_whole-wal_entry : (line : Bytes) → IsLine line → is_whole (wal_entry line) ≡ true
is_whole-wal_entry line h =
    let (body, e, free, full) = h in
    ap (λ l. is_whole (wal_entry l)) e ∙ is_whole-line (b'0' ∷ 9 ∷ body)

abbrev pub AllLines : List Bytes → Type 0
AllLines [] = Unit
AllLines (line ∷ ls) = IsLine line × AllLines ls

pub is_whole-entries : (ls : List Bytes) → AllLines ls → is_whole (entries ls) ≡ true
is_whole-entries [] h = refl
is_whole-entries (line ∷ ls) h =
    is_whole-append (wal_entry line) (entries ls) (is_whole-wal_entry line h.0)
      (is_whole-entries ls h.1)

-- A segment that is staged holds its lines, in order.
pub records-entries : (ls : List Bytes) → AllLines ls → records (entries ls) ≡ ls
unfolding lines records_of
records-entries [] h = refl
records-entries (line ∷ ls) h =
    records-append (wal_entry line) (entries ls) (is_whole-wal_entry line h.0)
    ∙ rw (records-wal_entry line h.0, records-entries ls h.1) refl

-- What is read from a file is one line each.
AllFree : List Bytes → Type 0
AllFree [] = Unit
AllFree (line ∷ ls) = (newline_free line ≡ true) × AllFree ls

prepend-AllFree :
    (c : ℕ) (ls : List Bytes) → (c == 10) ≡ false → AllFree ls → AllFree (prepend c ls)
unfolding AllFree
prepend-AllFree c [] h hs = ground arith
prepend-AllFree c (line ∷ ls) h hs = ground arith

lines-AllFree : (s : Bytes) → AllFree (lines s)
unfolding lines AllFree
lines-AllFree [] = tt
lines-AllFree (c ∷ s) = elim (Bool-cases (c == 10)) [
  | inl e ↦ rw e (refl, lines-AllFree s)
  | inr e ↦ rw e (prepend-AllFree c (lines s) e (lines-AllFree s))
]

record_of-IsLine : (l line : Bytes) → newline_free l ≡ true → record_of l ≡ some line → IsLine line
record_of-IsLine [] line h e = cc
record_of-IsLine (a ∷ []) line h e = cc
record_of-IsLine (a ∷ b ∷ []) line h e = cc
record_of-IsLine (a ∷ b ∷ c ∷ text) line h e =
    (c ∷ text, ground arith, ground arith, λ e. cons-ne-nil _ _ e)

keep-AllLines :
    (o : Option Bytes) (ls : List Bytes)
    → ((line : Bytes) → o ≡ some line → IsLine line)
    → AllLines ls
    → AllLines (keep o ls)
keep-AllLines none ls h hs = hs
keep-AllLines (some line) ls h hs = (h line refl, hs)

records_of-AllLines : (ls : List Bytes) → AllFree ls → AllLines (records_of ls)
unfolding records_of AllFree
records_of-AllLines [] h = tt
records_of-AllLines (l ∷ ls) h =
    keep-AllLines (record_of l) (records_of ls) (λ line e. record_of-IsLine l line h.0 e)
      (records_of-AllLines ls h.1)

pub records-AllLines : (text : Bytes) → AllLines (records text)
records-AllLines text = records_of-AllLines (lines text) (lines-AllFree text)
