-- ===== src/Prelude/Framing.antt =====
-- Texts that are made of lines, each ended by a newline.
use Prim.Native.Nat.{ℕ}
use mathlib.Core.Path.{◌≡◌, refl, ap, ◌∙◌}
use mathlib.Core.Logic.{◌≢◌, inl, inr}
use mathlib.Core.Bool.{Bool, true, not, ◌&&◌}
use mathlib.Core.List.{List, [], ◌∷◌, ◌++◌}
use native.Mathlib.Omega.{arith}
use minilisysm.Prelude.Tests.{◌==◌, Bool-cases}
use minilisysm.Prelude.Text.{Bytes}
use minilisysm.Prelude.Chars.{lines, prepend}

abbrev pub newline_free : Bytes → Bool
newline_free [] = true
newline_free (c ∷ s) = not (c == 10) && newline_free s

-- One line: a text with no newline that is not empty, and a newline.
abbrev pub IsLine : Bytes → Type 0
IsLine line = (body : Bytes) × (line ≡ body ++ 10 ∷ []) × (newline_free body ≡ true) × (body ≢ [])

-- A text whose last line is ended.
abbrev pub is_whole : Bytes → Bool
is_whole [] = true
is_whole (c ∷ []) = c == 10
is_whole (c ∷ d ∷ s) = is_whole (d ∷ s)

pub newline_free-append :
    (a b : Bytes) → newline_free a ≡ true → newline_free b ≡ true → newline_free (a ++ b) ≡ true
newline_free-append [] b ha hb = hb
newline_free-append (c ∷ a) b ha hb = ground (arith, newline_free-append a b)

pub is_whole-append :
    (a b : Bytes) → is_whole a ≡ true → is_whole b ≡ true → is_whole (a ++ b) ≡ true
is_whole-append [] b ha hb = hb
is_whole-append (c ∷ []) [] ha hb = ha
is_whole-append (c ∷ []) (d ∷ b) ha hb = hb
is_whole-append (c ∷ d ∷ a) b ha hb = is_whole-append (d ∷ a) b ha hb

pub is_whole-line : (body : Bytes) → is_whole (body ++ 10 ∷ []) ≡ true
is_whole-line [] = refl
is_whole-line (c ∷ []) = refl
is_whole-line (c ∷ d ∷ body) = is_whole-line (d ∷ body)

prepend_twice :
    (c d : ℕ) (r ls : List Bytes) → prepend c (prepend d r ++ ls) ≡ prepend c (prepend d r) ++ ls
prepend_twice c d [] ls = refl
prepend_twice c d (line ∷ r) ls = refl

-- A line that has been ended is read apart from what comes after it.
prepend-append :
    (c d : ℕ) (a : Bytes) (ls : List Bytes)
    → prepend c (lines (d ∷ a) ++ ls) ≡ prepend c (lines (d ∷ a)) ++ ls
unfolding lines
prepend-append c d a ls = elim (Bool-cases (d == 10)) [
  | inl e ↦ rw e refl
  | inr e ↦ rw e (prepend_twice c d (lines a) ls)
]

pub lines-append : (a b : Bytes) → is_whole a ≡ true → lines (a ++ b) ≡ lines a ++ lines b
unfolding lines
lines-append [] b h = refl
lines-append (c ∷ []) b h = ground arith
lines-append (c ∷ d ∷ a) b h = elim (Bool-cases (c == 10)) [
  | inl e ↦ rw e (ap (λ ls. [] ∷ ls) (lines-append (d ∷ a) b h))
  | inr e ↦ rw e (ap (prepend c) (lines-append (d ∷ a) b h) ∙ prepend-append c d a (lines b))
]

pub lines_one : (body : Bytes) → newline_free body ≡ true → lines (body ++ 10 ∷ []) ≡ body ∷ []
unfolding lines
lines_one [] h = refl
lines_one (c ∷ body) h = ground (arith, lines_one body)
