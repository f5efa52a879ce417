-- ===== src/Prelude/Chars.antt =====
-- What the program uses of <cctype>, in the "C" locale, of std::from_chars and of
-- std::string_view::find, on bytes.
use Prim.Native.Nat.{ℕ, ◌+◌, ◌-◌, ◌*◌}
use mathlib.Core.Path.{◌≡◌, ap}
use native.Mathlib.Omega.{arith}
use mathlib.Core.Bool.{Bool, false, ◌&&◌}
use mathlib.Core.List.{List, [], ◌∷◌, ◌++◌}
use mathlib.Core.Option.{Option, none, some}
use minilisysm.Prelude.Tests.{leb, ltb, ◌==◌, if◌then◌else◌}
use minilisysm.Prelude.Text.{Bytes}

abbrev pub is_upper : ℕ → Bool
is_upper c = leb b'A' c && leb c b'Z'

-- std::tolower
abbrev pub to_lower : ℕ → ℕ
to_lower c = if is_upper c then c + 32 else c

abbrev pub is_digit : ℕ → Bool
is_digit c = leb b'0' c && leb c b'9'

-- The digits that a text starts with, read after the digits that make `n`, and what follows.
unfoldable pub digits : ℕ → Bytes → ℕ × Bytes
digits n [] = (n, [])
digits n (c ∷ s) =
    let more = digits (n * 10 + (c - b'0')) s in if is_digit c then more else (n, c ∷ s)

abbrev pub starts_with_digit : Bytes → Bool
starts_with_digit [] = false
starts_with_digit (c ∷ s) = is_digit c

-- std::from_chars into an unsigned type below `limit`: the value and the rest of the text, or an
-- error where there is no digit or the value does not fit.
unfoldable pub from_chars : ℕ → Bytes → Option (ℕ × Bytes)
from_chars limit s =
    let (n, rest) = digits 0 s in
    if starts_with_digit s && ltb n limit then some (n, rest) else none

-- The text before the first `mark`, and the text after it if there is one.
unfoldable pub break_at : ℕ → Bytes → Bytes × Option Bytes
break_at mark [] = ([], none)
break_at mark (c ∷ s) =
    let (before, after) = break_at mark s in if c == mark then ([], some s) else (c ∷ before, after)

abbrev pub prepend : ℕ → List Bytes → List Bytes
prepend c [] = (c ∷ []) ∷ []
prepend c (line ∷ others) = (c ∷ line) ∷ others

-- The lines that a loop of std::getline sees, one after another.
unfoldable pub lines : Bytes → List Bytes
lines [] = []
lines (c ∷ s) = let rest = lines s in if c == 10 then [] ∷ rest else prepend c rest

-- std::string::find_last_of of one byte: what is before the last `mark`, and what is after it.
abbrev pub or_here : ℕ → ℕ → Bytes → Option (Bytes × Bytes) → Option (Bytes × Bytes)
or_here mark c s none = if c == mark then some ([], s) else none
or_here mark c s (some (before, after)) = some (c ∷ before, after)

unfoldable pub break_at_last : ℕ → Bytes → Option (Bytes × Bytes)
break_at_last mark [] = none
break_at_last mark (c ∷ s) = or_here mark c s (break_at_last mark s)

pub break_at_last-append :
    (mark : ℕ) (a b : Bytes)
    → break_at_last mark b ≡ none
    → break_at_last mark (a ++ mark ∷ b) ≡ some (a, b)
unfolding break_at_last
break_at_last-append mark [] b h = rw h (ground arith)
break_at_last-append mark (c ∷ a) b h =
    ap (or_here mark c (a ++ mark ∷ b)) (break_at_last-append mark a b h)
