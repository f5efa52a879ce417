-- ===== src/Serializer/Reader.antt =====
-- A reader of JSON strings, after RFC 8259, for what the serializer escapes.
use minilisysm.Prelude.{
  ℕ, ◌≡◌, refl, ap, ◌∙◌, Bool, true, false, not, ◌&&◌, ◌||◌, Option, none, some, [], ◌∷◌, ◌++◌,
  append_assoc, Bytes, arith, ltb, ◌==◌, if◌then◌else◌,
}
use minilisysm.Serializer.{escape, escape_text, json_string}

-- The character that a backslash and `c` stand for, `none` where RFC 8259 has no such escape. The
-- escapes by number, \u, which the serializer never writes, are refused too.
abbrev pub unescape : ℕ → Option ℕ
unescape c =
    if c == b'"' || c == b'\\' || c == b'/'
    then some c
    else if c == b'b'
    then some 8
    else if c == b'f'
    then some 12
    else if c == b'n'
    then some 10
    else if c == b'r'
    then some 13
    else if c == b't'
    then some 9
    else none

abbrev pub with_char : ℕ → Option (Bytes × Bytes) → Option (Bytes × Bytes)
with_char c none = none
with_char c (some (text, rest)) = some (c ∷ text, rest)

-- What was read after an escape, with the character of the escape before it.
abbrev pub with_escaped : Option ℕ → Option (Bytes × Bytes) → Option (Bytes × Bytes)
with_escaped none more = none
with_escaped (some c) more = with_char c more

-- The characters up to the quote that closes the string, and what follows; the flag says that a
-- backslash came before. A control character is no part of a string, and an escape is one of the
-- standard's.
unfoldable pub read_chars : Bool → Bytes → Option (Bytes × Bytes)
read_chars escaped [] = none
read_chars escaped (c ∷ s) =
    let more = read_chars (not escaped && c == b'\\') s in
    if escaped
    then with_escaped (unescape c) more
    else if c == b'"'
    then some ([], s)
    else if c == b'\\'
    then more
    else if ltb c 32
    then none
    else with_char c more

abbrev pub read_string : Bytes → Option (Bytes × Bytes)
read_string [] = none
read_string (c ∷ s) = if c == b'"' then read_chars false s else none

-- The characters that can stand in a string as the serializer writes it.
abbrev pub is_writable : ℕ → Bool
is_writable c = not (ltb c 32) || c == 8 || c == 9 || c == 10 || c == 12 || c == 13

abbrev pub all_writable : Bytes → Bool
all_writable [] = true
all_writable (c ∷ s) = is_writable c && all_writable s

read_chars-escape :
    (c : ℕ) (s : Bytes)
    → read_chars false (escape c ++ s)
      ≡ (if is_writable c then with_char c (read_chars false s) else none)
unfolding read_chars escape
read_chars-escape c s = ground arith

read_chars-escape_text :
    (value rest : Bytes)
    → read_chars false (escape_text value ++ b'"' ∷ rest)
      ≡ (if all_writable value then some (value, rest) else none)
unfolding escape_text read_chars
read_chars-escape_text [] rest = refl
read_chars-escape_text (c ∷ value) rest =
    ap (read_chars false) (append_assoc (escape c) (escape_text value) (b'"' ∷ rest))
    ∙ read_chars-escape c (escape_text value ++ b'"' ∷ rest)
    ∙ ground (arith, read_chars-escape_text value rest)

-- A reader of JSON, which takes the escapes of two characters that RFC 8259 has and no others, gets
-- back the text that a string was written from and stops behind its closing quote, unless the text has a control character other than backspace, tab, newline, form feed and
-- carriage return: then it is refused.
pub read_string-json_string :
    (value rest : Bytes)
    → read_string (json_string value ++ rest)
      ≡ (if all_writable value then some (value, rest) else none)
unfolding json_string
read_string-json_string value rest =
    ap (read_chars false) (append_assoc (escape_text value) (b'"' ∷ []) rest)
    ∙ read_chars-escape_text value rest
