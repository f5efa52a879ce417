-- ===== src/Ini/Tests.antt =====
-- The parsing of configuration lines and values.
use minilisysm.Prelude.{
  List, Bytes, ◌≡◌, refl, true, some, [], ◌∷◌, codes, bytes_eq, break_at, digits, from_chars,
}
use minilisysm.Map.{find, assign}
use minilisysm.Ini.{
  trim, trim_begin, trim_end, cut_comment, parse_line, parse_lines, parse_ini, find_value,
  parse_bool, assign_int, fields, items, split_csv,
}

abbrev text : List Bytes
text =
    codes "# agent"
    ∷ codes "ignored = 1"
    ∷ codes " [ monitor ] "
    ∷ codes "port = 91x ; comment"
    ∷ codes "name = a=b"
    ∷ []

test_comment : find_value (parse_ini text) (codes "monitor") (codes "port") ≡ some (codes "91x")
unfolding parse_ini parse_lines parse_line trim trim_begin trim_end cut_comment break_at find assign
    bytes_eq find_value
test_comment = refl

test_equals : find_value (parse_ini text) (codes "monitor") (codes "name") ≡ some (codes "a=b")
unfolding parse_ini parse_lines parse_line trim trim_begin trim_end cut_comment break_at find assign
    bytes_eq find_value
test_equals = refl

test_int : assign_int 65536 (parse_ini text) (codes "monitor") (codes "port") 7 ≡ 91
unfolding parse_ini parse_lines parse_line trim trim_begin trim_end cut_comment break_at find assign
    bytes_eq find_value assign_int from_chars digits
test_int = refl

test_bool : parse_bool (codes "Yes") ≡ true
unfolding parse_bool bytes_eq
test_bool = refl

test_csv : split_csv (codes "sda, ,sdb ,") ≡ codes "sda" ∷ codes "sdb" ∷ []
unfolding split_csv fields items trim trim_begin trim_end
test_csv = refl
