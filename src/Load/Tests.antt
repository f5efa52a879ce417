-- ===== src/Load/Tests.antt =====
-- Loading from the lines of a file, with whole numbers for doubles and no text that reads as one.
use minilisysm.Prelude.{
  ℕ, ◌≡◌, refl, Option, none, true, List, [], ◌∷◌, Bytes, codes, arith, bytes_eq, break_at, digits,
  from_chars,
}
use minilisysm.Double.{whole_double}
use minilisysm.Map.{find, assign}
use minilisysm.Samples.{MeminfoSample}
use minilisysm.Ini.{
  trim, trim_begin, trim_end, cut_comment, parse_line, parse_lines, parse_ini, find_value,
  assign_int, assign_csv,
}
use minilisysm.Load.{load, load_or_default}
use minilisysm.Load.Effects.{inverted_memory_is_silent}
use minilisysm.Rules.Engine.{init}
use minilisysm.Rules.Engine.Evaluate.{evaluate_memory}

abbrev no_double : Bytes → Option ℕ
no_double s = none

abbrev inverted : List Bytes
inverted = codes "[memory_rule]" ∷ codes "mem_available_warning_mb = 10" ∷ []

abbrev low : MeminfoSample
low = record {
  mem_total_kb = 1000;
  mem_available_kb = 1;
  swap_free_kb = 0;
  sreclaimable_kb = 0;
  sunreclaim_kb = 0;
  valid = true;
}

ten : (load no_double (parse_ini inverted)).mem_available_warning_mb ≡ 10
unfolding load parse_ini parse_lines parse_line trim trim_begin trim_end cut_comment break_at find
    assign bytes_eq find_value assign_int from_chars digits
ten = refl

much : (load no_double (parse_ini inverted)).mem_available_critical_mb ≡ 256
unfolding load parse_ini parse_lines parse_line trim trim_begin trim_end cut_comment break_at find
    assign bytes_eq find_value assign_int from_chars digits
much = refl

clients : (load no_double (parse_ini inverted)).metrics_allowed_clients ≡ []
unfolding load parse_ini parse_lines parse_line trim trim_begin trim_end cut_comment break_at find
    assign bytes_eq find_value assign_csv
clients = refl

inverted_memory_is_silent_example :
    let c = load_or_default no_double inverted in (evaluate_memory c 5 (init c) low).0 ≡ none
inverted_memory_is_silent_example =
    inverted_memory_is_silent no_double inverted 5 low (rw clients refl) (omega (arith, ten, much))
