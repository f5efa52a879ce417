-- ===== src/Load/Effects.antt =====
-- What a loaded configuration means to the rules, also where `validate` refuses it.
use minilisysm.Prelude.{
  ℕ, ◌^◌, ◌<◌, ◌≡◌, refl, true, false, Option, none, some, List, Bytes, arith, Option-cases, inl,
  inr, from_chars,
}
use minilisysm.Double.{Double}
use minilisysm.Config.{MonitorConfig}
use minilisysm.Samples.{MeminfoSample}
use minilisysm.Ipv4.{all_valid_ipv4}
use minilisysm.Ini.{Ini, parse_ini, find_value, assign_int, int_or}
use minilisysm.Load.{load, load_or_default}
use minilisysm.Validate.{
  validate, validate_before_clients, validate_before_memory, validate_rest, validate_core,
}
use minilisysm.Rules.Engine.{init}
use minilisysm.Rules.Engine.Evaluate.{evaluate_memory}

from_chars-lt :
    (limit : ℕ) (s : Bytes) (n : ℕ) (rest : Bytes) → from_chars limit s ≡ some (n, rest) → n < limit
unfolding from_chars
from_chars-lt limit s n rest h = ground arith

int_or-lt : (limit target : ℕ) (o : Option Bytes) → target < limit → int_or limit target o < limit
int_or-lt limit target none h = h
int_or-lt limit target (some value) h = elim (Option-cases (from_chars limit value)) [
  | inl bad ↦ rw bad h
  | inr ((n, rest), good) ↦ rw good (from_chars-lt limit value n rest good)
]

assign_int-lt :
    (limit : ℕ) (ini : Ini) (section key : Bytes) (target : ℕ)
    → target < limit
    → assign_int limit ini section key target < limit
unfolding assign_int
assign_int-lt limit ini section key target h = int_or-lt limit target (find_value ini section key) h

module _ {W : Type 0} ⦃d : Double W⦄ where
  -- The fields of the memory rule and the port after a validation, accepted or not.
  validate-widths :
      (c : MonitorConfig W)
      → c.state_ttl_sec < 2 ^ 32
      → c.cooldown_sec < 2 ^ 32
      → c.metrics_port < 2 ^ 16
      → let r = (validate c).1 in
        (r.state_ttl_sec < 2 ^ 32) × (r.cooldown_sec < 2 ^ 32) × (r.metrics_port < 2 ^ 16)
  unfolding validate validate_before_memory validate_before_clients validate_rest validate_core
  validate-widths c ht hc hp = ground arith

  -- Refused for its memory thresholds, a configuration switches the memory rule off.
  validate-refused :
      (c : MonitorConfig W)
      → all_valid_ipv4 c.metrics_allowed_clients ≡ true
      → c.mem_available_warning_mb < c.mem_available_critical_mb
      → (validate c).1.memory_rule_enable ≡ false
  unfolding validate validate_before_memory validate_before_clients validate_core
  validate-refused c clients inverted = ground (arith, clients)

  switched_off :
      (c : MonitorConfig W) (now_ms : ℕ) (sample : MeminfoSample)
      → c.memory_rule_enable ≡ false
      → (evaluate_memory c now_ms (init c) sample).0 ≡ none
  unfolding evaluate_memory init
  switched_off c now_ms sample off = rw off refl

  module _ (stod : Bytes → Option W) where
    -- Whatever the file says, and whether or not it is accepted, the time to live, the cooldown
    -- and the port that are loaded fit the 32 and 16 bits of their types.
    pub load_or_default-widths :
        (lines : List Bytes)
        → let c = load_or_default stod lines in
          (c.state_ttl_sec < 2 ^ 32) × (c.cooldown_sec < 2 ^ 32) × (c.metrics_port < 2 ^ 16)
    unfolding load_or_default load
    load_or_default-widths lines =
        let fits = assign_int-lt (2 ^ 32) (parse_ini lines) in
        validate-widths (load stod (parse_ini lines)) (fits _ _ _ (omega arith))
          (fits _ _ _ (fits _ _ _ (omega arith)))
          (assign_int-lt (2 ^ 16) (parse_ini lines) _ _ _ (omega arith))

    -- A file whose memory thresholds are inverted, and whose client addresses are valid, loads a
    -- configuration with which a new engine reports nothing for any memory sample.
    pub inverted_memory_is_silent :
        (lines : List Bytes) (now_ms : ℕ) (sample : MeminfoSample)
        → let read = load stod (parse_ini lines) in
          all_valid_ipv4 read.metrics_allowed_clients ≡ true
          → read.mem_available_warning_mb < read.mem_available_critical_mb
          → let c = load_or_default stod lines in
            (evaluate_memory c now_ms (init c) sample).0 ≡ none
    unfolding load_or_default
    inverted_memory_is_silent lines now_ms sample clients inverted =
        switched_off (load_or_default stod lines) now_ms sample
          (validate-refused (load stod (parse_ini lines)) clients inverted)
