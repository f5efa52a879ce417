-- ===== src/Network/Endpoint.antt =====
-- NetworkEventSink::parse_endpoint and the tests of `start`, and the text that post_batch sends.
use minilisysm.Prelude.{
  ℕ, ◌+◌, ◌-◌, ◌%◌, ◌^◌, ◌<◌, ◌≡◌, ◌≢◌, refl, ap, ◌∙◌, Bool, true, false, not, ◌&&◌, Option, none,
  some, [], ◌∷◌, ◌++◌, arith, Bytes, codes, break_at, break_at_last, from_chars, ◌==◌,
  if◌then◌else◌,
}
use mathlib.Core.Option
use minilisysm.Prelude.Chars.{break_at_last-append}
use minilisysm.Prelude.Decimal.{
  decimal, IsDigits, decimal-IsDigits, value_of, value_of-decimal, digits_all,
}
use minilisysm.Wal.Index.{skip_spaces}
use minilisysm.Wal.Names.{first_digit, no_mark}

pub record Endpoint : Type 0 where
  pub host : Bytes
  pub port : ℕ
  pub path : Bytes
  pub valid : Bool

abbrev pub no_endpoint : Endpoint
no_endpoint = record { host = []; port = 80; path = codes "/events"; valid = false }

-- static_cast<uint16_t>(std::stoi(text)), with an exception as `none`.
abbrev pub port_value : Bytes → Option ℕ
port_value s = Option.map (λ (value, rest). value % 2 ^ 16) (from_chars (2 ^ 31) s)

abbrev pub negative_port : Bytes → Option ℕ
negative_port s =
    Option.map (λ (value, rest). (2 ^ 16 - value % 2 ^ 16) % 2 ^ 16) (from_chars (2 ^ 31 + 1) s)

abbrev pub signed_port : Bytes → Option ℕ
signed_port [] = none
signed_port (c ∷ s) =
    if c == b'+' then port_value s else if c == b'-' then negative_port s else port_value (c ∷ s)

unfoldable pub stoi_port : Bytes → Option ℕ
stoi_port s = signed_port (skip_spaces s)

abbrev pub is_nonempty : Bytes → Bool
is_nonempty [] = false
is_nonempty (c ∷ s) = true

abbrev pub with_port : Bytes → Bytes → Option ℕ → Option Endpoint
with_port host path none = none
with_port host path (some port) =
    some (record {
      host = host;
      port = port;
      path = path;
      valid = is_nonempty host && is_nonempty path;
    })

-- The host and the port that `rfind(':')` separates.
abbrev pub split_port : Bytes → Bytes → Option (Bytes × Bytes) → Option Endpoint
split_port host_port path none = with_port host_port path (some 80)
split_port host_port path (some (host, port)) = with_port host path (stoi_port port)

abbrev pub split_path : Bytes × Option Bytes → Option Endpoint
split_path (host_port, none) = split_port host_port (codes "/events") (break_at_last b':' host_port)
split_path (host_port, some rest) =
    split_port host_port (b'/' ∷ rest) (break_at_last b':' host_port)

-- What follows a prefix.
abbrev pub after_prefix : Bytes → Bytes → Option Bytes
after_prefix [] text = some text
after_prefix (p ∷ prefix) [] = none
after_prefix (p ∷ prefix) (c ∷ text) =
    let rest = after_prefix prefix text in if c == p then rest else none

abbrev pub parse_rest : Option Bytes → Option Endpoint
parse_rest none = some no_endpoint
parse_rest (some value) = split_path (break_at b'/' value)

-- `none` is an exception of std::stoi, which leaves the constructor of the sink.
unfoldable pub parse_endpoint : Bytes → Option Endpoint
parse_endpoint value = parse_rest (after_prefix (codes "http://") value)

-- What `start` does before it loads the log.
pub data Start : Type 0 where
  disabled refused loads : Start

abbrev pub start_check : Bool → Endpoint → Start
start_check enable endpoint =
    if not enable then disabled else if not endpoint.valid then refused else loads

-- Whether `start` returns true.
abbrev pub started : Start → Bool
started refused = false
started _ = true

-- A text with a port.
abbrev pub port_text : ℕ → Bytes
port_text port = decimal 20 port []

abbrev pub mark_free : ℕ → Bytes → Bool
mark_free mark [] = true
mark_free mark (c ∷ s) = not (c == mark) && mark_free mark s

break_at-append :
    (mark : ℕ) (a b : Bytes) → mark_free mark a ≡ true → break_at mark (a ++ mark ∷ b) ≡ (a, some b)
unfolding break_at
break_at-append mark [] b h = ground arith
break_at-append mark (c ∷ a) b h = ground (arith, break_at-append mark a b)

mark_free-append :
    (mark : ℕ) (a b : Bytes)
    → mark_free mark a ≡ true
    → mark_free mark b ≡ true
    → mark_free mark (a ++ b) ≡ true
mark_free-append mark [] b ha hb = hb
mark_free-append mark (c ∷ a) b ha hb = ground (arith, mark_free-append mark a b)

mark_free-digits : (mark : ℕ) (s : Bytes) → mark < b'0' → IsDigits s → mark_free mark s ≡ true
mark_free-digits mark [] hm h = refl
mark_free-digits mark (c ∷ s) hm h = ground (arith, mark_free-digits mark s hm h.2)

stoi_port-digits :
    (s : Bytes) (n : ℕ) → s ≢ [] → IsDigits s → value_of 0 s ≡ n → n < 2 ^ 16 → stoi_port s ≡ some n
unfolding stoi_port skip_spaces from_chars
stoi_port-digits [] n full h e small = absurd (full refl)
stoi_port-digits (c ∷ s) n full h e small = ground (arith, digits_all 0 (c ∷ s) h)

stoi_port-port_text : (port : ℕ) → port < 2 ^ 16 → stoi_port (port_text port) ≡ some port
stoi_port-port_text port small =
    stoi_port-digits (port_text port) port (first_digit port) (decimal-IsDigits 20 port [] tt)
      (value_of-decimal 20 port [] (omega arith)) small

-- The parts of an endpoint are read back from "http://host:port/rest". The host is not empty and has
-- no slash, and the port is below 2^16.
pub parse_endpoint-text :
    (host rest : Bytes) (port : ℕ)
    → host ≢ []
    → mark_free b'/' host ≡ true
    → port < 2 ^ 16
    → parse_endpoint (codes "http://" ++ host ++ b':' ∷ port_text port ++ b'/' ∷ rest)
      ≡ some (record { host = host; port = port; path = b'/' ∷ rest; valid = true })
unfolding parse_endpoint
parse_endpoint-text host rest port full free small =
    let text = port_text port in
    let digit = decimal-IsDigits 20 port [] tt in
    ap split_path (
      break_at-append b'/' (host ++ b':' ∷ text) rest (
        mark_free-append b'/' host (b':' ∷ text) free
          (mark_free-digits b'/' text (omega arith) digit)))
    ∙ ap (split_port (host ++ b':' ∷ text) (b'/' ∷ rest))
        (break_at_last-append b':' host text (no_mark b':' text (omega arith) digit))
    ∙ ap (with_port host (b'/' ∷ rest)) (stoi_port-port_text port small)
    ∙ valid_host host full
  where
    valid_host :
        (host : Bytes)
        → host ≢ []
        → with_port host (b'/' ∷ rest) (some port)
          ≡ some (record { host = host; port = port; path = b'/' ∷ rest; valid = true })
    valid_host [] full = absurd (full refl)
    valid_host (c ∷ host) full = refl

break_at-free : (mark : ℕ) (s : Bytes) → mark_free mark s ≡ true → break_at mark s ≡ (s, none)
unfolding break_at
break_at-free mark [] h = refl
break_at-free mark (c ∷ s) h = ground (arith, break_at-free mark s)

break_at_last-free : (mark : ℕ) (s : Bytes) → mark_free mark s ≡ true → break_at_last mark s ≡ none
unfolding break_at_last
break_at_last-free mark [] h = refl
break_at_last-free mark (c ∷ s) h = ground (arith, break_at_last-free mark s)

-- The constructor throws where the text behind the last colon of the host is no number that
-- std::stoi reads, instead of calling the endpoint invalid. There is no slash in the host and the
-- text, and no colon in the text.
pub parse_endpoint-throws :
    (host text : Bytes)
    → mark_free b'/' host ≡ true
    → mark_free b'/' text ≡ true
    → mark_free b':' text ≡ true
    → stoi_port text ≡ none
    → parse_endpoint (codes "http://" ++ host ++ b':' ∷ text) ≡ none
unfolding parse_endpoint
parse_endpoint-throws host text free_host free_text no_colon no_number =
    ap split_path (
      break_at-free b'/' (host ++ b':' ∷ text)
        (mark_free-append b'/' host (b':' ∷ text) free_host free_text))
    ∙ ap (split_port (host ++ b':' ∷ text) (codes "/events"))
        (break_at_last-append b':' host text (break_at_last-free b':' text no_colon))
    ∙ ap (with_port host (codes "/events")) no_number
