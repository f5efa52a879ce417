-- ===== src/Prelude/Decimal.antt =====
-- Numbers in decimal, as std::to_string, std::to_chars and an output stream write them.
use native.Mathlib.Nat.{pow-suc}
use Prim.Native.Nat.{ℕ, zero, suc, ◌+◌, ◌-◌, ◌*◌, ◌/◌, ◌%◌, ◌^◌, ◌≤◌, ◌<◌}
use mathlib.Core.Path.{◌≡◌, refl, ap, sym, ◌∙◌}
use mathlib.Core.Logic.{inl, inr}
use mathlib.Core.List.{[], ◌∷◌}
use native.Mathlib.Omega.{arith}
use minilisysm.Prelude.Tests.{ltb, if◌then◌else◌, Bool-cases}
use minilisysm.Prelude.Text.{Bytes, ℤ, pos, negsuc}
use minilisysm.Prelude.Chars.{digits}

-- The digits of a number before `rest`; std::to_string of a number below 10 ^ 20 has at most 20.
unfoldable pub decimal : ℕ → ℕ → Bytes → Bytes
decimal zero n rest = rest
decimal (suc fuel) n rest =
    let more = decimal fuel (n / 10) ((b'0' + n % 10) ∷ rest) in
    if ltb n 10 then (b'0' + n) ∷ rest else more

unfoldable pub to_string : ℤ → Bytes
to_string (pos n) = decimal 20 n []
to_string (negsuc n) = b'-' ∷ decimal 20 (n + 1) []

-- The number that a text of digits stands for, from `acc` on.
abbrev pub value_of : ℕ → Bytes → ℕ
value_of acc [] = acc
value_of acc (c ∷ s) = value_of (acc * 10 + (c - b'0')) s

abbrev pub IsDigits : Bytes → Type 0
IsDigits [] = Unit
IsDigits (c ∷ s) = (b'0' ≤ c) × (c < b':') × IsDigits s

pub decimal-IsDigits : (fuel n : ℕ) (rest : Bytes) → IsDigits rest → IsDigits (decimal fuel n rest)
unfolding decimal
decimal-IsDigits zero n rest h = h
decimal-IsDigits (suc fuel) n rest h =
    ground (arith, decimal-IsDigits fuel (n / 10) ((b'0' + n % 10) ∷ rest))

pub value_of-decimal :
    (fuel n : ℕ) (rest : Bytes) → n < 10 ^ fuel → value_of 0 (decimal fuel n rest) ≡ value_of n rest
unfolding decimal
value_of-decimal zero n rest h = ap (λ m. value_of m rest) (omega arith)
value_of-decimal (suc fuel) n rest h = elim (Bool-cases (ltb n 10)) [
  | inl small ↦ rw small (ap (λ m. value_of m rest) (omega arith))
  | inr large ↦ rw large (
      value_of-decimal fuel (n / 10) ((b'0' + n % 10) ∷ rest) (omega (arith, pow-suc 10 fuel))
      ∙ ap (λ m. value_of m rest) (omega arith))
]

pub decimal-injective :
    (m n : ℕ) → m < 10 ^ 20 → n < 10 ^ 20 → decimal 20 m [] ≡ decimal 20 n [] → m ≡ n
decimal-injective m n hm hn e =
    sym (value_of-decimal 20 m [] hm) ∙ ap (value_of 0) e ∙ value_of-decimal 20 n [] hn

-- What std::from_chars reads off a text of digits.
pub digits_all : (n : ℕ) (s : Bytes) → IsDigits s → digits n s ≡ (value_of n s, [])
unfolding digits
digits_all n [] h = refl
digits_all n (c ∷ s) h = ground (arith, digits_all (n * 10 + (c - b'0')) s h.2)
