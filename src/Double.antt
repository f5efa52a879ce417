-- ===== src/Double.antt =====
-- All that the program does with a `double` outside of printing and parsing: conversion from an
-- unsigned integer (its literals are whole numbers), two comparisons, product and quotient.
-- The type is a parameter, so what is proved holds for IEEE 754 with its rounding and its NaN;
-- `IsOrdered` is assumed only where a theorem lists it.
use minilisysm.Prelude.{ℕ, ◌*◌, ◌/◌, ◌≤◌, ◌≡◌, ◌⊎◌, Bool, true, not, arith, ltb, leb, if◌then◌else◌}

pub record Double (W : Type 0) : Type 0 where
  pub of_nat : ℕ → W
  pub le : W → W → Bool
  pub lt : W → W → Bool
  pub mul : W → W → W
  pub div : W → W → W

module _ {W : Type 0} ⦃d : Double W⦄ where
  -- std::max and std::min, with the order of their tests.
  abbrev pub fmax : W → W → W
  fmax a b = if d.lt a b then b else a

  abbrev pub fmin : W → W → W
  fmin a b = if d.lt b a then b else a

-- NaN is the value that is not `<=` itself. The order is total only away from it.
pub record IsOrdered (W : Type 0) ⦃d : Double W⦄ : Type 0 where
  pub of_nat_number : (n : ℕ) → d.le (d.of_nat n) (d.of_nat n) ≡ true
  pub of_nat_mono : (m n : ℕ) → m ≤ n → d.le (d.of_nat m) (d.of_nat n) ≡ true
  pub refl_of_le : (x y : W) → d.le x y ≡ true → (d.le x x ≡ true) × (d.le y y ≡ true)
  pub le_trans : (x y z : W) → d.le x y ≡ true → d.le y z ≡ true → d.le x z ≡ true
  pub le_total :
      (x y : W) → d.le x x ≡ true → d.le y y ≡ true → (d.le x y ≡ true) ⊎ (d.le y x ≡ true)
  pub lt-eq-not-le : (x y : W) → d.le x x ≡ true → d.le y y ≡ true → d.lt x y ≡ not (d.le y x)
  pub lt_of_nan : (x y : W) → d.lt x y ≡ true → (d.le x x ≡ true) × (d.le y y ≡ true)

pub fmin-le :
    {W : Type 0} ⦃d : Double W⦄
    → IsOrdered W
    → (a x : W) → d.le a a ≡ true
    → d.le (fmin a x) a ≡ true
fmin-le ⦃d⦄ o a x h = ground (arith, o.lt_of_nan x a, o.lt-eq-not-le x a, o.le_total x a, h)

-- The laws can be met: whole numbers, with division rounded down.
instance abbrev pub whole_double : Double ℕ
whole_double = record { of_nat = λ n. n; le = leb; lt = ltb; mul = ◌*◌; div = ◌/◌ }

pub whole-IsOrdered : IsOrdered ℕ
whole-IsOrdered = ground arith
