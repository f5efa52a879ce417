-- ===== src/Map.antt =====
-- std::unordered_map as an association list, in whatever order it is iterated. `erase_if` is the
-- loop over the iterators that erases some.
use mathlib.Core.Option.{none-ne-some}
use mathlib.Core.List.{Memᴰ}
use mathlib.Core.List.Memᴰ.{head, tail}
use minilisysm.Prelude.{
  ◌≡◌, refl, sym, ap, ap₂, inl, inr, Bool-cases, Bool, true, false, Option, none, some, List, [],
  ◌∷◌, arith, Eq, if◌then◌else◌,
}

abbrev pub Map : Type 0 → Type 0 → Type 0
Map K V = List (K × V)

module _ {K V : Type 0} ⦃e : Eq K⦄ where
  -- `m.find(k)`, with `end()` as `none`
  unfoldable pub find : K → Map K V → Option V
  find k [] = none
  find k ((j, v) ∷ m) = if e.beq j k then some v else find k m

  -- `m[k] = v`
  unfoldable pub assign : K → V → Map K V → Map K V
  assign k v [] = (k, v) ∷ []
  assign k v ((j, w) ∷ m) = if e.beq j k then (k, v) ∷ m else (j, w) ∷ assign k v m

  unfoldable pub erase : K → Map K V → Map K V
  erase k [] = []
  erase k ((j, w) ∷ m) = let rest = erase k m in if e.beq j k then rest else (j, w) ∷ rest

  unfoldable pub erase_if : (V → Bool) → Map K V → Map K V
  erase_if drop [] = []
  erase_if drop ((j, w) ∷ m) = let rest = erase_if drop m in if drop w then rest else (j, w) ∷ rest

  pub find-assign :
      (k j : K) (v : V) (m : Map K V)
      → find j (assign k v m) ≡ (if e.beq k j then some v else find j m)
  unfolding find assign
  find-assign k j v [] = refl
  find-assign k j v ((i, w) ∷ m) =
      ground (arith, e.beq_iff k j, e.beq_iff i k, e.beq_iff i j, find-assign k j v m)

  pub find-erase :
      (k j : K) (m : Map K V) → find j (erase k m) ≡ (if e.beq k j then none else find j m)
  unfolding find erase
  find-erase k j [] = ground arith
  find-erase k j ((i, w) ∷ m) =
      ground (arith, e.beq_iff k j, e.beq_iff i k, e.beq_iff i j, find-erase k j m)

  -- An entry that stays is found as before.
  pub find-erase_if :
      (drop : V → Bool) (k : K) (v : V) (m : Map K V)
      → drop v ≡ false
      → find k m ≡ some v
      → find k (erase_if drop m) ≡ some v
  unfolding find erase_if
  find-erase_if drop k v [] stays h = h
  find-erase_if drop k v ((i, w) ∷ m) stays h = ground (arith, find-erase_if drop k v m stays)

module _ {K V : Type 0} ⦃e : Eq K⦄ where
  -- As the keys of a std::unordered_map are.
  abbrev pub Distinct : Map K V → Type 0
  Distinct [] = Unit
  Distinct ((j, w) ∷ m) = (find j m ≡ none) × Distinct m

  pub assign-Distinct : (k : K) (v : V) (m : Map K V) → Distinct m → Distinct (assign k v m)
  unfolding find assign
  assign-Distinct k v [] h = (refl, tt)
  assign-Distinct k v ((j, w) ∷ m) h =
      ground (arith, find-assign k j v m, e.beq_iff k j, e.beq_iff j k, assign-Distinct k v m h.1)

  pub erase-Distinct : (k : K) (m : Map K V) → Distinct m → Distinct (erase k m)
  unfolding find erase
  erase-Distinct k [] h = tt
  erase-Distinct k ((j, w) ∷ m) h =
      ground (arith, find-erase k j m, e.beq_iff k j, e.beq_iff j k, erase-Distinct k m h.1)

  pub memᴰ_of_find : (k : K) (v : V) (m : Map K V) → find k m ≡ some v → Memᴰ (k, v) m
  unfolding find
  memᴰ_of_find k v [] h = absurd (none-ne-some v h)
  memᴰ_of_find k v ((j, w) ∷ m) h = elim (Bool-cases (e.beq j k)) [
    | inl same ↦
        let keys : k ≡ j = sym ((e.beq_iff j k).0 same) in
        let values : v ≡ w = ground arith in head (ap₂ (λ a b. (a, b)) keys values)
    | inr other ↦ tail (memᴰ_of_find k v m (ground arith))
  ]

  pub find_of_memᴰ : (k : K) (v : V) (m : Map K V) → Distinct m → Memᴰ (k, v) m → find k m ≡ some v
  unfolding find
  find_of_memᴰ k v [] h there = elim there [ ]
  find_of_memᴰ k v ((j, w) ∷ m) h (head same) =
      let keys : k ≡ j = ap (λ p. p.0) same in
      let values : v ≡ w = ap (λ p. p.1) same in ground (arith, e.beq_iff j k)
  find_of_memᴰ k v ((j, w) ∷ m) h (tail later) =
      ground (arith, find_of_memᴰ k v m h.1 later, h.0, e.beq_iff j k)

pub beq_self : {K : Type 0} ⦃e : Eq K⦄ (k : K) → e.beq k k ≡ true
beq_self ⦃e⦄ k = (e.beq_iff k k).1 refl
