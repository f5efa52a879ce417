-- ===== src/Queue/Window.antt =====
-- The two indices of the ring and the slots between them. An index runs below the capacity, which
-- is a word; so `increment` is one step round the ring and no sum of `depth` wraps.
use minilisysm.Prelude.{
  ℕ, zero, suc, ◌+◌, ◌^◌, ◌<◌, ◌≡◌, refl, ap, ap₂, ◌≢◌, ◌⊎◌, List, [], ◌∷◌, ◌++◌, length, get_or,
  set, get_or-set_self, get_or-set_ne, arith, mod-eq_of_lt,
}
use minilisysm.Queue.{increment, depth_of}

-- The `n` items from index `i` on.
abbrev pub window {ℓ} : {A : Type ℓ} → A → List A → ℕ → ℕ → ℕ → List A
window blank buf cap i zero = []
window blank buf cap i (suc n) = get_or buf i blank ∷ window blank buf cap (increment cap i) n

pub length-window {ℓ} :
    {A : Type ℓ} (blank : A) (buf : List A) (cap i n : ℕ) → length (window blank buf cap i n) ≡ n
length-window blank buf cap i zero = refl
length-window blank buf cap i (suc n) = ap suc (length-window blank buf cap (increment cap i) n)

-- One step round the ring, as the two cases of the remainder.
pub increment_cases :
    (cap i : ℕ)
    → cap < 2 ^ 64
    → i < cap
    → ((i + 1 < cap) × (increment cap i ≡ i + 1)) ⊎ ((i + 1 ≡ cap) × (increment cap i ≡ 0))
increment_cases cap i hc hi = grind (arith, mod-eq_of_lt)

pub increment-lt : (cap i : ℕ) → cap < 2 ^ 64 → i < cap → increment cap i < cap
increment-lt cap i hc hi = omega (arith, increment_cases cap i hc hi)

module _ (cap h t : ℕ) (hc : cap < 2 ^ 64) (hh : h < cap) (ht : t < cap) where
  pub depth_of-lt : depth_of cap h t < cap
  depth_of-lt = ground arith

  pub depth_of_zero : depth_of cap h t ≡ 0 → h ≡ t
  depth_of_zero = ground arith

  -- Taking the oldest item leaves one fewer.
  pub depth_of-increment_tail : h ≢ t → depth_of cap h (increment cap t) + 1 ≡ depth_of cap h t
  depth_of-increment_tail ne = ground (arith, increment_cases cap t hc ht)

  -- Adding one makes one more, unless the ring is full.
  pub depth_of-increment_head :
      increment cap h ≢ t → depth_of cap (increment cap h) t ≡ depth_of cap h t + 1
  depth_of-increment_head ne = ground (arith, increment_cases cap h hc hh)

  pub depth_of_full : increment cap h ≡ t → depth_of cap h t + 1 ≡ cap
  depth_of_full e = ground (arith, increment_cases cap h hc hh)

module _ {ℓ} {A : Type ℓ} (blank : A) (buf : List A) (cap h : ℕ) (x : A) where
  -- A write at `h` is not seen by a window that ends there.
  pub window-set_same :
      (i n : ℕ)
      → cap < 2 ^ 64
      → h < cap
      → i < cap
      → depth_of cap h i ≡ n
      → window blank (set buf h x) cap i n ≡ window blank buf cap i n
  window-set_same i zero hc hh hi e = refl
  window-set_same i (suc n) hc hh hi e = ap₂ ◌∷◌ (get_or-set_ne buf h i x blank apart) (
      window-set_same (increment cap i) n hc hh (increment-lt cap i hc hi)
        (omega (arith, depth_of-increment_tail cap h i hc hh hi apart)))
    where
      apart : h ≢ i
      apart = ground arith

  -- It is the last item of the window that is one longer.
  pub window-set :
      (i n : ℕ)
      → cap < 2 ^ 64
      → h < cap
      → i < cap
      → h < length buf
      → depth_of cap h i ≡ n
      → window blank (set buf h x) cap i (suc n) ≡ window blank buf cap i n ++ x ∷ []
  window-set i zero hc hh hi hb e =
      rw (← depth_of_zero cap h i hc hh hi e) (ap (λ y. y ∷ []) (get_or-set_self buf h x blank hb))
  window-set i (suc n) hc hh hi hb e = ap₂ ◌∷◌ (get_or-set_ne buf h i x blank apart) (
      window-set (increment cap i) n hc hh (increment-lt cap i hc hi) hb
        (omega (arith, depth_of-increment_tail cap h i hc hh hi apart)))
    where
      apart : h ≢ i
      apart = ground arith

-- The slot at `h` is what the window gains when its end moves past it.
pub window-snoc {ℓ} :
    {A : Type ℓ} (blank : A) (buf : List A) (cap h i n : ℕ)
    → cap < 2 ^ 64
    → h < cap
    → i < cap
    → depth_of cap h i ≡ n
    → window blank buf cap i (suc n) ≡ window blank buf cap i n ++ get_or buf h blank ∷ []
window-snoc blank buf cap h i zero hc hh hi e = rw (depth_of_zero cap h i hc hh hi e) refl
window-snoc blank buf cap h i (suc n) hc hh hi e =
    ap (λ l. get_or buf i blank ∷ l)
      (window-snoc blank buf cap h (increment cap i) n hc hh (increment-lt cap i hc hi)
        (omega (arith, depth_of-increment_tail cap h i hc hh hi (ground arith))))
