-- ===== src/Collectors/Baselines/Kept.antt =====
-- The baselines do not outlive what was seen last, so that pruning bounds both maps.
use minilisysm.Prelude.{
  ℕ, ◌<◌, ◌^◌, ◌≡◌, ◌≢◌, refl, Bool, false, Option, none, some, [], ◌∷◌, Bytes, bytes_equality,
  bytes_eq, arith, sub64, leb, Bool-cases, Option-cases, if◌then◌else◌,
}
use minilisysm.Prelude.{subst, inl, inr}
use minilisysm.Map.{Map, find, assign, erase, find-assign, find-erase}
use minilisysm.Collectors.Baselines.{
  Baselines, ttl_ms, note_seen, prune, scan, sampled, counted, collect_current,
}

-- Every target with a baseline has been seen.
abbrev pub Tracked : {S : Type 0} → Map Bytes ℕ → Map Bytes S → Type 0
Tracked seen b = (k : Bytes) → find k b ≢ none → find k seen ≢ none

module _ {S : Type 0} where
  pub find-note_seen :
      (now_ms : ℕ) (current : Map Bytes S) (seen : Map Bytes ℕ) (k : Bytes)
      → find k (note_seen now_ms current seen)
        ≡ elim (find k current) [ none ↦ find k seen | some stats ↦ some now_ms ]
  unfolding note_seen find
  find-note_seen now_ms [] seen k = refl
  find-note_seen now_ms ((target, stats) ∷ current) seen k =
      let rest = find-note_seen now_ms current (assign target now_ms seen) k in
      ground (arith, rest, find-assign target k now_ms seen)

  prune-gone :
      (now_ms ttl : ℕ) (seen : Map Bytes ℕ) (b : Map Bytes S) (k : Bytes)
      → find k b ≡ none
      → find k (prune now_ms ttl seen b).1 ≡ none
  unfolding prune
  prune-gone now_ms ttl [] b k h = h
  prune-gone now_ms ttl ((target, last_ms) ∷ seen) b k h =
      prune-gone now_ms ttl seen _ k (ground (arith, find-erase target k b))

  prune-Tracked :
      (now_ms ttl : ℕ) (seen : Map Bytes ℕ) (b : Map Bytes S) (k : Bytes)
      → (find k b ≢ none → find k seen ≢ none)
      → find k (prune now_ms ttl seen b).1 ≢ none
      → find k (prune now_ms ttl seen b).0 ≢ none
  unfolding prune find
  prune-Tracked now_ms ttl [] b k h = h
  prune-Tracked now_ms ttl ((target, last_ms) ∷ seen) b k h =
      elim (Bool-cases (leb ttl (sub64 now_ms last_ms))) [
        | inl gone ↦ rw gone (
            prune-Tracked now_ms ttl seen (erase target b) k
              (ground (arith, find-erase target k b, h)))
        | inr live ↦ rw live (λ there. elim (Bool-cases (bytes_eq target k)) [
          | inl same ↦ rw same (ground arith)
          | inr other ↦ rw other (
              prune-Tracked now_ms ttl seen b k
                (λ n. subst (λ x. (if x then some last_ms else find k seen) ≢ none) other (h n))
                there)
        ])
      ]

  -- What was just seen is not pruned.
  prune-live :
      (now_ms ttl : ℕ) (seen : Map Bytes ℕ) (b : Map Bytes S) (k : Bytes) (last_ms : ℕ)
      → find k seen ≡ some last_ms
      → leb ttl (sub64 now_ms last_ms) ≡ false
      → find k (prune now_ms ttl seen b).0 ≡ some last_ms
  unfolding prune find
  prune-live now_ms ttl [] b k last_ms h live = h
  prune-live now_ms ttl ((target, last_ms') ∷ seen) b k last_ms h live =
      let rest = λ (c : Map Bytes S). prune-live now_ms ttl seen c k last_ms in
      elim (Bool-cases (bytes_eq target k)) [
        | inl same ↦ let e : last_ms' ≡ last_ms = ground (arith, same) in rw (e, live, same) refl
        | inr other ↦ elim (Bool-cases (leb ttl (sub64 now_ms last_ms'))) [
          | inl gone ↦ rw gone (rest _ (ground (arith, other)) live)
          | inr stays ↦ rw (stays, other) (rest b (ground (arith, other)) live)
        ]
      ]

module _ {S T : Type 0} (sample : Bytes → S → S → Option T) (enough : ℕ → Bool) where
  -- The loop gives baselines to current targets only.
  pub scan-targets :
      (n : ℕ) (current b : Map Bytes S) (k : Bytes)
      → find k current ≡ none
      → find k (scan sample enough n current b).1 ≡ find k b
  unfolding scan find
  scan-targets n [] b k h = refl
  scan-targets n ((target, stats) ∷ current) b k h =
      let t = sampled sample (find target b) target stats in
      let rest = scan-targets (counted t n) current (assign target stats b) k in
      ground (arith, rest, find-assign target k stats b)

  pub collect_current-Tracked :
      (state_ttl_sec now_ms : ℕ) (current : Map Bytes S) (c : Baselines S)
      → now_ms < 2 ^ 64
      → state_ttl_sec < 2 ^ 32
      → Tracked c.baseline_last_seen_ms c.baselines
      → let c' = (collect_current sample enough state_ttl_sec now_ms current c).1 in
        Tracked c'.baseline_last_seen_ms c'.baselines
  unfolding collect_current
  collect_current-Tracked state_ttl_sec now_ms current c hn ht tracked k =
      let seen = note_seen now_ms current c.baseline_last_seen_ms in
      let ttl = ttl_ms state_ttl_sec in
      let noted = find-note_seen now_ms current c.baseline_last_seen_ms k in
      elim (Option-cases (find k current)) [
        | inl absent ↦
            rw (scan-targets 0 current _ k absent) (
              prune-Tracked now_ms ttl seen c.baselines k
                (ground (arith, noted, tracked k, absent)))
        | inr (stats, present) ↦ λ _.
            let live : leb ttl (sub64 now_ms now_ms) ≡ false = ground arith in
            rw
              (prune-live now_ms ttl seen c.baselines k now_ms (ground (arith, noted, present))
                live)
              (ground arith)
      ]
