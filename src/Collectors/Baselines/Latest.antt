-- ===== src/Collectors/Baselines/Latest.antt =====
-- After a round, the baseline of a target is its latest reading, and pruning leaves that of a target
-- that is read again, however long ago it was read before.
use minilisysm.Prelude.{
  ℕ, ◌<◌, ◌^◌, ◌≡◌, refl, ◌∙◌, false, Option, some, none, [], ◌∷◌, Bytes, bytes_equality, arith,
  sub64, leb, Bool-cases, inl, inr, bytes_eq,
}
use minilisysm.Map.{Map, Distinct, find, assign, assign-Distinct, find-assign, find-erase}
use minilisysm.Collectors.Baselines.{
  Baselines, ttl_ms, note_seen, prune, prune_baselines, scan, sampled, counted, collect_current,
}
use minilisysm.Collectors.Baselines.Kept.{find-note_seen, scan-targets}

module _ {S : Type 0} where
  note_seen-Distinct :
      (now_ms : ℕ) (current : Map Bytes S) (seen : Map Bytes ℕ)
      → Distinct seen
      → Distinct (note_seen now_ms current seen)
  unfolding note_seen
  note_seen-Distinct now_ms [] seen h = h
  note_seen-Distinct now_ms ((target, stats) ∷ current) seen h =
      note_seen-Distinct now_ms current (assign target now_ms seen)
        (assign-Distinct target now_ms seen h)

  prune-none :
      (now_ms ttl : ℕ) (seen : Map Bytes ℕ) (b : Map Bytes S) (k : Bytes)
      → find k seen ≡ none
      → find k (prune now_ms ttl seen b).0 ≡ none
  unfolding prune find
  prune-none now_ms ttl [] b k h = h
  prune-none now_ms ttl ((target, last_ms) ∷ seen) b k h =
      let rest = λ (c : Map Bytes S). prune-none now_ms ttl seen c k in
      elim (Bool-cases (leb ttl (sub64 now_ms last_ms))) [
        | inl gone ↦ rw gone (rest _ (ground arith))
        | inr stays ↦ rw stays (ground (arith, rest b))
      ]

  prune-Distinct :
      (now_ms ttl : ℕ) (seen : Map Bytes ℕ) (b : Map Bytes S)
      → Distinct seen
      → Distinct (prune now_ms ttl seen b).0
  unfolding prune
  prune-Distinct now_ms ttl [] b h = tt
  prune-Distinct now_ms ttl ((target, last_ms) ∷ seen) b h =
      elim (Bool-cases (leb ttl (sub64 now_ms last_ms))) [
        | inl gone ↦ rw gone (prune-Distinct now_ms ttl seen _ h.1)
        | inr stays ↦
            rw stays (prune-none now_ms ttl seen b target h.0, prune-Distinct now_ms ttl seen b h.1)
      ]

  prune-others :
      (now_ms ttl : ℕ) (seen : Map Bytes ℕ) (b : Map Bytes S) (k : Bytes)
      → find k seen ≡ none
      → find k (prune now_ms ttl seen b).1 ≡ find k b
  unfolding prune find
  prune-others now_ms ttl [] b k h = refl
  prune-others now_ms ttl ((target, last_ms) ∷ seen) b k h =
      let rest = λ (c : Map Bytes S). prune-others now_ms ttl seen c k in
      elim (Bool-cases (leb ttl (sub64 now_ms last_ms))) [
        | inl gone ↦ rw gone (rest _ (ground arith) ∙ ground (arith, find-erase target k b))
        | inr stays ↦ rw stays (rest b (ground arith))
      ]

  prune-kept :
      (now_ms ttl : ℕ) (seen : Map Bytes ℕ) (b : Map Bytes S) (k : Bytes) (last_ms : ℕ)
      → Distinct seen
      → find k seen ≡ some last_ms
      → leb ttl (sub64 now_ms last_ms) ≡ false
      → find k (prune now_ms ttl seen b).1 ≡ find k b
  unfolding prune find
  prune-kept now_ms ttl [] b k last_ms d h live = refl
  prune-kept now_ms ttl ((target, last_ms') ∷ seen) b k last_ms d h live =
      let rest = λ (c : Map Bytes S). prune-kept now_ms ttl seen c k last_ms d.1 in
      elim (Bool-cases (bytes_eq target k)) [
        | inl same ↦
            let keys : target ≡ k = (bytes_equality.beq_iff target k).0 same in
            let e : last_ms' ≡ last_ms = ground (arith, same) in
            rw (e, live) (prune-others now_ms ttl seen b k (rw (← keys) d.0))
        | inr other ↦ elim (Bool-cases (leb ttl (sub64 now_ms last_ms'))) [
          | inl gone ↦
              rw gone
                (rest _ (ground (arith, other)) live ∙ ground (arith, other, find-erase target k b))
          | inr stays ↦ rw stays (rest b (ground (arith, other)) live)
        ]
      ]

  -- A round prunes no target that it reads.
  pub prune_baselines-read :
      (state_ttl_sec now_ms : ℕ) (current : Map Bytes S) (c : Baselines S) (k : Bytes) (stats : S)
      → now_ms < 2 ^ 64
      → state_ttl_sec < 2 ^ 32
      → Distinct c.baseline_last_seen_ms
      → find k current ≡ some stats
      → let noted = record c {
        baseline_last_seen_ms = note_seen now_ms current c.baseline_last_seen_ms;
      } in
        find k (prune_baselines state_ttl_sec now_ms noted).baselines ≡ find k c.baselines
  prune_baselines-read state_ttl_sec now_ms current c k stats hn ht d present =
      let seen = c.baseline_last_seen_ms in
      let live : leb (ttl_ms state_ttl_sec) (sub64 now_ms now_ms) ≡ false = ground arith in
      prune-kept now_ms (ttl_ms state_ttl_sec) (note_seen now_ms current seen) c.baselines k now_ms
        (note_seen-Distinct now_ms current seen d)
        (ground (arith, find-note_seen now_ms current seen k, present)) live

module _ {S T : Type 0} (sample : Bytes → S → S → Option T) where
  scan-latest :
      (n : ℕ) (current b : Map Bytes S) (k : Bytes) (stats : S)
      → Distinct current
      → find k current ≡ some stats
      → find k (scan sample (λ _. false) n current b).1 ≡ some stats
  unfolding scan find
  scan-latest n [] b k stats d h = absurd (ground arith)
  scan-latest n ((target, s) ∷ current) b k stats d h =
      let t = sampled sample (find target b) target s in
      let b' = assign target s b in
      elim (Bool-cases (bytes_eq target k)) [
        | inl same ↦
            let keys : target ≡ k = (bytes_equality.beq_iff target k).0 same in
            let last =
              scan-targets sample (λ _. false) (counted t n) current b' k (rw (← keys) d.0) in
            ground (arith, last, same, find-assign target k s b)
        | inr other ↦
            let rest = scan-latest (counted t n) current b' k stats d.1 (ground (arith, other)) in
            ground (arith, rest)
      ]

  -- After a round, each target that it read has its reading for a baseline, and each target has one
  -- time for when it was seen last.
  pub collect_current-latest :
      (state_ttl_sec now_ms : ℕ) (current : Map Bytes S) (c : Baselines S) (k : Bytes) (stats : S)
      → Distinct current
      → Distinct c.baseline_last_seen_ms
      → find k current ≡ some stats
      → let c' = (collect_current sample (λ _. false) state_ttl_sec now_ms current c).1 in
        (find k c'.baselines ≡ some stats) × Distinct c'.baseline_last_seen_ms
  unfolding collect_current
  collect_current-latest state_ttl_sec now_ms current c k stats d seen_once present =
      let seen = note_seen now_ms current c.baseline_last_seen_ms in
      (
        scan-latest 0 current _ k stats d present,
        prune-Distinct now_ms (ttl_ms state_ttl_sec) seen c.baselines
            (note_seen-Distinct now_ms current c.baseline_last_seen_ms seen_once),
      )
