-- ===== src/Collectors/Baselines.antt =====
-- What IoDelayCollector and CpuUsageCollector do alike in src/collectors: the baseline of each
-- target, when it was seen last, and the loop over the current readings. `S` is a reading of one
-- target, and `T` a sample.
pub mod Kept
pub mod Deltas
pub mod Latest
use minilisysm.Prelude.{
  ℕ, ◌+◌, ◌*◌, Bool, true, false, Option, none, some, List, [], ◌∷◌, Bytes, bytes_equality, sub64,
  mul64, leb, ◌==◌, if◌then◌else◌,
}
use minilisysm.Map.{Map, find, assign, erase}

pub record Baselines (S : Type 0) : Type 0 where
  pub baselines : Map Bytes S
  pub baseline_last_seen_ms : Map Bytes ℕ

abbrev pub ttl_ms : ℕ → ℕ
ttl_ms state_ttl_sec = mul64 (if state_ttl_sec == 0 then 3600 else state_ttl_sec) 1000

abbrev pub nothing_read : {S : Type 0} → Map Bytes S → Bool
nothing_read [] = true
nothing_read (x ∷ current) = false

-- How many samples there are with this one.
abbrev pub counted : {T : Type 0} → Option T → ℕ → ℕ
counted none n = n
counted (some t) n = n + 1

module _ {S : Type 0} where
  -- `baseline_last_seen_ms_[target] = now_ms` for all that was read.
  unfoldable pub note_seen : ℕ → Map Bytes S → Map Bytes ℕ → Map Bytes ℕ
  note_seen now_ms [] seen = seen
  note_seen now_ms ((target, stats) ∷ current) seen =
      note_seen now_ms current (assign target now_ms seen)

  -- The loop of prune_baselines over what was seen last, which erases from both maps.
  unfoldable pub prune : ℕ → ℕ → Map Bytes ℕ → Map Bytes S → Map Bytes ℕ × Map Bytes S
  prune now_ms ttl [] b = ([], b)
  prune now_ms ttl ((target, last_ms) ∷ seen) b =
      let gone = leb ttl (sub64 now_ms last_ms) in
      let (seen', b') = prune now_ms ttl seen (if gone then erase target b else b) in
      (if gone then seen' else (target, last_ms) ∷ seen', b')

  abbrev pub prune_baselines : ℕ → ℕ → Baselines S → Baselines S
  prune_baselines state_ttl_sec now_ms c =
      let (seen, b) = prune now_ms (ttl_ms state_ttl_sec) c.baseline_last_seen_ms c.baselines in
      record { baselines = b; baseline_last_seen_ms = seen }

  module _ {T : Type 0} (sample : Bytes → S → S → Option T) where
    -- What one target adds: nothing without a baseline, and where `sample` says `continue`.
    abbrev pub sampled : Option S → Bytes → S → Option T
    sampled none target stats = none
    sampled (some previous) target stats = sample target previous stats

  -- The rest of the loop is left out after a sample with which there are enough.
  abbrev pub onward :
      {T : Type 0} → Option T → Bool → Map Bytes S → List T × Map Bytes S → List T × Map Bytes S
  onward none stop b rest = rest
  onward (some t) true b rest = (t ∷ [], b)
  onward (some t) false b rest = (t ∷ rest.0, rest.1)

  module _ {T : Type 0} (sample : Bytes → S → S → Option T) (enough : ℕ → Bool) where
    -- The loop of `collect` over the readings, after `n` samples. The baseline of each target that
    -- it gets to is set to the reading.
    unfoldable pub scan : ℕ → Map Bytes S → Map Bytes S → List T × Map Bytes S
    scan n [] b = ([], b)
    scan n ((target, stats) ∷ current) b =
        let t = sampled sample (find target b) target stats in
        let b' = assign target stats b in
        let rest = scan (counted t n) current b' in onward t (enough (counted t n)) b' rest

    -- From the readings on.
    unfoldable pub collect_current : ℕ → ℕ → Map Bytes S → Baselines S → List T × Baselines S
    collect_current state_ttl_sec now_ms current c =
        let noted = record c {
          baseline_last_seen_ms = note_seen now_ms current c.baseline_last_seen_ms;
        } in
        let p = prune_baselines state_ttl_sec now_ms noted in
        let (ts, b) = scan 0 current p.baselines in (ts, record p { baselines = b })
