-- ===== src/Rules/Engine/Contexts.antt =====
-- The contexts that a rule keeps for each key: the one in use outlives the pruning, and an
-- evaluation of one key leaves the contexts of the others.
use minilisysm.Prelude.{
  ℕ, ◌^◌, ◌<◌, ◌≡◌, ◌≢◌, refl, Bool, false, not, ◌||◌, some, Bytes, Eq, nat_eq, bytes_equality, ℤ,
  pos, arith, inl, inr, Bool-cases,
}
use minilisysm.Double.{Double}
use minilisysm.Config.{MonitorConfig}
use minilisysm.Map.{Map, find, assign, erase_if, find-assign, find-erase_if, beq_self}
use minilisysm.Samples.{SchedDelaySample}
use minilisysm.Rules.Threshold.{RuleContext}
use minilisysm.Rules.Engine.Keys.{
  IsInt32, sched_key, sched_key-injective, process_key, process_key-injective,
}
use minilisysm.Rules.Engine.Evaluate.{
  is_empty, not_positive, evaluate_sched_delay, evaluate_process_memory_growth,
}
use minilisysm.Rules.Engine.{
  RuleEngine, expired, state_ttl_ms, prune_expired_contexts, context_at, touch,
}

module _ {W : Type 0} ⦃d : Double W⦄ (config : MonitorConfig W) where
  -- A context seen at this moment has not expired.
  seen_now :
      (now_ms : ℕ) (c : RuleContext W)
      → now_ms < 2 ^ 64
      → config.state_ttl_sec < 2 ^ 32
      → expired now_ms (state_ttl_ms config) (record c { last_seen_ms = now_ms }) ≡ false
  unfolding expired
  seen_now now_ms c hn ht = ground arith

  -- The reference that an evaluation holds into a map stays valid while the map is pruned, with a
  -- 64-bit clock and a 32-bit time to live: the touched context is still there, as it was touched.
  pub touched_context_survives :
      {K : Type 0} ⦃e : Eq K⦄ (key : K) (now_ms : ℕ) (contexts : Map K (RuleContext W))
      → now_ms < 2 ^ 64
      → config.state_ttl_sec < 2 ^ 32
      → find key (erase_if (expired now_ms (state_ttl_ms config)) (touch key now_ms contexts))
        ≡ some (record (context_at key contexts) { last_seen_ms = now_ms })
  unfolding touch
  touched_context_survives key now_ms contexts hn ht =
      let c : RuleContext W = record (context_at key contexts) { last_seen_ms = now_ms } in
      find-erase_if (expired now_ms (state_ttl_ms config)) key c (assign key c contexts)
        (seen_now now_ms (context_at key contexts) hn ht)
        (rw (find-assign key key c contexts, beq_self key) refl)

  others_kept :
      {K : Type 0} ⦃e : Eq K⦄ (key j : K) (now_ms : ℕ) (contexts : Map K (RuleContext W))
      (c' c : RuleContext W)
      → key ≢ j
      → find j contexts ≡ some c
      → expired now_ms (state_ttl_ms config) c ≡ false
      → find j (
          assign key c'
            (erase_if (expired now_ms (state_ttl_ms config)) (touch key now_ms contexts)))
        ≡ some c
  unfolding touch
  others_kept ⦃e⦄ key j now_ms contexts c' c ne h live =
      let gone : RuleContext W → Bool = expired now_ms (state_ttl_ms config) in
      let t : RuleContext W = record (context_at key contexts) { last_seen_ms = now_ms } in
      let there : find j (assign key t contexts) ≡ some c =
        ground (arith, find-assign key j t contexts, e.beq_iff key j) in
      let kept = find-erase_if gone j c (assign key t contexts) live there in
      ground
        (arith, kept, find-assign key j c' (erase_if gone (assign key t contexts)), e.beq_iff key j)

  -- An evaluation of one thread leaves the context of every other pair of 32-bit process and thread
  -- ids that has one and has not expired.
  pub sched_delay_isolated :
      (now_ms later_ms : ℕ) (e : RuleEngine W) (s : SchedDelaySample) (pid tid : ℤ)
      (c : RuleContext W)
      → IsInt32 s.pid
      → IsInt32 s.tid
      → IsInt32 pid
      → IsInt32 tid
      → (s.pid ≡ pid → s.tid ≢ tid)
      → find (sched_key pid tid) e.sched_delay ≡ some c
      → expired now_ms (state_ttl_ms config) c ≡ false
      → find (sched_key pid tid) (evaluate_sched_delay config now_ms later_ms e s).1.sched_delay
        ≡ some c
  unfolding evaluate_sched_delay prune_expired_contexts
  sched_delay_isolated now_ms later_ms e s pid tid c h1 h2 h3 h4 ne h live =
      elim (Bool-cases (not config.sched_delay_enable || not s.valid)) [
        | inl skip ↦ rw skip h
        | inr go ↦ rw go (
            others_kept (sched_key s.pid s.tid) (sched_key pid tid) now_ms e.sched_delay _ c
              (λ same.
                let (p, t) = sched_key-injective s.pid s.tid pid tid h1 h2 h3 h4 same in ne p t)
              h live)
      ]

  -- An evaluation of one process leaves the context of every other pair of a name and a non-
  -- negative 32-bit process id that has one and has not expired.
  pub process_memory_isolated :
      (now_ms later_ms : ℕ) (e : RuleEngine W) (name name' : Bytes) (n n' : ℕ) (growth_mb : W)
      (c : RuleContext W)
      → n < 2 ^ 31
      → n' < 2 ^ 31
      → (name ≡ name' → n ≢ n')
      → find (process_key name' (pos n')) e.process_memory ≡ some c
      → expired now_ms (state_ttl_ms config) c ≡ false
      → find
          (process_key name' (pos n'))
          (evaluate_process_memory_growth config now_ms later_ms e name
            (pos n)
            growth_mb).1.process_memory
        ≡ some c
  unfolding evaluate_process_memory_growth prune_expired_contexts
  process_memory_isolated now_ms later_ms e name name' n n' growth_mb c hn hn' ne h live =
      elim (Bool-cases
        (not config.process_memory_enable || is_empty name || not_positive (pos n))) [
          | inl skip ↦ rw skip h
          | inr go ↦ rw go (
              others_kept (process_key name (pos n)) (process_key name' (pos n')) now_ms
                e.process_memory _ c
                (λ same. let (p, t) = process_key-injective name name' n n' hn hn' same in ne p t) h
                live)
        ]
