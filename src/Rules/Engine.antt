-- ===== src/Rules/Engine.antt =====
-- src/rules/rule_engine.cpp: RuleEngine and its evaluations. `config` is the reference that the
-- engine keeps; each reading of the clock is an argument.
pub mod Keys
pub mod Definitions
pub mod Evaluate
pub mod Calls
pub mod Reports
pub mod Contexts
pub mod Drops
pub mod Order
use minilisysm.Prelude.{
  ℕ, Bool, true, false, not, ◌&&◌, ◌||◌, Option, none, some, List, [], Bytes, codes, Eq, nat_eq,
  bytes_equality, sub64, mul64, leb, ◌==◌, if◌then◌else◌,
}
use minilisysm.Double.{Double}
use minilisysm.Config.{MonitorConfig}
use minilisysm.Map.{Map, find, assign, erase_if}
use minilisysm.Rules.Threshold.{RuleState, RuleContext, Triggers, fresh_context}

pub record RuleEngine (W : Type 0) : Type 0 where
  pub memory : RuleContext W
  pub self_rss : RuleContext W
  pub cpu_usage : Map Bytes (RuleContext W)
  pub queue : RuleContext W
  pub last_queue_drop_count : ℕ
  pub last_queue_critical_drop_count : ℕ
  pub last_queue_dispatcher_failure_count : ℕ
  pub sched_delay : Map ℕ (RuleContext W)
  pub io_delay : Map Bytes (RuleContext W)
  pub process_memory : Map Bytes (RuleContext W)

abbrev pub no_triggers : Triggers
no_triggers = record {
  external_warning_trigger = false;
  external_critical_trigger = false;
  external_recovery_blocked = false;
}

module _ {W : Type 0} ⦃d : Double W⦄ where
  abbrev disabled_context : RuleContext W
  disabled_context = record fresh_context { state = RuleState.disabled }

  -- The constructor.
  unfoldable pub init : MonitorConfig W → RuleEngine W
  init config = record {
    memory = if config.memory_rule_enable then fresh_context else disabled_context;
    self_rss = if config.self_protection_enable then fresh_context else disabled_context;
    queue = if config.self_protection_enable then fresh_context else disabled_context;
    cpu_usage =
        if config.cpu_usage_enable then [] else (assign (codes "total") disabled_context []);
    last_queue_drop_count = 0;
    last_queue_critical_drop_count = 0;
    last_queue_dispatcher_failure_count = 0;
    sched_delay = [];
    io_delay = [];
    process_memory = [];
  }

  -- The lambda of prune_expired_contexts.
  unfoldable pub expired : ℕ → ℕ → RuleContext W → Bool
  expired now_ms ttl_ms context =
      not (context.last_seen_ms == 0) && leb ttl_ms (sub64 now_ms context.last_seen_ms)

  abbrev pub state_ttl_ms : MonitorConfig W → ℕ
  state_ttl_ms config =
      mul64 (if config.state_ttl_sec == 0 then 3600 else config.state_ttl_sec) 1000

  unfoldable pub prune_expired_contexts : MonitorConfig W → ℕ → RuleEngine W → RuleEngine W
  prune_expired_contexts config now_ms e =
      let gone = expired now_ms (state_ttl_ms config) in
      record e {
        cpu_usage = erase_if gone e.cpu_usage;
        sched_delay = erase_if gone e.sched_delay;
        io_delay = erase_if gone e.io_delay;
        process_memory = erase_if gone e.process_memory;
      }

  -- `map[key]`, which makes a context where there is none.
  abbrev pub context_at : {K : Type 0} ⦃e : Eq K⦄ → K → Map K (RuleContext W) → RuleContext W
  context_at key contexts = elim (find key contexts) [ none ↦ fresh_context | some c ↦ c ]

  -- `RuleContext& context = map[key]; context.last_seen_ms = now_ms;`
  unfoldable pub touch :
      {K : Type 0} ⦃e : Eq K⦄ → K → ℕ → Map K (RuleContext W) → Map K (RuleContext W)
  touch key now_ms contexts =
      assign key (record (context_at key contexts) { last_seen_ms = now_ms }) contexts
