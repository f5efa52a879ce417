-- ===== src/Rules/Threshold.antt =====
-- RuleContext and RuleEngine::evaluate_threshold, the state machine of one rule. A function that
-- changes the context through its reference returns the new context beside its result.
use minilisysm.Prelude.{
  ℕ, Bool, true, false, not, ◌&&◌, ◌||◌, Option, none, some, u32, add64, sub64, mul64, ltb, leb,
  ◌==◌, if◌then◌else◌, ◌+◌,
}
use minilisysm.Double.{Double, fmax}
use minilisysm.Event.{EventLevel, EventType}

pub data RuleState : Type 0 where
  normal warning critical recovering disabled : RuleState

pub data RuleId : Type 0 where
  memory_pressure self_rss_pressure queue_pressure cpu_usage sched_delay io_delay : RuleId
  whitelisted_process_memory : RuleId

-- The enumerators' values.
abbrev pub rule_number : RuleId → ℕ
rule_number memory_pressure = 1001
rule_number self_rss_pressure = 2001
rule_number queue_pressure = 2002
rule_number cpu_usage = 2003
rule_number sched_delay = 3001
rule_number io_delay = 4001
rule_number whitelisted_process_memory = 5001

pub data ThresholdDirection : Type 0 where
  less_or_equal greater_or_equal : ThresholdDirection

abbrev pub is_normal : RuleState → Bool
is_normal normal = true
is_normal _ = false

abbrev pub is_critical_state : RuleState → Bool
is_critical_state critical = true
is_critical_state _ = false

abbrev pub is_disabled : RuleState → Bool
is_disabled disabled = true
is_disabled _ = false

pub record ThresholdRuleDefinition (W : Type 0) : Type 0 where
  pub rule_id : RuleId
  pub event_type : EventType
  pub direction : ThresholdDirection
  pub warning_threshold : W
  pub critical_threshold : W
  pub recovery_threshold : W
  pub warning_windows : ℕ
  pub critical_windows : ℕ
  pub recovery_windows : ℕ
  pub window_sec : ℕ

pub record RuleContext (W : Type 0) : Type 0 where
  pub state : RuleState
  pub hit_count : ℕ
  pub critical_hit_count : ℕ
  pub recovery_count : ℕ
  pub total_hit_count : ℕ
  pub first_seen_ms : ℕ
  pub last_seen_ms : ℕ
  pub last_activation_event_ms : ℕ
  pub notification_active : Bool
  pub max_value : W

-- The three flags that a rule passes besides its value.
pub record Triggers : Type 0 where
  pub external_warning_trigger : Bool
  pub external_critical_trigger : Bool
  pub external_recovery_blocked : Bool

module _ {W : Type 0} ⦃d : Double W⦄ where
  abbrev pub fresh_context : RuleContext W
  fresh_context = record {
    state = normal;
    hit_count = 0;
    critical_hit_count = 0;
    recovery_count = 0;
    total_hit_count = 0;
    first_seen_ms = 0;
    last_seen_ms = 0;
    last_activation_event_ms = 0;
    notification_active = false;
    max_value = d.of_nat 0;
  }

  -- `above_or_equal` or `below_or_equal`, as the direction says.
  abbrev pub reaches : ThresholdDirection → W → W → Bool
  reaches greater_or_equal value threshold = d.le threshold value
  reaches less_or_equal value threshold = d.le value threshold

  -- The comparison of `recovered`.
  abbrev pub falls_back : ThresholdDirection → W → W → Bool
  falls_back greater_or_equal value threshold = d.le value threshold
  falls_back less_or_equal value threshold = d.le threshold value

  unfoldable pub recovered : ThresholdRuleDefinition W → W → Bool → Bool
  recovered definition value extra_recovery_condition =
      if not extra_recovery_condition
      then false
      else falls_back definition.direction value definition.recovery_threshold

  unfoldable pub cooldown_active : ℕ → RuleContext W → ℕ → Bool
  cooldown_active cooldown_sec context now_ms =
      not (cooldown_sec == 0)
      && not (context.last_activation_event_ms == 0)
      && ltb (sub64 now_ms context.last_activation_event_ms) (mul64 cooldown_sec 1000)

  -- The branch of `critical_hit`.
  unfoldable pub on_critical :
      ThresholdRuleDefinition W → ℕ → Bool → RuleContext W → Option EventLevel × RuleContext W
  on_critical definition now_ms external_critical_trigger context =
      let c = record context {
        hit_count = u32 (context.hit_count + 1);
        critical_hit_count = u32 (context.critical_hit_count + 1);
        total_hit_count = add64 context.total_hit_count 1;
        recovery_count = 0;
      } in
      if (external_critical_trigger || leb definition.critical_windows c.critical_hit_count)
        && not (is_critical_state c.state)
      then (
        some EventLevel.critical,
        record c {
          state = critical;
          notification_active = true;
          last_activation_event_ms = now_ms;
        },
      )
      else (none, c)

  -- The branch of `warning_hit`.
  unfoldable pub on_warning :
      ℕ → ThresholdRuleDefinition W → ℕ → Bool → RuleContext W → Option EventLevel × RuleContext W
  on_warning cooldown_sec definition now_ms external_warning_trigger context =
      let c = record context {
        hit_count = u32 (context.hit_count + 1);
        total_hit_count = add64 context.total_hit_count 1;
        critical_hit_count = 0;
        recovery_count = 0;
      } in
      let w = record c { state = warning } in
      if (external_warning_trigger || leb definition.warning_windows c.hit_count)
        && is_normal c.state
      then if cooldown_active cooldown_sec w now_ms then (none, w) else (
        some EventLevel.warning,
        record w { notification_active = true; last_activation_event_ms = now_ms },
      )
      else (none, c)

  -- The branch of a value that has recovered in a state other than normal.
  unfoldable pub on_recovered :
      ThresholdRuleDefinition W → RuleContext W → Option EventLevel × RuleContext W
  on_recovered definition context =
      let c = record context { recovery_count = u32 (context.recovery_count + 1) } in
      let n = record c { state = normal; hit_count = 0; critical_hit_count = 0 } in
      if leb definition.recovery_windows c.recovery_count
      then if not n.notification_active
        then (none, n)
        else (some EventLevel.recovery, record n { notification_active = false })
      else (none, c)

  -- `now_ms` is what `clock_()` returns in the call.
  unfoldable pub evaluate_threshold :
      ℕ
      → ℕ
      → RuleContext W
      → ThresholdRuleDefinition W
      → W
      → Triggers
      → Option EventLevel × RuleContext W
  evaluate_threshold cooldown_sec now_ms context definition value triggers =
      let c = record context { last_seen_ms = now_ms; max_value = fmax context.max_value value } in
      let critical_hit =
        reaches definition.direction value definition.critical_threshold
        || triggers.external_critical_trigger in
      let warning_hit =
        reaches definition.direction value definition.warning_threshold
        || triggers.external_warning_trigger in
      if critical_hit
      then on_critical definition now_ms triggers.external_critical_trigger c
      else if warning_hit
      then on_warning cooldown_sec definition now_ms triggers.external_warning_trigger c
      else if recovered definition value (not triggers.external_recovery_blocked)
          && not (is_normal c.state)
      then on_recovered definition c
      else (none, record c { hit_count = 0; critical_hit_count = 0; recovery_count = 0 })
