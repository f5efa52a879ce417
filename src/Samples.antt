-- ===== src/Samples.antt =====
-- The records that the collectors hand to the rules: collectors/*.hpp,
-- interfaces/sched_delay_collector.hpp and QueueSnapshot of rules/rule_engine.hpp, all under
-- include/minilisysm/.
use minilisysm.Prelude.{ℕ, Bool, ℤ, Bytes}

pub record MeminfoSample : Type 0 where
  pub mem_total_kb : ℕ
  pub mem_available_kb : ℕ
  pub swap_free_kb : ℕ
  pub sreclaimable_kb : ℕ
  pub sunreclaim_kb : ℕ
  pub valid : Bool

pub record CpuUsageSample (W : Type 0) : Type 0 where
  pub cpu : Bytes
  pub usage_percent : W
  pub delta_total_jiffies : ℕ
  pub delta_idle_jiffies : ℕ
  pub valid : Bool

pub record IoDelaySample (W : Type 0) : Type 0 where
  pub device : Bytes
  pub delta_io_count : ℕ
  pub avg_await_ms : W
  pub util_percent : W
  pub in_flight : ℕ
  pub valid : Bool

pub record SchedDelaySample : Type 0 where
  pub pid : ℤ
  pub tid : ℤ
  pub delta_wait_sum_us : ℕ
  pub delta_involuntary_switches : ℕ
  pub max_wait_us : ℕ
  pub avg_wait_us : ℕ
  pub aggregate_count : ℕ
  pub valid : Bool

pub record QueueSnapshot : Type 0 where
  pub push_fail_count : ℕ
  pub dropped_count : ℕ
  pub dropped_critical_count : ℕ
  pub reserve_reject_count : ℕ
  pub dispatcher_sink_push_failures : ℕ
  pub sink_dropped_count : ℕ
  pub sink_dropped_critical_count : ℕ
  pub sink_reserve_reject_count : ℕ
  pub depth : ℕ
  pub capacity : ℕ
  pub high_watermark : ℕ
  pub sink_depth : ℕ
  pub sink_capacity : ℕ
  pub sink_high_watermark : ℕ
