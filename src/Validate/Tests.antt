-- ===== src/Validate/Tests.antt =====
-- Validation at concrete configurations, with whole numbers for doubles.
use minilisysm.Prelude.{
  ℕ, ◌≡◌, refl, ◌↔◌, inr, true, false, none, some, [], ◌∷◌, arith, codes, digits, from_chars,
  break_at,
}
use minilisysm.Double.{whole_double, whole-IsOrdered}
use minilisysm.Config.{MonitorConfig, default_config}
use minilisysm.Ipv4.{valid_ipv4, valid_octets, valid_octet}
use minilisysm.Validate.{validate, validate_before_clients, validate_before_memory, validate_core}
use minilisysm.Validate.Ordered.{IsOrdered, validate-IsOrdered}
use minilisysm.Validate.Percents.{Numbers}
use minilisysm.Validate.Stable.{validate_idempotent}
use minilisysm.Validate.Thresholds.{InOrder, allowlist_refresh_zero, rule_of-InOrder}
use minilisysm.Rules.Engine.Calls.{Call, rule_of}

test_address : valid_ipv4 (codes "192.168.0.255") ≡ true
unfolding valid_octets valid_octet from_chars digits break_at
test_address = refl

test_address_octet : valid_ipv4 (codes "192.168.0.256") ≡ false
unfolding valid_octets valid_octet from_chars digits break_at
test_address_octet = refl

test_address_short : valid_ipv4 (codes "10.0.1") ≡ false
unfolding valid_octets valid_octet from_chars digits break_at
test_address_short = refl

test_address_port : valid_ipv4 (codes "10.0.0.1:80") ≡ false
unfolding valid_octets valid_octet from_chars digits break_at
test_address_port = refl

-- Out of range in several groups, with two refreshes of 0.
abbrev wild : MonitorConfig ℕ
wild =
    let c : MonitorConfig ℕ = default_config in
    record c {
      core = record c.core {
        fast_collect_interval_ms = 7;
        metrics_allowed_clients = codes "10.0.0.1" ∷ [];
      };
      queue = record c.queue { event_queue_capacity = 3; critical_reserved_slots = 900 };
      sched_delay = record c.sched_delay {
        sched_ebpf_allowlist_refresh_ms = 0;
        sched_proc_cache_refresh_ms = 0;
      };
      io_delay = record c.io_delay { io_await_critical_ms = 1 };
      cpu_usage = record c.cpu_usage { cpu_usage_critical_percent = 400 };
      network = record c.network { network_wal_segment_mb = 0 };
    }

abbrev bad_client : MonitorConfig ℕ
bad_client = record wild {
  core = record wild.core { metrics_allowed_clients = codes "localhost" ∷ [] };
}

abbrev wild_but_refresh : MonitorConfig ℕ
wild_but_refresh = record wild {
  sched_delay = record wild.sched_delay { sched_proc_cache_refresh_ms = 50 };
}

wild_accepted : (validate wild).0 ≡ none
unfolding validate validate_before_memory validate_before_clients validate_core valid_octets
    valid_octet from_chars digits break_at
wild_accepted = refl

wild_but_refresh_accepted : (validate wild_but_refresh).0 ≡ none
unfolding validate validate_before_memory validate_before_clients validate_core valid_octets
    valid_octet from_chars digits break_at
wild_but_refresh_accepted = refl

-- The clamps after a refused address are skipped.
test_bad_client :
    ((validate bad_client).0
      ≡ some (codes "metrics allowed_clients must contain valid IPv4 addresses"))
    × ((validate bad_client).1.critical_reserved_slots ≡ 900)
unfolding validate validate_before_memory validate_before_clients validate_core valid_octets
    valid_octet from_chars digits break_at
test_bad_client = (refl, refl)

validate-IsOrdered_example : IsOrdered (validate wild).1
validate-IsOrdered_example = validate-IsOrdered wild wild_accepted

numbers : Numbers wild.cpu_usage
numbers = record { warning_number = refl; critical_number = refl; recovery_number = refl }

validate_idempotent_example :
    validate (validate wild_but_refresh).1 ≡ (none, (validate wild_but_refresh).1)
validate_idempotent_example =
    validate_idempotent whole-IsOrdered wild_but_refresh wild_but_refresh_accepted numbers
      (inr (omega arith))

allowlist_refresh_zero_example :
    ((validate wild).1.sched_ebpf_allowlist_refresh_ms ≡ 0)
    ↔ ((wild.sched_ebpf_allowlist_refresh_ms ≡ 0) × (wild.sched_proc_cache_refresh_ms ≡ 0))
allowlist_refresh_zero_example = allowlist_refresh_zero wild wild_accepted

rule_of-InOrder_example : InOrder (rule_of (validate wild).1 (Call.self_rss 5))
rule_of-InOrder_example =
    rule_of-InOrder whole-IsOrdered wild (Call.self_rss 5) wild_accepted refl numbers
