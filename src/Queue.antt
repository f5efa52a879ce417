-- ===== src/Queue.antt =====
-- include/minilisysm/queue/spsc_ring_buffer.hpp: SpscRingBuffer, each operation as it runs when
-- the other thread stands still; `Queue.Threads` lets the two interleave. An operation that
-- changes the object returns the new one. `T` is trivially copyable in the program, so the slot
-- that `pop` moves from keeps its value.
pub mod Window
pub mod Spec
pub mod Inv
pub mod Refine
pub mod Run
pub mod Drain
pub mod Statistics
pub mod Reserve
pub mod Threads
mod Tests
use minilisysm.Prelude.{
  ℕ, ◌%◌, Bool, true, false, not, ◌&&◌, ◌||◌, Option, none, some, List, replicate, get_or, set,
  add64, sub64, leb, ltb, ◌==◌, if◌then◌else◌,
}
use minilisysm.Event.{EventLevel, is_critical, is_warning, is_info, is_recovery}

pub record Ring {ℓ} (A : Type ℓ) : Type ℓ where
  pub capacity : ℕ
  pub critical_reserved_slots : ℕ
  pub drop_info_when_reserved : Bool
  pub drop_warning_when_reserved : Bool
  pub buffer : List A
  pub head : ℕ
  pub tail : ℕ
  pub push_fail_count : ℕ
  pub dropped_info_count : ℕ
  pub dropped_warning_count : ℕ
  pub dropped_critical_count : ℕ
  pub reserve_reject_count : ℕ
  pub high_watermark : ℕ

pub record QueueStats : Type 0 where
  pub push_fail_count : ℕ
  pub dropped_info_count : ℕ
  pub dropped_warning_count : ℕ
  pub dropped_critical_count : ℕ
  pub reserve_reject_count : ℕ
  pub high_watermark : ℕ

-- `increment`, with the capacity as an argument.
abbrev pub increment : ℕ → ℕ → ℕ
increment capacity value = add64 value 1 % capacity

-- `depth` of the two indices that it loads.
abbrev pub depth_of : ℕ → ℕ → ℕ → ℕ
depth_of capacity head tail =
    if leb tail head then sub64 head tail else add64 (sub64 capacity tail) head

module _ {ℓ} {A : Type ℓ} where
  -- `buffer_(capacity_)` fills the vector with value-initialised items.
  unfoldable pub init : A → ℕ → ℕ → Bool → Bool → Ring A
  init blank capacity reserved drop_info drop_warning = record {
    capacity = add64 capacity 1;
    critical_reserved_slots = reserved;
    drop_info_when_reserved = drop_info;
    drop_warning_when_reserved = drop_warning;
    buffer = replicate (add64 capacity 1) blank;
    head = 0;
    tail = 0;
    push_fail_count = 0;
    dropped_info_count = 0;
    dropped_warning_count = 0;
    dropped_critical_count = 0;
    reserve_reject_count = 0;
    high_watermark = 0;
  }

  unfoldable pub depth : Ring A → ℕ
  depth r = depth_of r.capacity r.head r.tail

  abbrev pub usable_capacity : Ring A → ℕ
  usable_capacity r = sub64 r.capacity 1

  unfoldable pub stats : Ring A → QueueStats
  stats r = record {
    push_fail_count = r.push_fail_count;
    dropped_info_count = r.dropped_info_count;
    dropped_warning_count = r.dropped_warning_count;
    dropped_critical_count = r.dropped_critical_count;
    reserve_reject_count = r.reserve_reject_count;
    high_watermark = r.high_watermark;
  }

  -- `false` is `none`, with the object unchanged. `blank` stands for a read out of range.
  unfoldable pub pop : A → Ring A → Option A × Ring A
  pop blank r =
      if tail == head
      then (none, r)
      else (some (get_or buffer tail blank), record r { tail = increment capacity tail })
    where
      open r use {capacity, buffer, head, tail}

  -- The loop of compare-and-swaps ends with the larger of the two: only the producer writes.
  unfoldable pub update_high_watermark : Ring A → Ring A
  update_high_watermark r = record r {
    high_watermark = if ltb r.high_watermark (depth r) then depth r else r.high_watermark;
  }

  unfoldable pub should_reject_for_reserve : Ring A → EventLevel → Bool
  should_reject_for_reserve r level =
      let usable = usable_capacity r in
      let reserved =
        if leb usable r.critical_reserved_slots
        then sub64 usable 1
        else r.critical_reserved_slots in
      if is_critical level || r.critical_reserved_slots == 0
      then false
      else if is_warning level && not r.drop_warning_when_reserved
      then false
      else if (is_info level || is_recovery level) && not r.drop_info_when_reserved
      then false
      else if usable == 0
      then true
      else leb (sub64 usable (depth r)) reserved

  unfoldable pub record_drop : Ring A → EventLevel → Bool → Ring A
  record_drop r level rejected_by_reserve = record r {
    push_fail_count = add64 r.push_fail_count 1;
    reserve_reject_count =
        if rejected_by_reserve then add64 r.reserve_reject_count 1 else r.reserve_reject_count;
    dropped_critical_count =
        if is_critical level then add64 r.dropped_critical_count 1 else r.dropped_critical_count;
    dropped_warning_count =
        if is_warning level then add64 r.dropped_warning_count 1 else r.dropped_warning_count;
    dropped_info_count =
        if is_critical level || is_warning level
        then r.dropped_info_count
        else add64 r.dropped_info_count 1;
  }

  -- Both `push` overloads are `emplace`.
  unfoldable pub push : Ring A → A → EventLevel → Bool × Ring A
  push r item level =
      let next = increment r.capacity r.head in
      if next == r.tail
      then (false, record_drop r level false)
      else if should_reject_for_reserve r level
      then (false, record_drop r level true)
      else (
        true,
        update_high_watermark (record r { buffer = set r.buffer r.head item; head = next }),
      )
