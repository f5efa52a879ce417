-- ===== src/Queue/Inv.antt =====
-- The representation invariant of the ring: the indices lie in the buffer, and the high-watermark
-- is at least the depth.
use minilisysm.Prelude.{
  ℕ, ◌+◌, ◌^◌, ◌≤◌, ◌<◌, ◌≡◌, Bool, length, length-set, length-replicate, arith,
}
use minilisysm.Event.{EventLevel}
use minilisysm.Queue.{Ring, init, push, pop, record_drop, update_high_watermark, increment, depth}
use minilisysm.Queue.Window.{
  increment-lt, depth_of-lt, depth_of-increment_tail, depth_of-increment_head,
}

pub record IsValid {ℓ} {A : Type ℓ} (r : Ring A) : Type 0 where
  pub word : r.capacity < 2 ^ 64
  pub storage : length r.buffer ≡ r.capacity
  pub head_in : r.head < r.capacity
  pub tail_in : r.tail < r.capacity
  pub watermark_in : r.high_watermark < r.capacity
  pub watermark_ge : depth r ≤ r.high_watermark

module _ {ℓ} {A : Type ℓ} where
  -- A new queue is valid and empty, if `capacity + 1` does not wrap.
  pub init-IsValid :
      (blank : A) (capacity reserved : ℕ) (drop_info drop_warning : Bool)
      → capacity + 1 < 2 ^ 64
      → IsValid (init blank capacity reserved drop_info drop_warning)
  unfolding init depth
  init-IsValid blank capacity reserved drop_info drop_warning h =
      ground (arith, length-replicate (capacity + 1) blank)

  pub depth-lt : (r : Ring A) → IsValid r → depth r < r.capacity
  unfolding depth
  depth-lt r v = depth_of-lt r.capacity r.head r.tail v.word v.head_in v.tail_in

  pub pop-IsValid : (blank : A) (r : Ring A) → IsValid r → IsValid (pop blank r).1
  unfolding pop depth
  pop-IsValid blank r v = ground (
    arith,
    increment-lt r.capacity r.tail v.word v.tail_in,
    depth_of-increment_tail r.capacity r.head r.tail v.word v.head_in v.tail_in,
  )

  pub push-IsValid :
      (r : Ring A) (item : A) (level : EventLevel) → IsValid r → IsValid (push r item level).1
  unfolding push record_drop update_high_watermark depth
  push-IsValid r item level v = ground (
    arith,
    length-set r.buffer r.head item,
    increment-lt r.capacity r.head v.word v.head_in,
    depth_of-lt r.capacity (increment r.capacity r.head) r.tail v.word,
    depth_of-increment_head r.capacity r.head r.tail v.word v.head_in v.tail_in,
  )
