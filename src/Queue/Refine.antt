-- ===== src/Queue/Refine.antt =====
-- A valid ring behaves as the queue of the items that it holds.
use minilisysm.Prelude.{
  ℕ, suc, ◌+◌, ◌≤◌, ◌<◌, ◌≡◌, refl, ap, inl, inr, Bool, true, false, List, [], ◌∷◌, arith, set, ◌≢◌,
  sym, not, ◌^◌, Bool-cases, ◌==◌, ==_iff, add-one, Option, some, none, get_or, ◌++◌,
}
use minilisysm.Event.{EventLevel, critical}
use minilisysm.Queue.{
  Ring, push, pop, record_drop, update_high_watermark, increment, depth, depth_of, usable_capacity,
  should_reject_for_reserve,
}
use minilisysm.Queue.Spec
use minilisysm.Queue.Spec.{Policy, Op, pushes, pops, Reply, pushed, popped, accepts}
use minilisysm.Queue.Window.{
  window, length-window, increment-lt, depth_of-lt, depth_of_full, depth_of-increment_tail,
  depth_of-increment_head, window-set,
}
use minilisysm.Queue.Inv.{IsValid}

accepts-full :
    (p : Policy) (count : ℕ) (level : EventLevel) → p.usable ≤ count → accepts p count level ≡ false
accepts-full p count critical h = ground arith
accepts-full p count _ h = ground arith

module _ {ℓ} {A : Type ℓ} where
  -- The items that the ring holds, oldest first.
  abbrev pub contents : A → Ring A → List A
  contents blank r = window blank r.buffer r.capacity r.tail (depth r)

  abbrev pub policy : Ring A → Policy
  policy r = record {
    usable = usable_capacity r;
    reserved = r.critical_reserved_slots;
    drop_info = r.drop_info_when_reserved;
    drop_warning = r.drop_warning_when_reserved;
  }

  -- A ring with room turns away the levels that the policy turns away.
  should_reject-eq :
      (r : Ring A) (level : EventLevel)
      → r.capacity < 2 ^ 64
      → depth r + 1 < r.capacity
      → should_reject_for_reserve r level ≡ not (accepts (policy r) (depth r) level)
  unfolding should_reject_for_reserve
  should_reject-eq r critical hc hd = ground arith
  should_reject-eq r _ hc hd = ground arith

  -- The ring after an accepted push.
  abbrev pub stored : Ring A → A → Ring A
  stored r item =
      update_high_watermark
        (record r { buffer = set r.buffer r.head item; head = increment r.capacity r.head })

  depth-full :
      (r : Ring A) → IsValid r → increment r.capacity r.head ≡ r.tail → depth r + 1 ≡ r.capacity
  unfolding depth
  depth-full r v = depth_of_full r.capacity r.head r.tail v.word v.head_in v.tail_in

  depth-stored :
      (r : Ring A) (item : A)
      → IsValid r
      → increment r.capacity r.head ≢ r.tail
      → (depth (stored r item) ≡ depth r + 1) × (depth r + 1 < r.capacity)
  unfolding depth update_high_watermark
  depth-stored r item v ne =
      let one_more =
        depth_of-increment_head r.capacity r.head r.tail v.word v.head_in v.tail_in ne in
      let fits =
        depth_of-lt r.capacity (increment r.capacity r.head) r.tail v.word
          (increment-lt r.capacity r.head v.word v.head_in) v.tail_in in
      (one_more, omega arith)

  -- The three ways through `emplace`: the ring is full, the level is turned away, the item is stored.
  pub push_elim {κ} :
      (P : Bool × Ring A → Type κ) (r : Ring A) (item : A) (level : EventLevel)
      → IsValid r
      → (accepts (policy r) (depth r) level ≡ false
          → depth r + 1 ≡ r.capacity
          → P (false, record_drop r level false))
      → (accepts (policy r) (depth r) level ≡ false
          → depth r + 1 < r.capacity
          → P (false, record_drop r level true))
      → (accepts (policy r) (depth r) level ≡ true
          → depth (stored r item) ≡ depth r + 1
          → P (true, stored r item))
      → P (push r item level)
  unfolding push
  push_elim P r item level v full refused room =
      elim (Bool-cases (increment r.capacity r.head == r.tail)) [
        | inl e ↦
            let none_free = depth-full r v ((==_iff _ _).0 e) in
            rw (e, push) (full (accepts-full (policy r) (depth r) level (omega arith)) none_free)
        | inr e ↦
            let (deeper, fits) = depth-stored r item v (ground arith) in
            let same = should_reject-eq r level v.word fits in
            elim (Bool-cases (should_reject_for_reserve r level)) [
              | inl t ↦ rw (e, t) (refused (ground arith) fits)
              | inr t ↦ rw (e, t) (room (ground arith) deeper)
            ]
      ]

  -- The answer of `push` is the policy's, read off the depth.
  pub push-accepts :
      (r : Ring A) (item : A) (level : EventLevel)
      → IsValid r
      → (push r item level).0 ≡ accepts (policy r) (depth r) level
  push-accepts r item level v =
      push_elim (λ p. p.0 ≡ accepts (policy r) (depth r) level) r item level v (λ e _. sym e)
        (λ e _. sym e) (λ e _. sym e)

  pub policy-push :
      (r : Ring A) (item : A) (level : EventLevel)
      → IsValid r
      → policy (push r item level).1 ≡ policy r
  unfolding record_drop update_high_watermark
  policy-push r item level v =
      push_elim (λ p. policy p.1 ≡ policy r) r item level v (λ _ _. refl) (λ _ _. refl)
        (λ _ _. refl)

  pub pop_elim {κ} :
      (P : Option A × Ring A → Type κ) (blank : A) (r : Ring A)
      → IsValid r
      → (depth r ≡ 0 → P (none, r))
      → ((n : ℕ)
          → depth r ≡ suc n
          → depth (record r { tail = increment r.capacity r.tail }) ≡ n
          → P (
            some (get_or r.buffer r.tail blank),
            record r { tail = increment r.capacity r.tail },
          ))
      → P (pop blank r)
  unfolding pop depth
  pop_elim P blank r v empty oldest = elim (Bool-cases (r.tail == r.head)) [
    | inl e ↦ rw e (empty (ground arith))
    | inr e ↦
        let fewer =
          depth_of-increment_tail r.capacity r.head r.tail v.word v.head_in v.tail_in
            (ground arith) in
        rw e (oldest (depth_of r.capacity r.head (increment r.capacity r.tail)) (omega arith) refl)
  ]

  pub policy-pop : (blank : A) (r : Ring A) → IsValid r → policy (pop blank r).1 ≡ policy r
  policy-pop blank r v = pop_elim (λ p. policy p.1 ≡ policy r) blank r v (λ _. refl) (λ _ _ _. refl)

  contents-stored :
      (blank : A) (r : Ring A) (item : A)
      → IsValid r
      → depth (stored r item) ≡ depth r + 1
      → contents blank (stored r item) ≡ contents blank r ++ item ∷ []
  unfolding depth update_high_watermark
  contents-stored blank r item v e =
      rw (e, add-one)
        (window-set blank r.buffer r.capacity r.head item r.tail (depth r) v.word v.head_in
          v.tail_in (rw v.storage v.head_in) refl)

  -- An accepted item joins the end; a refused one leaves the items as they are.
  pub push_refines :
      (blank : A) (r : Ring A) (item : A) (level : EventLevel)
      → IsValid r
      → let (b, r') = push r item level in
        (b, contents blank r') ≡ Spec.push (policy r) (contents blank r) item level
  unfolding record_drop depth Spec.push
  push_refines blank r item level v =
      let size = length-window blank r.buffer r.capacity r.tail (depth r) in
      push_elim
        (λ (b, r'). (b, contents blank r') ≡ Spec.push (policy r) (contents blank r) item level) r
        item level v (λ e _. rw (size, e)) (λ e _. rw (size, e))
        (λ e d. rw (size, e) (ap (λ q. (true, q)) (contents-stored blank r item v d)))

  pub pop_refines :
      (blank : A) (r : Ring A)
      → IsValid r
      → let (o, r') = pop blank r in (o, contents blank r') ≡ Spec.pop (contents blank r)
  unfolding Spec.pop
  pop_refines blank r v =
      pop_elim (λ (o, r'). (o, contents blank r') ≡ Spec.pop (contents blank r)) blank r v
        (λ e. rw e) (λ n e f. rw (e, f))
