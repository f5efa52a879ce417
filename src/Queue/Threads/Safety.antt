-- ===== src/Queue/Threads/Safety.antt =====
-- What holds in every state that the two threads reach.
use minilisysm.Prelude.{
  ℕ, ◌+◌, ◌^◌, ◌<◌, ◌≡◌, refl, ◌≢◌, sym, ap, ◌∙◌, subst, true, false, [], ◌∷◌, ◌++◌, get_or, set,
  length, length-set, arith, get_or-set_self, get_or-set_ne, append_assoc, add-one, Bool,
  length-replicate,
}
use minilisysm.Event.{EventLevel}
use minilisysm.Queue.{Ring, init, increment, depth, record_drop, update_high_watermark}
use minilisysm.Queue.Window.{
  increment-lt, depth_of_full, depth_of_zero, depth_of-increment_tail, depth_of-increment_head,
  depth_of-lt, window-set_same, window-snoc,
}
use minilisysm.Queue.Refine.{contents}
use minilisysm.Queue.Threads.{
  Producer, idle, checked, admitted, written, published, start, Consumer, waiting, loaded, taken,
  State, Step, full, check, refuse, admit, write, publish, mark, empty, load, take, release, Reach,
  here, next,
}

pub record InBounds {A : Type 0} (r : Ring A) : Type 0 where
  pub word : r.capacity < 2 ^ 64
  pub storage : length r.buffer ≡ r.capacity
  pub head_in : r.head < r.capacity
  pub tail_in : r.tail < r.capacity

module _ {A : Type 0} (blank : A) where
  -- Past its test the producer has a slot to itself, and then the item in it.
  abbrev pub ProducerOk : Ring A → Producer A → Type 0
  ProducerOk r (checked x l) = depth r + 1 < r.capacity
  ProducerOk r (admitted x) = depth r + 1 < r.capacity
  ProducerOk r (written x) = (depth r + 1 < r.capacity) × (get_or r.buffer r.head blank ≡ x)
  ProducerOk r _ = Unit

  -- Past its test the consumer has the oldest item to itself.
  abbrev pub ConsumerOk : Ring A → Consumer A → Type 0
  ConsumerOk r waiting = Unit
  ConsumerOk r loaded = 0 < depth r
  ConsumerOk r (taken x) = (0 < depth r) × (get_or r.buffer r.tail blank ≡ x)

  pub record Inv (s : State A) : Type 0 where
    pub bounds : InBounds s.ring
    pub producer_ok : ProducerOk s.ring s.producer
    pub consumer_ok : ConsumerOk s.ring s.consumer
    pub fifo : s.sent ≡ s.received ++ contents blank s.ring

  depth_pos : (r : Ring A) → InBounds r → r.tail ≢ r.head → 0 < depth r
  unfolding depth
  depth_pos r b ne = grind (arith, depth_of_zero r.capacity r.head r.tail)

  depth_room :
      (r : Ring A) → InBounds r → increment r.capacity r.head ≢ r.tail → depth r + 1 < r.capacity
  unfolding depth
  depth_room r b ne =
      let more = depth_of-increment_head r.capacity r.head r.tail b.word b.head_in b.tail_in ne in
      let fits =
        depth_of-lt r.capacity (increment r.capacity r.head) r.tail b.word
          (increment-lt r.capacity r.head b.word b.head_in) b.tail_in in
      omega arith

  -- The slot of the producer is not the slot of the consumer.
  apart : (r : Ring A) → InBounds r → 0 < depth r → r.head ≢ r.tail
  unfolding depth
  apart r b pos = ground arith

  holds_item : (r : Ring A) (c : Consumer A) → c ≢ waiting → ConsumerOk r c → 0 < depth r
  holds_item r waiting busy ok = absurd (busy refl)
  holds_item r loaded busy ok = ok
  holds_item r (taken x) busy ok = ok.0

  ConsumerOk-write :
      (r : Ring A) (x : A) (c : Consumer A)
      → InBounds r
      → ConsumerOk r c
      → ConsumerOk (record r { buffer = set r.buffer r.head x }) c
  unfolding depth
  ConsumerOk-write r x waiting b ok = ok
  ConsumerOk-write r x loaded b ok = ok
  ConsumerOk-write r x (taken y) b (pos, e) =
      (pos, get_or-set_ne r.buffer r.head r.tail x blank (unfold depth in apart r b pos) ∙ e)

  depth-publish :
      (r : Ring A)
      → InBounds r
      → depth r + 1 < r.capacity
      → depth (record r { head = increment r.capacity r.head }) ≡ depth r + 1
  unfolding depth
  depth-publish r b room =
      depth_of-increment_head r.capacity r.head r.tail b.word b.head_in b.tail_in (λ e.
        absurd (omega (arith, depth_of_full r.capacity r.head r.tail b.word b.head_in b.tail_in e)))

  depth-release :
      (r : Ring A)
      → InBounds r
      → 0 < depth r
      → depth (record r { tail = increment r.capacity r.tail }) + 1 ≡ depth r
  depth-release r b pos =
      unfold depth in
      depth_of-increment_tail r.capacity r.head r.tail b.word b.head_in b.tail_in (apart r b pos)

  ConsumerOk-publish :
      (r : Ring A) (c : Consumer A)
      → InBounds r
      → depth r + 1 < r.capacity
      → ConsumerOk r c
      → ConsumerOk (record r { head = increment r.capacity r.head }) c
  ConsumerOk-publish r waiting b room ok = ok
  ConsumerOk-publish r loaded b room ok = omega (arith, depth-publish r b room)
  ConsumerOk-publish r (taken y) b room (pos, e) = (omega (arith, depth-publish r b room), e)

  ProducerOk-release :
      (r : Ring A) (p : Producer A)
      → InBounds r
      → 0 < depth r
      → ProducerOk r p
      → ProducerOk (record r { tail = increment r.capacity r.tail }) p
  ProducerOk-release r idle b pos ok = ok
  ProducerOk-release r (checked x l) b pos ok = omega (arith, depth-release r b pos)
  ProducerOk-release r (admitted x) b pos ok = omega (arith, depth-release r b pos)
  ProducerOk-release r (written x) b pos ok = (omega (arith, depth-release r b pos), ok.1)
  ProducerOk-release r published b pos ok = ok

  contents-write :
      (r : Ring A) (x : A)
      → InBounds r
      → contents blank (record r { buffer = set r.buffer r.head x }) ≡ contents blank r
  unfolding depth
  contents-write r x b =
      window-set_same blank r.buffer r.capacity r.head x r.tail (depth r) b.word b.head_in b.tail_in
        refl

  contents-publish :
      (r : Ring A) (x : A)
      → InBounds r
      → depth r + 1 < r.capacity
      → get_or r.buffer r.head blank ≡ x
      → contents blank (record r { head = increment r.capacity r.head })
        ≡ contents blank r ++ x ∷ []
  contents-publish r x b room e =
      rw (depth-publish r b room, add-one, ← e)
        (window-snoc blank r.buffer r.capacity r.head r.tail (depth r) b.word b.head_in b.tail_in
          (unfold depth in refl))

  contents-release :
      (r : Ring A) (x : A)
      → InBounds r
      → 0 < depth r
      → get_or r.buffer r.tail blank ≡ x
      → contents blank r ≡ x ∷ contents blank (record r { tail = increment r.capacity r.tail })
  contents-release r x b pos e = rw (← depth-release r b pos, add-one, ← e) refl

  ring_drop :
      (r : Ring A) (level : EventLevel) (by_reserve : Bool)
      → InBounds r
      → InBounds (record_drop r level by_reserve)
  unfolding record_drop
  ring_drop r level by_reserve b = record {
    word = b.word;
    storage = b.storage;
    head_in = b.head_in;
    tail_in = b.tail_in;
  }

  -- Every step of either thread keeps the invariant.
  pub Step-Inv : {s t : State A} → Step blank s t → Inv s → Inv t
  unfolding record_drop update_high_watermark depth
  Step-Inv {s} (full level e f) v = record {
    bounds = ring_drop s.ring level false v.bounds;
    producer_ok = rw e tt;
    consumer_ok = v.consumer_ok;
    fifo = v.fifo;
  }
  Step-Inv {s} (check item level e f) v = record {
    bounds = v.bounds;
    producer_ok = depth_room s.ring v.bounds f;
    consumer_ok = v.consumer_ok;
    fifo = v.fifo;
  }
  Step-Inv {s} (refuse item level e f) v = record {
    bounds = ring_drop s.ring level true v.bounds;
    producer_ok = tt;
    consumer_ok = v.consumer_ok;
    fifo = v.fifo;
  }
  Step-Inv {s} (admit item level e f) v = record {
    bounds = v.bounds;
    producer_ok = subst (ProducerOk s.ring) e v.producer_ok;
    consumer_ok = v.consumer_ok;
    fifo = v.fifo;
  }
  Step-Inv {s} (write item e) v = record {
    bounds = record {
      word = v.bounds.word;
      storage = length-set s.buffer s.head item ∙ v.bounds.storage;
      head_in = v.bounds.head_in;
      tail_in = v.bounds.tail_in;
    };
    producer_ok = (
      subst (ProducerOk s.ring) e v.producer_ok,
      get_or-set_self s.buffer s.head item blank (rw v.bounds.storage v.bounds.head_in),
    );
    consumer_ok = ConsumerOk-write s.ring item s.consumer v.bounds v.consumer_ok;
    fifo = v.fifo ∙ ap (λ q. s.received ++ q) (sym (contents-write s.ring item v.bounds));
  }
  Step-Inv {s} (publish item e) v =
      let (room, slot) = subst (ProducerOk s.ring) e v.producer_ok in
      record {
        bounds = record {
          word = v.bounds.word;
          storage = v.bounds.storage;
          head_in = increment-lt s.capacity s.head v.bounds.word v.bounds.head_in;
          tail_in = v.bounds.tail_in;
        };
        producer_ok = tt;
        consumer_ok = ConsumerOk-publish s.ring s.consumer v.bounds room v.consumer_ok;
        fifo =
            rw (v.fifo, contents-publish s.ring item v.bounds room slot)
              (append_assoc s.received _ _);
      }
  Step-Inv {s} (mark e) v = record {
    bounds = record {
      word = v.bounds.word;
      storage = v.bounds.storage;
      head_in = v.bounds.head_in;
      tail_in = v.bounds.tail_in;
    };
    producer_ok = tt;
    consumer_ok = v.consumer_ok;
    fifo = v.fifo;
  }
  Step-Inv {s} (empty e f) v = v
  Step-Inv {s} (load e f) v = record {
    bounds = v.bounds;
    producer_ok = v.producer_ok;
    consumer_ok = depth_pos s.ring v.bounds f;
    fifo = v.fifo;
  }
  Step-Inv {s} (take e) v = record {
    bounds = v.bounds;
    producer_ok = v.producer_ok;
    consumer_ok = (subst (ConsumerOk s.ring) e v.consumer_ok, refl);
    fifo = v.fifo;
  }
  Step-Inv {s} (release item e) v =
      let (pos, slot) = subst (ConsumerOk s.ring) e v.consumer_ok in
      record {
        bounds = record {
          word = v.bounds.word;
          storage = v.bounds.storage;
          head_in = v.bounds.head_in;
          tail_in = increment-lt s.capacity s.tail v.bounds.word v.bounds.tail_in;
        };
        producer_ok = ProducerOk-release s.ring s.producer v.bounds pos v.producer_ok;
        consumer_ok = tt;
        fifo =
            v.fifo
            ∙ ap (λ q. s.received ++ q) (contents-release s.ring item v.bounds pos slot)
            ∙ sym (append_assoc s.received (item ∷ []) _);
      }

  Reach-Inv : {s t : State A} → Reach blank s t → Inv s → Inv t
  Reach-Inv here v = v
  Reach-Inv (next r st) v = Step-Inv st (Reach-Inv r v)

  start-Inv :
      (capacity reserved : ℕ) (drop_info drop_warning : Bool)
      → capacity + 1 < 2 ^ 64
      → Inv (start blank capacity reserved drop_info drop_warning)
  unfolding start init depth
  start-Inv capacity reserved drop_info drop_warning h = record {
    bounds = ground (arith, length-replicate (capacity + 1) blank);
    producer_ok = tt;
    consumer_ok = tt;
    fifo = refl;
  }

  -- Two threads started on an empty ring of less than 2 ^ 64 slots, in any interleaving of their
  -- accesses: the items that `pop` has returned, followed by those in the ring, are the items that
  -- were published, each once and in order.
  pub fifo_under_interleaving :
      (capacity reserved : ℕ) (drop_info drop_warning : Bool) {t : State A}
      → capacity + 1 < 2 ^ 64
      → Reach blank (start blank capacity reserved drop_info drop_warning) t
      → t.sent ≡ t.received ++ contents blank t.ring
  fifo_under_interleaving capacity reserved drop_info drop_warning h r =
      (Reach-Inv r (start-Inv capacity reserved drop_info drop_warning h)).fifo

  -- In any interleaving from an empty ring of less than 2 ^ 64 slots, while the consumer is about
  -- to read the slot of the tail or holds its item and has not yet given the slot back, the slot of
  -- the head, which the producer writes, is another one.
  pub slots_apart :
      (capacity reserved : ℕ) (drop_info drop_warning : Bool) {t : State A}
      → capacity + 1 < 2 ^ 64
      → Reach blank (start blank capacity reserved drop_info drop_warning) t
      → t.consumer ≢ waiting
      → t.head ≢ t.tail
  slots_apart capacity reserved drop_info drop_warning {t} h r busy =
      let v = Reach-Inv r (start-Inv capacity reserved drop_info drop_warning h) in
      apart t.ring v.bounds (holds_item t.ring t.consumer busy v.consumer_ok)
