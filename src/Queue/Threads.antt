-- ===== src/Queue/Threads.antt =====
-- SpscRingBuffer with its two threads: `emplace` on the producer's and `pop` on the consumer's,
-- one atomic access of a shared index or slot at a time, in any interleaving. The loads are
-- acquires and the stores releases, so each thread sees the slots as written before the index.
pub mod Safety
use minilisysm.Prelude.{ℕ, ◌+◌, ◌<◌, ◌≡◌, ◌≢◌, Bool, true, false, List, [], ◌∷◌, ◌++◌, get_or, set}
use minilisysm.Event.{EventLevel}
use minilisysm.Queue.{
  Ring, init, increment, depth, record_drop, should_reject_for_reserve, update_high_watermark,
}

-- Where the producer stands in `emplace`.
pub data Producer (A : Type 0) : Type 0 where
  idle : Producer A
  checked : A → EventLevel → Producer A  -- there was a free slot
  admitted : A → Producer A  -- the reserve let it pass
  written : A → Producer A  -- the slot is written, `head_` is not
  published : Producer A  -- `head_` is stored, the watermark is not

-- Where the consumer stands in `pop`.
pub data Consumer (A : Type 0) : Type 0 where
  waiting : Consumer A
  loaded : Consumer A  -- there was an item
  taken : A → Consumer A  -- the slot is read, `tail_` is not stored

-- `sent` and `received` are the history: the items published, and those that `pop` returned.
pub record State (A : Type 0) : Type 0 where
  pub ring : Ring A
  pub open ring use {capacity, buffer, head, tail}
  pub producer : Producer A
  pub consumer : Consumer A
  pub sent : List A
  pub received : List A

-- A new ring, and nothing done yet.
unfoldable pub start : {A : Type 0} → A → ℕ → ℕ → Bool → Bool → State A
start blank capacity reserved drop_info drop_warning = record {
  ring = init blank capacity reserved drop_info drop_warning;
  producer = idle;
  consumer = waiting;
  sent = [];
  received = [];
}

module _ {A : Type 0} (blank : A) where
  pub data Step (s : State A) : State A → Type 0 where
    full :
        (level : EventLevel)
        → s.producer ≡ idle
        → increment s.capacity s.head ≡ s.tail
        → Step s (record s { ring = record_drop s.ring level false })
    check :
        (item : A) (level : EventLevel)
        → s.producer ≡ idle
        → increment s.capacity s.head ≢ s.tail
        → Step s (record s { producer = checked item level })
    refuse :
        (item : A) (level : EventLevel)
        → s.producer ≡ checked item level
        → should_reject_for_reserve s.ring level ≡ true
        → Step s (record s { ring = record_drop s.ring level true; producer = idle })
    admit :
        (item : A) (level : EventLevel)
        → s.producer ≡ checked item level
        → should_reject_for_reserve s.ring level ≡ false
        → Step s (record s { producer = admitted item })
    write :
        (item : A)
        → s.producer ≡ admitted item
        → Step s (record s {
          ring = record s.ring { buffer = set s.buffer s.head item };
          producer = written item;
        })
    publish :
        (item : A)
        → s.producer ≡ written item
        → Step s (record s {
          ring = record s.ring { head = increment s.capacity s.head };
          producer = published;
          sent = s.sent ++ item ∷ [];
        })
    mark :
        s.producer ≡ published
        → Step s (record s { ring = update_high_watermark s.ring; producer = idle })
    empty : s.consumer ≡ waiting → s.tail ≡ s.head → Step s s
    load : s.consumer ≡ waiting → s.tail ≢ s.head → Step s (record s { consumer = loaded })
    take :
        s.consumer ≡ loaded → Step s (record s { consumer = taken (get_or s.buffer s.tail blank) })
    release :
        (item : A)
        → s.consumer ≡ taken item
        → Step s (record s {
          ring = record s.ring { tail = increment s.capacity s.tail };
          consumer = waiting;
          received = s.received ++ item ∷ [];
        })

  pub data Reach (s : State A) : State A → Type 0 where
    here : Reach s s
    next : {t u : State A} → Reach s t → Step t u → Reach s u
