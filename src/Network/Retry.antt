-- ===== src/Network/Retry.antt =====
-- The loops of NetworkEventSink::run: when a flush is tried again, and the last flushes of a sink
-- that is stopped.
use minilisysm.Prelude.{
  ℕ, zero, suc, ◌+◌, ◌*◌, ◌^◌, ◌≤◌, ◌<◌, min, ◌≡◌, refl, ap, sym, ◌∙◌, Bool, true, false, ◌&&◌,
  Option, none, some, List, [], ◌∷◌, ◌++◌, append_assoc, arith, Bytes, length, u32, add64, leb,
  if◌then◌else◌, inl, inr, Bool-cases, add-one, length-append,
}
use native.Mathlib.Nat.{pow-suc}
use minilisysm.Config.{NetworkConfig}
use minilisysm.Wal.{WalRecord}
use minilisysm.Wal.Rewrite.{Disk}
use minilisysm.Wal.Staged.{json_lines}
use minilisysm.Network.{NetworkEventSink, flush_pending, batch_of}
use minilisysm.Network.Delivery.{flush_pending-batch, length-json_lines, length-take}

pub record Retry : Type 0 where
  pub retry_ms : ℕ
  pub next_flush : ℕ
  pub retry_count : ℕ

-- What an iteration does after the queues are drained, where `ok` is what a flush would return.
unfoldable pub retry_step : NetworkConfig → ℕ → Bool → Bool → Retry → Retry
retry_step c now has_pending ok r =
    if has_pending && leb r.next_flush now
    then (if ok
        then record r {
          retry_ms = c.network_retry_base_ms;
          next_flush = now + c.network_flush_interval_ms;
        }
        else record {
          retry_ms = min (u32 (r.retry_ms * 2)) c.network_retry_max_ms;
          next_flush = now + r.retry_ms;
          retry_count = add64 r.retry_count 1;
        })
    else r

-- Flushes that are due and fail, at these times.
unfoldable pub failures : NetworkConfig → List ℕ → Retry → Retry
failures c [] r = r
failures c (now ∷ times) r = failures c times (retry_step c now true false r)

-- The times come when the flushes are due.
abbrev pub AllDue : NetworkConfig → List ℕ → Retry → Type 0
AllDue c [] r = Unit
AllDue c (now ∷ times) r = (r.next_flush ≤ now) × AllDue c times (retry_step c now true false r)

doubled :
    (base k limit : ℕ)
    → base ≤ limit
    → limit < 2 ^ 31
    → min (u32 (min (base * 2 ^ k) limit * 2)) limit ≡ min (base * 2 ^ (k + 1)) limit
doubled base k limit low high =
    let power : 2 ^ (k + 1) ≡ 2 ^ k * 2 = ap (λ e. 2 ^ e) (add-one k) ∙ pow-suc 2 k in
    let twice : base * 2 ^ (k + 1) ≡ base * 2 ^ k * 2 = grind (arith, ap (λ x. base * x) power) in
    omega (arith, twice)

delay : NetworkConfig → ℕ → ℕ
delay c k = min (c.network_retry_base_ms * 2 ^ k) c.network_retry_max_ms

one_failure :
    (c : NetworkConfig) (now j : ℕ) (r : Retry)
    → c.network_retry_base_ms ≤ c.network_retry_max_ms
    → c.network_retry_max_ms < 2 ^ 31
    → r.retry_ms ≡ delay c j
    → r.next_flush ≤ now
    → (retry_step c now true false r).retry_ms ≡ delay c (j + 1)
unfolding retry_step delay
one_failure c now j r low high e due =
    ground (arith, doubled c.network_retry_base_ms j c.network_retry_max_ms low high)

failures-retry_ms_from :
    (c : NetworkConfig) (times : List ℕ) (j : ℕ) (r : Retry)
    → c.network_retry_base_ms ≤ c.network_retry_max_ms
    → c.network_retry_max_ms < 2 ^ 31
    → r.retry_ms ≡ delay c j
    → AllDue c times r
    → (failures c times r).retry_ms ≡ delay c (j + length times)
unfolding failures delay
failures-retry_ms_from c [] j r low high e due = e ∙ ap (delay c) (omega arith)
failures-retry_ms_from c (now ∷ times) j r low high e due =
    failures-retry_ms_from c times (j + 1) (retry_step c now true false r) low high
      (one_failure c now j r low high e due.0) due.1
    ∙ ap (delay c) (omega arith)

-- After k flushes that are due and fail, counted from a success, the next delay is the base times
-- 2^k, or the limit where that is less. The limit is not below the base and is below 2^31.
pub failures-retry_ms :
    (c : NetworkConfig) (times : List ℕ) (r : Retry)
    → c.network_retry_base_ms ≤ c.network_retry_max_ms
    → c.network_retry_max_ms < 2 ^ 31
    → r.retry_ms ≡ c.network_retry_base_ms
    → AllDue c times r
    → (failures c times r).retry_ms
      ≡ min (c.network_retry_base_ms * 2 ^ length times) c.network_retry_max_ms
unfolding delay
failures-retry_ms c times r low high e due =
    failures-retry_ms_from c times 0 r low high (omega arith) due ∙ ap (delay c) (omega arith)

abbrev pub has_none : List WalRecord → Bool
has_none [] = true
has_none (r ∷ rs) = false

-- `while (true)` of the end of `run`: flush after flush until one fails or nothing is pending.
-- `outcomes` says what happens to each; `none` is the fuel running out.
unfoldable pub flush_all :
    NetworkConfig → ℕ → (ℕ → Bool × Disk) → NetworkEventSink → Option NetworkEventSink
flush_all c zero outcomes sink = none
flush_all c (suc fuel) outcomes sink =
    let (posted, disk) = outcomes fuel in
    let (ok, after) = flush_pending c posted disk sink in
    let rest = flush_all c fuel outcomes after in
    if has_none sink.wal.pending then some sink else if ok then rest else some after

-- What a flush that succeeds leaves, behind its batch.
flushed_batch :
    (c : NetworkConfig) (posted : Bool) (disk : Disk) (sink : NetworkEventSink) (b : Bool)
    → (flush_pending c posted disk sink).0 ≡ b
    → (if b then batch_of c sink.wal else [])
        ++ json_lines (flush_pending c posted disk sink).1.wal.pending
      ≡ json_lines sink.wal.pending
flushed_batch c posted disk sink b ok =
    ap
      (λ b.
        (if b then batch_of c sink.wal else [])
        ++ json_lines (flush_pending c posted disk sink).1.wal.pending)
      (sym ok)
    ∙ flush_pending-batch c posted disk sink

some_left : (rs : List WalRecord) → has_none rs ≡ false → 1 ≤ length rs
some_left [] h = absurd (ground arith)
some_left (r ∷ rs) h = omega arith

shorter :
    (c : NetworkConfig) (posted : Bool) (disk : Disk) (sink : NetworkEventSink)
    → 1 ≤ c.network_batch_size
    → has_none sink.wal.pending ≡ false
    → (flush_pending c posted disk sink).0 ≡ true
    → length (json_lines (flush_pending c posted disk sink).1.wal.pending)
      < length (json_lines sink.wal.pending)
shorter c posted disk sink size left ok =
    let before = json_lines sink.wal.pending in
    let after = json_lines (flush_pending c posted disk sink).1.wal.pending in
    omega (
      arith,
      ap length (flushed_batch c posted disk sink true ok),
      length-append (batch_of c sink.wal) after,
      length-take (min (length sink.wal.pending) c.network_batch_size) before,
      length-json_lines sink.wal.pending,
      some_left sink.wal.pending left,
    )

-- The loop ends, whatever happens to its flushes, if a batch takes at least one line: more fuel
-- than there are pending lines is enough. It leaves an end of what was pending.
pub flush_all-ends :
    (c : NetworkConfig) (fuel : ℕ) (outcomes : ℕ → Bool × Disk) (sink : NetworkEventSink)
    → 1 ≤ c.network_batch_size
    → length (json_lines sink.wal.pending) < fuel
    → (final : NetworkEventSink) × (dropped : List Bytes) × (flush_all c fuel outcomes sink
        ≡ some final)
      × (json_lines sink.wal.pending ≡ dropped ++ json_lines final.wal.pending)
unfolding flush_all
flush_all-ends c zero outcomes sink size enough = absurd (omega arith)
flush_all-ends c (suc fuel) outcomes sink size enough =
    let (posted, disk) = outcomes fuel in
    let (ok, after) = flush_pending c posted disk sink in
    elim (Bool-cases (has_none sink.wal.pending)) [
      | inl e ↦ rw e (sink, [], refl, refl)
      | inr e ↦ elim (Bool-cases ok) [
        | inl h ↦
            let (final, dropped, ends, same) =
              flush_all-ends c fuel outcomes after size
                (omega (arith, shorter c posted disk sink size e h)) in
            rw (e, h)
              (
                final,
                batch_of c sink.wal ++ dropped,
                ends,
                sym (flushed_batch c posted disk sink true h)
                    ∙ ap (λ ls. batch_of c sink.wal ++ ls) same
                    ∙ sym
                        (append_assoc (batch_of c sink.wal) dropped (json_lines final.wal.pending)),
              )
        | inr h ↦ rw (e, h) (after, [], refl, sym (flushed_batch c posted disk sink false h))
      ]
    ]
