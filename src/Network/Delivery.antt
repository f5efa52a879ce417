-- ===== src/Network/Delivery.antt =====
-- Every line that the sink accepts is delivered or pending, whatever fails and whenever the process
-- crashes.
use mathlib.Core.List.{Memᴰ}
use mathlib.Core.List.Memᴰ
use minilisysm.Prelude.{
  ℕ, zero, suc, min, ◌≡◌, refl, ap, sym, ◌∙◌, subst, Bool, true, false, ◌&&◌, not, List, [], ◌∷◌,
  ◌++◌, append-nil, arith, Bytes, length, take, inl, inr, ◌⊎◌, Bool-cases, if◌then◌else◌,
  bytes_equality,
}
use minilisysm.Event.{EventLevel, is_critical}
use minilisysm.Config.{NetworkConfig}
use minilisysm.Wal.{
  WalRecord, record_at, Wal, Write, complete, not_opened, short, append_wal, write_line,
  current_segment, next_wal_path, load_wal, load_segments, sort_segments,
}
use minilisysm.Wal.Rewrite.{Disk, wal_over_limit, enforce_wal_limit, drop}
use minilisysm.Wal.Stored.{load_complete}
use minilisysm.Wal.Staged.{json_lines, json_lines-append}
use minilisysm.Wal.Replaced.{json_lines-rewrite_wal}
use minilisysm.Network.{
  NetworkEventSink, offer, after_append, batch_of, flush_batch, flush_pending, restart, Call,
  offered, enforced, flushed, restarted, step, run, accepts, delivers, all_accepted, all_delivered,
}
use minilisysm.Network.Sound.{
  IsKept, IsSound, is_torn, AllAllowed, AlwaysRoom, IsKept-of_sound, step-IsSound,
}

line_of : (rs : List WalRecord) (r : WalRecord) → Memᴰ r rs → Memᴰ r.json_line (json_lines rs)
line_of (q ∷ rs) r (Memᴰ.head e) = Memᴰ.head (ap (λ (q : WalRecord). q.json_line) e)
line_of (q ∷ rs) r (Memᴰ.tail later) = Memᴰ.tail (line_of rs r later)
line_of [] r there = elim there [ ]

record_with :
    (rs : List WalRecord) (line : Bytes)
    → Memᴰ line (json_lines rs)
    → (r : WalRecord) × Memᴰ r rs × (r.json_line ≡ line)
record_with [] line there = elim there [ ]
record_with (q ∷ rs) line (Memᴰ.head e) = (q, Memᴰ.head refl, sym e)
record_with (q ∷ rs) line (Memᴰ.tail later) =
    let (r, pending, same) = record_with rs line later in (r, Memᴰ.tail pending, same)

-- The pending lines of a log that is loaded are those that were pending, and maybe more.
loaded :
    (w : Wal) (line : Bytes)
    → IsKept w
    → Memᴰ line (json_lines w.pending)
    → Memᴰ line (json_lines (load_wal w.dir).pending)
unfolding load_wal next_wal_path
loaded w line v there =
    let (r, pending, same) = record_with w.pending line there in
    subst (λ l. Memᴰ l (json_lines (load_segments (sort_segments w.dir)))) same
      (line_of (load_segments (sort_segments w.dir)) r (load_complete r w.dir (v.stored r pending)))

segment-pending : (c : NetworkConfig) (w : Wal) → (current_segment c w).pending ≡ w.pending
unfolding next_wal_path
segment-pending c w = ground arith

offer-keeps :
    (c : NetworkConfig) (write : Write) (sink : NetworkEventSink) (level : EventLevel)
    (line : Bytes)
    → json_lines (offer c write sink level line).1.wal.pending
      ≡ json_lines sink.wal.pending ++ accepts c sink (offered level line write)
unfolding offer accepts append_wal write_line
offer-keeps c write sink level line =
    elim (Bool-cases (wal_over_limit c sink.wal && not (is_critical level))) [
      | inl e ↦ rw e (sym (append-nil (json_lines sink.wal.pending)))
      | inr e ↦ rw e (written write)
    ]
  where
    held : json_lines (current_segment c sink.wal).pending ≡ json_lines sink.wal.pending
    held = ap json_lines (segment-pending c sink.wal)

    unwritten : json_lines (current_segment c sink.wal).pending ≡ json_lines sink.wal.pending ++ []
    unwritten = held ∙ sym (append-nil (json_lines sink.wal.pending))

    written :
        (write : Write)
        → let (ok, after) =
            after_append sink line (write_line write (current_segment c sink.wal) line) in
          json_lines after.wal.pending
          ≡ json_lines sink.wal.pending ++ (if ok then line ∷ [] else [])
    written complete =
        json_lines-append (current_segment c sink.wal).pending
          (record_at (current_segment c sink.wal).current_wal_path line ∷ [])
        ∙ ap (λ ls. ls ++ line ∷ []) held
    written not_opened = unwritten
    written (short n) = unwritten

enforce-keeps :
    (c : NetworkConfig) (disk : Disk) (w : Wal)
    → json_lines (enforce_wal_limit c disk w).pending ≡ json_lines w.pending
unfolding enforce_wal_limit
enforce-keeps c disk w = ground (arith, json_lines-rewrite_wal c disk 0 w)

pub length-json_lines : (rs : List WalRecord) → length (json_lines rs) ≡ length rs
length-json_lines [] = refl
length-json_lines (r ∷ rs) = ap suc (length-json_lines rs)

pub length-take : (n : ℕ) (ls : List Bytes) → length (take n ls) ≡ min n (length ls)
length-take zero ls = omega arith
length-take (suc n) [] = omega arith
length-take (suc n) (l ∷ ls) = omega (arith, length-take n ls)

take-drop :
    (n : ℕ) (rs : List WalRecord) → take n (json_lines rs) ++ json_lines (drop n rs) ≡ json_lines rs
take-drop zero rs = refl
take-drop (suc n) [] = refl
take-drop (suc n) (r ∷ rs) = ap (λ ls. r.json_line ∷ ls) (take-drop n rs)

length-take-min :
    (n : ℕ) (rs : List WalRecord)
    → min (length (take (min (length rs) n) (json_lines rs))) (length rs) ≡ min (length rs) n
length-take-min n rs =
    omega (arith, length-take (min (length rs) n) (json_lines rs), length-json_lines rs)

pub flush_pending-batch :
    (c : NetworkConfig) (posted : Bool) (disk : Disk) (sink : NetworkEventSink)
    → let (ok, after) = flush_pending c posted disk sink in
      (if ok then batch_of c sink.wal else []) ++ json_lines after.wal.pending
      ≡ json_lines sink.wal.pending
unfolding flush_pending
flush_pending-batch c posted disk sink = batch (batch_of c sink.wal) (
    ap (λ k. batch_of c sink.wal ++ json_lines (drop k sink.wal.pending))
      (length-take-min c.network_batch_size sink.wal.pending)
    ∙ take-drop (min (length sink.wal.pending) c.network_batch_size) sink.wal.pending)
  where
    batch :
        (ls : List Bytes)
        → ls ++ json_lines (drop (min (length ls) (length sink.wal.pending)) sink.wal.pending)
          ≡ json_lines sink.wal.pending
        → let (ok, after) = flush_batch c posted disk sink ls in
          (if ok then ls else []) ++ json_lines after.wal.pending ≡ json_lines sink.wal.pending
    batch [] h = refl
    batch (line ∷ ls) h =
        ground (arith, h, json_lines-rewrite_wal c disk (length (line ∷ ls)) sink.wal)

mem_of_if :
    (b : Bool) (ls : List Bytes) (line : Bytes) → Memᴰ line (if b then ls else []) → Memᴰ line ls
mem_of_if true ls line there = there
mem_of_if false ls line there = elim there [ ]

unposted :
    (c : NetworkConfig) (disk : Disk) (sink : NetworkEventSink) (ls : List Bytes)
    → (flush_batch c false disk sink ls).1.wal ≡ sink.wal
unposted c disk sink [] = refl
unposted c disk sink (line ∷ ls) = refl

unposted_fails :
    (c : NetworkConfig) (disk : Disk) (sink : NetworkEventSink) (ls : List Bytes)
    → (ls ≡ []) ⊎ ((flush_batch c false disk sink ls).0 ≡ false)
unposted_fails c disk sink [] = inl refl
unposted_fails c disk sink (line ∷ ls) = inr refl

none_taken : (b : Bool) (ls : List Bytes) → (if b then [] else []) ++ ls ≡ ls
none_taken true ls = refl
none_taken false ls = refl

-- The lines that a flush takes from the front of what is pending are those that its POST has
-- delivered, where the log is replaced too, and none otherwise. A POST that fails leaves the log
-- and what is pending as they were, and the flush of a batch fails with it.
pub flush_pending-pending :
    (c : NetworkConfig) (posted : Bool) (disk : Disk) (sink : NetworkEventSink)
    → let (ok, after) = flush_pending c posted disk sink in
      ((if ok then delivers c sink (flushed posted disk) else []) ++ json_lines after.wal.pending
        ≡ json_lines sink.wal.pending)
      × ((posted ≡ true) ⊎ ((after.wal ≡ sink.wal) × ((batch_of c sink.wal ≡ []) ⊎ (ok ≡ false))))
unfolding delivers flush_pending
flush_pending-pending c true disk sink = (flush_pending-batch c true disk sink, inl refl)
flush_pending-pending c false disk sink =
    let same = unposted c disk sink (batch_of c sink.wal) in
    let (ok, after) = flush_batch c false disk sink (batch_of c sink.wal) in
    (
      none_taken ok (json_lines after.wal.pending) ∙ ap (λ (w : Wal). json_lines w.pending) same,
      inr (same, unposted_fails c disk sink (batch_of c sink.wal)),
    )

flush-keeps :
    (c : NetworkConfig) (posted : Bool) (disk : Disk) (sink : NetworkEventSink) (line : Bytes)
    → Memᴰ line (json_lines sink.wal.pending)
    → Memᴰ line (delivers c sink (flushed posted disk))
      ⊎ Memᴰ line (json_lines (flush_pending c posted disk sink).1.wal.pending)
unfolding delivers flush_pending
flush-keeps c false disk sink line there = inr (
    subst (λ (w : Wal). Memᴰ line (json_lines w.pending))
      (sym (unposted c disk sink (batch_of c sink.wal))) there)
flush-keeps c true disk sink line there =
    elim (Memᴰ.append_cases (if (flush_pending c true disk sink).0 then batch_of c sink.wal else [])
      (subst (λ ls. Memᴰ line ls) (sym (flush_pending-batch c true disk sink)) there)) [
        | inl early ↦
            inl (mem_of_if (flush_pending c true disk sink).0 (batch_of c sink.wal) line early)
        | inr late ↦ inr late
      ]

none_accepted :
    (c : NetworkConfig) (sink : NetworkEventSink) (call : Call) (line : Bytes)
    → accepts c sink call ≡ []
    → ¬ Memᴰ line (accepts c sink call)
none_accepted c sink call line e there = Memᴰ.not-nil (subst (λ ls. Memᴰ line ls) e there)

step-keeps :
    (c : NetworkConfig) (sink : NetworkEventSink) (call : Call) (line : Bytes)
    → IsKept sink.wal
    → Memᴰ line (json_lines sink.wal.pending) ⊎ Memᴰ line (accepts c sink call)
    → Memᴰ line (delivers c sink call) ⊎ Memᴰ line (json_lines (step c sink call).wal.pending)
unfolding step restart accepts
step-keeps c sink (offered level l write) line v there =
    inr (subst (λ ls. Memᴰ line ls) (sym (offer-keeps c write sink level l)) (joined there))
  where
    joined :
        Memᴰ line (json_lines sink.wal.pending) ⊎ Memᴰ line (accepts c sink (offered level l write))
        → Memᴰ line (json_lines sink.wal.pending ++ accepts c sink (offered level l write))
    joined (inl before) = Memᴰ.append_left (accepts c sink (offered level l write)) before
    joined (inr new) = Memᴰ.append_right (json_lines sink.wal.pending) new
step-keeps c sink (enforced disk) line v (inl there) =
    inr (subst (λ ls. Memᴰ line ls) (sym (enforce-keeps c disk sink.wal)) there)
step-keeps c sink (flushed posted disk) line v (inl there) =
    flush-keeps c posted disk sink line there
step-keeps c sink restarted line v (inl there) = inr (loaded sink.wal line v there)
step-keeps c sink (enforced disk) line v (inr new) =
    absurd (none_accepted c sink (enforced disk) line refl new)
step-keeps c sink (flushed posted disk) line v (inr new) =
    absurd (none_accepted c sink (flushed posted disk) line refl new)
step-keeps c sink restarted line v (inr new) = absurd (none_accepted c sink restarted line refl new)

-- A line after the first call: delivered by it, pending, or yet to come.
first_call :
    (c : NetworkConfig) (sink : NetworkEventSink) (call : Call) (calls : List Call) (line : Bytes)
    → IsKept sink.wal
    → Memᴰ line (json_lines sink.wal.pending) ⊎ Memᴰ line (all_accepted c sink (call ∷ calls))
    → Memᴰ line (delivers c sink call)
      ⊎ (Memᴰ line (json_lines (step c sink call).wal.pending)
          ⊎ Memᴰ line (all_accepted c (step c sink call) calls))
first_call c sink call calls line v (inl before) =
    elim (step-keeps c sink call line v (inl before)) [
      | inl delivered ↦ inl delivered
      | inr pending ↦ inr (inl pending)
    ]
first_call c sink call calls line v (inr new) = elim (Memᴰ.append_cases (accepts c sink call) new) [
  | inl now ↦ elim (step-keeps c sink call line v (inr now)) [
    | inl delivered ↦ inl delivered
    | inr pending ↦ inr (inl pending)
  ]
  | inr later ↦ inr (inr later)
]

-- Every line that is pending or accepted in any sequence of calls is delivered in it or pending at
-- its end. Posts can fail, files may not open, and a rewrite may fail in any of its steps; the
-- process may end at any time, in the middle of a write too, and be restarted. The log is durable
-- at the start, or was until a write failed half-way; what is offered are lines, the numbers of the
-- files stay below 2^64, and after a write that has failed half-way the process is restarted.
pub run_delivers :
    (c : NetworkConfig) (torn : Bool) (sink : NetworkEventSink) (calls : List Call) (line : Bytes)
    → IsSound torn sink.wal
    → AllAllowed torn calls
    → AlwaysRoom c sink calls
    → Memᴰ line (json_lines sink.wal.pending) ⊎ Memᴰ line (all_accepted c sink calls)
    → Memᴰ line (all_delivered c sink calls) ⊎ Memᴰ line (json_lines (run c sink calls).wal.pending)
unfolding run
run_delivers c torn sink [] line v allowed room (inl there) = inr there
run_delivers c torn sink [] line v allowed room (inr new) = elim new [ ]
run_delivers c torn sink (call ∷ calls) line v allowed room there =
    elim (first_call c sink call calls line (IsKept-of_sound torn sink.wal v) there) [
      | inl delivered ↦ inl (Memᴰ.append_left (all_delivered c (step c sink call) calls) delivered)
      | inr left ↦
          elim (run_delivers c (is_torn call) (step c sink call) calls line
            (step-IsSound c torn sink call v room.0 allowed.0) allowed.1 room.1 left) [
              | inl later ↦ inl (Memᴰ.append_right (delivers c sink call) later)
              | inr pending ↦ inr pending
            ]
    ]
