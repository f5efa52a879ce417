-- ===== src/Network/Sound.antt =====
-- What holds of the log of the sink from call to call.
use mathlib.Core.List.{Memᴰ}
use minilisysm.Prelude.{
  ℕ, Bool, true, false, ◌&&◌, not, List, [], ◌∷◌, ◌++◌, arith, Bytes, length, take, inl, inr,
  Bool-cases, bytes_equality,
}
use minilisysm.Prelude.Framing.{IsLine}
use minilisysm.Event.{EventLevel, is_critical}
use minilisysm.Config.{NetworkConfig}
use minilisysm.Map.{Distinct, assign-Distinct, find}
use minilisysm.Wal.{
  WalRecord, Wal, Write, complete, not_opened, short, append_wal, write_line, current_segment,
  wal_entry, text_of,
}
use minilisysm.Wal.Rewrite.{Disk, wal_over_limit, enforce_wal_limit}
use minilisysm.Wal.Stored.{Stored}
use minilisysm.Wal.Durable.{
  IsDurable, HasRoom, current_segment-IsDurable, append-Stored, accepted-IsDurable,
  load_wal-IsDurable,
}
use minilisysm.Wal.Replaced.{rewrite_wal-IsDurable}
use minilisysm.Network.{
  NetworkEventSink, offer, after_append, batch_of, flush_batch, flush_pending, restart, Call,
  offered, enforced, flushed, restarted, step,
}

-- What a crash in the middle of a write leaves of a log.
pub record IsKept (w : Wal) : Type 0 where
  pub stored : (r : WalRecord) → Memᴰ r w.pending → Stored w.dir r
  pub distinct : Distinct w.dir

-- What holds of the log, where the flag says that a write has failed half-way since it was loaded.
abbrev pub IsSound : Bool → Wal → Type 0
IsSound false w = IsDurable w
IsSound true w = IsKept w

-- The flag after a call.
abbrev pub is_torn : Call → Bool
is_torn (offered level line (short n)) = true
is_torn _ = false

-- Lines are lines, and what comes after a write that has failed half-way is a restart.
abbrev pub IsAllowed : Bool → Call → Type 0
IsAllowed torn restarted = Unit
IsAllowed false (offered level line write) = IsLine line
IsAllowed false _ = Unit
IsAllowed true _ = ⊥

abbrev pub AllAllowed : Bool → List Call → Type 0
AllAllowed torn [] = Unit
AllAllowed torn (call ∷ calls) = IsAllowed torn call × AllAllowed (is_torn call) calls

-- The numbers of the files stay below 2^64.
abbrev pub AlwaysRoom : NetworkConfig → NetworkEventSink → List Call → Type 0
AlwaysRoom c sink [] = Unit
AlwaysRoom c sink (call ∷ calls) = HasRoom sink.wal × AlwaysRoom c (step c sink call) calls

pub IsKept-of_durable : (w : Wal) → IsDurable w → IsKept w
IsKept-of_durable w v = record { stored = v.stored; distinct = v.distinct }

pub IsKept-of_sound : (torn : Bool) (w : Wal) → IsSound torn w → IsKept w
IsKept-of_sound false w v = IsKept-of_durable w v
IsKept-of_sound true w v = v

short-IsKept :
    (w : Wal) (n : ℕ) (line : Bytes) → IsDurable w → IsKept (write_line (short n) w line).1
unfolding write_line
short-IsKept w n line v = record {
  stored = λ r there. append-Stored w v (take n (wal_entry line)) r (v.stored r there);
  distinct =
      assign-Distinct w.current_wal_path
        (text_of (find w.current_wal_path w.dir) ++ take n (wal_entry line)) w.dir v.distinct;
}

offer-IsSound :
    (c : NetworkConfig) (write : Write) (sink : NetworkEventSink) (level : EventLevel)
    (line : Bytes)
    → IsDurable sink.wal
    → HasRoom sink.wal
    → IsLine line
    → IsSound (is_torn (offered level line write)) (offer c write sink level line).1.wal
unfolding offer append_wal write_line
offer-IsSound c write sink level line v room is_line =
    elim (Bool-cases (wal_over_limit c sink.wal && not (is_critical level))) [
      | inl e ↦ rw e (dropped write)
      | inr e ↦ rw e (written write)
    ]
  where
    durable : IsDurable (current_segment c sink.wal)
    durable = current_segment-IsDurable c sink.wal v (omega arith)

    dropped : (write : Write) → IsSound (is_torn (offered level line write)) sink.wal
    dropped complete = v
    dropped not_opened = v
    dropped (short n) = IsKept-of_durable sink.wal v

    written :
        (write : Write)
        → IsSound
            (is_torn (offered level line write))
            (after_append sink line (write_line write (current_segment c sink.wal) line)).1.wal
    written complete = accepted-IsDurable (current_segment c sink.wal) durable line is_line
    written not_opened = durable
    written (short n) = short-IsKept (current_segment c sink.wal) n line durable

flush-IsDurable :
    (c : NetworkConfig) (posted : Bool) (disk : Disk) (sink : NetworkEventSink)
    → IsDurable sink.wal
    → HasRoom sink.wal
    → IsDurable (flush_pending c posted disk sink).1.wal
unfolding flush_pending
flush-IsDurable c posted disk sink v room = batch (batch_of c sink.wal)
  where
    batch : (ls : List Bytes) → IsDurable (flush_batch c posted disk sink ls).1.wal
    batch [] = v
    batch (line ∷ ls) = elim (Bool-cases posted) [
      | inl e ↦ rw e (rewrite_wal-IsDurable c disk (length (line ∷ ls)) sink.wal v room)
      | inr e ↦ rw e v
    ]

enforce-IsDurable :
    (c : NetworkConfig) (disk : Disk) (w : Wal)
    → IsDurable w
    → HasRoom w
    → IsDurable (enforce_wal_limit c disk w)
unfolding enforce_wal_limit
enforce-IsDurable c disk w v room = elim (Bool-cases (wal_over_limit c w)) [
  | inl e ↦ rw e (rewrite_wal-IsDurable c disk 0 w v room)
  | inr e ↦ rw e v
]

pub step-IsSound :
    (c : NetworkConfig) (torn : Bool) (sink : NetworkEventSink) (call : Call)
    → IsSound torn sink.wal
    → HasRoom sink.wal
    → IsAllowed torn call
    → IsSound (is_torn call) (step c sink call).wal
unfolding step restart
step-IsSound c false sink (offered level line write) v room h =
    offer-IsSound c write sink level line v room h
step-IsSound c false sink (enforced disk) v room h = enforce-IsDurable c disk sink.wal v room
step-IsSound c false sink (flushed posted disk) v room h = flush-IsDurable c posted disk sink v room
step-IsSound c true sink (offered level line write) v room h = absurd h
step-IsSound c true sink (enforced disk) v room h = absurd h
step-IsSound c true sink (flushed posted disk) v room h = absurd h
step-IsSound c torn sink restarted v room h =
    load_wal-IsDurable sink.wal.dir (IsKept-of_sound torn sink.wal v).distinct (omega arith)
