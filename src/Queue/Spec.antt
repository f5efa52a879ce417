-- ===== src/Queue/Spec.antt =====
-- What a queue of the program promises: a FIFO of at most `usable` events in which the last slots
-- are kept for critical ones.
use minilisysm.Prelude.{
  ℕ, ◌-◌, min, Bool, true, false, Option, none, some, List, [], ◌∷◌, ◌++◌, length, ltb,
  if◌then◌else◌,
}
use minilisysm.Event.{EventLevel, warning, critical}

pub record Policy : Type 0 where
  pub usable : ℕ
  pub reserved : ℕ
  pub drop_info : Bool
  pub drop_warning : Bool

-- The slots that an event of a level has to leave free; at least one slot is open to every level.
abbrev pub quota : Policy → EventLevel → ℕ
quota p critical = 0
quota p warning = if p.drop_warning then min p.reserved (p.usable - 1) else 0
quota p _ = if p.drop_info then min p.reserved (p.usable - 1) else 0

abbrev pub accepts : Policy → ℕ → EventLevel → Bool
accepts p count level = ltb (quota p level) (p.usable - count)

pub data Op {ℓ} (A : Type ℓ) : Type ℓ where
  pushes : A → EventLevel → Op A
  pops : Op A

pub data Reply {ℓ} (A : Type ℓ) : Type ℓ where
  pushed : Bool → Reply A
  popped : Option A → Reply A

module _ {ℓ} {A : Type ℓ} where
  unfoldable pub push : Policy → List A → A → EventLevel → Bool × List A
  push p q x level = if accepts p (length q) level then (true, q ++ x ∷ []) else (false, q)

  unfoldable pub pop : List A → Option A × List A
  pop [] = (none, [])
  pop (x ∷ q) = (some x, q)

  unfoldable pub run : Policy → List A → List (Op A) → List (Reply A) × List A
  run p q [] = ([], q)
  run p q (pushes x level ∷ ops) =
      let (b, q') = push p q x level in let (rs, q'') = run p q' ops in (pushed b ∷ rs, q'')
  run p q (pops ∷ ops) = let (o, q') = pop q in let (rs, q'') = run p q' ops in (popped o ∷ rs, q'')
