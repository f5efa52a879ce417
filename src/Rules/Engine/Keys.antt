-- ===== src/Rules/Engine/Keys.antt =====
-- The keys of the engine's maps: sched_key, and the text of a process.
use minilisysm.Prelude.Decimal.{to_string, decimal, IsDigits, decimal-IsDigits, decimal-injective}
use minilisysm.Prelude.{
  subst, ℕ, ◌+◌, ◌*◌, ◌%◌, ◌^◌, ◌-◌, ◌<◌, ◌≡◌, refl, sym, Bytes, ℤ, pos, negsuc, [], ◌∷◌, ◌++◌,
  arith,
}

-- static_cast<uint32_t> of an int32_t.
abbrev pub to_u32 : ℤ → ℕ
to_u32 (pos n) = n % 2 ^ 32
to_u32 (negsuc n) = (2 ^ 32 - 1 - n % 2 ^ 32) % 2 ^ 32

unfoldable pub sched_key : ℤ → ℤ → ℕ
sched_key pid tid = to_u32 pid * 2 ^ 32 + to_u32 tid

abbrev pub IsInt32 : ℤ → Type 0
IsInt32 (pos n) = n < 2 ^ 31
IsInt32 (negsuc n) = n < 2 ^ 31

-- `name + ":" + std::to_string(pid)`
unfoldable pub process_key : Bytes → ℤ → Bytes
process_key name pid = name ++ b':' ∷ to_string pid

to_u32-injective : (a b : ℤ) → IsInt32 a → IsInt32 b → to_u32 a ≡ to_u32 b → a ≡ b
to_u32-injective a b ha hb e = ground arith

to_u32-lt : (a : ℤ) → to_u32 a < 2 ^ 32
to_u32-lt a = ground arith

-- Two threads share a context only if they are one thread.
pub sched_key-injective :
    (pid tid pid' tid' : ℤ)
    → IsInt32 pid
    → IsInt32 tid
    → IsInt32 pid'
    → IsInt32 tid'
    → sched_key pid tid ≡ sched_key pid' tid'
    → (pid ≡ pid') × (tid ≡ tid')
unfolding sched_key
sched_key-injective pid tid pid' tid' h1 h2 h3 h4 e =
    let tids : to_u32 tid ≡ to_u32 tid' = omega (arith, to_u32-lt tid, to_u32-lt tid') in
    let pids : to_u32 pid ≡ to_u32 pid' = omega (arith, to_u32-lt tid, to_u32-lt tid') in
    (to_u32-injective pid pid' h1 h3 pids, to_u32-injective tid tid' h2 h4 tids)

no_colon : (b t : Bytes) → ¬ IsDigits (b ++ b':' ∷ t)
unfolding IsDigits
no_colon [] t h = omega arith
no_colon (c ∷ b) t h = no_colon b t h.2

cons_tail : {x y : ℕ} {a b : Bytes} → x ∷ a ≡ y ∷ b → a ≡ b
cons_tail e = cc

-- What follows the first colon is not all digits, so the last colon splits the key.
digits_end :
    (a b : Bytes) (s t : Bytes)
    → IsDigits s
    → IsDigits t
    → a ++ b':' ∷ s ≡ b ++ b':' ∷ t
    → (a ≡ b) × (s ≡ t)
digits_end [] [] s t hs ht e = (refl, cc)
digits_end [] (y ∷ b) s t hs ht e = absurd (no_colon b t (subst IsDigits (cons_tail e) hs))
digits_end (x ∷ a) [] s t hs ht e = absurd (no_colon a s (subst IsDigits (cons_tail (sym e)) ht))
digits_end (x ∷ a) (y ∷ b) s t hs ht e =
    let (same, rest) = digits_end a b s t hs ht (cons_tail e) in (cc same, rest)

-- Two processes share a context only if name and process id are the same.
pub process_key-injective :
    (name name' : Bytes) (n n' : ℕ)
    → n < 2 ^ 31
    → n' < 2 ^ 31
    → process_key name (pos n) ≡ process_key name' (pos n')
    → (name ≡ name') × (n ≡ n')
unfolding process_key to_string IsDigits
process_key-injective name name' n n' hn hn' e =
    let (names, texts) =
      digits_end name name' (decimal 20 n []) (decimal 20 n' []) (decimal-IsDigits 20 n [] tt)
        (decimal-IsDigits 20 n' [] tt) e in
    (names, decimal-injective n n' (omega arith) (omega arith) texts)
