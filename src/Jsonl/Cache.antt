-- ===== src/Jsonl/Cache.antt =====
-- JsonlEventSink::enforce_cache_limit.
use mathlib.Core.Option.{none-ne-some}
use minilisysm.Prelude.{
  ℕ, ◌+◌, ◌-◌, ◌≤◌, Bool, true, ◌||◌, [], ◌∷◌, Bytes, bytes_eq, bytes_eq_iff, bytes_equality, none,
  some, ◌≡◌, refl, ap, sym, ◌∙◌, arith, inl, inr, ◌⊎◌, Bool-cases, length, mul64, ltb, leb,
  if◌then◌else◌,
}
use minilisysm.Config.{PersistenceConfig}
use minilisysm.Map.{Map, find, erase, find-erase, Distinct, erase-Distinct}

-- The size of all files.
abbrev pub total_size : Map Bytes Bytes → ℕ
total_size [] = 0
total_size ((path, text) ∷ fs) = length text + total_size fs

module _ (last_write_time : Bytes → ℕ) where
  unfoldable pub insert_file : Bytes × Bytes → Map Bytes Bytes → Map Bytes Bytes
  insert_file f [] = f ∷ []
  insert_file f (g ∷ fs) =
      let rest = g ∷ insert_file f fs in
      if ltb (last_write_time f.0) (last_write_time g.0) then f ∷ g ∷ fs else rest

  -- std::sort by the time of the last write.
  unfoldable pub sort_files : Map Bytes Bytes → Map Bytes Bytes
  sort_files [] = []
  sort_files (f ∷ fs) = insert_file f (sort_files fs)

-- The loop that removes files: `total` is what it takes the rest to have.
unfoldable pub remove_files :
    ℕ → (Bytes → Bool) → Bytes → Bytes → ℕ → Map Bytes Bytes → Map Bytes Bytes → Map Bytes Bytes
remove_files limit removed current summary total [] files = files
remove_files limit removed current summary total ((path, text) ∷ fs) files =
    let is_current = bytes_eq path current || bytes_eq path summary in
    let left = if removed path then erase path files else files in
    let less = if ltb (length text) total then total - length text else 0 in
    let rest =
      remove_files limit removed current summary (if is_current then total else less) fs
        (if is_current then files else left) in
    if is_current then rest else if leb less limit then left else rest

unfoldable pub enforce_cache_limit :
    PersistenceConfig
    → (Bytes → ℕ)
    → (Bytes → Bool)
    → Bytes
    → Bytes
    → Map Bytes Bytes
    → Map Bytes Bytes
enforce_cache_limit c last_write_time removed current summary files =
    let limit = mul64 (mul64 c.cache_max_mb 1024) 1024 in
    let total = total_size files in
    let after =
      remove_files limit removed current summary total (sort_files last_write_time files) files in
    if leb total limit then files else after

module _ (last_write_time : Bytes → ℕ) where
  find-insert_file :
      (p text : Bytes) (fs : Map Bytes Bytes) (q : Bytes)
      → find p fs ≡ none
      → find q (insert_file last_write_time (p, text) fs) ≡ find q ((p, text) ∷ fs)
  unfolding insert_file find
  find-insert_file p text [] q h = refl
  find-insert_file p text ((r, t) ∷ fs) q h =
      ground
        (arith, find-insert_file p text fs q, bytes_eq_iff p q, bytes_eq_iff r q, bytes_eq_iff r p)

  insert_file-Distinct :
      (p text : Bytes) (fs : Map Bytes Bytes)
      → find p fs ≡ none
      → Distinct fs
      → Distinct (insert_file last_write_time (p, text) fs)
  unfolding insert_file find
  insert_file-Distinct p text [] h d = (refl, tt)
  insert_file-Distinct p text ((r, t) ∷ fs) h d = ground (
    arith,
    insert_file-Distinct p text fs,
    find-insert_file p text fs r,
    bytes_eq_iff r p,
    bytes_eq_iff p r,
  )

  find-sort_files :
      (fs : Map Bytes Bytes) (q : Bytes)
      → Distinct fs
      → find q (sort_files last_write_time fs) ≡ find q fs
  unfolding sort_files find
  find-sort_files [] q d = refl
  find-sort_files ((p, text) ∷ fs) q d =
      find-insert_file p text (sort_files last_write_time fs) q (find-sort_files fs p d.1 ∙ d.0)
      ∙ ground (arith, find-sort_files fs q d.1)

  sort_files-Distinct :
      (fs : Map Bytes Bytes) → Distinct fs → Distinct (sort_files last_write_time fs)
  unfolding sort_files
  sort_files-Distinct [] d = tt
  sort_files-Distinct ((p, text) ∷ fs) d =
      insert_file-Distinct p text (sort_files last_write_time fs) (find-sort_files fs p d.1 ∙ d.0)
        (sort_files-Distinct fs d.1)

erase-none : (p : Bytes) (files : Map Bytes Bytes) → find p files ≡ none → erase p files ≡ files
unfolding find erase
erase-none p [] h = refl
erase-none p ((q, t) ∷ fs) h = ground (arith, erase-none p fs)

total_size-erase :
    (p text : Bytes) (files : Map Bytes Bytes)
    → Distinct files
    → find p files ≡ some text
    → total_size (erase p files) + length text ≡ total_size files
unfolding find erase
total_size-erase p text [] d h = absurd (none-ne-some text h)
total_size-erase p text ((q, t) ∷ fs) d h = elim (Bool-cases (bytes_eq q p)) [
  | inl e ↦
      let gone : find p fs ≡ none = ground (arith, bytes_eq_iff q p, d.0) in
      let texts : t ≡ text = ground arith in
      rw e (omega (arith, ap total_size (erase-none p fs gone), ap length texts))
  | inr e ↦ rw e (omega (arith, total_size-erase p text fs d.1 (ground arith)))
]

-- The files that are open are never removed.
pub find-remove_files :
    (limit : ℕ) (removed : Bytes → Bool) (current summary : Bytes) (total : ℕ)
    (fs files : Map Bytes Bytes) (path : Bytes)
    → (bytes_eq path current || bytes_eq path summary) ≡ true
    → find path (remove_files limit removed current summary total fs files) ≡ find path files
unfolding remove_files
find-remove_files limit removed current summary total [] files path h = refl
find-remove_files limit removed current summary total ((p, text) ∷ fs) files path h =
    elim (Bool-cases (bytes_eq p current || bytes_eq p summary)) [
      | inl e ↦ rw e (find-remove_files limit removed current summary total fs files path h)
      | inr e ↦ rw e (
          let left = if removed p then erase p files else files in
          let less = if ltb (length text) total then total - length text else 0 in
          let kept : find path left ≡ find path files =
            ground (arith, bytes_eq_iff p path, find-erase p path files) in
          elim (Bool-cases (leb less limit)) [
            | inl f ↦ rw f kept
            | inr f ↦
                rw f (find-remove_files limit removed current summary less fs left path h ∙ kept)
          ])
    ]

-- The paths of the files that are open.
abbrev pub OnlyCurrent : Bytes → Bytes → Map Bytes Bytes → Type 0
OnlyCurrent current summary files =
    (path text : Bytes)
    → find path files ≡ some text
    → (bytes_eq path current || bytes_eq path summary) ≡ true

remove_files-within :
    (limit : ℕ) (removed : Bytes → Bool) (current summary : Bytes) (total : ℕ)
    (fs files : Map Bytes Bytes)
    → ((path : Bytes) → removed path ≡ true)
    → Distinct fs
    → Distinct files
    → ((path text : Bytes) → find path fs ≡ some text → find path files ≡ some text)
    → ((path text : Bytes)
        → find path files ≡ some text
        → ((bytes_eq path current || bytes_eq path summary) ≡ true) ⊎ (find path fs ≡ some text))
    → total ≡ total_size files
    → (total_size (remove_files limit removed current summary total fs files) ≤ limit)
      ⊎ OnlyCurrent current summary (remove_files limit removed current summary total fs files)
unfolding remove_files find
remove_files-within limit removed current summary total [] files ok dfs d sub cover same =
    inr
      (λ path text h. elim (cover path text h) [ inl c ↦ c | inr n ↦ absurd (none-ne-some text n) ])
remove_files-within limit removed current summary total ((p, text) ∷ fs) files ok dfs d sub cover
      same =
    elim (Bool-cases (bytes_eq p current || bytes_eq p summary)) [
      | inl e ↦ rw e (
          remove_files-within limit removed current summary total fs files ok dfs.1 d
            (λ q t h. ground (arith, sub q t, bytes_eq_iff p q, dfs.0))
            (λ q t h. elim (cover q t h) [
              | inl c ↦ inl c
              | inr n ↦ elim (Bool-cases (bytes_eq p q)) [
                | inl s ↦ inl (ground (arith, bytes_eq_iff p q))
                | inr s ↦ inr (ground arith)
              ]
            ])
            same)
      | inr e ↦
          rw (e, ok p)
            (let less = if ltb (length text) total then total - length text else 0 in
              let size : total_size (erase p files) + length text ≡ total_size files =
                total_size-erase p text files d (sub p text (ground (arith, bytes_eq_iff p p))) in
              elim (Bool-cases (leb less limit)) [
                | inl f ↦ rw f (inl (ground arith))
                | inr f ↦ rw f (
                    remove_files-within limit removed current summary less fs (erase p files) ok
                      dfs.1 (erase-Distinct p files d)
                      (λ q t h.
                        ground (arith, sub q t, bytes_eq_iff p q, dfs.0, find-erase p q files))
                      (λ q t h.
                        let other : find q (erase p files)
                            ≡ (if bytes_eq p q then none else find q files) =
                          find-erase p q files in
                        elim (Bool-cases (bytes_eq p q)) [
                          | inl s ↦ absurd (ground arith)
                          | inr s ↦ elim (cover q t (ground arith)) [
                            | inl c ↦ inl c
                            | inr n ↦ inr (ground arith)
                          ]
                        ])
                      (ground arith))
              ])
    ]

-- Where every removal succeeds, the files take no more than the limit afterwards, or none is left
-- but those that are open. Each path has one file.
pub enforce_cache_limit-within :
    (c : PersistenceConfig) (last_write_time : Bytes → ℕ) (removed : Bytes → Bool)
    (current summary : Bytes) (files : Map Bytes Bytes)
    → ((path : Bytes) → removed path ≡ true)
    → Distinct files
    → let after = enforce_cache_limit c last_write_time removed current summary files in
      (total_size after ≤ mul64 (mul64 c.cache_max_mb 1024) 1024)
      ⊎ OnlyCurrent current summary after
unfolding enforce_cache_limit
enforce_cache_limit-within c last_write_time removed current summary files ok d =
    let limit = mul64 (mul64 c.cache_max_mb 1024) 1024 in
    let fs = sort_files last_write_time files in
    elim (Bool-cases (leb (total_size files) limit)) [
      | inl e ↦ rw e (inl (ground arith))
      | inr e ↦ rw e (
          remove_files-within limit removed current summary (total_size files) fs files ok
            (sort_files-Distinct last_write_time files d) d
            (λ q t h. sym (find-sort_files last_write_time files q d) ∙ h)
            (λ q t h. inr (find-sort_files last_write_time files q d ∙ h)) refl)
    ]
