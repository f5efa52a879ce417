-- ===== src/Collectors/Baselines/Deltas.antt =====
-- What the loop of a collector yields, for readings that name each target once.
use minilisysm.Prelude.{
  ℕ, suc, ◌+◌, ◌-◌, ◌<◌, ◌≡◌, refl, ap, ◌∙◌, false, Option, none, some, List, [], ◌∷◌, Bytes,
  bytes_equality, bytes_eq_iff, sym, take_nil, arith, leb, take, inl, inr, Bool-cases,
}
use minilisysm.Map.{Map, Distinct, find, assign, find-assign, beq_self}
use minilisysm.Collectors.Baselines.{scan, sampled, counted, onward}

module _ {S : Type 0} where
  module _ {T : Type 0} (sample : Bytes → S → S → Option T) where
    abbrev pub prepend : Option T → List T → List T
    prepend none ts = ts
    prepend (some t) ts = t ∷ ts

    -- The samples of all the readings against the baselines.
    abbrev pub expected : Map Bytes S → Map Bytes S → List T
    expected b [] = []
    expected b ((target, stats) ∷ current) =
        prepend (sampled sample (find target b) target stats) (expected b current)

    expected-assign :
        (target : Bytes) (stats : S) (b current : Map Bytes S)
        → find target current ≡ none
        → expected (assign target stats b) current ≡ expected b current
    unfolding find
    expected-assign target stats b [] h = refl
    expected-assign target stats b ((k, s) ∷ current) h =
        let rest = expected-assign target stats b current in
        ground (
          arith,
          find-assign target k stats b,
          rest,
          bytes_eq_iff target k,
          bytes_eq_iff k target,
          beq_self k,
        )

    onward_all :
        (t : Option T) (b : Map Bytes S) (rest : List T × Map Bytes S) (ts : List T)
        → rest.0 ≡ ts
        → (onward t false b rest).0 ≡ prepend t ts
    onward_all none b rest ts h = h
    onward_all (some t) b rest ts h = ap (λ xs. t ∷ xs) h

    onward_limited :
        (limit n : ℕ) (t : Option T) (b : Map Bytes S) (rest : List T × Map Bytes S) (ts : List T)
        → n < limit
        → (counted t n < limit → rest.0 ≡ take (limit - counted t n) ts)
        → (onward t (leb limit (counted t n)) b rest).0 ≡ take (limit - n) (prepend t ts)
    onward_limited limit n none b rest ts room h = h room
    onward_limited limit n (some t) b rest ts room h = elim (Bool-cases (leb limit (n + 1))) [
      | inl last ↦ let e : limit - n ≡ 1 = ground arith in rw (last, e) refl
      | inr on ↦
          let e : limit - n ≡ suc (limit - (n + 1)) = ground arith in
          rw (on, e) (ap (λ xs. t ∷ xs) (h (ground arith)))
    ]

    pub scan-expected :
        (n : ℕ) (current b : Map Bytes S)
        → Distinct current
        → (scan sample (λ _. false) n current b).0 ≡ expected b current
    unfolding scan
    scan-expected n [] b d = refl
    scan-expected n ((target, stats) ∷ current) b d =
        let t = sampled sample (find target b) target stats in
        onward_all t _ _ _ (
          scan-expected (counted t n) current (assign target stats b) d.1
          ∙ expected-assign target stats b current d.0)

    pub scan-limited :
        (limit n : ℕ) (current b : Map Bytes S)
        → n < limit
        → Distinct current
        → (scan sample (λ m. leb limit m) n current b).0 ≡ take (limit - n) (expected b current)
    unfolding scan
    scan-limited limit n [] b room d = sym (take_nil (limit - n))
    scan-limited limit n ((target, stats) ∷ current) b room d =
        let t = sampled sample (find target b) target stats in
        onward_limited limit n t _ _ _ room (λ more.
          scan-limited limit (counted t n) current (assign target stats b) more d.1
          ∙ ap (take (limit - counted t n)) (expected-assign target stats b current d.0))
