-- ===== src/MapImpl/Put.antt =====
-- `map_impl_put`.
use vigor.Prelude.{
  ℕ, ◌+◌, ◌<◌, ◌≡◌, sym, ◌∙◌, ap, true, Option, none, some, if◌then◌else◌, arith, inl, inr,
  Option-cases, Bool-cases, ◌≢◌,
}
use vigor.Prelude.Arrays.{Array, write}
use vigor.Prelude.Counting.{count-le, count-lt, count_add}
use vigor.MapImpl.Interface.{KeyOps, Build, IsCapacity}
use vigor.MapImpl.Probe.{loop-start}
use vigor.MapImpl.Inv.{
  home, passes, IsValid, scan, scan-some, scan-none, lookup, lookup-some, lookup-none, scan_absent,
  scan_only, holds_unique, busy_count,
}
use vigor.MapImpl.Empty.{Placed, find_empty-Placed}
use vigor.MapImpl.{Table, is_busy, find_empty, map_impl_put}

module _ {ℓ} {K : Type ℓ} ⦃key : KeyOps K⦄ ⦃build : Build⦄ where
  -- The table after the writes of `map_impl_put` at an empty slot.
  abbrev pub placed : Table K → K → (value slot : ℕ) → Array ℕ → Table K
  placed t k value slot chns' = record {
    busybits = write t.busybits slot 1;
    keyps = write t.keyps slot k;
    khs = write t.khs slot (key.khash k);
    chns = chns';
    vals = write t.vals slot value;
  }

  module _ {n : ℕ} (c : IsCapacity n) (t : Table K) (valid : IsValid n t) (k : K)
      (absent : scan t k n ≡ none) (v : ℕ) (out : Option ℕ × Array ℕ)
      (p : Placed n (home n k) 0 t.busybits t.chns out) where
    abbrev t' : Table K
    t' = placed t k v p.slot out.1

    placed-distinct :
        (i j : ℕ)
        → i < n
        → j < n
        → is_busy t' i ≡ true
        → is_busy t' j ≡ true
        → t'.keyps i ≡ t'.keyps j
        → i ≡ j
    placed-distinct i j l m bi bj e = ground (
      arith,
      valid.distinct i j l m,
      scan-none t k n absent i l,
      scan-none t k n absent j m,
      key.keys_eq_iff (t.keyps i) k,
      key.keys_eq_iff (t.keyps j) k,
    )

    placed-IsValid : IsValid n t'
    placed-IsValid = record {
      hashed = λ j l b. ground (arith, valid.hashed j l);
      distinct = placed-distinct;
      counted = λ x l.
          let more =
            count_add n (passes n t x) (passes n t' x) p.slot p.in_range (ground (arith, p.empty))
              (λ j m ne. ground arith) in
          ground (arith, p.chains x l, valid.counted x l, more);
    }

    placed-lookup : (q : K) → lookup n t' q ≡ (if key.keys_eq k q then some v else lookup n t q)
    placed-lookup q = elim (Bool-cases (key.keys_eq k q)) [
      | inl same ↦
          let k-q : k ≡ q = (key.keys_eq_iff k q).0 same in
          let here =
            scan_only t' q n p.slot (λ i l h. ground (arith, scan-none t k n absent i l, h, k-q))
              p.in_range (ground (arith, same)) in
          rw same (lookup-some n t' q here ∙ ground arith)
      | inr other ↦ elim (Option-cases (scan t q n)) [
        | inl e ↦
            let none' = scan_absent t' q n (λ j l. ground (arith, other, scan-none t q n e j l)) in
            rw other (lookup-none n t' q none' ∙ sym (lookup-none n t q e))
        | inr (j, e) ↦
            let (l, held) = scan-some t q n e in
            let apart : j ≢ p.slot = λ s. let b = p.empty in ground (arith, held, s, b) in
            let here =
              scan_only t' q n j
                (λ i m h. ground (arith, other, apart, holds_unique q i j valid m l, held, h)) l
                (ground (arith, held, apart)) in
            rw other (lookup-some n t' q here ∙ ground (arith, apart) ∙ sym (lookup-some n t q e))
      ]
    ]

    busy_count-placed : busy_count n t' ≡ busy_count n t + 1
    busy_count-placed =
        let more =
          count_add n (is_busy t) (is_busy t') p.slot p.in_range (ground (arith, p.empty))
            (λ j m ne. ground arith) in
        ground (arith, more)

  -- The whole of `map_impl_put`, from what `find_empty` does.
  map_impl_put-placed :
      {n : ℕ} (t : Table K) (k : K) (v : ℕ)
      → IsCapacity n
      → (p : Placed n (home n k) 0 t.busybits t.chns (find_empty t.busybits t.chns (home n k) n))
      → map_impl_put t k (key.khash k) v n
        ≡ some (placed t k v p.slot (find_empty t.busybits t.chns (home n k) n).1)
  unfolding map_impl_put
  map_impl_put-placed {n} t k v c p =
      let out = find_empty t.busybits t.chns (home n k) n in
      let found : out ≡ (some p.slot, out.1) = ap (λ s. (s, out.1)) p.found in
      rw (loop-start c (key.khash k) (key.khash-lt k)) (rw found)

  -- A put of a key that is absent into a valid table of an accepted capacity that is not full
  -- succeeds. The new table is valid, the key has the new value, every other key keeps its value,
  -- and one more slot is busy.
  pub map_impl_put_lem :
      {n : ℕ} (t : Table K) (k : K) (v : ℕ)
      → IsCapacity n
      → IsValid n t
      → scan t k n ≡ none
      → busy_count n t < n
      → (t' : Table K) × (map_impl_put t k (key.khash k) v n ≡ some t')
        × IsValid n t'
        × ((q : K) → lookup n t' q ≡ (if key.keys_eq k q then some v else lookup n t q))
        × (busy_count n t' ≡ busy_count n t + 1)
  map_impl_put_lem {n} t k v c valid absent room =
      let out = find_empty t.busybits t.chns (home n k) n in
      let (e, l, f) = count-lt n (is_busy t) room in
      let p : Placed n (home n k) 0 t.busybits t.chns out =
        find_empty-Placed c t.busybits (home n k) (omega (arith, c.positive)) t.chns
          (λ x m. omega (arith, valid.counted x m, count-le n (passes n t x), c.small)) e l
          (ground (arith, f)) in
      (
        placed t k v p.slot out.1,
        map_impl_put-placed t k v c p,
        placed-IsValid c t valid k absent v out p,
        placed-lookup c t valid k absent v out p,
        busy_count-placed c t valid k absent v out p,
      )
