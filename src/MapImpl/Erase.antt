-- ===== src/MapImpl/Erase.antt =====
-- `find_key_remove_chain` and `map_impl_erase`.
use native.Mathlib.Decide.{ℕ_discrete}
use vigor.Prelude.{
  ℕ, zero, suc, ◌+◌, ◌<◌, ◌≤◌, ◌≡◌, sym, ◌∙◌, ap, true, false, ◌&&◌, Option, none, some,
  if◌then◌else◌, ltb, leb, arith, inl, inr, Option-cases, Bool-cases, ◌≢◌,
}
use vigor.Prelude.Arrays.{Array, u32, dec32, write}
use vigor.Prelude.Counting.{count-le, count_add}
use vigor.MapImpl.Interface.{KeyOps, Build, IsCapacity}
use vigor.MapImpl.Probe.{dist, dist-lt, dist_injective, loop-probe, loop-start}
use vigor.MapImpl.Inv.{
  home, passes, IsValid, holds, scan, scan-some, scan-none, lookup, lookup-some, lookup-none,
  scan_absent, scan_only, holds-key, holds_unique, busy_count,
}
use vigor.MapImpl.{Table, is_busy, remove_from, find_key_remove_chain, map_impl_erase}

module _ {ℓ} {K : Type ℓ} ⦃key : KeyOps K⦄ ⦃build : Build⦄ where
  -- The table without the key in slot `j`, with other chains.
  abbrev pub removed : Table K → ℕ → Array ℕ → Table K
  removed t j chns' = record t { busybits = write t.busybits j 0; chns = chns' }

  -- What the loop has done when it stops: the slot is emptied, its key is handed out, and the
  -- chains of the slots from the round `i` up to it, and no others, are one shorter.
  pub record Removed (n h i : ℕ) (t : Table K) (j : ℕ) (chns : Array ℕ) (out : Table K × Option K)
      : Type ℓ where
    pub chains : Array ℕ
    pub result : out ≡ (removed t j chains, some (t.keyps j))
    pub shorter :
        (x : ℕ)
        → x < n
        → chains x
          ≡ (if leb i (dist n h x) && ltb (dist n h x) (dist n h j) then dec32 (chns x) else chns x)

  module _ {n : ℕ} (c : IsCapacity n) (t : Table K) (valid : IsValid n t) (k : K) (j : ℕ)
      (in_range : j < n) (here : holds t k j ≡ true) where
    home-lt : home n k < n
    home-lt = omega (arith, c.positive)

    stored : t.keyps j ≡ k
    stored = holds-key t k j here

    not_here : (x : ℕ) → x < n → x ≢ j → holds t k x ≡ false
    not_here x l ne = elim (Bool-cases (holds t k x)) [
      | inr f ↦ f
      | inl h ↦ absurd (ne (holds_unique k x j valid l in_range h here))
    ]

    remove_from-Removed :
        (rounds i : ℕ) (chns : Array ℕ)
        → i + rounds ≡ n
        → i ≤ dist n (home n k) j
        → Removed n
            (home n k)
            i
            t
            j
            chns
            (remove_from (record t { chns = chns }) k (key.khash k) n (home n k) rounds i)
    unfolding remove_from
    remove_from-Removed zero i chns e before =
        absurd (omega (arith, dist-lt n (home n k) j home-lt in_range))
    remove_from-Removed (suc rounds) i chns e before =
        let h = home n k in
        let x = build.loop (u32 (h + i)) n in
        let at = loop-probe c h i home-lt (omega arith) in
        let same : t.khs j ≡ key.khash k =
          valid.hashed j in_range (ground arith) ∙ ap key.khash stored in
        elim (ℕ_discrete i (dist n h j)) [
          | yes s ↦
              let arrived : x ≡ j = dist_injective n h x j home-lt at.0 in_range (at.1 ∙ s) in
              record {
                chains = chns;
                result = rw arrived (ground (arith, same));
                shorter = λ y l. ground (arith, s);
              }
          | no d ↦
              let other : holds t k x ≡ false =
                not_here x at.0 (λ e. d (sym at.1 ∙ ap (dist n h) e)) in
              let r =
                remove_from-Removed rounds (i + 1) (write chns x (dec32 (chns x))) (omega arith)
                  (omega arith) in
              record {
                chains = r.chains;
                result = rw (← r.result) (ground (arith, other));
                shorter =
                    λ y l. ground (arith, r.shorter y l, at, dist_injective n h x y home-lt at.0 l);
              }
        ]

    module _ (out : Table K × Option K) (r : Removed n (home n k) 0 t j t.chns out) where
      abbrev t' : Table K
      t' = removed t j r.chains

      removed-IsValid : IsValid n t'
      removed-IsValid = record {
        hashed = λ i l b. ground (arith, valid.hashed i l);
        distinct = λ i i' l m b b' e. valid.distinct i i' l m (ground arith) (ground arith) e;
        counted = λ x l.
            let less =
              count_add n (passes n t' x) (passes n t x) j in_range (ground arith)
                (λ i m ne. ground arith) in
            let bound = count-le n (passes n t x) in
            let at_j : passes n t x j ≡ ltb (dist n (home n k) x) (dist n (home n k) j) =
              rw stored (ground arith) in
            ground (arith, r.shorter x l, valid.counted x l, less, bound, at_j, c.small);
      }

      removed-lookup : (q : K) → lookup n t' q ≡ (if key.keys_eq k q then none else lookup n t q)
      removed-lookup q = elim (Bool-cases (key.keys_eq k q)) [
        | inl same ↦
            let k-q : k ≡ q = (key.keys_eq_iff k q).0 same in
            let gone = scan_absent t' q n (λ i l. ground (arith, not_here i l, k-q)) in
            rw same (lookup-none n t' q gone)
        | inr other ↦ elim (Option-cases (scan t q n)) [
          | inl e ↦
              let none' = scan_absent t' q n (λ i l. ground (arith, scan-none t q n e i l)) in
              rw other (lookup-none n t' q none' ∙ sym (lookup-none n t q e))
          | inr (i, e) ↦
              let (l, held) = scan-some t q n e in
              let apart : i ≢ j = λ s. let b = stored in ground (arith, held, s, b, other) in
              let found =
                scan_only t' q n i (λ m b h. holds_unique q m i valid b l (ground arith) held) l
                  (ground (arith, held, apart)) in
              rw other (lookup-some n t' q found ∙ sym (lookup-some n t q e))
        ]
      ]

      busy_count-removed : busy_count n t' + 1 ≡ busy_count n t
      busy_count-removed =
          let less =
            count_add n (is_busy t') (is_busy t) j in_range (ground arith)
              (λ i m ne. ground arith) in
          ground (arith, less)

  -- What erasing a key that is in the table leaves.
  pub record Erased (n : ℕ) (t : Table K) (k : K) (out : Table K × Option K) : Type ℓ where
    pub valid : IsValid n out.0
    pub key_out : out.1 ≡ some k
    pub reads : (q : K) → lookup n out.0 q ≡ (if key.keys_eq k q then none else lookup n t q)
    pub busy : busy_count n out.0 + 1 ≡ busy_count n t

  -- Erasing a key that is in a valid table of an accepted capacity hands out the stored key. The
  -- new table is valid, the key is absent, every other key keeps its value, and one slot less is
  -- busy.
  pub map_impl_erase_lem :
      {n : ℕ} (t : Table K) (k : K) {j : ℕ}
      → IsCapacity n
      → IsValid n t
      → scan t k n ≡ some j
      → Erased n t k (map_impl_erase t k (key.khash k) n)
  unfolding map_impl_erase find_key_remove_chain
  map_impl_erase_lem {n} t k {j} c valid found =
      let (l, here) = scan-some t k n found in
      let out = remove_from t k (key.khash k) n (home n k) n 0 in
      let r : Removed n (home n k) 0 t j t.chns out =
        remove_from-Removed c t valid k j l here n 0 t.chns (omega arith) (omega arith) in
      rw (loop-start c (key.khash k) (key.khash-lt k), r.result)
        (record {
          valid = removed-IsValid c t valid k j l here out r;
          key_out = ap some (stored c t valid k j l here);
          reads = removed-lookup c t valid k j l here out r;
          busy = busy_count-removed c t valid k j l here out r;
        })
