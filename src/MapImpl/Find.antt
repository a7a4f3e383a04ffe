-- ===== src/MapImpl/Find.antt =====
-- `find_key` finds the slot that a scan of the whole table finds: the chains never end the probe
-- of a key before the slot of the key.
use native.Mathlib.Decide.{ℕ_discrete}
use vigor.Prelude.{
  ℕ, zero, suc, ◌+◌, ◌<◌, ◌≤◌, ◌≡◌, refl, sym, true, false, none, some, arith, inl, inr,
  Option-cases, ◌∙◌, Bool-cases, ◌≢◌, ap,
}
use vigor.Prelude.Counting.{count-pos}
use vigor.Prelude.Arrays.{u32}
use vigor.MapImpl.Interface.{KeyOps, Build, IsCapacity}
use vigor.MapImpl.Probe.{dist, dist-lt, dist_injective, loop-probe, loop-start}
use vigor.MapImpl.Inv.{home, passes, IsValid, holds, scan, scan-some, scan-none}
use vigor.MapImpl.{Table, find_from, find_key}

module _ {ℓ} {K : Type ℓ} ⦃key : KeyOps K⦄ ⦃build : Build⦄ {n : ℕ} (cap : IsCapacity n)
    (t : Table K) (k : K) where
  home-lt : home n k < n
  home-lt = omega (arith, cap.positive)

  find_miss :
      ((j : ℕ) → j < n → holds t k j ≡ false)
      → (rounds i : ℕ) → i + rounds ≡ n
      → find_from t k (key.khash k) n (home n k) rounds i ≡ none
  unfolding find_from
  find_miss absent zero i e = refl
  find_miss absent (suc rounds) i e =
      let x = build.loop (u32 (home n k + i)) n in
      let at = loop-probe cap (home n k) i home-lt (omega arith) in
      let free : holds t k x ≡ false = absent x at.0 in
      ground (arith, free, find_miss absent rounds (i + 1) (omega arith))

  module _ (valid : IsValid n t) (j : ℕ) (in_range : j < n) (here : holds t k j ≡ true) where
    stored : t.keyps j ≡ k
    stored = (key.keys_eq_iff (t.keyps j) k).0 (ground arith)

    -- Another slot on the way is passed over: it does not hold the key, and its chain is not 0.
    on_the_way :
        (x : ℕ)
        → x < n
        → x ≢ j
        → dist n (home n k) x < dist n (home n k) j
        → (holds t k x ≡ false) × (0 < t.chns x)
    on_the_way x l ne before = (
      elim (Bool-cases (holds t k x)) [
        | inr f ↦ f
        | inl h ↦ absurd (
            ne (
              valid.distinct x j l in_range (ground arith) (ground arith)
                ((key.keys_eq_iff (t.keyps x) k).0 (ground arith) ∙ sym stored)))
      ],
      rw (valid.counted x l) (count-pos n (passes n t x) j in_range (rw stored (ground arith))),
    )

    find_hit :
        (rounds i : ℕ)
        → i + rounds ≡ n
        → i ≤ dist n (home n k) j
        → find_from t k (key.khash k) n (home n k) rounds i ≡ some j
    unfolding find_from
    find_hit zero i e before = absurd (omega (arith, dist-lt n (home n k) j home-lt in_range))
    find_hit (suc rounds) i e before =
        let h = home n k in
        let x = build.loop (u32 (h + i)) n in
        let at = loop-probe cap h i home-lt (omega arith) in
        let same : t.khs j ≡ key.khash k =
          valid.hashed j in_range (ground arith) ∙ ap key.khash stored in
        elim (ℕ_discrete i (dist n h j)) [
          | yes s ↦
              let arrived : x ≡ j = dist_injective n h x j home-lt at.0 in_range (at.1 ∙ s) in
              ground (arith, arrived, same)
          | no d ↦
              let skip =
                on_the_way x at.0 (λ s. d (sym at.1 ∙ ap (dist n h) s)) (omega (arith, at.1)) in
              ground (arith, skip, find_hit rounds (i + 1) (omega arith) (omega arith))
        ]

  -- In a valid table of an accepted capacity, `find_key` with the hash of a key returns what a
  -- scan of all slots finds: the slot that holds the key, and -1 when none does. The chain
  -- counters never stop a probe in front of the slot of its key.
  pub find_key-scan : IsValid n t → find_key t k (key.khash k) n ≡ scan t k n
  unfolding find_key
  find_key-scan valid =
      rw (loop-start cap (key.khash k) (key.khash-lt k)) (elim (Option-cases (scan t k n)) [
        | inl e ↦ rw e (find_miss (scan-none t k n e) n 0 (omega arith))
        | inr (j, e) ↦
            let (l, h) = scan-some t k n e in
            rw e (find_hit valid j l h n 0 (omega arith) (omega arith))
      ])
