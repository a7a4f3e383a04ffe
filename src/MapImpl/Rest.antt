-- ===== src/MapImpl/Rest.antt =====
-- `map_impl_init`, `map_impl_get` and `map_impl_size`.
use native.Mathlib.Numerals.{add-one}
use vigor.Prelude.Arrays.{u32, write}
use vigor.Prelude.{
  if◌then◌else◌, ℕ, zero, suc, ◌+◌, ◌<◌, ◌≡◌, refl, sym, ◌∙◌, none, arith, inl, inr, Option-cases,
}
use vigor.Prelude.Counting.{count, count-eq-zero, count-le}
use vigor.MapImpl.Interface.{KeyOps, Build, IsCapacity}
use vigor.MapImpl.Inv.{IsValid, scan, lookup, lookup-some, lookup-none, scan_absent, busy_count}
use vigor.MapImpl.Find.{find_key-scan}
use vigor.MapImpl.{
  Table, is_busy, clear_from, map_impl_init, map_impl_get, size_from, map_impl_size,
}

module _ {ℓ} {K : Type ℓ} where
  -- The loop leaves 0 in both arrays from its first index on, and what it has cleared before.
  clear_from-clear :
      (t : Table K) (rounds i x : ℕ)
      → x < i + rounds
      → (x < i → (t.busybits x ≡ 0) × (t.chns x ≡ 0))
      → ((clear_from t rounds i).busybits x ≡ 0) × ((clear_from t rounds i).chns x ≡ 0)
  unfolding clear_from
  clear_from-clear t zero i x l before = before (omega arith)
  clear_from-clear t (suc rounds) i x l before =
      clear_from-clear (record t { busybits = write t.busybits i 0; chns = write t.chns i 0 })
        rounds (i + 1) x (omega arith) (λ m. ground (arith, before))

  -- `map_impl_size` counts the busy slots.
  size_from-count :
      (t : Table K) (rounds i j s : ℕ)
      → i + rounds ≡ j
      → j < 4294967296
      → s ≡ count i (is_busy t)
      → size_from t rounds i s ≡ count j (is_busy t)
  unfolding size_from
  size_from-count t zero i j s sum l e = let same : i ≡ j = omega arith in rw (← same) e
  size_from-count t (suc rounds) i j s sum l e =
      size_from-count t rounds (i + 1) j (if is_busy t i then u32 (s + 1) else s) (omega arith) l
        (rw (add-one i) (unfold count in ground (arith, e, count-le i (is_busy t))))

  -- For a capacity below 2^32, `map_impl_size` is the number of busy slots.
  pub map_impl_size_lem :
      (t : Table K) {n : ℕ} → n < 4294967296 → map_impl_size t n ≡ busy_count n t
  unfolding map_impl_size
  map_impl_size_lem t {n} l = unfold count in size_from-count t n 0 n 0 (omega arith) l refl

module _ {ℓ} {K : Type ℓ} ⦃key : KeyOps K⦄ ⦃build : Build⦄ where
  -- Whatever the memory held, the table after `map_impl_init` is valid, a scan finds no key in
  -- it, and no slot is busy.
  pub map_impl_init_lem :
      (t : Table K) (n : ℕ)
      → let t' = map_impl_init t n in
        IsValid n t' × ((k : K) → scan t' k n ≡ none) × (busy_count n t' ≡ 0)
  unfolding map_impl_init
  map_impl_init_lem t n =
      let clear =
        λ (x : ℕ) (l : x < n). clear_from-clear t n 0 x (omega arith) (λ m. absurd (omega arith)) in
      (
        record {
          hashed = λ j l b. absurd (ground (arith, clear j l));
          distinct = λ i j l m b b' e. absurd (ground (arith, clear i l));
          counted =
              λ x l. (clear x l).1 ∙ sym (count-eq-zero n _ (λ j m. ground (arith, clear j m)));
        },
        (λ k. scan_absent _ k n (λ j l. ground (arith, clear j l))),
        count-eq-zero n _ (λ j m. ground (arith, clear j m)),
      )

  -- In a valid table of an accepted capacity, `map_impl_get` with the hash of a key returns the
  -- value that a scan of all slots finds, and misses exactly where the scan does.
  pub map_impl_get_lem :
      {n : ℕ} (t : Table K) (k : K)
      → IsCapacity n
      → IsValid n t
      → map_impl_get t k (key.khash k) n ≡ lookup n t k
  unfolding map_impl_get
  map_impl_get_lem {n} t k c valid = elim (Option-cases (scan t k n)) [
    | inl e ↦ rw (find_key-scan c t k valid, e, map_impl_get) (sym (lookup-none n t k e))
    | inr (j, e) ↦ rw (find_key-scan c t k valid, e, map_impl_get) (sym (lookup-some n t k e))
  ]
