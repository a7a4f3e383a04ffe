-- ===== src/MapImpl/Inv.antt =====
-- The invariant of the table, and what the table stands for: the keys of its busy slots.
use native.Mathlib.Decide.{ℕ_discrete}
use vigor.Prelude.{
  ℕ, zero, suc, ◌%◌, ◌<◌, ◌≡◌, Bool, true, false, ◌&&◌, Option, none, some, ltb, if◌then◌else◌,
  arith, Bool-cases, Option-cases, inl, inr, ap, sym, ◌∙◌,
}
use vigor.Prelude.Counting.{count}
use vigor.MapImpl.Interface.{KeyOps}
use vigor.MapImpl.Probe.{dist}
use vigor.MapImpl.{Table, is_busy}

module _ {ℓ} {K : Type ℓ} ⦃key : KeyOps K⦄ where
  -- the slot at which the probe of a key starts
  abbrev pub home : ℕ → K → ℕ
  home n k = key.khash k % n

  -- the probe of the key in slot `j` passes over slot `x`
  abbrev pub passes : ℕ → Table K → ℕ → ℕ → Bool
  passes n t x j =
      is_busy t j && ltb (dist n (home n (t.keyps j)) x) (dist n (home n (t.keyps j)) j)

  pub record IsValid (n : ℕ) (t : Table K) : Type ℓ where
    pub hashed : (j : ℕ) → j < n → is_busy t j ≡ true → t.khs j ≡ key.khash (t.keyps j)
    pub distinct :
        (i j : ℕ)
        → i < n
        → j < n
        → is_busy t i ≡ true
        → is_busy t j ≡ true
        → t.keyps i ≡ t.keyps j
        → i ≡ j
    pub counted : (x : ℕ) → x < n → t.chns x ≡ count n (passes n t x)

  -- slot `j` holds the key `k`
  abbrev pub holds : Table K → K → ℕ → Bool
  holds t k j = is_busy t j && key.keys_eq (t.keyps j) k

  -- The slot of a key by looking at every slot, without hashes and chains.
  unfoldable pub scan : Table K → K → ℕ → Option ℕ
  scan t k zero = none
  scan t k (suc n) = if holds t k n then some n else scan t k n

  pub scan-some :
      (t : Table K) (k : K) (n : ℕ) {j : ℕ} → scan t k n ≡ some j → (j < n) × (holds t k j ≡ true)
  unfolding scan
  scan-some t k zero h = absurd (ground arith)
  scan-some t k (suc n) {j} h = elim (Bool-cases (holds t k n)) [
    | inl e ↦ let same : n ≡ j = ground (arith, e) in (ground (arith, same), ground (arith, same))
    | inr e ↦ let (l, r) = scan-some t k n (rw e at h) in (omega arith, r)
  ]

  pub scan-none :
      (t : Table K) (k : K) (n : ℕ) → scan t k n ≡ none → (j : ℕ) → j < n → holds t k j ≡ false
  unfolding scan
  scan-none t k zero h j l = absurd (omega arith)
  scan-none t k (suc n) h j l = elim (Bool-cases (holds t k n)) [
    | inl e ↦ absurd (ground (arith, e))
    | inr e ↦ elim (ℕ_discrete n j) [
      | yes s ↦ rw (← s) e
      | no d ↦ scan-none t k n (rw e at h) j (omega arith)
    ]
  ]

  -- The value of a key, by the scan.
  abbrev pub lookup : ℕ → Table K → K → Option ℕ
  lookup n t k = elim (scan t k n) [ none ↦ none | some j ↦ some (t.vals j) ]

  pub lookup-some :
      (n : ℕ) (t : Table K) (k : K) {j : ℕ} → scan t k n ≡ some j → lookup n t k ≡ some (t.vals j)
  lookup-some n t k e = rw (e, lookup)

  pub lookup-none : (n : ℕ) (t : Table K) (k : K) → scan t k n ≡ none → lookup n t k ≡ none
  lookup-none n t k e = rw (e, lookup)

  pub scan_absent :
      (t : Table K) (k : K) (n : ℕ) → ((j : ℕ) → j < n → holds t k j ≡ false) → scan t k n ≡ none
  scan_absent t k n h = elim (Option-cases (scan t k n)) [
    | inl e ↦ e
    | inr (j, e) ↦
        let (l, held) = scan-some t k n e in let free = h j l in absurd (ground (arith, held, free))
  ]

  -- The only slot of a key is the one that the scan finds.
  pub scan_only :
      (t : Table K) (k : K) (n j : ℕ)
      → ((i : ℕ) → i < n → holds t k i ≡ true → i ≡ j)
      → j < n
      → holds t k j ≡ true
      → scan t k n ≡ some j
  scan_only t k n j only l held = elim (Option-cases (scan t k n)) [
    | inl e ↦ let free = scan-none t k n e j l in absurd (ground (arith, held, free))
    | inr (i, e) ↦ let (m, other) = scan-some t k n e in e ∙ ap some (only i m other)
  ]

  pub holds-key : (t : Table K) (k : K) (j : ℕ) → holds t k j ≡ true → t.keyps j ≡ k
  holds-key t k j h = (key.keys_eq_iff (t.keyps j) k).0 (ground arith)

  -- In a valid table no two slots hold one key.
  pub holds_unique :
      {n : ℕ} {t : Table K} (k : K) (i j : ℕ)
      → IsValid n t
      → i < n
      → j < n
      → holds t k i ≡ true
      → holds t k j ≡ true
      → i ≡ j
  holds_unique {t = t} k i j v l m p q =
      v.distinct i j l m (ground arith) (ground arith) (holds-key t k i p ∙ sym (holds-key t k j q))

-- The number of busy slots.
abbrev pub busy_count {ℓ} : {K : Type ℓ} → ℕ → Table K → ℕ
busy_count n t = count n (is_busy t)
