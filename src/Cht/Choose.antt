-- ===== src/Cht/Choose.antt =====
-- `cht_find_preferred_available_backend`: the first active backend of the row.
use vigor.Prelude.{
  ℕ, suc, zero, ◌+◌, ◌*◌, ◌%◌, ◌<◌, ◌≡◌, inl, inr, refl, sym, ◌∙◌, ap, subst, Bool, true, false,
  Option, none, some, arith, Bool-cases, ltb, ◌==◌,
}
use vigor.Prelude.Arrays.{u32}
use vigor.DoubleChain.Entries.{Entries, has}
use vigor.DoubleChain.Refine.{Models, dchain_is_index_allocated_lem}
use vigor.DoubleChain.{DoubleChain}
use vigor.Vector.{Vector, vector_borrow}
use vigor.Vector.Borrow.{vector_return-borrow}
use vigor.Cht.{choose_from, cht_find_preferred_available_backend}

-- Of the first `capacity` backends of a row, the first one that is active: it stands at a rank, and
-- none before it is active. Or none at all is active.
pub data Chooses (row : ℕ → ℕ) (active : ℕ → Bool) (capacity : ℕ) : Option ℕ → Type 0 where
  chosen :
      (rank : ℕ)
      → rank < capacity
      → active (row rank) ≡ true
      → ((j : ℕ) → j < rank → active (row j) ≡ false)
      → Chooses row active capacity (some (row rank))
  nobody : ((j : ℕ) → j < capacity → active (row j) ≡ false) → Chooses row active capacity none

-- The row of a bucket.
abbrev pub row_of : Vector ℕ → (bucket capacity : ℕ) → ℕ → ℕ
row_of cht bucket capacity j = cht.items (bucket * capacity + j)

module _ {capacity : ℕ} {es : Entries} {active_backends : DoubleChain}
    (r : Models capacity es active_backends) (cht : Vector ℕ) (bucket : ℕ)
    (small : bucket * capacity + capacity < 4294967296)
    (in_range : (j : ℕ) → j < capacity → row_of cht bucket capacity j < capacity) where
  choose_from_lem :
      (i rounds : ℕ)
      → i + rounds ≡ capacity
      → ((j : ℕ) → j < i → has (row_of cht bucket capacity j) es ≡ false)
      → let (choice, cht') = choose_from cht active_backends bucket capacity i rounds in
        (cht' ≡ cht) × Chooses (row_of cht bucket capacity) (λ b. has b es) capacity choice
  unfolding choose_from
  choose_from_lem i zero whole before = (refl, nobody (λ j l. before j (omega (arith, whole, l))))
  choose_from_lem i (suc rounds) whole before =
      let row = row_of cht bucket capacity in
      let index : u32 (bucket * capacity + i) ≡ bucket * capacity + i =
        omega (arith, small, whole) in
      let borrowed : vector_borrow cht (bucket * capacity + i) ≡ row i =
        unfold vector_borrow in refl in
      let same = vector_return-borrow cht (bucket * capacity + i) in
      let l : i < capacity = omega (arith, whole) in
      let tested = dchain_is_index_allocated_lem r (row i) (in_range i l) in
      elim (Bool-cases (has (row i) es)) [
        | inl here ↦ rw (index, same, borrowed, tested, here) (refl, chosen i l here before)
        | inr not_here ↦
            rw (index, same, borrowed, tested, not_here)
              (choose_from_lem (i + 1) rounds (omega (arith, whole)) (λ j k.
                elim (Bool-cases (j == i)) [
                  | inl e ↦ let at_i : j ≡ i = ground (arith, e) in rw at_i not_here
                  | inr ne ↦ before j (ground (arith, k, ne))
                ]))
      ]

-- Let the row of the bucket of a hash, which is the hash modulo the height, lie below 2^32 and hold
-- only backends in range. Then the function returns the first backend of the row that is active,
-- fails exactly if none of the row is active, and leaves the table as it is.
pub cht_find_preferred_available_backend_lem :
    {capacity : ℕ} {es : Entries} {active_backends : DoubleChain} (hash : ℕ) (cht : Vector ℕ)
    (cht_height : ℕ)
    → Models capacity es active_backends
    → let bucket = hash % cht_height in
      bucket * capacity + capacity < 4294967296
      → ((j : ℕ) → j < capacity → row_of cht bucket capacity j < capacity)
      → let (choice, cht') =
          cht_find_preferred_available_backend hash cht active_backends cht_height capacity in
        (cht' ≡ cht) × Chooses (row_of cht bucket capacity) (λ b. has b es) capacity choice
unfolding cht_find_preferred_available_backend
cht_find_preferred_available_backend_lem {capacity} hash cht cht_height r small in_range =
    choose_from_lem r cht (hash % cht_height) small in_range 0 capacity (omega arith)
      (λ j l. absurd (omega (arith, l)))

module _ {row : ℕ → ℕ} {capacity : ℕ} where
  -- A choice from a row in which every backend stands: somebody is chosen if anybody is active.
  pub Chooses-nobody :
      {active : ℕ → Bool}
      → ((b : ℕ) → b < capacity → (j : ℕ) × (j < capacity) × (row j ≡ b))
      → Chooses row active capacity none
      → (b : ℕ) → b < capacity
      → active b ≡ false
  Chooses-nobody {active} full (nobody idle) b l =
      let (j, k, e) = full b l in ap active (sym e) ∙ idle j k

  -- Backends that leave do not change the choice, unless the chosen one leaves.
  Chooses-stable :
      {active active' : ℕ → Bool} (b : ℕ) (choice : Option ℕ)
      → ((u : ℕ) → active' u ≡ true → active u ≡ true)
      → active' b ≡ true
      → Chooses row active capacity (some b)
      → Chooses row active' capacity choice
      → choice ≡ some b
  Chooses-stable b none fewer stays (chosen rank l here before) (nobody idle) =
      absurd (ground (arith, stays, idle rank l))
  Chooses-stable b (some b') fewer stays (chosen rank l here before)
        (chosen rank' l' here' before') =
      elim (Bool-cases (ltb rank' rank)) [
        | inl less ↦
            absurd (ground (arith, fewer (row rank') here', before rank' (ground (arith, less))))
        | inr not_less ↦ elim (Bool-cases (ltb rank rank')) [
          | inl less ↦ absurd (ground (arith, stays, before' rank (ground (arith, less))))
          | inr not_more ↦
              let same : rank' ≡ rank = ground (arith, not_less, not_more) in
              ap (λ k. some (row k)) same
        ]
      ]

-- Let the row of the bucket of a hash lie below 2^32 and hold only backends in range. If the
-- function chooses a backend, and then any other backends leave and none comes, it chooses the same
-- one.
pub cht_find-stable :
    {capacity : ℕ} {es es' : Entries} {active_backends active_backends' : DoubleChain} (hash : ℕ)
    (cht : Vector ℕ) (cht_height b : ℕ)
    → Models capacity es active_backends
    → Models capacity es' active_backends'
    → let bucket = hash % cht_height in
      bucket * capacity + capacity < 4294967296
      → ((j : ℕ) → j < capacity → row_of cht bucket capacity j < capacity)
      → (cht_find_preferred_available_backend hash cht active_backends cht_height capacity).0
        ≡ some b
      → ((u : ℕ) → has u es' ≡ true → has u es ≡ true)
      → has b es' ≡ true
      → cht_find_preferred_available_backend hash cht active_backends' cht_height capacity
        ≡ (some b, cht)
cht_find-stable {capacity} {es} {es'} {active_backends} {active_backends'} hash cht cht_height b r
      r' small in_range was fewer stays =
    let row = row_of cht (hash % cht_height) capacity in
    let (_, c) = cht_find_preferred_available_backend_lem hash cht cht_height r small in_range in
    let (same, c') =
      cht_find_preferred_available_backend_lem hash cht cht_height r' small in_range in
    let choice =
      Chooses-stable b _ fewer stays (subst (Chooses row (λ u. has u es) capacity) was c) c' in
    let left =
      (cht_find_preferred_available_backend hash cht active_backends' cht_height capacity).1 in
    ap (λ o. (o, left)) choice ∙ ap (λ v. (some b, v)) same
