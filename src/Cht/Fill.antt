-- ===== src/Cht/Fill.antt =====
-- `cht_fill_cht`: every row is a permutation of the backends.
use native.Mathlib.Nat.{mul-le-mul, mul_comm, mod-lt}
use vigor.Prelude.{
  ℕ, ◌+◌, ◌-◌, ◌*◌, ◌%◌, ◌<◌, ◌≡◌, refl, sym, ◌∙◌, ap, subst, Bool, true, false, ◌==◌, Option, none,
  some, arith, Bool-cases, inl, inr,
}
use vigor.Prelude.Arrays.{Array, u32, inc32, write}
use vigor.Prelude.Counting.{count-all, count-eq-zero, count_congr}
use vigor.Prelude.Loops.{for_range, for_range_inv}
use vigor.DoubleChain.Entries.{Entries, has}
use vigor.DoubleChain.Refine.{Models}
use vigor.DoubleChain.{DoubleChain}
use vigor.Vector.{Vector}
use vigor.Cht.{
  Filling, permut, place, fill_permutations, fill_rows, cht_fill_cht,
  cht_find_preferred_available_backend,
}
use vigor.Cht.Permut.{IsSize, permut-lt, met, met-all}
use vigor.Cht.Place.{IsFilled, taken, place-IsFilled, place_unique, place-lt, count-next}
use vigor.Cht.Choose.{
  row_of, Chooses, Chooses-nobody, chosen, cht_find_preferred_available_backend_lem,
}

module _ {h c : ℕ} (z : IsSize h c) where
  -- The tables of the code have fewer than 2^32 places.
  pub area_small : c * h < 1600000000
  area_small =
      let bound = mul-le-mul {n₁ = c} {m₁ = h} {n₂ = 39999} {m₂ = 39999} in
      omega (arith, bound (omega (arith, z.fewer, z.small)) (omega (arith, z.small)))

  -- The first `i` orders are there, and the first `k` places of the next.
  record HasOrders (i k : ℕ) (a : Array ℕ) : Type 0 where
    before : (j n : ℕ) → j < i → n < h → a (j * h + n) ≡ permut h j n
    now : (n : ℕ) → n < k → a (i * h + n) ≡ permut h i n

  order-step :
      (i k : ℕ) (a : Array ℕ)
      → i < c
      → k < h
      → HasOrders i k a
      → HasOrders i (k + 1) (write a (u32 (i * h + k)) (permut h i k))
  order-step i k a l m o =
      let inside = place-lt c h i k l m in
      let index : u32 (i * h + k) ≡ i * h + k = omega (arith, inside, area_small) in
      rw index (record {
        before = λ j n p q. elim (Bool-cases (i * h + k == j * h + n)) [
          | inr other ↦ rw other (o.before j n p q)
          | inl same ↦
              let (row, _) = place_unique h i k j n m q (ground (arith, same)) in
              absurd (omega (arith, row, p))
        ];
        now = λ n p. elim (Bool-cases (i * h + k == i * h + n)) [
          | inl same ↦ let eq : k ≡ n = ground (arith, same) in rw same (ap (permut h i) eq)
          | inr other ↦ rw other (o.now n (ground (arith, p, other)))
        ];
      })

  -- The orders are read where they were written.
  fill_permutations_lem :
      (a : Array ℕ) (j n : ℕ) → j < c → n < h → fill_permutations a h c (j * h + n) ≡ permut h j n
  unfolding fill_permutations
  fill_permutations_lem a j n l m =
      let all : HasOrders c 0 (fill_permutations a h c) =
        for_range_inv (λ i b. HasOrders i 0 b) _ c 0 c a (omega arith)
          (λ i b p o.
            let row : HasOrders i h
                (for_range h 0 (λ k a. write a (u32 (i * h + k)) (permut h i k)) b) =
              for_range_inv (λ k b. HasOrders i k b) _ h 0 h b (omega arith)
                (λ k b q. order-step i k b p q) o in
            record {
              before = λ j n q r. elim (Bool-cases (j == i)) [
                | inr other ↦ row.before j n (ground (arith, q, other)) r
                | inl same ↦
                    let eq : i ≡ j = ground (arith, same) in
                    subst
                      (λ e.
                        for_range h 0 (λ k a. write a (u32 (i * h + k)) (permut h i k)) b
                          (e * h + n)
                        ≡ permut h e n)
                      eq (row.now n r)
              ];
              now = λ n q. absurd (omega (arith, q));
            })
          (record {
            before = λ j n p q. absurd (omega (arith, p));
            now = λ n p. absurd (omega (arith, p));
          }) in
      all.before j n l m

module _ {h c : ℕ} (z : IsSize h c) (permutations : Array ℕ)
    (filled : (j i : ℕ) → j < c → i < h → permutations (j * h + i) ≡ permut h j i) where
  -- A round, without the wrap-around of the code.
  place-step :
      (i k : ℕ) (f : Filling)
      → i < h
      → k < c
      → IsFilled h c i k f
      → IsFilled h c i (k + 1) (place permutations h c i k f)
  unfolding place
  place-step i k f l m r =
      let inside = place-lt c h k i m l in
      let area = area_small z in
      let read : permutations (u32 (k * h + i)) ≡ permut h k i =
        ap permutations (omega (arith, inside, area)) ∙ filled k i m l in
      let (_, room) = count-next z permutations filled i k l m f r in
      let fewer = z.fewer in
      let small = z.small in
      let priority : inc32 (f.next (permut h k i)) ≡ f.next (permut h k i) + 1 =
        omega (arith, room) in
      let at_place =
        place-lt h c (permut h k i) (f.next (permut h k i)) (permut-lt z k i m l) room in
      let swap = mul_comm c (permut h k i) in
      let swap' = mul_comm c h in
      let index : u32 (c * permut h k i + f.next (permut h k i))
          ≡ permut h k i * c + f.next (permut h k i) =
        omega (arith, at_place, area, swap, swap') in
      rw (read, priority, index) (place-IsFilled z permutations filled i k l m f r)

  -- At the start no place is taken.
  start-IsFilled :
      (next : Array ℕ) (cht : Vector ℕ)
      → IsFilled h c 0 0 (record { next = for_range h 0 (λ i a. write a i 0) next; cht = cht })
  unfolding met
  start-IsFilled next cht =
      let cleared : (b : ℕ) → b < h → for_range h 0 (λ i a. write a i 0) next b ≡ 0 =
        for_range_inv (λ i (a : Array ℕ). (b : ℕ) → b < i → a b ≡ 0) _ h 0 h next (omega arith)
          (λ i a p o b q. ground (arith, q, o b)) (λ b p. absurd (omega (arith, p))) in
      let untaken : (j b : ℕ) → taken h 0 0 j b ≡ false = λ j b. ground arith in
      record {
        counted = λ b p. cleared b p ∙ sym (count-eq-zero c _ (λ j q. untaken j b));
        stands = λ b j p q t. absurd (ground (arith, t, untaken j b));
        bounded = λ b k p q. absurd (ground (arith, q, cleared b p));
      }

  -- The next place of every backend begins where this one ends.
  next-IsFilled : (i : ℕ) (f : Filling) → IsFilled h c i c f → IsFilled h c (i + 1) 0 f
  next-IsFilled i f r =
      let same : (j b : ℕ) → j < c → taken h (i + 1) 0 j b ≡ taken h i c j b =
        λ j b l. ground (arith, l) in
      record {
        counted = λ b p. r.counted b p ∙ count_congr c _ _ (λ j q. sym (same j b q));
        stands = λ b j p q t. r.stands b j p q (sym (same j b q) ∙ t);
        bounded = r.bounded;
      }

  rows-IsFilled :
      (next : Array ℕ) (cht : Vector ℕ) → IsFilled h c h 0 (fill_rows permutations next cht h c)
  unfolding fill_rows
  rows-IsFilled next cht =
      for_range_inv (λ i f. IsFilled h c i 0 f) _ h 0 h _ (omega arith)
        (λ i f p r. next-IsFilled i _ (
          for_range_inv (λ k g. IsFilled h c i k g) _ c 0 c f (omega arith)
            (λ k g q s. place-step i k g p q s) r))
        (start-IsFilled next cht)

-- A row in which every backend stands, and nothing else.
pub record IsRow (size : ℕ) (row : ℕ → ℕ) : Type 0 where
  pub meets : (j : ℕ) → j < size → (p : ℕ) × (p < size) × (row p ≡ j)
  pub in_range : (p : ℕ) → p < size → row p < size

-- Let the height of the table be a prime below 40000, with fewer backends than that and at least
-- one. When `cht_fill_cht` gets its memory it returns 1, and the row of every bucket is a
-- permutation of the backends.
pub cht_fill_cht_lem :
    {cht_height backend_capacity : ℕ} (permutations next : Array ℕ) (cht : Vector ℕ)
    → IsSize cht_height backend_capacity
    → let (done, cht') =
        cht_fill_cht (some permutations) (some next) cht cht_height backend_capacity in
      (done ≡ true)
      × ((bucket : ℕ)
          → bucket < cht_height
          → IsRow backend_capacity (row_of cht' bucket backend_capacity))
unfolding cht_fill_cht
cht_fill_cht_lem {cht_height = h} {backend_capacity = c} permutations next cht z =
    let orders = fill_permutations_lem z permutations in
    let r = rows-IsFilled z (fill_permutations permutations h c) orders next cht in
    let done : (j b : ℕ) → j < c → b < h → taken h h 0 j b ≡ true =
      λ j b l m. ground (arith, met-all z j b l m) in
    let whole : (b : ℕ)
        → b < h
        → (fill_rows (fill_permutations permutations h c) next cht h c).next b ≡ c =
      λ b m. r.counted b m ∙ count-all c _ (λ j l. done j b l m) in
    (
      refl,
      λ b m. record {
        meets = λ j l.
            let (p, lp, e) = r.stands b j m l (done j b l m) in
            (p, omega (arith, lp, whole b m), e);
        in_range = λ p l. r.bounded b p m (omega (arith, l, whole b m));
      },
    )

-- From a row in which every backend stands, an active one is chosen if there is any.
pub Chooses-serves :
    {row : ℕ → ℕ} {active : ℕ → Bool} {size : ℕ} (choice : Option ℕ)
    → IsRow size row
    → (b : ℕ) → b < size
    → active b ≡ true
    → Chooses row active size choice
    → (v : ℕ) × (choice ≡ some v) × (active v ≡ true)
Chooses-serves none row b l on c =
    let off = Chooses-nobody row.meets c b l in absurd (ground (arith, on, off))
Chooses-serves (some _) row b l on (chosen rank k here before) = (_, refl, here)

-- Let the height of the table be a prime below 40000, with fewer backends than that and at least
-- one. When `cht_fill_cht` gets its memory and some backend is active, then for every hash the
-- choice in the table that it fills returns an active backend, and leaves the table as it is.
pub cht_fill_cht-serves :
    {cht_height backend_capacity : ℕ} {es : Entries} {active_backends : DoubleChain}
    (permutations next : Array ℕ) (cht : Vector ℕ) (hash b : ℕ)
    → IsSize cht_height backend_capacity
    → Models backend_capacity es active_backends
    → b < backend_capacity
    → has b es ≡ true
    → let cht' = (cht_fill_cht (some permutations) (some next) cht cht_height backend_capacity).1 in
      (v : ℕ) × (cht_find_preferred_available_backend hash cht' active_backends cht_height
          backend_capacity
        ≡ (some v, cht'))
      × (has v es ≡ true)
cht_fill_cht-serves {cht_height = h} {backend_capacity = c} {es} {active_backends} permutations next
      cht hash b z r l active =
    let (_, rows) = cht_fill_cht_lem permutations next cht z in
    let cht' = (cht_fill_cht (some permutations) (some next) cht h c).1 in
    let bucket = mod-lt hash {m = h} (omega (arith, z.fewer)) in
    let row = rows (hash % h) bucket in
    let area = area_small z in
    let swap = mul_comm c h in
    let last = place-lt h c (hash % h) (c - 1) bucket (omega (arith, z.positive)) in
    let (same, c') =
      cht_find_preferred_available_backend_lem hash cht' h r (omega (arith, last, area, swap))
        row.in_range in
    let (v, e, here) = Chooses-serves _ row b l active c' in
    let left = (cht_find_preferred_available_backend hash cht' active_backends h c).1 in
    (v, ap (λ o. (o, left)) e ∙ ap (λ w. (some v, w)) same, here)
