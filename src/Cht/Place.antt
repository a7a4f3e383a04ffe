-- ===== src/Cht/Place.antt =====
-- A round of the loops that fill the rows: a backend takes the next free place of a bucket.
use native.Mathlib.Nat.{mul-add-div_right, mul-le-mul_right, div-eq_of_lt}
use vigor.Prelude.{
  ℕ, suc, ◌+◌, ◌*◌, ◌/◌, ◌≤◌, ◌<◌, ◌≡◌, refl, sym, ◌∙◌, ap, Bool, true, false, ◌==◌, ◌||◌, ◌&&◌,
  arith, Bool-cases, inl, inr, ltb, if◌then◌else◌,
}
use vigor.Prelude.Arrays.{Array, write}
use vigor.Prelude.Counting.{count, count-le, count_add, count_congr}
use vigor.Vector.{vector_return}
use vigor.Cht.{Filling, permut}
use vigor.Cht.Permut.{IsSize, permut-lt, permut-fresh, met}

-- Two places in rows of `c` are the same only in the same row.
pub place_unique :
    (c b p b' p' : ℕ) → p < c → p' < c → b * c + p ≡ b' * c + p' → (b ≡ b') × (p ≡ p')
place_unique c b p b' p' l l' same =
    let row = mul-add-div_right {m = c} (omega (arith, l)) b p in
    let row' = mul-add-div_right {m = c} (omega (arith, l)) b' p' in
    let eq : b ≡ b' =
      omega (arith, row, row', div-eq_of_lt l, div-eq_of_lt l', ap (λ x. x / c) same) in
    (eq, omega (arith, same, ap (λ x. x * c) eq))

-- A place of a row is among the first `n * c`.
pub place-lt : (n c b p : ℕ) → b < n → p < c → b * c + p < n * c
place-lt n c b p l k =
    let rows = mul-le-mul_right {m = b + 1} {n = n} c (omega arith) in omega (arith, rows, k)

-- The places that backend `j` has taken, when the loops have come to the place `i` of backend `k`.
abbrev pub taken : (h i k j b : ℕ) → Bool
taken h i k j b = met h j (if ltb j k then suc i else i) b

-- The counts are right, every backend that has taken a place stands there, and nothing else does.
pub record IsFilled (h c i k : ℕ) (f : Filling) : Type 0 where
  pub counted : (b : ℕ) → b < h → f.next b ≡ count c (λ j. taken h i k j b)
  pub stands :
      (b j : ℕ)
      → b < h
      → j < c
      → taken h i k j b ≡ true
      → (p : ℕ) × (p < f.next b) × (f.cht.items (b * c + p) ≡ j)
  pub bounded : (b p : ℕ) → b < h → p < f.next b → f.cht.items (b * c + p) < c

module _ {h c : ℕ} (z : IsSize h c) (permutations : Array ℕ)
    (filled : (j i : ℕ) → j < c → i < h → permutations (j * h + i) ≡ permut h j i) (i k : ℕ)
    (l : i < h) (m : k < c) (f : Filling) (r : IsFilled h c i k f) where
  abbrev pub bucket : ℕ
  bucket = permut h k i

  pub bucket-lt : bucket < h
  bucket-lt = permut-lt z k i m l

  -- What changes is that backend `k` has taken a place in the bucket.
  taken-next :
      (j b : ℕ)
      → taken h i (k + 1) j b ≡ (if j == k then bucket == b || taken h i k j b else taken h i k j b)
  unfolding met
  taken-next j b = elim (Bool-cases (j == k)) [
    | inl same ↦
        let eq : j ≡ k = ground (arith, same) in
        rw eq (
          let self : (k == k) ≡ true = ground arith in
          let before : ltb k k ≡ false = ground arith in
          let after : ltb k (k + 1) ≡ true = ground arith in rw (self, before, after) refl)
    | inr other ↦
        let order : ltb j (k + 1) ≡ ltb j k = ground (arith, other) in rw (order, other) refl
  ]

  taken-fresh : taken h i k k bucket ≡ false
  taken-fresh =
      let fresh = permut-fresh z k i m l in
      let before : ltb k k ≡ false = ground arith in rw before fresh

  -- The bucket has a place left, and one more of them is taken now.
  pub count-next :
      (count c (λ j. taken h i (k + 1) j bucket) ≡ f.next bucket + 1) × (f.next bucket < c)
  count-next =
      let now : ℕ → Bool = λ j. taken h i (k + 1) j bucket in
      let here : now k ≡ true = taken-next k bucket ∙ ground arith in
      let more =
        count_add c (λ j. taken h i k j bucket) now k m taken-fresh
          (λ j n ne. ground (arith, ne, taken-next j bucket)) in
      let most = count-le c now in ground (arith, more, most, here, r.counted bucket bucket-lt)

  -- What stands at a place after the write.
  written :
      (b p : ℕ)
      → p < c
      → write f.cht.items (bucket * c + f.next bucket) k (b * c + p)
        ≡ (if bucket == b && f.next bucket == p then k else f.cht.items (b * c + p))
  written b p n =
      let (_, room) = count-next in
      elim (Bool-cases (bucket * c + f.next bucket == b * c + p)) [
        | inl same ↦
            let (row, rank) =
              place_unique c bucket (f.next bucket) b p room n (ground (arith, same)) in
            ground (arith, same, row, rank)
        | inr other ↦ elim (Bool-cases (bucket == b && f.next bucket == p)) [
          | inr apart ↦ rw (other, apart) refl
          | inl both ↦
              let row : bucket ≡ b = ground (arith, both) in
              let rank : f.next bucket ≡ p = ground (arith, both) in
              let same : bucket * c + f.next bucket ≡ b * c + p =
                ap (λ x. x * c + f.next bucket) row ∙ ap (λ x. b * c + x) rank in
              absurd (ground (arith, same, other))
        ]
      ]

  -- The place that is written was free.
  free : (b p : ℕ) → p < f.next b → (bucket == b && f.next bucket == p) ≡ false
  free b p lp = elim (Bool-cases (bucket == b && f.next bucket == p)) [
    | inr apart ↦ apart
    | inl both ↦
        let row : bucket ≡ b = ground (arith, both) in
        let same : f.next bucket ≡ f.next b = ap f.next row in
        absurd (ground (arith, both, same, lp))
  ]

  next-le : (b : ℕ) → b < h → f.next b ≤ c
  next-le b n = let most = count-le c (λ j. taken h i k j b) in omega (arith, most, r.counted b n)

  pub place-IsFilled : IsFilled h c i (k + 1) (record {
    next = write f.next bucket (f.next bucket + 1);
    cht = vector_return f.cht (bucket * c + f.next bucket) k;
  })
  unfolding vector_return
  place-IsFilled =
      let (more, room) = count-next in
      record {
        counted = λ b n. elim (Bool-cases (bucket == b)) [
          | inl same ↦
              let eq : bucket ≡ b = ground (arith, same) in
              rw (← eq) (let self : (bucket == bucket) ≡ true = ground arith in rw self (sym more))
          | inr other ↦ rw other (
              r.counted b n
              ∙ count_congr c _ _ (λ j q. sym (taken-next j b ∙ ground (arith, other))))
        ];
        stands = λ b j n q t. elim (Bool-cases (j == k && bucket == b)) [
          | inl both ↦ (
            f.next bucket,
            ground (arith, both),
            written b (f.next bucket) room ∙ ground (arith, both),
          )
          | inr old ↦
              let was : taken h i k j b ≡ true = ground (arith, old, taken-next j b, t) in
              let (p, lp, e) = r.stands b j n q was in
              let most = next-le b n in
              let elsewhere : (bucket == b && f.next bucket == p) ≡ false = free b p lp in
              (p, ground (arith, lp), written b p (omega (arith, lp, most)) ∙ rw elsewhere e)
        ];
        bounded = λ b p n lp.
            let most = next-le b n in
            rw (written b p (ground (arith, lp, most, room)))
              (ground (arith, lp, m, r.bounded b p n));
      }
