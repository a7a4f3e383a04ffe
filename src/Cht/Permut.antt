-- ===== src/Cht/Permut.antt =====
-- The order of each backend meets every bucket, when the height is prime.
use native.Mathlib.Nat.{mod-lt, mul-add, mul-sub, mul-le-mul, mul-mod_right, div-add-mod}
use vigor.Prelude.{
  ℕ, suc, zero, ◌+◌, ◌-◌, ◌*◌, ◌/◌, ◌%◌, ◌≤◌, ◌<◌, ◌≡◌, ◌≢◌, refl, sym, ◌∙◌, ap, Bool, true, false,
  ◌==◌, ◌||◌, arith, Bool-cases, inl, inr,
}
use vigor.Prelude.Arrays.{u32}
use vigor.Prelude.Counting.{count, count-le, count_add, count-eq-zero}
use vigor.Cht.{permut}

-- No two positive numbers below `h` have a product that `h` divides: `h` is prime.
abbrev pub IsPrime : ℕ → Type 0
IsPrime h = (a d : ℕ) → 0 < a → a < h → 0 < d → d < h → a * d % h ≢ 0

-- Equal remainders: the difference is divisible.
mod-diff : (o a e h : ℕ) → 0 < h → (o + a) % h ≡ (o + (a + e)) % h → e % h ≡ 0
mod-diff o a e h p same =
    let q = (o + a) / h in
    let q' = (o + (a + e)) / h in
    let before = div-add-mod (o + a) h in
    let after = div-add-mod (o + (a + e)) h in
    let parts = mul-sub h q' q in
    let whole : e ≡ h * (q' - q) = omega (arith, before, after, parts, same) in
    ap (λ x. x % h) whole ∙ mul-mod_right h (q' - q)

spread : (s j k : ℕ) → j ≤ k → s * k ≡ s * j + s * (k - j)
spread s j k l =
    let parts = mul-add s j (k - j) in
    let whole : j + (k - j) ≡ k = omega arith in sym (ap (λ x. s * x) whole) ∙ parts

-- What the theorems ask of the sizes.
pub record IsSize (cht_height backend_capacity : ℕ) : Type 0 where
  pub prime : IsPrime cht_height
  pub positive : 0 < backend_capacity
  pub fewer : backend_capacity < cht_height
  pub small : cht_height < 40000

module _ {h c : ℕ} (z : IsSize h c) where
  -- The step of a backend through the buckets.
  abbrev shift : ℕ → ℕ
  shift i = i % (h - 1) + 1

  shift-lt : (i : ℕ) → shift i < h
  shift-lt i =
      let lt = mod-lt i {m = h - 1} (omega (arith, z.fewer, z.positive)) in
      omega (arith, lt, z.fewer, z.positive)

  product_small : (a b : ℕ) → a < 40000 → b < 40000 → a * b < 1600000000
  product_small a b l k =
      let bound =
        mul-le-mul {n₁ = a} {m₁ = b} {n₂ = 39999} {m₂ = 39999} (omega arith) (omega arith) in
      omega (arith, bound)

  -- Without the wrap-around of the code.
  permut_plain : (i j : ℕ) → i < c → j < h → permut h i j ≡ (i * 31 % h + shift i * j) % h
  unfolding permut
  permut_plain i j l k =
      let small = z.small in
      let fewer = z.fewer in
      let offset : u32 (i * 31) ≡ i * 31 = omega arith in
      let last : u32 (h + 4294967295) ≡ h - 1 = omega arith in
      let first = mod-lt (i * 31) {m = h} (omega arith) in
      let step = shift-lt i in
      let product = product_small (shift i) j (omega arith) (omega arith) in
      let whole : (i * 31 % h + shift i * j) % 18446744073709551616 ≡ i * 31 % h + shift i * j =
        omega (arith, first, product) in
      rw (offset, last) (ap (λ x. x % h) whole)

  pub permut-lt : (i j : ℕ) → i < c → j < h → permut h i j < h
  permut-lt i j l k = rw (permut_plain i j l k) (mod-lt _ (omega (arith, k)))

  -- An order does not meet a bucket twice.
  pub permut-injective : (i j k : ℕ) → i < c → j < k → k < h → permut h i j ≢ permut h i k
  permut-injective i j k l less m same =
      let ahead : (i * 31 % h + shift i * j) % h
          ≡ (i * 31 % h + (shift i * j + shift i * (k - j))) % h =
        sym (permut_plain i j l (omega arith))
        ∙ same
        ∙ permut_plain i k l m
        ∙ ap (λ x. (i * 31 % h + x) % h) (spread (shift i) j k (omega arith)) in
      z.prime (shift i) (k - j) (omega arith) (shift-lt i) (omega arith) (omega arith)
        (mod-diff (i * 31 % h) (shift i * j) (shift i * (k - j)) h (omega arith) ahead)

-- Whether backend `i` has bucket `b` among the first `n` places of its order.
unfoldable pub met : (h i n b : ℕ) → Bool
met h i zero b = false
met h i (suc n) b = permut h i n == b || met h i n b

met_lem : (h i n b : ℕ) → met h i n b ≡ true → (k : ℕ) × (k < n) × (permut h i k ≡ b)
unfolding met
met_lem h i zero b e = absurd (ground (arith, e))
met_lem h i (suc n) b e = elim (Bool-cases (permut h i n == b)) [
  | inl here ↦ (n, omega arith, ground (arith, here))
  | inr other ↦
      let (k, l, same) = met_lem h i n b (ground (arith, e, other)) in (k, omega (arith, l), same)
]

module _ {h c : ℕ} (z : IsSize h c) where
  -- The next bucket is a new one.
  pub permut-fresh : (i n : ℕ) → i < c → n < h → met h i n (permut h i n) ≡ false
  permut-fresh i n l k = elim (Bool-cases (met h i n (permut h i n))) [
    | inr fresh ↦ fresh
    | inl again ↦
        let (j, less, same) = met_lem h i n (permut h i n) again in
        absurd (permut-injective z i j n l less k same)
  ]

  count-met : (i n : ℕ) → i < c → n ≤ h → count h (met h i n) ≡ n
  unfolding met
  count-met i zero l k = count-eq-zero h (met h i zero) (λ j m. refl)
  count-met i (suc n) l k =
      let fresh = permut-fresh i n l (omega (arith, k)) in
      let more =
        count_add h (met h i n) (met h i (suc n)) (permut h i n)
          (permut-lt z i n l (omega (arith, k))) fresh (λ j m ne. ground (arith, ne)) in
      ground (arith, more, count-met i n l (omega (arith, k)))

  -- After as many places as there are buckets, all are met.
  pub met-all : (i b : ℕ) → i < c → b < h → met h i h b ≡ true
  met-all i b l k = elim (Bool-cases (met h i h b)) [
    | inl everywhere ↦ everywhere
    | inr never ↦
        let all = count-met i h l (omega arith) in
        let most = count-le h (λ j. j == b || met h i h j) in
        let more =
          count_add h (met h i h) (λ j. j == b || met h i h j) b k never
            (λ j m ne. ground (arith, ne)) in
        absurd (ground (arith, all, most, more))
  ]
