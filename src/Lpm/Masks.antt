-- ===== src/Lpm/Masks.antt =====
-- What the masks, the sizes and the flags of lpm-dir-24-8.c compute, for each length of a prefix.
use vigor.Prelude.{
  ℕ, ◌+◌, ◌-◌, ◌*◌, ◌/◌, ◌%◌, ◌^◌, ◌≤◌, ◌<◌, ◌≡◌, refl, ap, ◌∙◌, ◌&&◌, leb, ltb, ◌==◌, ==_iff,
  Bool-cases, inl, inr, tests, arith,
}
use vigor.Prelude.Bits.{bit_and-shift, bit_and-ones, pow-pos}
use vigor.Prelude.Counting.{count, all-count}
use vigor.Lpm.{build_mask_from_prefixlen, compute_rule_size, entry_of, lpm_24_entry_set_flag}
use native.Mathlib.Nat.{
  mod-eq_of_lt, div-lt_iff_lt-mul, div-div-eq-div-mul, div-mul-le_self, lt-div-mul-add,
  mul-le-mul_right, add-mul, mul_assoc,
}
use native.Mathlib.Decide.{ℕ_discrete}
use Prim.Native.Nat.{bit_and}

-- How many addresses a prefix covers.
abbrev pub block : (prefixlen : ℕ) → ℕ
block prefixlen = 2 ^ (32 - prefixlen)

mask_table : count 33 (λ n. build_mask_from_prefixlen n == (2 ^ n - 1) * block n) ≡ 33
unfolding build_mask_from_prefixlen entry_of count
mask_table = refl

short_table : count 25 (λ n. compute_rule_size n * 256 == block n) ≡ 25
unfolding compute_rule_size entry_of count
short_table = refl

long_table : count 8 (λ n. compute_rule_size (n + 25) == block (n + 25)) ≡ 8
unfolding compute_rule_size entry_of count
long_table = refl

flag_table : count 256 (λ n. lpm_24_entry_set_flag n == 32768 + n) ≡ 256
unfolding lpm_24_entry_set_flag count
flag_table = refl

pub set_flag : (n : ℕ) → n < 256 → lpm_24_entry_set_flag n ≡ 32768 + n
set_flag n l = (==_iff _ _).0 (all-count 256 _ flag_table n l)

power_table : count 33 (λ n. 2 ^ n * block n == 2 ^ 32) ≡ 33
unfolding count
power_table = refl

step_table : count 8 (λ n. block (n + 25) * 2 ^ (n + 1) == 256) ≡ 8
unfolding count
step_table = refl

pub masked :
    (p n : ℕ)
    → p < 2 ^ 32
    → n ≤ 32
    → bit_and p (build_mask_from_prefixlen n) ≡ p / block n * block n
masked p n lp ln =
    let mask : build_mask_from_prefixlen n ≡ (2 ^ n - 1) * block n =
      (==_iff _ _).0 (all-count 33 _ mask_table n (omega arith)) in
    let power : 2 ^ n * block n ≡ 2 ^ 32 =
      (==_iff _ _).0 (all-count 33 _ power_table n (omega arith)) in
    let bound : p < 2 ^ n * block n = rw power lp in
    let low : p / block n % 2 ^ n ≡ p / block n =
      mod-eq_of_lt ((div-lt_iff_lt-mul (pow-pos (32 - n))).1 bound) in
    ap (bit_and p) mask
    ∙ bit_and-shift (32 - n) p (2 ^ n - 1)
    ∙ ap (λ x. x * block n) (bit_and-ones n (p / block n) ∙ low)

pub short_size : (n : ℕ) → n < 25 → compute_rule_size n * 256 ≡ block n
short_size n l = (==_iff _ _).0 (all-count 25 _ short_table n l)

pub long_size : (n : ℕ) → 25 ≤ n → n ≤ 32 → compute_rule_size n ≡ block n
long_size n l l' =
    let e : n - 25 + 25 ≡ n = omega arith in
    rw e at ((==_iff _ _).0 (all-count 8 _ long_table (n - 25) (omega arith)))

pub long_step : (n : ℕ) → 25 ≤ n → n ≤ 32 → block n * 2 ^ (n - 24) ≡ 256
long_step n l l' =
    let e : n - 25 + 25 ≡ n = omega arith in
    let e' : n - 25 + 1 ≡ n - 24 = omega arith in
    rw (e, e') at ((==_iff _ _).0 (all-count 8 _ step_table (n - 25) (omega arith)))

-- The multiples of `z` cut the numbers into ranges.
pub range_test : (z q i : ℕ) → 0 < z → (leb (q * z) i && ltb i (q * z + z)) ≡ (i / z == q)
range_test z q i p =
    let low = div-mul-le_self i z in
    let high = lt-div-mul-add {a = i} p in
    elim (ℕ_discrete (i / z) q) [
      | yes e ↦ let e' : i / z * z ≡ q * z = ap (λ x. x * z) e in ground arith
      | no d ↦ elim (Bool-cases (ltb (i / z) q)) [
        | inl less ↦
            let step : i / z + 1 ≤ q = omega tests in
            let above = mul-le-mul_right z step in let sum = add-mul (i / z) 1 z in ground arith
        | inr not_less ↦
            let step : q + 1 ≤ i / z = ground arith in
            let above = mul-le-mul_right z step in let sum = add-mul q 1 z in ground arith
      ]
    ]

pub block_end : (p n : ℕ) → p < 2 ^ 32 → n ≤ 32 → p / block n * block n + block n ≤ 2 ^ 32
block_end p n lp ln =
    let q = p / block n in
    let power : 2 ^ n * block n ≡ 2 ^ 32 =
      (==_iff _ _).0 (all-count 33 _ power_table n (omega arith)) in
    let bound : p < 2 ^ n * block n = rw power lp in
    let less : q < 2 ^ n = (div-lt_iff_lt-mul (pow-pos (32 - n))).1 bound in
    let step : q + 1 ≤ 2 ^ n = omega arith in
    let below = mul-le-mul_right (block n) step in
    omega (arith, below, add-mul q 1 (block n), power)

-- A block of at most 24 bits is a range of entries of `lpm_24`.
pub short_range :
    (p n a : ℕ)
    → p < 2 ^ 32
    → n < 25
    → let z = compute_rule_size n in
      let first = bit_and p (build_mask_from_prefixlen n) / 256 in
      (first + z ≤ 16777216)
      × ((leb first (a / 256) && ltb (a / 256) (first + z)) ≡ (a / block n == p / block n))
short_range p n a lp ln =
    let z = compute_rule_size n in
    let q = p / block n in
    let size = short_size n ln in
    let product : q * z * 256 ≡ q * block n = mul_assoc q z 256 ∙ ap (λ x. q * x) size in
    let start : bit_and p (build_mask_from_prefixlen n) / 256 ≡ q * z =
      ap (λ x. x / 256) (masked p n lp (omega arith)) ∙ omega (arith, product) in
    let cut : a / 256 / z ≡ a / block n =
      div-div-eq-div-mul a 256 z ∙ ap (λ x. a / x) (omega (arith, size)) in
    rw start (
      omega (arith, size, block_end p n lp (omega arith)),
      rw cut at (range_test z q (a / 256) (omega (arith, size, pow-pos (32 - n)))),
    )
