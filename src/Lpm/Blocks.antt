-- ===== src/Lpm/Blocks.antt =====
-- A prefix of more than 24 bits is a range of entries of `lpm_long`, within one of the 256 blocks.
use vigor.Prelude.{
  ℕ, ◌+◌, ◌-◌, ◌*◌, ◌/◌, ◌%◌, ◌^◌, ◌≤◌, ◌<◌, ◌≡◌, ◌≢◌, sym, ap, ◌∙◌, false, ◌&&◌, leb, ltb, ◌==◌,
  arith,
}
use vigor.Prelude.Bits.{bit_and-ones, pow-pos}
use vigor.Lpm.{compute_rule_size, lpm_long_extract_first_index, build_mask_from_prefixlen}
use vigor.Lpm.Masks.{block, masked, long_size, long_step, range_test}
use Prim.Native.Nat.{bit_and}
use native.Mathlib.Nat.{
  div-div-eq-div-mul, lt-div-mul-add, mul_comm, mul_assoc, mul-div-mul_right, mul-le-mul_right,
  add-mul,
}

-- The block of 256 addresses in which a block of a longer prefix lies.
pub outer : (p n : ℕ) → 25 ≤ n → n ≤ 32 → p / block n * block n / 256 ≡ p / 256
outer p n l l' =
    let y = 2 ^ (n - 24) in
    let step : block n * y ≡ 256 = long_step n l l' in
    let step' : y * block n ≡ 256 = mul_comm y (block n) ∙ step in
    ap (λ x. p / block n * block n / x) (sym step')
    ∙ mul-div-mul_right (p / block n) y (pow-pos (32 - n))
    ∙ div-div-eq-div-mul p (block n) y
    ∙ ap (λ x. p / x) step

pub outer_end : (p n : ℕ) → 25 ≤ n → n ≤ 32 → p / block n * block n + block n ≤ p / 256 * 256 + 256
outer_end p n l l' =
    let z = block n in
    let q = p / z in
    let y = 2 ^ (n - 24) in
    let step : z * y ≡ 256 = long_step n l l' in
    let step' : y * z ≡ 256 = mul_comm y z ∙ step in
    let cut : q / y ≡ p / 256 = div-div-eq-div-mul p z y ∙ ap (λ x. p / x) step in
    let less : q < q / y * y + y = lt-div-mul-add {a = q} (pow-pos (n - 24)) in
    let more : q + 1 ≤ q / y * y + y = omega arith in
    let wide = mul-le-mul_right z more in
    let left = add-mul q 1 z in
    let right = add-mul (q / y * y) y z in
    let whole : q / y * y * z ≡ p / 256 * 256 =
      mul_assoc (q / y) y z ∙ ap (λ x. q / y * x) step' ∙ ap (λ x. x * 256) cut in
    omega arith

pub first_index :
    (p n b : ℕ)
    → p < 2 ^ 32
    → n ≤ 32
    → b < 256
    → lpm_long_extract_first_index p n b ≡ b * 256 + p / block n * block n % 256
unfolding lpm_long_extract_first_index
first_index p n b lp ln lb =
    let key = p / block n * block n in
    let last : bit_and (bit_and p (build_mask_from_prefixlen n)) 255 ≡ key % 256 =
      ap (λ x. bit_and x 255) (masked p n lp ln) ∙ bit_and-ones 8 key in
    omega (arith, last)

pub key_index :
    (a b : ℕ) → a < 2 ^ 32 → b < 256 → lpm_long_extract_first_index a 32 b ≡ b * 256 + a % 256
key_index a b la lb = first_index a 32 b la (omega arith) lb ∙ omega arith

-- Numbers with the same quotient by 256 compare like their remainders.
shift_test :
    (b k z a : ℕ)
    → k / 256 ≡ a / 256
    → (leb (b * 256 + k % 256) (b * 256 + a % 256)
        && ltb (b * 256 + a % 256) (b * 256 + k % 256 + z))
      ≡ (leb k a && ltb a (k + z))
shift_test b k z a e = ground arith

module _ (p n a b : ℕ) (lp : p < 2 ^ 32) (la : a < 2 ^ 32) (l : 25 ≤ n) (l' : n ≤ 32)
    (lb : b < 256) where
  pub long_end : lpm_long_extract_first_index p n b + compute_rule_size n ≤ b * 256 + 256
  long_end =
      let start = first_index p n b lp l' lb in
      omega (arith, start, long_size n l l', outer p n l l', outer_end p n l l')

  -- The addresses that share 24 bits with the prefix.
  pub long_range :
      a / 256 ≡ p / 256
      → let first = lpm_long_extract_first_index p n b in
        let index = lpm_long_extract_first_index a 32 b in
        (leb first index && ltb index (first + compute_rule_size n)) ≡ (a / block n == p / block n)
  long_range e =
      let start = first_index p n b lp l' lb in
      let index = key_index a b la lb in
      let size = long_size n l l' in
      let same = outer p n l l' in
      rw (start, index, size)
        (shift_test b (p / block n * block n) (block n) a (same ∙ sym e)
          ∙ range_test (block n) (p / block n) a (pow-pos (32 - n)))

  pub long_apart :
      (e : ℕ)
      → e < 256
      → e ≢ b
      → let first = lpm_long_extract_first_index p n b in
        let index = lpm_long_extract_first_index a 32 e in
        (leb first index && ltb index (first + compute_rule_size n)) ≡ false
  long_apart e le d =
      let start = first_index p n b lp l' lb in
      let index = key_index a e la le in let end = long_end in ground arith

-- What a longer prefix covers shares its 24 bits.
pub covered_outer : (p n a : ℕ) → 25 ≤ n → n ≤ 32 → a / block n ≡ p / block n → a / 256 ≡ p / 256
covered_outer p n a l l' e = sym (outer a n l l') ∙ ap (λ x. x * block n / 256) e ∙ outer p n l l'
