-- ===== src/MapImpl/Loop.antt =====
-- `loop` of map-impl.c (the remainder, taken twice) and of map-impl-pow2.c (a mask), each with the
-- capacity check that `map_allocate` makes in its build. Both reduce a hash modulo the capacity.
use Prim.Native.Nat.{bit_and, ◌/◌}
use native.Mathlib.Nat.{mod-mod, add-mod_right}
use native.Mathlib.Decide.{ℕ_discrete}
use vigor.Prelude.{
  ℕ, zero, suc, ◌+◌, ◌-◌, ◌*◌, ◌%◌, ◌<◌, ◌≤◌, ◌≡◌, ◌∙◌, ap, Bool, true, not, ◌||◌, ◌==◌, arith,
}
use vigor.Prelude.Arrays.{u32, dec32}
use vigor.Prelude.Bits.{bit_and-halves, bit_and_self, bit_and-zero, mod_double}
use vigor.MapImpl.Interface.{Build}

unfoldable pub loop_mod : ℕ → ℕ → ℕ
loop_mod k capacity = let g = k % capacity in u32 (g + capacity) % capacity

unfoldable pub loop_pow2 : ℕ → ℕ → ℕ
loop_pow2 k capacity = bit_and k (dec32 capacity)

-- `capacity == 0 || (capacity & (capacity - 1)) != 0` makes `map_allocate` return 0.
unfoldable pub is_pow2 : ℕ → Bool
is_pow2 capacity = not (capacity == 0 || not (bit_and capacity (dec32 capacity) == 0))

-- At a positive capacity whose double is below INT_MAX, the addition in `loop` of map-impl.c does
-- not wrap, its second remainder changes nothing, and the result is the remainder by the capacity.
pub loop_mod_lem : (k n : ℕ) → 0 < n → 2 * n < 2147483647 → loop_mod k n ≡ k % n
unfolding loop_mod
loop_mod_lem k n p q =
    let narrow : u32 (k % n + n) ≡ k % n + n = omega arith in
    rw narrow (add-mod_right (k % n) n ∙ mod-mod k n)

-- A mask of the digits below a power of two. `r` bounds the number.
mask_below : (r n : ℕ) → n ≤ r → 0 < n → bit_and n (n - 1) ≡ 0 → (k : ℕ) → bit_and k (n - 1) ≡ k % n
mask_below zero n l p h k = absurd (omega arith)
mask_below (suc r) zero l p h k = elim p [ ]
mask_below (suc r) (suc zero) l p h k = omega (arith, bit_and-zero k)
mask_below (suc r) (suc (suc n)) l p h k = elim (ℕ_discrete (w % 2) 0) [
  | yes even ↦
      let shift : bit_and m (suc n / 2) ≡ bit_and m (m - 1) = ap (bit_and m) (omega arith) in
      let rest =
        mask_below r m (omega arith) (omega arith)
          (omega (arith, bit_and-halves w (suc n), shift, mask)) (k / 2) in
      let low : bit_and (k / 2) (suc n / 2) ≡ bit_and (k / 2) (m - 1) =
        ap (bit_and (k / 2)) (omega arith) in
      let sum : bit_and k (suc n) ≡ k / 2 % m * 2 + k % 2 =
        omega (arith, bit_and-halves k (suc n), low, rest) in
      ap (bit_and k) (omega arith)
      ∙ sum
      ∙ mod_double k m (omega arith)
      ∙ ap (λ x. k % x) (omega arith)
  | no odd ↦
      let same : bit_and m (suc n / 2) ≡ bit_and m m = ap (bit_and m) (omega arith) in
      absurd (omega (arith, bit_and-halves w (suc n), same, bit_and_self m, mask))
]
  where
    w : ℕ
    w = suc (suc n)

    m : ℕ
    m = w / 2

    mask : bit_and w (suc n) ≡ 0
    mask = ap (bit_and w) (omega arith) ∙ h

-- At a positive capacity below 2^30 that passes the check of `map_allocate` for a power of two, the
-- mask of map-impl-pow2.c is the remainder by the capacity.
pub loop_pow2_lem :
    (k n : ℕ) → 0 < n → 2 * n < 2147483647 → is_pow2 n ≡ true → loop_pow2 k n ≡ k % n
unfolding loop_pow2 is_pow2
loop_pow2_lem k n p q h =
    let less : dec32 n ≡ n - 1 = omega arith in
    let masked : bit_and n (dec32 n) ≡ 0 = ground (arith, h) in
    rw less (mask_below n n (omega arith) p (rw less at masked) k)

-- The two builds.
abbrev pub modulo_build : Build
modulo_build = record {
  loop = loop_mod;
  guard = λ _. true;
  loop_lem = λ k n _ p q _. loop_mod_lem k n p q;
}

abbrev pub pow2_build : Build
pow2_build = record {
  loop = loop_pow2;
  guard = is_pow2;
  loop_lem = λ k n _ p q h. loop_pow2_lem k n p q h;
}
