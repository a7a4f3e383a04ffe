-- ===== src/Prelude/Bits.antt =====
-- Laws of the bitwise operations, from the recursion on digits that they stand for.
use Prim.Native.Nat.{
  ℕ, zero, suc, ◌+◌, ◌-◌, ◌*◌, ◌/◌, ◌%◌, ◌^◌, ◌≤◌, ◌<◌, min, bit_and, digits, bit_and-bitwise,
}
use mathlib.Core.Path.{◌≡◌, refl, ap, ap₂, sym, ◌∙◌}
use native.Mathlib.Nat.{
  two-pow-succ, mul-add, div-div-eq-div-mul, div-add-mod, mod-lt, mod-eq_of_lt,
  mul-add-mod_self_left,
}
use native.Mathlib.Omega.{arith}

-- Any count of digits that is not too small serves.
digits_rounds :
    (last : ℕ → ℕ) (f : ℕ → ℕ → ℕ) (r s a b : ℕ)
    → a ≤ r
    → a ≤ s
    → digits last f r a b ≡ digits last f s a b
digits_rounds last f zero zero a b p q = refl
digits_rounds last f zero (suc s) zero b p q = refl
digits_rounds last f zero (suc s) (suc a) b p q = absurd (omega arith)
digits_rounds last f (suc r) zero zero b p q = refl
digits_rounds last f (suc r) zero (suc a) b p q = absurd (omega arith)
digits_rounds last f (suc r) (suc s) zero b p q = refl
digits_rounds last f (suc r) (suc s) (suc a) b p q =
    ap₂ (λ x y. x * 2 + y)
      (digits_rounds last f r s (suc a / 2) (b / 2) (omega arith) (omega arith)) refl

-- The lowest digit of a conjunction, and the others.
pub bit_and-halves : (a b : ℕ) → bit_and a b ≡ bit_and (a / 2) (b / 2) * 2 + min (a % 2) (b % 2)
bit_and-halves zero b = omega (arith, bit_and-bitwise 0 b, bit_and-bitwise (0 / 2) (b / 2))
bit_and-halves (suc a) b =
    let rest =
      digits_rounds (λ _. 0) min a (suc a / 2) (suc a / 2) (b / 2) (omega arith) (omega arith) in
    omega (arith, bit_and-bitwise (suc a) b, bit_and-bitwise (suc a / 2) (b / 2), rest)

bit_and_self_below : (r a : ℕ) → a ≤ r → bit_and a a ≡ a
bit_and_self_below r zero h = refl
bit_and_self_below zero (suc a) h = absurd (omega arith)
bit_and_self_below (suc r) (suc a) h =
    omega (arith, bit_and-halves (suc a) (suc a), bit_and_self_below r (suc a / 2) (omega arith))

pub bit_and_self : (a : ℕ) → bit_and a a ≡ a
bit_and_self a = bit_and_self_below a a (omega arith)

bit_and-zero_below : (r a : ℕ) → a ≤ r → bit_and a 0 ≡ 0
bit_and-zero_below r zero h = refl
bit_and-zero_below zero (suc a) h = absurd (omega arith)
bit_and-zero_below (suc r) (suc a) h =
    omega (arith, bit_and-halves (suc a) 0, bit_and-zero_below r (suc a / 2) (omega arith))

pub bit_and-zero : (a : ℕ) → bit_and a 0 ≡ 0
bit_and-zero a = bit_and-zero_below a a (omega arith)

pub mod_double : (k m : ℕ) → 0 < m → k / 2 % m * 2 + k % 2 ≡ k % (2 * m)
mod_double k m p =
    let r = k / 2 % m * 2 + k % 2 in
    let whole : k ≡ 2 * m * (k / 2 / m) + r = omega (arith, div-add-mod (k / 2) m) in
    sym (
      ap (λ x. x % (2 * m)) whole
      ∙ mul-add-mod_self_left (2 * m) (k / 2 / m) r
      ∙ mod-eq_of_lt (omega (arith, mod-lt (k / 2) p)))

pub pow-pos : (k : ℕ) → 0 < 2 ^ k
pow-pos zero = omega arith
pow-pos (suc k) = omega (arith, pow-pos k, two-pow-succ k)

-- A mask with `k` zeros at the end.
pub bit_and-shift : (k a m : ℕ) → bit_and a (m * 2 ^ k) ≡ bit_and (a / 2 ^ k) m * 2 ^ k
bit_and-shift zero a m =
    let low : bit_and a (m * 1) ≡ bit_and a m = ap (bit_and a) (omega arith) in
    let high : bit_and (a / 1) m ≡ bit_and a m = ap (λ x. bit_and x m) (omega arith) in
    omega (arith, low, high)
bit_and-shift (suc k) a m =
    let w = 2 ^ k in
    let twice : m * 2 ^ suc k ≡ m * w * 2 =
      omega (arith, ap (λ x. m * x) (two-pow-succ k), mul-add m w w) in
    let double : 2 ^ suc k ≡ 2 * w = omega (arith, two-pow-succ k) in
    let quotient : a / 2 / w ≡ a / 2 ^ suc k =
      div-div-eq-div-mul a 2 w ∙ ap (λ x. a / x) (sym double) in
    let half : bit_and (a / 2) (m * w * 2 / 2) ≡ bit_and (a / 2 ^ suc k) m * w =
      ap (bit_and (a / 2)) (omega arith)
      ∙ bit_and-shift k (a / 2) m
      ∙ ap (λ x. bit_and x m * w) quotient in
    let b = bit_and (a / 2 ^ suc k) m in
    let product : b * 2 ^ suc k ≡ b * w * 2 =
      omega (arith, ap (λ x. b * x) (two-pow-succ k), mul-add b w w) in
    ap (bit_and a) twice ∙ omega (arith, bit_and-halves a (m * w * 2), half, product)

-- A mask of `k` ones.
pub bit_and-ones : (k a : ℕ) → bit_and a (2 ^ k - 1) ≡ a % 2 ^ k
bit_and-ones zero a = omega (arith, bit_and-zero a)
bit_and-ones (suc k) a =
    let w = 2 ^ k in
    let two : 2 ^ suc k ≡ w + w = two-pow-succ k in
    let p : 0 < w = pow-pos k in
    let m : 2 ^ suc k - 1 ≡ w + w - 1 = omega arith in
    let half : bit_and (a / 2) ((w + w - 1) / 2) ≡ a / 2 % w =
      ap (bit_and (a / 2)) (omega arith) ∙ bit_and-ones k (a / 2) in
    let twice : 2 * w ≡ w + w = omega arith in
    let sum = mod_double a w p in
    ap (bit_and a) m
    ∙ omega (arith, bit_and-halves a (w + w - 1), half, sum)
    ∙ ap (λ x. a % x) (twice ∙ sym two)
