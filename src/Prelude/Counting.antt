-- ===== src/Prelude/Counting.antt =====
-- How many numbers below a bound pass a test, and what one change of the test does to that.
use Prim.Native.Nat.{ℕ, zero, suc, ◌+◌, ◌≤◌, ◌<◌}
use mathlib.Core.Path.{◌≡◌, refl}
use mathlib.Core.Logic.{◌≢◌, inl, inr}
use mathlib.Core.Bool.{Bool, true, false}
use native.Mathlib.Omega.{arith}
use native.Mathlib.Decide.{ℕ_discrete}
use vigor.Prelude.Tests.{Bool-cases}

abbrev pub to_nat : Bool → ℕ
to_nat true = 1
to_nat false = 0

unfoldable pub count : ℕ → (ℕ → Bool) → ℕ
count zero p = 0
count (suc n) p = to_nat (p n) + count n p

pub count-le : (n : ℕ) (p : ℕ → Bool) → count n p ≤ n
unfolding count
count-le zero p = omega arith
count-le (suc n) p = ground (arith, count-le n p)

pub count_congr : (n : ℕ) (p q : ℕ → Bool) → ((j : ℕ) → j < n → p j ≡ q j) → count n p ≡ count n q
unfolding count
count_congr zero p q h = refl
count_congr (suc n) p q h = ground (arith, h n, count_congr n p q (λ j l. h j (omega arith)))

pub count-eq-zero : (n : ℕ) (p : ℕ → Bool) → ((j : ℕ) → j < n → p j ≡ false) → count n p ≡ 0
unfolding count
count-eq-zero zero p h = refl
count-eq-zero (suc n) p h = ground (arith, h n, count-eq-zero n p (λ j l. h j (omega arith)))

-- One more number passes.
pub count_add :
    (n : ℕ) (p q : ℕ → Bool) (e : ℕ)
    → e < n
    → p e ≡ false
    → ((j : ℕ) → j < n → j ≢ e → p j ≡ q j)
    → count n q ≡ count n p + to_nat (q e)
unfolding count
count_add zero p q e l off h = absurd (omega arith)
count_add (suc n) p q e l off h = elim (ℕ_discrete n e) [
  | yes s ↦
      let rest = count_congr n p q (λ j b. h j (omega arith) (omega arith)) in
      let here : p n ≡ false = rw s off in
      let there : to_nat (q n) ≡ to_nat (q e) = rw s in ground (arith, rest, here, there)
  | no d ↦ ground (arith, h n, count_add n p q e (omega arith) off (λ j b. h j (omega arith)))
]

-- What passes is counted.
pub count-pos : (n : ℕ) (p : ℕ → Bool) (j : ℕ) → j < n → p j ≡ true → 0 < count n p
unfolding count
count-pos zero p j l h = absurd (omega arith)
count-pos (suc n) p j l h = elim (ℕ_discrete n j) [
  | yes s ↦ let here : p n ≡ true = rw s h in ground (arith, here)
  | no d ↦ omega (arith, count-pos n p j (omega arith) h)
]

-- Below a count that is not full, something fails the test.
pub count-lt : (n : ℕ) (p : ℕ → Bool) → count n p < n → (j : ℕ) × (j < n) × (p j ≡ false)
unfolding count
count-lt zero p h = absurd (omega arith)
count-lt (suc n) p h = elim (Bool-cases (p n)) [
  | inl t ↦ let (j, l, f) = count-lt n p (ground (arith, t)) in (j, omega arith, f)
  | inr f ↦ (n, omega arith, f)
]

-- Every number passes.
pub count-all : (n : ℕ) (p : ℕ → Bool) → ((j : ℕ) → j < n → p j ≡ true) → count n p ≡ n
unfolding count
count-all zero p h = refl
count-all (suc n) p h = ground (arith, h n, count-all n p (λ j l. h j (omega arith)))

-- A full count, which evaluation can find.
pub all-count : (n : ℕ) (p : ℕ → Bool) → count n p ≡ n → (j : ℕ) → j < n → p j ≡ true
unfolding count
all-count zero p h j l = absurd (omega arith)
all-count (suc n) p h j l = elim (ℕ_discrete n j) [
  | yes s ↦ rw (← s) (ground (arith, h, count-le n p))
  | no d ↦ all-count n p (ground (arith, h, count-le n p)) j (omega arith)
]
