-- ===== src/MapImpl/Probe.antt =====
-- Positions round the table: the slot at `i` steps from a start, and the steps to a slot.
use native.Mathlib.Nat.{mod-eq_of_lt, mod-eq-sub-mod}
use vigor.Prelude.{
  ℕ, ◌+◌, ◌-◌, ◌%◌, ◌<◌, ◌≡◌, arith, ltb, leb, if◌then◌else◌, Bool-cases, inl, inr, ap, ◌∙◌,
}
use vigor.Prelude.Arrays.{u32}
use vigor.MapImpl.Interface.{Build, IsCapacity}

-- The steps from `h` to `x`, going round at `n`.
unfoldable pub dist : ℕ → ℕ → ℕ → ℕ
dist n h x = if leb h x then x - h else x + n - h

add_mod_cases :
    (n h i : ℕ) → h < n → i < n → (h + i) % n ≡ (if ltb (h + i) n then h + i else h + i - n)
add_mod_cases n h i p q = elim (Bool-cases (ltb (h + i) n)) [
  | inl l ↦ rw l (mod-eq_of_lt (ground (arith, l)))
  | inr g ↦
      rw (g, mod-eq-sub-mod {n = h + i} {m = n} (ground (arith, g)))
        (mod-eq_of_lt {n = h + i - n} {m = n} (omega arith))
]

pub dist-lt : (n h x : ℕ) → h < n → x < n → dist n h x < n
unfolding dist
dist-lt n h x p q = ground arith

dist-probe : (n h i : ℕ) → h < n → i < n → dist n h ((h + i) % n) ≡ i
unfolding dist
dist-probe n h i p q = rw add_mod_cases (ground arith)

module _ ⦃build : Build⦄ {n : ℕ} (cap : IsCapacity n) where
  loop_eq : (h i : ℕ) → h < n → i < n → build.loop (u32 (h + i)) n ≡ (h + i) % n
  loop_eq h i p q =
      build.loop_lem (u32 (h + i)) n (omega arith) cap.positive cap.small cap.accepted
      ∙ ap (λ k. k % n) wide
    where
      wide : u32 (h + i) ≡ h + i
      wide = omega (arith, cap.small)

  -- The index that every loop computes in its round `i`: in range, and `i` steps from the start.
  pub loop-probe :
      (h i : ℕ)
      → h < n
      → i < n
      → (build.loop (u32 (h + i)) n < n) × (dist n h (build.loop (u32 (h + i)) n) ≡ i)
  loop-probe h i p q = rw (loop_eq h i p q) (omega (arith, cap.positive), dist-probe n h i p q)

  pub loop-start : (k : ℕ) → k < 4294967296 → build.loop k n ≡ k % n
  loop-start k h = build.loop_lem k n h cap.positive cap.small cap.accepted

-- As many steps from one start lead to one slot.
pub dist_injective : (n h x y : ℕ) → h < n → x < n → y < n → dist n h x ≡ dist n h y → x ≡ y
unfolding dist
dist_injective n h x y p q r e = ground arith
