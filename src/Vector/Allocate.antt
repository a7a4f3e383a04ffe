-- ===== src/Vector/Allocate.antt =====
-- What a new vector holds.
use native.Mathlib.Decide.{ℕ_discrete}
use vigor.Prelude.{ℕ, zero, suc, ◌+◌, ◌<◌, ◌≤◌, ◌≡◌, refl, ◌∙◌, true, some, arith}
use vigor.Prelude.Arrays.{Array, write}
use vigor.Vector.{Vector, init_from, vector_allocate}

-- The loop initialises each element once.
init_from-at {ℓ} :
    {A : Type ℓ} (f : A → A) (a : Array A) (rounds i x : ℕ)
    → (x < i → init_from f a rounds i x ≡ a x)
      × (i ≤ x → x < i + rounds → init_from f a rounds i x ≡ f (a x))
unfolding init_from
init_from-at f a zero i x = ((λ _. refl), λ l m. absurd (omega arith))
init_from-at f a (suc rounds) i x =
    let a' = write a i (f (a i)) in
    let (before, after) = init_from-at f a' rounds (i + 1) x in
    (
      (λ l. before (omega arith) ∙ ground arith),
      λ l m. elim (ℕ_discrete i x) [
        | yes e ↦ before (omega arith) ∙ ground (arith, e)
        | no n ↦ after (omega arith) (omega arith) ∙ ground (arith, n)
      ],
    )

-- If both allocations succeed, `vector_allocate` returns a vector of the capacity in which each
-- element in range is the one that `init_elem` makes of what the memory held.
pub vector_allocate_lem {ℓ} :
    {A : Type ℓ} (a : Array A) (init_elem : A → A) (capacity : ℕ)
    → (v : Vector A) × (vector_allocate true (some a) init_elem capacity ≡ some v)
      × (v.capacity ≡ capacity)
      × ((i : ℕ) → i < capacity → v.items i ≡ init_elem (a i))
unfolding vector_allocate
vector_allocate_lem a init_elem capacity = (
  record { items = init_from init_elem a capacity 0; capacity = capacity },
  refl,
  refl,
  λ i l. (init_from-at init_elem a capacity 0 i).1 (omega arith) (omega arith),
)
