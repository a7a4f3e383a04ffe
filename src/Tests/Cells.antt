-- ===== src/Tests/Cells.antt =====
-- Two lists in the cells of three indices.
use vigor.Prelude.{ℕ, ◌≡◌, refl, sym, ap, subst, true, false, some, arith, Option, [], ◌∷◌}
use vigor.DoubleChainImpl.{
  Cells, init, init_from, allocate_new_index, free_index, get_oldest_index, rejuvenate_index,
  is_index_allocated,
}
use vigor.DoubleChainImpl.Inv.{Holds}
use vigor.DoubleChainImpl.Init.{upto, init-Holds}
use vigor.DoubleChainImpl.Allocate.{allocate_new_index_lem}

-- What the memory may hold.
abbrev pub dirt : Cells
dirt = λ i. record { prev = 3; next = i }

pub c0-Holds : Holds 3 [] (2 ∷ 3 ∷ 4 ∷ []) (init dirt 3)
unfolding upto
c0-Holds = init-Holds dirt 3 (omega arith)

unfoldable pub c1 : Cells
c1 = (allocate_new_index (init dirt 3)).1

c1-Holds : Holds 3 (2 ∷ []) (3 ∷ 4 ∷ []) c1
unfolding c1
c1-Holds =
    let (c, e, h) = allocate_new_index_lem c0-Holds in
    subst (Holds 3 (2 ∷ []) (3 ∷ 4 ∷ [])) (sym (ap (λ (o : Option ℕ × Cells). o.1) e)) h

unfoldable pub c2 : Cells
c2 = (allocate_new_index c1).1

pub c2-Holds : Holds 3 (2 ∷ 3 ∷ []) (4 ∷ []) c2
unfolding c2
c2-Holds =
    let (c, e, h) = allocate_new_index_lem c1-Holds in
    subst (Holds 3 (2 ∷ 3 ∷ []) (4 ∷ [])) (sym (ap (λ (o : Option ℕ × Cells). o.1) e)) h

-- Cells of one index, which is allocated.
pub full : Cells
full = (allocate_new_index (init dirt 1)).1

pub full-Holds : Holds 1 (2 ∷ []) [] full
unfolding full upto
full-Holds =
    let (c, e, h) = allocate_new_index_lem (init-Holds dirt 1 (omega arith)) in
    subst (Holds 1 (2 ∷ []) []) (sym (ap (λ (o : Option ℕ × Cells). o.1) e)) h

-- Index 0 is the oldest, is rejuvenated, and index 1 is the oldest; index 0 is freed and is the
-- next to be allocated.
run_of_cells :
    (get_oldest_index (rejuvenate_index c2 0).1 ≡ some 1)
    × (is_index_allocated c2 1 ≡ true)
    × (is_index_allocated c2 2 ≡ false)
    × ((allocate_new_index (free_index c2 0).1).0 ≡ some 0)
unfolding c1 c2 init init_from allocate_new_index free_index get_oldest_index rejuvenate_index
    is_index_allocated
run_of_cells = (refl, refl, refl, refl)
