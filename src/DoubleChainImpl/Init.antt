-- ===== src/DoubleChainImpl/Init.antt =====
-- `dchain_impl_init`: all cells are free, in the order of their indices.
use vigor.Prelude.{
  ℕ, zero, suc, ◌+◌, ◌-◌, ◌<◌, ◌≤◌, ◌≡◌, refl, ◌∙◌, subst, ap, ◌&&◌, arith, List, [], ◌∷◌, ltb, leb,
  lt→ltb,
}
use vigor.Prelude.Lists.{length, elem, Distinct}
use vigor.DoubleChainImpl.{Cell, Cells, init, init_from, set_both, set_next, set_prev}
use vigor.DoubleChainImpl.Linked.{FreeList}
use vigor.DoubleChainImpl.Inv.{Holds}

-- `k` numbers from `i` on.
unfoldable pub upto : ℕ → ℕ → List ℕ
upto i zero = []
upto i (suc k) = i ∷ upto (i + 1) k

elem-upto : (u i k : ℕ) → elem u (upto i k) ≡ (leb i u && ltb u (i + k))
unfolding upto
elem-upto u i zero = ground arith
elem-upto u i (suc k) = ground (arith, elem-upto u (i + 1) k)

upto-Distinct : (i k : ℕ) → Distinct (upto i k)
unfolding upto
upto-Distinct i zero = tt
upto-Distinct i (suc k) = (elem-upto i (i + 1) k ∙ ground arith, upto-Distinct (i + 1) k)

length-upto : (i k : ℕ) → length (upto i k) ≡ k
unfolding upto
length-upto i zero = refl
length-upto i (suc k) = ap suc (length-upto (i + 1) k)

init_from_step :
    (size rounds i : ℕ) (c : Cells)
    → i < size + 1
    → init_from (set_both c i (i + 1)) size rounds (i + 1) ≡ init_from c size (suc rounds) i
unfolding init_from
init_from_step size rounds i c l = rw (lt→ltb i (size + 2 - 1) (omega arith))

-- The loop links the cells from `i` on, and leaves those before alone.
init_from-FreeList :
    (size k rounds i : ℕ) (c : Cells)
    → i + k ≡ size + 1
    → k ≤ rounds
    → FreeList (init_from c size rounds i) i (upto (i + 1) k)
      × ((u : ℕ) → u < i → init_from c size rounds i u ≡ c u)
unfolding init_from upto
init_from-FreeList size zero zero i c e l = ((ground arith, ground arith), λ u b. ground arith)
init_from-FreeList size zero (suc rounds) i c e l =
    ((ground (arith, e), ground (arith, e)), λ u b. ground (arith, e))
init_from-FreeList size (suc k) zero i c e l = absurd (omega arith)
init_from-FreeList size (suc k) (suc rounds) i c e l =
    let c' = set_both c i (i + 1) in
    let (f, keep) = init_from-FreeList size k rounds (i + 1) c' (omega arith) (omega arith) in
    let at = keep i (omega arith) in
    subst (λ d. FreeList d i (upto (i + 1) (suc k)) × ((u : ℕ) → u < i → d u ≡ c u))
      (init_from_step size rounds i c (omega arith))
      (
        (
          ap (λ (x : Cell). x.next) at ∙ ground arith,
          ap (λ (x : Cell). x.prev) at ∙ ground arith,
          f,
        ),
        λ u b. keep u (omega arith) ∙ ground arith,
      )

-- Whatever the memory held, after `dchain_impl_init` for at least one index every cell behind the
-- two heads is on the free list, in order, and none is allocated.
pub init-Holds :
    (cells : Cells) (size : ℕ) → 0 < size → Holds size [] (upto 2 size) (init cells size)
unfolding init upto
init-Holds cells zero pos = absurd (omega arith)
init-Holds cells (suc n) pos =
    let c0 = set_both (set_next (set_prev cells 0 0) 0 0) 1 2 in
    let (f, keep) = init_from-FreeList (suc n) n (suc n) 2 c0 (omega arith) (omega arith) in
    let head = keep 0 (omega arith) in
    let free = keep 1 (omega arith) in
    record {
      ring = (ap (λ (x : Cell). x.next) head, ap (λ (x : Cell). x.prev) head);
      free = (ap (λ (x : Cell). x.next) free, ap (λ (x : Cell). x.prev) free, f);
      al_once = tt;
      fl_once = upto-Distinct 2 (suc n);
      all = λ x. elem-upto x 2 (suc n) ∙ ground arith;
      apart = λ x. refl;
      sum = omega (arith, length-upto 2 (suc n));
    }
