-- ===== src/DoubleChainImpl/Linked.antt =====
-- The two kinds of linked list in an array of cells, and what writes elsewhere leave of them.
use vigor.Prelude.{
  ℕ, ◌≡◌, ◌≢◌, sym, ◌∙◌, ap, true, arith, List, [], ◌∷◌, ◌++◌, ◌==◌, Bool-cases, inl, inr,
}
use vigor.Prelude.Lists.{elem, Distinct}
use vigor.DoubleChainImpl.{Cell, Cells, free_list_head}

-- From `a` the fields lead forwards over `xs` to `b`, and back.
abbrev pub Linked : Cells → ℕ → List ℕ → ℕ → Type 0
Linked c a [] b = ((c a).next ≡ b) × ((c b).prev ≡ a)
Linked c a (x ∷ xs) b = ((c a).next ≡ x) × ((c x).prev ≡ a) × Linked c x xs b

-- From `a` both fields lead over `xs` to the head of the free list.
abbrev pub FreeList : Cells → ℕ → List ℕ → Type 0
FreeList c a [] = ((c a).next ≡ free_list_head) × ((c a).prev ≡ free_list_head)
FreeList c a (x ∷ xs) = ((c a).next ≡ x) × ((c a).prev ≡ x) × FreeList c x xs

pub Linked-append :
    (c : Cells) (a : ℕ) (ys : List ℕ) (x : ℕ) (zs : List ℕ) (b : ℕ)
    → Linked c a (ys ++ (x ∷ zs)) b
    → Linked c a ys x × Linked c x zs b
Linked-append c a [] x zs b (n, p, l) = ((n, p), l)
Linked-append c a (y ∷ ys) x zs b (n, p, l) =
    let (l', r) = Linked-append c y ys x zs b l in ((n, p, l'), r)

pub Linked-join :
    (c : Cells) (a : ℕ) (ys : List ℕ) (x : ℕ) (zs : List ℕ) (b : ℕ)
    → Linked c a ys x
    → Linked c x zs b
    → Linked c a (ys ++ (x ∷ zs)) b
Linked-join c a [] x zs b (n, p) r = (n, p, r)
Linked-join c a (y ∷ ys) x zs b (n, p, l) r = (n, p, Linked-join c y ys x zs b l r)

-- Only the fields on the list matter.
pub Linked-frame :
    (c c' : Cells) (a : ℕ) (xs : List ℕ) (b : ℕ)
    → Linked c a xs b
    → ((u : ℕ) → elem u (a ∷ xs) ≡ true → (c' u).next ≡ (c u).next)
    → ((u : ℕ) → elem u xs ≡ true → (c' u).prev ≡ (c u).prev)
    → (c' b).prev ≡ (c b).prev
    → Linked c' a xs b
Linked-frame c c' a [] b (n, p) fn fp fb = (fn a (ground arith) ∙ n, fb ∙ p)
Linked-frame c c' a (x ∷ xs) b (n, p, l) fn fp fb = (
  fn a (ground arith) ∙ n,
  fp x (ground arith) ∙ p,
  Linked-frame c c' x xs b l (λ u m. fn u (ground (arith, m))) (λ u m. fp u (ground (arith, m))) fb,
)

-- The cell before the end is the start or on the list; so is the cell behind the start.
pub Linked-last :
    (c : Cells) (a : ℕ) (ys : List ℕ) (b : ℕ) → Linked c a ys b → elem (c b).prev (a ∷ ys) ≡ true
Linked-last c a [] b (n, p) = ground arith
Linked-last c a (y ∷ ys) b (n, p, l) = let m = Linked-last c y ys b l in ground (arith, m)

-- Another end: the last cell leads to `q` instead of `b`.
pub Linked-redirect :
    (c c' : Cells) (a : ℕ) (ys : List ℕ) (b q p : ℕ)
    → Linked c a ys b
    → Distinct (a ∷ ys)
    → (c b).prev ≡ p
    → (c' p).next ≡ q
    → (c' q).prev ≡ p
    → ((u : ℕ) → elem u (a ∷ ys) ≡ true → u ≢ p → (c' u).next ≡ (c u).next)
    → ((u : ℕ) → elem u ys ≡ true → (c' u).prev ≡ (c u).prev)
    → Linked c' a ys q
Linked-redirect c c' a [] b q p (n, l) d e np pq fn fp =
    let s : p ≡ a = sym e ∙ l in (rw (← s) np, pq ∙ s)
Linked-redirect c c' a (y ∷ ys) b q p (n, l, rest) (fresh, d) e np pq fn fp =
    let m = Linked-last c y ys b rest in
    (
      fn a (ground arith) (λ s. absurd (ground (arith, m, fresh, e, s))) ∙ n,
      fp y (ground arith) ∙ l,
      Linked-redirect c c' y ys b q p rest d e np pq (λ u h. fn u (ground (arith, h)))
          (λ u h. fp u (ground (arith, h))),
    )

pub FreeList-frame :
    (c c' : Cells) (a : ℕ) (xs : List ℕ)
    → FreeList c a xs
    → ((u : ℕ) → elem u (a ∷ xs) ≡ true → c' u ≡ c u)
    → FreeList c' a xs
FreeList-frame c c' a [] (n, p) f =
    let s = f a (ground arith) in (ap (λ (k : Cell). k.next) s ∙ n, ap (λ (k : Cell). k.prev) s ∙ p)
FreeList-frame c c' a (x ∷ xs) (n, p, l) f =
    let s = f a (ground arith) in
    (
      ap (λ (k : Cell). k.next) s ∙ n,
      ap (λ (k : Cell). k.prev) s ∙ p,
      FreeList-frame c c' x xs l (λ u m. f u (ground (arith, m))),
    )

-- The list behind another cell that has the fields of its old head.
pub FreeList-restart :
    (c c' : Cells) (a b : ℕ) (xs : List ℕ)
    → FreeList c a xs
    → (c' b).next ≡ (c a).next
    → (c' b).prev ≡ (c a).next
    → ((u : ℕ) → elem u xs ≡ true → c' u ≡ c u)
    → FreeList c' b xs
FreeList-restart c c' a b [] (n, p) en ep f = (en ∙ n, ep ∙ n)
FreeList-restart c c' a b (x ∷ xs) (n, p, l) en ep f =
    (en ∙ n, ep ∙ n, FreeList-frame c c' x xs l f)

-- The fields of a free cell agree, and lead to the head or to a free cell.
pub FreeList-fields :
    (c : Cells) (a : ℕ) (xs : List ℕ) (x : ℕ)
    → FreeList c a xs
    → elem x (a ∷ xs) ≡ true
    → ((c x).next ≡ (c x).prev) × (elem (c x).prev (free_list_head ∷ xs) ≡ true)
FreeList-fields c a [] x (n, p) m = let s : a ≡ x = ground (arith, m) in rw (← s) (n ∙ sym p, rw p)
FreeList-fields c a (y ∷ xs) x (n, p, l) m = elim (Bool-cases (a == x)) [
  | inl e ↦ let s : a ≡ x = ground (arith, e) in rw (← s) (n ∙ sym p, rw p (ground arith))
  | inr e ↦ let (q, r) = FreeList-fields c y xs x l (ground (arith, e, m)) in (q, ground (arith, r))
]

pub Linked-first :
    (c : Cells) (a : ℕ) (ys : List ℕ) (b : ℕ) → Linked c a ys b → elem (c a).next (b ∷ ys) ≡ true
Linked-first c a [] b (n, p) = ground arith
Linked-first c a (y ∷ ys) b (n, p, l) = ground arith
