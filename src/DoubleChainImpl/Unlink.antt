-- ===== src/DoubleChainImpl/Unlink.antt =====
-- Taking a cell out of the allocated list, and putting one at its end.
use mathlib.Core.List.{append-nil}
use vigor.Prelude.{ℕ, ◌≡◌, refl, false, arith, List, [], ◌∷◌, ◌++◌, ◌&&◌}
use vigor.Prelude.Lists.{elem, elem-append, Distinct, Distinct-append}
use vigor.DoubleChainImpl.{Cells, set_next, set_prev, unlink}
use vigor.DoubleChainImpl.Linked.{
  Linked, Linked-append, Linked-join, Linked-frame, Linked-last, Linked-redirect,
}

unlink_parts :
    (c : Cells) (ys : List ℕ) (x : ℕ) (zs : List ℕ)
    → Linked c 0 ys x
    → Linked c x zs 0
    → Distinct (0 ∷ ys)
    → elem 0 (x ∷ zs) ≡ false
    → Distinct zs
    → ((u : ℕ) → (elem u ys && elem u (x ∷ zs)) ≡ false)
    → Linked (unlink c x) 0 (ys ++ zs) 0
unlink_parts c ys x [] l (n, p) d off dz apart = rw append-nil (
    Linked-redirect c (unlink c x) 0 ys x 0 (c x).prev l d refl (ground (arith, n))
      (ground (arith, n)) (λ u m ne. ground (arith, n, ne)) (λ u m. ground (arith, n, d.0, m)))
unlink_parts c ys x (z ∷ zs) l (n, p, r) d off dz apart =
    let m = Linked-last c 0 ys x l in
    Linked-join (unlink c x) 0 ys z zs 0
      (Linked-redirect c (unlink c x) 0 ys x z (c x).prev l d refl (ground (arith, n))
        (ground (arith, n)) (λ u m ne. ground (arith, n, ne))
        (λ u m. ground (arith, n, m, apart u)))
      (Linked-frame c (unlink c x) z zs 0 r (λ u h. ground (arith, n, m, h, off, apart u))
        (λ u h. ground (arith, n, h, dz)) (ground (arith, n, off)))

-- The list closes up behind the cell.
pub unlink-Linked :
    (c : Cells) (ys : List ℕ) (x : ℕ) (zs : List ℕ)
    → Linked c 0 (ys ++ (x ∷ zs)) 0
    → Distinct (0 ∷ (ys ++ (x ∷ zs)))
    → Linked (unlink c x) 0 (ys ++ zs) 0
unlink-Linked c ys x zs l (head, d) =
    let (l', r) = Linked-append c 0 ys x zs 0 l in
    let (dy, (_, dz), apart) = Distinct-append ys (x ∷ zs) d in
    let e = elem-append 0 ys (x ∷ zs) in
    unlink_parts c ys x zs l' r (ground (arith, e, head), dy) (ground (arith, e, head)) dz apart

-- The writes that put the cell `x` at the end of the list.
abbrev pub appended : Cells → ℕ → Cells
appended c x =
    let last = (c 0).prev in
    let c1 = set_prev (set_next c x 0) x last in set_prev (set_next c1 last x) 0 x

pub appended-Linked :
    (c : Cells) (xs : List ℕ) (x : ℕ)
    → Linked c 0 xs 0
    → Distinct (0 ∷ xs)
    → elem x (0 ∷ xs) ≡ false
    → Linked (appended c x) 0 (xs ++ (x ∷ [])) 0
appended-Linked c xs x l d off =
    let m = Linked-last c 0 xs 0 l in
    Linked-join (appended c x) 0 xs x [] 0
      (Linked-redirect c (appended c x) 0 xs 0 x (c 0).prev l d refl (ground arith)
        (ground (arith, off, m)) (λ u h ne. ground (arith, off, h, ne))
        (λ u h. ground (arith, off, h, d.0)))
      (ground (arith, off, m))
