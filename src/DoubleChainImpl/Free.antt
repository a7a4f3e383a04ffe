-- ===== src/DoubleChainImpl/Free.antt =====
-- `dchain_impl_free_index`, and how the three functions know a free cell.
use vigor.Prelude.{
  ℕ, ◌+◌, ◌≡◌, refl, sym, ◌∙◌, ap, subst, true, false, ◌||◌, ◌==◌, arith, List, ◌∷◌, ◌++◌,
}
use vigor.Prelude.Lists.{
  elem, elem-append, elem-Split, remove, Distinct, Distinct-append, Distinct-join, length-append,
  length,
}
use vigor.DoubleChainImpl.{
  Cells, set_both, unlink, free_index, rejuvenate_index, is_index_allocated,
}
use vigor.DoubleChainImpl.Linked.{
  Linked, Linked-frame, Linked-last, Linked-first, Linked-append, FreeList-restart,
}
use vigor.DoubleChainImpl.Inv.{
  Holds, heads_off, is_free_cell_of_free, is_free_cell_of_allocated, fields_of_allocated,
}
use vigor.DoubleChainImpl.Unlink.{unlink-Linked}

-- The list without a member: what is on it, that nothing repeats, and how long it is.
pub record Without (x : ℕ) (al rest : List ℕ) : Type 0 where
  pub member : (u : ℕ) → elem u al ≡ (x == u || elem u rest)
  pub off : elem x rest ≡ false
  pub once : Distinct rest
  pub one_less : length al ≡ length rest + 1

parts-Without :
    (x : ℕ) (ys zs : List ℕ) → Distinct (ys ++ (x ∷ zs)) → Without x (ys ++ (x ∷ zs)) (ys ++ zs)
parts-Without x ys zs d =
    let (dy, (fresh, dz), apart) = Distinct-append ys (x ∷ zs) d in
    record {
      member = λ u. ground (arith, elem-append u ys (x ∷ zs), elem-append u ys zs);
      off = ground (arith, elem-append x ys zs, fresh, apart x);
      once = Distinct-join ys zs dy dz (λ u. ground (arith, apart u));
      one_less = omega (arith, length-append ys (x ∷ zs), length-append ys zs);
    }

module _ {size : ℕ} {al fl : List ℕ} {c : Cells} (h : Holds size al fl c) (x : ℕ)
    (m : elem x al ≡ true) where
  pub remove-Without : Without x al (remove x al)
  remove-Without =
      let p = elem-Split x al m in
      rw p.others (
        subst (λ l. Without x l (p.before ++ p.after)) (sym p.parts)
          (parts-Without x p.before p.after (subst Distinct p.parts h.al_once)))

  pub unlinked : Linked (unlink c x) 0 (remove x al) 0
  unlinked =
      let p = elem-Split x al m in
      rw p.others (
        unlink-Linked c p.before x p.after (subst (λ l. Linked c 0 l 0) p.parts h.ring)
          (subst (λ l. Distinct (0 ∷ l)) p.parts ((heads_off h).0, h.al_once)))

  -- The cells that the unlinking writes to.
  pub neighbours : (elem (c x).prev (0 ∷ al) ≡ true) × (elem (c x).next (0 ∷ al) ≡ true)
  neighbours =
      let p = elem-Split x al m in
      let (l, r) =
        Linked-append c 0 p.before x p.after 0 (subst (λ l. Linked c 0 l 0) p.parts h.ring) in
      let first = Linked-first c x p.after 0 r in
      let last = Linked-last c 0 p.before x l in
      let e = λ (u : ℕ). ap (elem u) p.parts ∙ elem-append u p.before (x ∷ p.after) in
      (ground (arith, last, e (c x).prev), ground (arith, first, e (c x).next))

module _ {size : ℕ} {al fl : List ℕ} {c : Cells} (h : Holds size al fl c) (i : ℕ) where
  abbrev cell : ℕ
  cell = i + 2

  -- A free index is refused, and nothing changes.
  pub free_index_of_free : elem cell fl ≡ true → free_index c i ≡ (false, c)
  unfolding free_index
  free_index_of_free m = rw (is_free_cell_of_free h cell m)

  pub rejuvenate_index_of_free : elem cell fl ≡ true → rejuvenate_index c i ≡ (false, c)
  unfolding rejuvenate_index
  rejuvenate_index_of_free m = ground (arith, is_free_cell_of_free h cell m)

  pub is_index_allocated_of_free : elem cell fl ≡ true → is_index_allocated c i ≡ false
  unfolding is_index_allocated
  is_index_allocated_of_free m = ground (arith, is_free_cell_of_free h cell m)

  pub is_index_allocated_of_allocated : elem cell al ≡ true → is_index_allocated c i ≡ true
  unfolding is_index_allocated
  is_index_allocated_of_allocated m = ground (arith, fields_of_allocated h cell m)

  -- `dchain_impl_free_index` on an allocated index returns 1. Its cell is on the allocated list
  -- no more and is the first of the free list, and the two lists keep the order of all other
  -- cells.
  pub free_index_of_allocated :
      elem cell al ≡ true
      → ((free_index c i).0 ≡ true) × Holds size (remove cell al) (cell ∷ fl) (free_index c i).1
  unfolding free_index
  free_index_of_allocated m =
      let w = remove-Without h cell m in
      let off = heads_off h in
      let near = neighbours h cell m in
      let c2 = unlink c cell in
      let c4 = set_both (set_both c2 cell (c2 1).next) 1 cell in
      rw (is_free_cell_of_allocated h cell m) (
        refl,
        record {
          ring =
              Linked-frame c2 c4 0 (remove cell al) 0 (unlinked h cell m)
                (λ u b. ground (arith, b, w.off, w.member 1, off))
                (λ u b. ground (arith, b, w.off, w.member 1, off)) (ground arith);
          free = (
            ground arith,
            ground arith,
            FreeList-restart c c4 1 cell fl h.free (ground (arith, near, off))
                (ground (arith, near, off)) (λ u b. ground (arith, b, near, off, h.apart u, m)),
          );
          al_once = w.once;
          fl_once = (ground (arith, h.apart cell, m), h.fl_once);
          all = λ u. ground (arith, w.member u, h.all u);
          apart = λ u. ground (arith, w.member u, w.off, h.apart u);
          sum = omega (arith, w.one_less, h.sum);
        },
      )
