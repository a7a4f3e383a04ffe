-- ===== src/DoubleChainImpl/Allocate.antt =====
-- `dchain_impl_allocate_new_index`: the first free cell becomes the youngest allocated one.
use vigor.Prelude.{
  ℕ, ◌-◌, ◌≡◌, refl, ap, fun_ext, false, ◌==◌, arith, List, [], ◌∷◌, ◌++◌, none, some,
}
use vigor.Prelude.Lists.{elem, elem-append, Distinct-join, length-append}
use vigor.DoubleChainImpl.{Cells, set_both, allocate_new_index}
use vigor.DoubleChainImpl.Linked.{Linked-frame, Linked-last, FreeList-restart}
use vigor.DoubleChainImpl.Inv.{Holds, heads_off}
use vigor.DoubleChainImpl.Unlink.{appended, appended-Linked}

-- With no free cell nothing is allocated and nothing changes.
pub allocate_new_index_full :
    {size : ℕ} {al : List ℕ} {c : Cells} → Holds size al [] c → allocate_new_index c ≡ (none, c)
unfolding allocate_new_index
allocate_new_index_full h = rw (h.free.0)

module _ {size : ℕ} {al fl : List ℕ} {x : ℕ} {c : Cells} (h : Holds size al (x ∷ fl) c) where
  abbrev taken : Cells
  taken = set_both c 1 (c x).next

  x_off : (elem x al ≡ false) × ((x == 0) ≡ false) × ((x == 1) ≡ false)
  x_off = (ground (arith, h.apart x), ground (arith, h.all x), ground (arith, h.all x))

  appended-Holds : Holds size (al ++ (x ∷ [])) fl (appended taken x)
  appended-Holds =
      let off = heads_off h in
      let last = Linked-last c 0 al 0 h.ring in
      let e = λ (u : ℕ). elem-append u al (x ∷ []) in
      record {
        ring =
            appended-Linked taken al x
              (Linked-frame c taken 0 al 0 h.ring (λ u m. ground (arith, m, off))
                (λ u m. ground (arith, m, off)) (ground arith))
              (off.0, h.al_once) (ground (arith, x_off));
        free =
            FreeList-restart c (appended taken x) x 1 fl h.free.2 (ground (arith, x_off, off, last))
              (ground (arith, x_off, off, last))
              (λ u m. ground (arith, m, h.fl_once.0, off, last, h.apart u));
        al_once = Distinct-join al (x ∷ []) h.al_once (refl, tt) (λ u. ground (arith, x_off));
        fl_once = h.fl_once.1;
        all = λ u. ground (arith, e u, h.all u);
        apart = λ u. ground (arith, e u, h.apart u, h.fl_once.0);
        sum = omega (arith, length-append al (x ∷ []), h.sum);
      }

  -- With a free cell, `dchain_impl_allocate_new_index` returns 1 with the index of the first free
  -- cell. That cell is then the last of the allocated list and on the free list no more.
  pub allocate_new_index_lem :
      (c' : Cells) × (allocate_new_index c ≡ (some (x - 2), c')) × Holds size (al ++ (x ∷ [])) fl c'
  unfolding allocate_new_index
  allocate_new_index_lem = (
    appended taken x,
    rw (h.free.0, x_off.2)
        (ap (λ (k : Cells). (some (x - 2), k)) (fun_ext (λ u. ground (arith, x_off)))),
    appended-Holds,
  )
