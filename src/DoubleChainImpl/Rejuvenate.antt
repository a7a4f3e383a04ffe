-- ===== src/DoubleChainImpl/Rejuvenate.antt =====
-- `dchain_impl_rejuvenate_index` and `dchain_impl_get_oldest_index`.
use vigor.Prelude.{
  ℕ, ◌+◌, ◌-◌, ◌≡◌, refl, ◌∙◌, ap, subst, true, false, ◌==◌, arith, List, [], ◌∷◌, ◌++◌, none, some,
  Bool-cases, ==_iff, inl, inr,
}
use vigor.Prelude.Lists.{elem, elem-append, elem-Split, remove, Distinct-join, length-append}
use vigor.DoubleChainImpl.{Cells, unlink, rejuvenate_index, get_oldest_index}
use vigor.DoubleChainImpl.Linked.{Linked, Linked-last, Linked-append, FreeList-frame}
use vigor.DoubleChainImpl.Inv.{Holds, heads_off, fields_of_allocated}
use vigor.DoubleChainImpl.Unlink.{appended, appended-Linked}
use vigor.DoubleChainImpl.Free.{remove-Without, unlinked, neighbours}

-- Before the first member of the list, and behind its last, there is no cell.
Linked-start :
    (c : Cells) (ys : List ℕ) (x : ℕ)
    → Linked c 0 ys x
    → elem 0 ys ≡ false
    → (c x).prev ≡ 0
    → ys ≡ []
Linked-start c [] x l off e = refl
Linked-start c (y ∷ ys) x (n, p, l) off e =
    let m = Linked-last c y ys x l in absurd (ground (arith, m, off, e))

Linked-end :
    (c : Cells) (x : ℕ) (zs : List ℕ)
    → Linked c x zs 0
    → elem 0 zs ≡ false
    → (c x).next ≡ 0
    → zs ≡ []
Linked-end c x [] l off e = refl
Linked-end c x (z ∷ zs) (n, p, l) off e = absurd (ground (arith, n, off, e))

module _ {size : ℕ} {al fl : List ℕ} {c : Cells} (h : Holds size al fl c) where
  -- A cell whose fields agree is the whole list.
  alone : (x : ℕ) → elem x al ≡ true → (c x).next ≡ (c x).prev → remove x al ++ (x ∷ []) ≡ al
  alone x m s =
      let p = elem-Split x al m in
      let (l, r) =
        Linked-append c 0 p.before x p.after 0 (subst (λ l. Linked c 0 l 0) p.parts h.ring) in
      let z = fields_of_allocated h x m s in
      let e = ap (elem 0) p.parts ∙ elem-append 0 p.before (x ∷ p.after) in
      let off = (heads_off h).0 in
      let b = Linked-start c p.before x l (ground (arith, e, off)) z in
      let a = Linked-end c x p.after r (ground (arith, e, off)) (s ∙ z) in
      rw (p.others, p.parts, b, a)

  moved-Holds :
      (x : ℕ) → elem x al ≡ true → Holds size (remove x al ++ (x ∷ [])) fl (appended (unlink c x) x)
  moved-Holds x m =
      let w = remove-Without h x m in
      let off = heads_off h in
      let near = neighbours h x m in
      let ring = unlinked h x m in
      let c2 = unlink c x in
      let last = Linked-last c2 0 (remove x al) 0 ring in
      let e = λ (u : ℕ). elem-append u (remove x al) (x ∷ []) in
      record {
        ring =
            appended-Linked c2 (remove x al) x ring (ground (arith, w.member 0, off), w.once)
              (ground (arith, w.off, off, m));
        free =
            FreeList-frame c (appended c2 x) 1 fl h.free
              (λ u b. ground (arith, b, near, off, last, m, w.member (c2 0).prev, h.apart u));
        al_once =
            Distinct-join (remove x al) (x ∷ []) w.once (refl, tt) (λ u. ground (arith, w.off));
        fl_once = h.fl_once;
        all = λ u. ground (arith, e u, w.member u, h.all u);
        apart = λ u. ground (arith, e u, w.member u, h.apart u);
        sum = omega (arith, length-append (remove x al) (x ∷ []), w.one_less, h.sum);
      }

  -- `dchain_impl_rejuvenate_index` on an allocated index returns 1. The cells hold the same two
  -- lists again, but for the index, which is now last of the allocated ones.
  pub rejuvenate_index_of_allocated :
      (i : ℕ)
      → elem (i + 2) al ≡ true
      → ((rejuvenate_index c i).0 ≡ true)
        × Holds size (remove (i + 2) al ++ ((i + 2) ∷ [])) fl (rejuvenate_index c i).1
  unfolding rejuvenate_index
  rejuvenate_index_of_allocated i m = elim (Bool-cases ((c x).next == (c x).prev)) [
    | inl e ↦
        let s : (c x).next ≡ (c x).prev = ground (arith, e) in
        let z = fields_of_allocated h x m s in
        rw (e, (==_iff (c x).next 0).1 (s ∙ z), alone x m s) (refl, h)
    | inr e ↦ rw e (refl, moved)
  ]
    where
      x : ℕ
      x = i + 2

      moved : Holds size (remove x al ++ (x ∷ [])) fl (appended (unlink c x) x)
      moved = moved-Holds x m

-- `dchain_impl_get_oldest_index` returns the index of the first allocated cell, and 0 when none is
-- allocated.
pub get_oldest_index_lem :
    {size : ℕ} {al fl : List ℕ} {c : Cells}
    → Holds size al fl c
    → get_oldest_index c ≡ elim al [ [] ↦ none | x ∷ _ ↦ some (x - 2) ]
unfolding get_oldest_index
get_oldest_index_lem {al = al} h = go al h
  where
    go :
        {size : ℕ} {fl : List ℕ} {c : Cells} (al : List ℕ)
        → Holds size al fl c
        → get_oldest_index c ≡ elim al [ [] ↦ none | x ∷ _ ↦ some (x - 2) ]
    go [] h = ground (arith, h.ring)
    go (x ∷ al) h = ground (arith, h.ring, h.all 0)
