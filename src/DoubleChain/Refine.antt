-- ===== src/DoubleChain/Refine.antt =====
-- Each function of double-chain.c does to the array what its contract says of the entries.
use vigor.Prelude.{
  ℕ, ◌+◌, ◌-◌, ◌≤◌, ◌<◌, ◌≡◌, refl, sym, ◌∙◌, ap, subst, Bool, true, false, arith, List, [], ◌∷◌,
  ◌++◌, none, some, Bool-cases, inl, inr, if◌then◌else◌,
}
use vigor.Prelude.Arrays.{Array, write}
use vigor.Prelude.Int.{ℤ}
use vigor.Prelude.Lists.{length, elem}
use vigor.DoubleChainImpl.Inv.{Holds}
use vigor.DoubleChainImpl.Init.{init-Holds}
use vigor.DoubleChainImpl.Allocate.{allocate_new_index_full, allocate_new_index_lem}
use vigor.DoubleChainImpl.Free.{
  free_index_of_free, rejuvenate_index_of_free, is_index_allocated_of_free,
  is_index_allocated_of_allocated, free_index_of_allocated,
}
use vigor.DoubleChainImpl.Rejuvenate.{rejuvenate_index_of_allocated}
use vigor.DoubleChainImpl.{Cells}
use vigor.DoubleChainImpl
use vigor.DoubleChain.Entries.{
  Entries, has, without, slots, Stamped, elem-slots, slots-without, slots-append, length-slots,
  Stamped-append, Stamped-write, Stamped-without, has-without,
}
use vigor.DoubleChain.{
  DoubleChain, restamp, dchain_allocate, dchain_allocate_new_index, dchain_rejuvenate_index,
  dchain_is_index_allocated, dchain_free_index,
}

-- The chain keeps the entries.
pub record Models (size : ℕ) (es : Entries) (chain : DoubleChain) : Type 0 where
  pub free_cells : List ℕ
  pub holds : Holds size (slots es) free_cells chain.cells
  pub stamped : Stamped chain.timestamps es

-- If every allocation succeeds, `dchain_allocate` for at least one index returns a chain with no
-- entries, whatever the memory held.
pub dchain_allocate_lem :
    (cells : Cells) (times : Array ℤ) (size : ℕ)
    → 0 < size
    → (chain : DoubleChain) × (dchain_allocate true (some cells) (some times) size ≡ some chain)
      × Models size [] chain
unfolding dchain_allocate
dchain_allocate_lem cells times size pos = (
  record { cells = DoubleChainImpl.init cells size; timestamps = times },
  refl,
  record { free_cells = _; holds = init-Holds cells size pos; stamped = tt },
)

nil_of_length : (xs : List ℕ) → length xs ≡ 0 → xs ≡ []
nil_of_length [] e = refl
nil_of_length (x ∷ xs) e = absurd (omega arith)

cons_of_length : (xs : List ℕ) → 0 < length xs → (x : ℕ) × (rest : List ℕ) × (xs ≡ x ∷ rest)
cons_of_length [] l = absurd (omega arith)
cons_of_length (x ∷ xs) l = (x, xs, refl)

restamp_done :
    (chain : DoubleChain) (i : ℕ) (time : ℤ) (out : Bool × Cells)
    → out.0 ≡ true
    → restamp chain i time out
      ≡ (true, record { cells = out.1; timestamps = write chain.timestamps i time })
unfolding restamp
restamp_done chain i time (true, c) e = refl
restamp_done chain i time (false, c) e = cc

module _ {size : ℕ} {es : Entries} {chain : DoubleChain} (r : Models size es chain) where
  -- An index in range that has no entry is free.
  free_of_absent : (i : ℕ) → i < size → has i es ≡ false → elem (i + 2) r.free_cells ≡ true
  free_of_absent i l h = ground (arith, r.holds.all (i + 2), elem-slots i es)

  slot_of_present : (i : ℕ) → has i es ≡ true → elem (i + 2) (slots es) ≡ true
  slot_of_present i h = elem-slots i es ∙ h

  -- For an index in range, `dchain_is_index_allocated` tells whether the index has an entry.
  pub dchain_is_index_allocated_lem :
      (i : ℕ) → i < size → dchain_is_index_allocated chain i ≡ has i es
  unfolding dchain_is_index_allocated
  dchain_is_index_allocated_lem i l = elim (Bool-cases (has i es)) [
    | inl y ↦ is_index_allocated_of_allocated r.holds i (slot_of_present i y) ∙ sym y
    | inr n ↦ is_index_allocated_of_free r.holds i (free_of_absent i l n) ∙ sym n
  ]

  -- For an index in range, `dchain_free_index` returns 1 exactly if the index has an entry, and
  -- then takes that entry out and keeps the order of the others. At the result 0 the entries are
  -- what they were.
  pub dchain_free_index_lem :
      (i : ℕ)
      → i < size
      → let (done, chain') = dchain_free_index chain i in
        (done ≡ has i es) × Models size (if has i es then without i es else es) chain'
  unfolding dchain_free_index
  dchain_free_index_lem i l = elim (Bool-cases (has i es)) [
    | inl y ↦
        let (t, h) = free_index_of_allocated r.holds i (slot_of_present i y) in
        rw y (
          t,
          record {
            free_cells = (i + 2) ∷ r.free_cells;
            holds =
                subst
                  (λ l.
                    Holds size l ((i + 2) ∷ r.free_cells)
                      (DoubleChainImpl.free_index chain.cells i).1)
                  (slots-without i es) h;
            stamped = Stamped-without chain.timestamps i es r.stamped;
          },
        )
    | inr n ↦ let e = free_index_of_free r.holds i (free_of_absent i l n) in rw (n, e) (refl, r)
  ]

  -- For an index in range, `dchain_rejuvenate_index` returns 1 exactly if the index has an entry,
  -- and then moves that entry to the youngest end with the new time. At the result 0 the entries
  -- are what they were.
  pub dchain_rejuvenate_index_lem :
      (i : ℕ) (time : ℤ)
      → i < size
      → let (done, chain') = dchain_rejuvenate_index chain i time in
        (done ≡ has i es)
        × Models size (if has i es then without i es ++ ((i, time) ∷ []) else es) chain'
  unfolding dchain_rejuvenate_index
  dchain_rejuvenate_index_lem i time l = elim (Bool-cases (has i es)) [
    | inl y ↦
        let out = DoubleChainImpl.rejuvenate_index chain.cells i in
        let (t, h) = rejuvenate_index_of_allocated r.holds i (slot_of_present i y) in
        let gone : has i (without i es) ≡ false =
          has-without i i es r.holds.al_once ∙ ground arith in
        rw (y, restamp_done chain i time out t)
          (
            refl,
            record {
              free_cells = r.free_cells;
              holds =
                  subst (λ l. Holds size l r.free_cells out.1)
                    (ap (λ l. l ++ ((i + 2) ∷ [])) (slots-without i es)
                      ∙ sym (slots-append (without i es) ((i, time) ∷ [])))
                    h;
              stamped =
                  Stamped-append (write chain.timestamps i time) (without i es) ((i, time) ∷ [])
                    (Stamped-write chain.timestamps i time (without i es) gone
                      (Stamped-without chain.timestamps i es r.stamped))
                    (ground arith, tt);
            },
          )
    | inr n ↦
        let e = rejuvenate_index_of_free r.holds i (free_of_absent i l n) in rw (n, e) (refl, r)
  ]

  -- When there are as many entries as indices, `dchain_allocate_new_index` returns 0 and changes
  -- nothing.
  pub dchain_allocate_new_index_full :
      (time : ℤ) → length es ≡ size → dchain_allocate_new_index chain time ≡ (none, chain)
  unfolding dchain_allocate_new_index
  dchain_allocate_new_index_full time full =
      let none_free = nil_of_length r.free_cells (omega (arith, r.holds.sum, length-slots es)) in
      rw (
        allocate_new_index_full
          (subst (λ l. Holds size (slots es) l chain.cells) none_free r.holds))

  -- While there are fewer entries than indices, `dchain_allocate_new_index` returns 1 with an
  -- index in range that had no entry, and that index becomes the youngest entry with the given
  -- time.
  pub dchain_allocate_new_index_lem :
      (time : ℤ)
      → length es < size
      → (i : ℕ) × (chain' : DoubleChain) × (dchain_allocate_new_index chain time ≡ (some i, chain'))
        × (i < size)
        × (has i es ≡ false)
        × Models size (es ++ ((i, time) ∷ [])) chain'
  unfolding dchain_allocate_new_index
  dchain_allocate_new_index_lem time room =
      let (x, fl, parts) =
        cons_of_length r.free_cells (omega (arith, r.holds.sum, length-slots es)) in
      let h = subst (λ l. Holds size (slots es) l chain.cells) parts r.holds in
      let (c, e, h') = allocate_new_index_lem h in
      let back : x - 2 + 2 ≡ x = ground (arith, h.all x) in
      let new : has (x - 2) es ≡ false =
        sym (elem-slots (x - 2) es)
        ∙ ap (λ k. elem k (slots es)) back
        ∙ ground (arith, h.apart x) in
      (
        x - 2,
        record { cells = c; timestamps = write chain.timestamps (x - 2) time },
        rw e,
        ground (arith, h.all x),
        new,
        record {
          free_cells = fl;
          holds =
              subst (λ l. Holds size l fl c)
                (ap (λ k. slots es ++ (k ∷ [])) (sym back)
                  ∙ sym (slots-append es ((x - 2, time) ∷ [])))
                h';
          stamped =
              Stamped-append (write chain.timestamps (x - 2) time) es ((x - 2, time) ∷ [])
                (Stamped-write chain.timestamps (x - 2) time es new r.stamped) (ground arith, tt);
        },
      )

-- Every entry is in range.
pub has-lt :
    {size : ℕ} {es : Entries} {chain : DoubleChain} (i : ℕ)
    → Models size es chain
    → has i es ≡ true
    → i < size
has-lt {es = es} i r h = ground (arith, r.holds.all (i + 2), elem-slots i es, h)

-- There are no more entries than indices.
pub length-le :
    {size : ℕ} {es : Entries} {chain : DoubleChain} → Models size es chain → length es ≤ size
length-le {es = es} r = omega (arith, r.holds.sum, length-slots es)
