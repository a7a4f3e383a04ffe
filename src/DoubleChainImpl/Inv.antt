-- ===== src/DoubleChainImpl/Inv.antt =====
-- The invariant of the array: which cells are on which list.
use vigor.Prelude.{
  ℕ, ◌+◌, ◌≡◌, Bool, true, false, not, ◌&&◌, ◌||◌, ◌==◌, List, ◌∷◌, ltb, leb, arith,
}
use vigor.Prelude.Lists.{length, elem, elem-Split, Distinct, Distinct-append}
use vigor.DoubleChainImpl.{Cells, alloc_list_head, free_list_head, index_shift}
use vigor.DoubleChainImpl.Linked.{
  Linked, FreeList, Linked-append, Linked-first, Linked-last, FreeList-fields,
}

-- A cell that is no head.
abbrev pub inside : ℕ → ℕ → Bool
inside size x = leb index_shift x && ltb x (size + index_shift)

-- `al` are the allocated cells, oldest first, and `fl` the free ones, next to be allocated first.
pub record Holds (size : ℕ) (al fl : List ℕ) (c : Cells) : Type 0 where
  pub ring : Linked c alloc_list_head al alloc_list_head
  pub free : FreeList c free_list_head fl
  pub al_once : Distinct al
  pub fl_once : Distinct fl
  pub all : (x : ℕ) → (elem x al || elem x fl) ≡ inside size x
  pub apart : (x : ℕ) → (elem x al && elem x fl) ≡ false
  pub sum : length al + length fl ≡ size

-- The test by which `free_index` and `rejuvenate_index` know a free cell.
abbrev pub is_free_cell : Cells → ℕ → Bool
is_free_cell c x = (c x).next == (c x).prev && not ((c x).prev == alloc_list_head)

module _ {size : ℕ} {al fl : List ℕ} {c : Cells} (h : Holds size al fl c) where
  -- The heads are on neither list, so the lists with their heads do not repeat either.
  pub heads_off :
      (elem 0 al ≡ false) × (elem 0 fl ≡ false) × (elem 1 al ≡ false) × (elem 1 fl ≡ false)
  heads_off = (
    ground (arith, h.all 0),
    ground (arith, h.all 0),
    ground (arith, h.all 1),
    ground (arith, h.all 1),
  )

  pub is_free_cell_of_free : (x : ℕ) → elem x fl ≡ true → is_free_cell c x ≡ true
  is_free_cell_of_free x m =
      let (s, r) = FreeList-fields c free_list_head fl x h.free (ground (arith, m)) in
      ground (arith, s, r, heads_off)

  -- An allocated cell whose fields agree is alone on the list.
  pub fields_of_allocated : (x : ℕ) → elem x al ≡ true → (c x).next ≡ (c x).prev → (c x).prev ≡ 0
  fields_of_allocated x m s =
      let p = elem-Split x al m in
      let (l, r) = Linked-append c 0 p.before x p.after 0 (rw p.parts at h.ring) in
      let (_, _, apart) = Distinct-append p.before (x ∷ p.after) (rw p.parts at h.al_once) in
      let first = Linked-first c x p.after 0 r in
      let last = Linked-last c 0 p.before x l in ground (arith, first, last, apart (c x).prev, s)

  pub is_free_cell_of_allocated : (x : ℕ) → elem x al ≡ true → is_free_cell c x ≡ false
  is_free_cell_of_allocated x m = ground (arith, fields_of_allocated x m)
