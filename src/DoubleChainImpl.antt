-- ===== src/DoubleChainImpl.antt =====
-- libvig/verified/double-chain-impl.c: two linked lists in one array of cells. Cell 0 heads the
-- doubly linked list of allocated cells, oldest first; cell 1 heads the list of free cells, whose
-- two fields are equal. Index `i` of a client is cell `i + 2`.
pub mod Linked
pub mod Inv
pub mod Init
pub mod Unlink
pub mod Allocate
pub mod Free
pub mod Rejuvenate
use vigor.Prelude.{
  ℕ, zero, suc, ◌+◌, ◌-◌, Bool, true, false, not, ◌&&◌, Option, none, some, ◌==◌, if◌then◌else◌,
  ltb,
}
use vigor.Prelude.Arrays.{Array, write}

pub record Cell : Type 0 where
  pub prev : ℕ
  pub next : ℕ

abbrev pub Cells : Type 0
Cells = Array Cell

-- `ALLOC_LIST_HEAD`, `FREE_LIST_HEAD` and `INDEX_SHIFT`
abbrev pub alloc_list_head : ℕ
alloc_list_head = 0

abbrev pub free_list_head : ℕ
free_list_head = 1

abbrev pub index_shift : ℕ
index_shift = 2

-- `(cells + i)->next = v` and `(cells + i)->prev = v`
abbrev pub set_next : Cells → ℕ → ℕ → Cells
set_next cells i v = write cells i (record { prev = (cells i).prev; next = v })

abbrev pub set_prev : Cells → ℕ → ℕ → Cells
set_prev cells i v = write cells i (record { prev = v; next = (cells i).next })

-- The two writes `p->next = v; p->prev = p->next`.
abbrev pub set_both : Cells → ℕ → ℕ → Cells
set_both cells i v = set_prev (set_next cells i v) i v

-- The loop of `dchain_impl_init` and the writes behind it, with the rounds that are left: it stops
-- at `size + INDEX_SHIFT - 1`.
unfoldable pub init_from : Cells → (size rounds i : ℕ) → Cells
init_from cells size zero i = set_both cells i free_list_head
init_from cells size (suc rounds) i =
    let rest = init_from (set_both cells i (i + 1)) size rounds (i + 1) in
    if ltb i (size + index_shift - 1) then rest else set_both cells i free_list_head

-- `cells` holds what the allocated memory holds.
unfoldable pub init : Cells → ℕ → Cells
unfolding init_from
init cells size =
    let headed = set_next (set_prev cells alloc_list_head 0) alloc_list_head 0 in
    init_from (set_both headed free_list_head index_shift) size size index_shift

-- `none` is the result 0, `some` the result 1 with what goes out through `index`.
unfoldable pub allocate_new_index : Cells → Option ℕ × Cells
allocate_new_index cells =
    let allocated = (cells free_list_head).next in
    let c1 = set_both cells free_list_head (cells allocated).next in
    let c2 = set_next c1 allocated alloc_list_head in
    let c3 = set_prev c2 allocated (c2 alloc_list_head).prev in
    let c4 = set_next c3 (c3 alloc_list_head).prev allocated in
    let c5 = set_prev c4 alloc_list_head allocated in
    if allocated == free_list_head then (none, cells) else (some (allocated - index_shift), c5)

-- The unlinking of a cell from the allocated list, in `free_index` and `rejuvenate_index`.
abbrev pub unlink : Cells → ℕ → Cells
unlink cells i =
    let c1 = set_next cells (cells i).prev (cells i).next in
    set_prev c1 (cells i).next (cells i).prev

-- The result is the `int` that is returned.
unfoldable pub free_index : Cells → ℕ → Bool × Cells
free_index cells index =
    let freed = index + index_shift in
    let freed_prev = (cells freed).prev in
    let freed_next = (cells freed).next in
    let c2 = unlink cells freed in
    let c3 = set_both c2 freed (c2 free_list_head).next in
    let c4 = set_both c3 free_list_head freed in
    if freed_next == freed_prev && not (freed_prev == alloc_list_head)
    then (false, cells)
    else (true, c4)

unfoldable pub get_oldest_index : Cells → Option ℕ
get_oldest_index cells =
    if (cells alloc_list_head).next == alloc_list_head
    then none
    else some ((cells alloc_list_head).next - index_shift)

unfoldable pub rejuvenate_index : Cells → ℕ → Bool × Cells
rejuvenate_index cells index =
    let lifted = index + index_shift in
    let lifted_next = (cells lifted).next in
    let lifted_prev = (cells lifted).prev in
    let c2 = unlink cells lifted in
    let al_head_prev = (c2 alloc_list_head).prev in
    let c3 = set_prev (set_next c2 lifted alloc_list_head) lifted al_head_prev in
    let c4 = set_prev (set_next c3 al_head_prev lifted) alloc_list_head lifted in
    if lifted_next == lifted_prev
    then (if lifted_next == alloc_list_head then (true, cells) else (false, cells))
    else (true, c4)

unfoldable pub is_index_allocated : Cells → ℕ → Bool
is_index_allocated cells index =
    let lifted = index + index_shift in
    if (cells lifted).next == (cells lifted).prev
    then (cells lifted).next == alloc_list_head
    else true
