-- ===== src/Cht.antt =====
-- libvig/verified/cht.c: the table of a consistent hash, with a row of backends for each bucket, in
-- the order in which the bucket prefers them.
pub mod Choose
pub mod Permut
pub mod Place
pub mod Fill
use vigor.Prelude.{
  ℕ, suc, zero, ◌+◌, ◌*◌, ◌%◌, Bool, true, false, Option, none, some, if◌then◌else◌,
}
use vigor.Prelude.Arrays.{Array, write, u32, inc32}
use vigor.Prelude.Loops.{for_range}
use vigor.DoubleChain.{DoubleChain, dchain_is_index_allocated}
use vigor.Vector.{Vector, vector_borrow, vector_return}

abbrev pub loop : (k capacity : ℕ) → ℕ
loop k capacity = k % capacity

-- The bucket that backend `i` has at place `j` of its own order.
unfoldable pub permut : (cht_height i j : ℕ) → ℕ
permut cht_height i j =
    let offset = loop (u32 (i * 31)) cht_height in
    let base_shift = loop i (u32 (cht_height + 4294967295)) in
    let shift = base_shift + 1 in loop ((offset + shift * j) % 18446744073709551616) cht_height

-- The first pair of loops.
unfoldable pub fill_permutations : Array ℕ → (cht_height backend_capacity : ℕ) → Array ℕ
fill_permutations permutations cht_height backend_capacity =
    for_range backend_capacity 0
      (λ i.
        for_range cht_height 0 (λ j a. write a (u32 (i * cht_height + j)) (permut cht_height i j)))
      permutations

-- What the last pair of loops writes to.
pub record Filling : Type 0 where
  pub next : Array ℕ
  pub cht : Vector ℕ

-- A round of the last pair of loops.
unfoldable pub place : Array ℕ → (cht_height backend_capacity i j : ℕ) → Filling → Filling
place permutations cht_height backend_capacity i j f =
    let bucket_id = permutations (u32 (j * cht_height + i)) in
    let priority = f.next bucket_id in
    record {
      next = write f.next bucket_id (inc32 priority);
      cht = vector_return f.cht (u32 (backend_capacity * bucket_id + priority)) j;
    }

-- The three last loops.
unfoldable pub fill_rows :
    (permutations next : Array ℕ) → Vector ℕ → (cht_height backend_capacity : ℕ) → Filling
fill_rows permutations next cht cht_height backend_capacity =
    for_range cht_height 0
      (λ i. for_range backend_capacity 0 (place permutations cht_height backend_capacity i))
      (record { next = for_range cht_height 0 (λ i a. write a i 0) next; cht = cht })

-- `permutations` and `next` are what the two calls of `malloc` return, with what the memory holds.
-- `false` is the result 0.
unfoldable pub cht_fill_cht :
    (permutations next : Option (Array ℕ))
    → Vector ℕ
    → (cht_height backend_capacity : ℕ) → Bool × Vector ℕ
cht_fill_cht none next cht cht_height backend_capacity = (false, cht)
cht_fill_cht (some permutations) none cht cht_height backend_capacity = (false, cht)
cht_fill_cht (some permutations) (some next) cht cht_height backend_capacity = (
  true,
  (fill_rows (fill_permutations permutations cht_height backend_capacity) next cht cht_height
      backend_capacity).cht,
)

-- The loop from its round `i` on. The result is the backend for the result 1, and the vector as the
-- calls of `vector_return` leave it.
unfoldable pub choose_from :
    Vector ℕ → DoubleChain → (start backend_capacity i rounds : ℕ) → Option ℕ × Vector ℕ
choose_from cht active_backends start backend_capacity i zero = (none, cht)
choose_from cht active_backends start backend_capacity i (suc rounds) =
    let candidate_idx = u32 (start * backend_capacity + i) in
    let candidate = vector_borrow cht candidate_idx in
    let cht' = vector_return cht candidate_idx candidate in
    let rest = choose_from cht' active_backends start backend_capacity (i + 1) rounds in
    if dchain_is_index_allocated active_backends candidate then (some candidate, cht') else rest

-- `none` is the result 0.
unfoldable pub cht_find_preferred_available_backend :
    (hash : ℕ) → Vector ℕ → DoubleChain → (cht_height backend_capacity : ℕ) → Option ℕ × Vector ℕ
cht_find_preferred_available_backend hash cht active_backends cht_height backend_capacity =
    choose_from cht active_backends (loop hash cht_height) backend_capacity 0 backend_capacity
