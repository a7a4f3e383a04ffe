-- ===== src/Vector.antt =====
-- libvig/verified/vector.c: an array of elements. `vector_borrow` hands out a pointer to an element
-- and `vector_return` takes it back; what the client does to the element in between is a write.
pub mod Allocate
pub mod Borrow
use vigor.Prelude.{ℕ, zero, suc, ◌+◌, Bool, Option, none, some, if◌then◌else◌}
use vigor.Prelude.Arrays.{Array, write}

-- `struct Vector`. An element stands for its `elem_size` bytes.
pub record Vector {ℓ} (A : Type ℓ) : Type ℓ where
  pub items : Array A
  pub capacity : ℕ

-- The loop of `vector_allocate` over the memory that was allocated.
unfoldable pub init_from {ℓ} : {A : Type ℓ} → (A → A) → Array A → (rounds i : ℕ) → Array A
init_from init_elem a zero i = a
init_from init_elem a (suc rounds) i =
    init_from init_elem (write a i (init_elem (a i))) rounds (i + 1)

set_up {ℓ} : {A : Type ℓ} → (A → A) → ℕ → Option (Array A) → Option (Vector A)
set_up init_elem capacity none = none
set_up init_elem capacity (some a) =
    some (record { items = init_from init_elem a capacity 0; capacity = capacity })

-- `none` is the result 0, after a failed `malloc` of the struct or of the array.
pub vector_allocate {ℓ} :
    {A : Type ℓ}
    → (has_struct : Bool) (data_alloc : Option (Array A)) → (A → A)
    → ℕ
    → Option (Vector A)
unfolding set_up init_from
vector_allocate has_struct data_alloc init_elem capacity =
    if has_struct then set_up init_elem capacity data_alloc else none

-- `*val_out`, the element that the pointer leads to.
unfoldable pub vector_borrow {ℓ} : {A : Type ℓ} → Vector A → ℕ → A
vector_borrow vector index = vector.items index

-- The element as the client leaves it.
unfoldable pub vector_return {ℓ} : {A : Type ℓ} → Vector A → ℕ → A → Vector A
vector_return vector index value = record vector { items = write vector.items index value }
