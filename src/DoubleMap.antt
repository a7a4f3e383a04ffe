-- ===== src/DoubleMap.antt =====
-- libvig/verified/double-map.c: an array of values in which a value is found by its index and by
-- each of its two keys, through two tables of map-impl.c.
pub mod Side
pub mod Refine
use vigor.Prelude.{ℕ, ◌+◌, Bool, true, false, ◌&&◌, Option, none, some, if◌then◌else◌}
use vigor.Prelude.Arrays.{Array, write, inc32, dec32}
use vigor.Prelude.{◌≡◌}
use vigor.MapImpl.Interface.{KeyOps, Build}
use vigor.MapImpl.{Table, map_impl_init, map_impl_get, map_impl_put, map_impl_erase}
use vigor.Map.{Memory, arrays}

-- `uq_value_copy`, `dmap_extract_keys` and `uq_value_destr` of double-map.h, which a client hands
-- over: what the copy holds, the two keys inside a value, and what a destroyed value leaves in its
-- memory. `dmap_pack_keys` hands the keys back and writes nothing.
pub record ValueOps {ℓ} (K1 K2 V : Type ℓ) : Type ℓ where
  pub value_copy : V → V
  pub extract_a : V → K1
  pub extract_b : V → K2
  pub value_destroy : V → V
  pub value_copy_lem : (v : V) → value_copy v ≡ v

-- `struct DoubleMap`. The function pointers are the interfaces.
pub record DoubleMap {ℓ} (K1 K2 V : Type ℓ) : Type ℓ where
  pub table_a : Table K1
  pub table_b : Table K2
  pub values : Array V
  pub n_vals : ℕ
  pub capacity : ℕ
  pub keys_capacity : ℕ

-- What the calls of `malloc` return, as in map.c.
pub record DoubleMemory {ℓ} (K1 K2 V : Type ℓ) : Type ℓ where
  pub has_struct : Bool
  pub vals_alloc : Option (Array V)
  pub bbs_a_alloc : Option (Array ℕ)
  pub kps_a_alloc : Option (Array K1)
  pub khs_a_alloc : Option (Array ℕ)
  pub chns_a_alloc : Option (Array ℕ)
  pub inds_a_alloc : Option (Array ℕ)
  pub bbs_b_alloc : Option (Array ℕ)
  pub kps_b_alloc : Option (Array K2)
  pub khs_b_alloc : Option (Array ℕ)
  pub inds_b_alloc : Option (Array ℕ)
  pub chns_b_alloc : Option (Array ℕ)

abbrev pub arrays_a {ℓ} : {K1 K2 V : Type ℓ} → DoubleMemory K1 K2 V → Option (Table K1)
arrays_a mem = arrays (record {
  has_struct = mem.has_struct;
  bbs_alloc = mem.bbs_a_alloc;
  keyps_alloc = mem.kps_a_alloc;
  khs_alloc = mem.khs_a_alloc;
  chns_alloc = mem.chns_a_alloc;
  vals_alloc = mem.inds_a_alloc;
})

abbrev pub arrays_b {ℓ} : {K1 K2 V : Type ℓ} → DoubleMemory K1 K2 V → Option (Table K2)
arrays_b mem = arrays (record {
  has_struct = mem.has_struct;
  bbs_alloc = mem.bbs_b_alloc;
  keyps_alloc = mem.kps_b_alloc;
  khs_alloc = mem.khs_b_alloc;
  chns_alloc = mem.chns_b_alloc;
  vals_alloc = mem.inds_b_alloc;
})

module _ {ℓ} {K1 K2 V : Type ℓ} ⦃build : Build⦄ where
  -- The struct with its tables cleared, once all of the memory is there.
  unfoldable pub dmap_set_up :
      (capacity keys_capacity : ℕ)
      → Option (Array V)
      → Option (Table K1)
      → Option (Table K2)
      → Option (DoubleMap K1 K2 V)
  dmap_set_up capacity keys_capacity (some values) (some table_a) (some table_b) = some (record {
    table_a = map_impl_init table_a keys_capacity;
    table_b = map_impl_init table_b keys_capacity;
    values = values;
    n_vals = 0;
    capacity = capacity;
    keys_capacity = keys_capacity;
  })
  dmap_set_up capacity keys_capacity (some values) (some table_a) none = none
  dmap_set_up capacity keys_capacity (some values) none table_b = none
  dmap_set_up capacity keys_capacity none table_a table_b = none

  -- `none` is the result 0, after which `*map_out` is what it was.
  unfoldable pub dmap_allocate :
      DoubleMemory K1 K2 V → (capacity keys_capacity : ℕ) → Option (DoubleMap K1 K2 V)
  unfolding dmap_set_up
  dmap_allocate mem capacity keys_capacity =
      if build.guard keys_capacity && mem.has_struct
      then dmap_set_up capacity keys_capacity mem.vals_alloc (arrays_a mem) (arrays_b mem)
      else none

module _ {ℓ} {K1 K2 V : Type ℓ} ⦃key1 : KeyOps K1⦄ ⦃key2 : KeyOps K2⦄ ⦃build : Build⦄ where
  unfoldable pub dmap_get_a : DoubleMap K1 K2 V → K1 → Option ℕ
  dmap_get_a map k = map_impl_get map.table_a k (key1.khash k) map.keys_capacity

  unfoldable pub dmap_get_b : DoubleMap K1 K2 V → K2 → Option ℕ
  dmap_get_b map k = map_impl_get map.table_b k (key2.khash k) map.keys_capacity

  -- `dmap_put` after its two puts into the tables.
  unfoldable pub dmap_grown :
      DoubleMap K1 K2 V
      → Array V
      → Option (Table K1)
      → Option (Table K2)
      → Option (DoubleMap K1 K2 V)
  dmap_grown map values' (some table_a') (some table_b') = some (record {
    table_a = table_a';
    table_b = table_b';
    values = values';
    n_vals = inc32 map.n_vals;
    capacity = map.capacity;
    keys_capacity = map.keys_capacity;
  })
  dmap_grown map values' (some table_a') none = none
  dmap_grown map values' none table_b' = none

  module _ (ops : ValueOps K1 K2 V) where
    -- `some` is the result 1. `none` is the fault of `map_impl_put` on a full table.
    unfoldable pub dmap_put : DoubleMap K1 K2 V → V → (index : ℕ) → Option (DoubleMap K1 K2 V)
    unfolding dmap_grown
    dmap_put map value index =
        let values' = write map.values index (ops.value_copy value) in
        let my_value = values' index in
        let key_a = ops.extract_a my_value in
        let key_b = ops.extract_b my_value in
        dmap_grown map values'
          (map_impl_put map.table_a key_a (key1.khash key_a) index map.keys_capacity)
          (map_impl_put map.table_b key_b (key2.khash key_b) index map.keys_capacity)

    unfoldable pub dmap_get_value : DoubleMap K1 K2 V → (index : ℕ) → V
    dmap_get_value map index = ops.value_copy (map.values index)

    -- The result is 1 on every call.
    unfoldable pub dmap_erase : DoubleMap K1 K2 V → (index : ℕ) → DoubleMap K1 K2 V
    dmap_erase map index =
        let my_value = map.values index in
        let key_a = ops.extract_a my_value in
        let key_b = ops.extract_b my_value in
        record {
          table_a = (map_impl_erase map.table_a key_a (key1.khash key_a) map.keys_capacity).0;
          table_b = (map_impl_erase map.table_b key_b (key2.khash key_b) map.keys_capacity).0;
          values = write map.values index (ops.value_destroy my_value);
          n_vals = dec32 map.n_vals;
          capacity = map.capacity;
          keys_capacity = map.keys_capacity;
        }

unfoldable pub dmap_size {ℓ} : {K1 K2 V : Type ℓ} → DoubleMap K1 K2 V → ℕ
dmap_size map = map.n_vals
