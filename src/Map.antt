-- ===== src/Map.antt =====
-- libvig/verified/map.c: the hash map that the network functions use, over the table of map-impl.c.
pub mod Dict
pub mod Refine
pub mod Run
use vigor.Prelude.{ℕ, ◌+◌, Bool, true, false, ◌&&◌, Option, none, some, if◌then◌else◌}
use vigor.Prelude.Arrays.{Array, u32, inc32, dec32}
use vigor.MapImpl.Interface.{KeyOps, Build}
use vigor.MapImpl.{Table, map_impl_init, map_impl_get, map_impl_put, map_impl_erase}

-- `struct Map`. The two function pointers are the interface `KeyOps`.
pub record Map {ℓ} (K : Type ℓ) : Type ℓ where
  pub table : Table K
  pub capacity : ℕ
  pub size : ℕ

-- What the six calls of `malloc` return: whether there is room for the struct, and the memory of
-- each array with what it happens to hold, or `none` for NULL.
pub record Memory {ℓ} (K : Type ℓ) : Type ℓ where
  pub has_struct : Bool
  pub bbs_alloc : Option (Array ℕ)
  pub keyps_alloc : Option (Array K)
  pub khs_alloc : Option (Array ℕ)
  pub chns_alloc : Option (Array ℕ)
  pub vals_alloc : Option (Array ℕ)

-- The chain of allocations, each of which gives up if it fails.
abbrev pub arrays {ℓ} : {K : Type ℓ} → Memory K → Option (Table K)
arrays {K} mem = elim mem.bbs_alloc [
  | none ↦ none
  | some bbs ↦ elim mem.keyps_alloc [
    | none ↦ none
    | some keyps ↦ elim mem.khs_alloc [
      | none ↦ none
      | some khs ↦ elim mem.chns_alloc [
        | none ↦ none
        | some chns ↦ elim mem.vals_alloc [
          | none ↦ none
          | some vals ↦
              some (record { busybits = bbs; keyps = keyps; khs = khs; chns = chns; vals = vals })
        ]
      ]
    ]
  ]
]

module _ {ℓ} {K : Type ℓ} ⦃build : Build⦄ where
  -- The struct with its arrays cleared, once all of the memory is there.
  unfoldable pub set_up : ℕ → Option (Table K) → Option (Map K)
  set_up capacity none = none
  set_up capacity (some t) =
      some (record { table = map_impl_init t capacity; capacity = capacity; size = 0 })

  -- `none` is the result 0, after which `*map_out` is what it was.
  unfoldable pub map_allocate : Memory K → ℕ → Option (Map K)
  unfolding set_up
  map_allocate mem capacity =
      if build.guard capacity && mem.has_struct then set_up capacity (arrays mem) else none

module _ {ℓ} {K : Type ℓ} ⦃key : KeyOps K⦄ ⦃build : Build⦄ where
  unfoldable pub map_get : Map K → K → Option ℕ
  map_get map k = map_impl_get map.table k (key.khash k) map.capacity

  -- `++map->size` after the put into the table.
  unfoldable pub grown : Map K → Option (Table K) → Option (Map K)
  grown map none = none
  grown map (some t) = some (record map { table = t; size = inc32 map.size })

  -- `none` is the fault of `map_impl_put` on a full table.
  unfoldable pub map_put : Map K → K → ℕ → Option (Map K)
  unfolding grown
  map_put map k value = grown map (map_impl_put map.table k (key.khash k) value map.capacity)

  -- The option is what goes out through `trash`.
  unfoldable pub map_erase : Map K → K → Map K × Option K
  map_erase map k =
      let (t, trash) = map_impl_erase map.table k (key.khash k) map.capacity in
      (record map { table = t; size = dec32 map.size }, trash)

unfoldable pub map_size {ℓ} : {K : Type ℓ} → Map K → ℕ
map_size map = map.size
