-- ===== src/MapImpl.antt =====
-- The open-addressing table of libvig/verified/map-impl.c and map-impl-pow2.c: five parallel
-- arrays, linear probing, and in `chns` the number of keys whose probe passes over a slot.
-- The two files differ in `loop` alone, which is a field of the interface `Build`.
-- A key is the value that its pointer points to: a stored key is never written while it is stored.
pub mod Interface
pub mod Loop
pub mod Probe
pub mod Inv
pub mod Find
pub mod Empty
pub mod Put
pub mod Erase
pub mod Rest
use Interface.{KeyOps, Build}
use vigor.Prelude.{
  ℕ, zero, suc, ◌+◌, Bool, ◌&&◌, Option, none, some, Option, ◌==◌, not, if◌then◌else◌,
}
use vigor.Prelude.Arrays.{Array, write, u32, inc32, dec32}

-- The arrays that every function of the file is handed.
pub record Table {ℓ} (K : Type ℓ) : Type ℓ where
  pub busybits : Array ℕ
  pub keyps : Array K
  pub khs : Array ℕ
  pub chns : Array ℕ
  pub vals : Array ℕ

-- `bb != 0`
abbrev pub is_busy {ℓ} : {K : Type ℓ} → Table K → ℕ → Bool
is_busy t index = not (t.busybits index == 0)

module _ {ℓ} {K : Type ℓ} ⦃key : KeyOps K⦄ ⦃build : Build⦄ where
  -- The loop of `find_key`, with the rounds that are left. `none` stands for -1.
  unfoldable pub find_from : Table K → K → (key_hash capacity start rounds i : ℕ) → Option ℕ
  find_from t keyp key_hash capacity start zero i = none
  find_from t keyp key_hash capacity start (suc rounds) i =
      let index = build.loop (u32 (start + i)) capacity in
      let rest = find_from t keyp key_hash capacity start rounds (i + 1) in
      if is_busy t index && t.khs index == key_hash
      then (if key.keys_eq (t.keyps index) keyp then some index else rest)
      else if t.chns index == 0
      then none
      else rest

  unfoldable pub find_key : Table K → K → (key_hash capacity : ℕ) → Option ℕ
  find_key t keyp key_hash capacity =
      find_from t keyp key_hash capacity (build.loop key_hash capacity) capacity 0

  -- The loop of `find_key_remove_chain`. The option is what goes out through `keyp_out`.
  unfoldable pub remove_from :
      Table K → K → (key_hash capacity start rounds i : ℕ) → Table K × Option K
  remove_from t keyp key_hash capacity start zero i = (t, none)
  remove_from t keyp key_hash capacity start (suc rounds) i =
      let index = build.loop (u32 (start + i)) capacity in
      let passed = record t { chns = write t.chns index (dec32 (t.chns index)) } in
      let rest = remove_from passed keyp key_hash capacity start rounds (i + 1) in
      if is_busy t index && t.khs index == key_hash && key.keys_eq (t.keyps index) keyp
      then (record t { busybits = write t.busybits index 0 }, some (t.keyps index))
      else rest

  unfoldable pub find_key_remove_chain : Table K → K → (key_hash capacity : ℕ) → Table K × Option K
  find_key_remove_chain t keyp key_hash capacity =
      remove_from t keyp key_hash capacity (build.loop key_hash capacity) capacity 0

module _ ⦃build : Build⦄ where
  -- The loop of `find_empty`, which returns the slot and leaves the chains that it counted up.
  unfoldable pub find_empty_from :
      (busybits chns : Array ℕ) (start capacity rounds i : ℕ) → Option ℕ × Array ℕ
  find_empty_from busybits chns start capacity zero i = (none, chns)
  find_empty_from busybits chns start capacity (suc rounds) i =
      let index = build.loop (u32 (start + i)) capacity in
      let chns' = write chns index (inc32 (chns index)) in
      let rest = find_empty_from busybits chns' start capacity rounds (i + 1) in
      if busybits index == 0 then (some index, chns) else rest

  unfoldable pub find_empty : (busybits chns : Array ℕ) (start capacity : ℕ) → Option ℕ × Array ℕ
  find_empty busybits chns start capacity = find_empty_from busybits chns start capacity capacity 0

-- The loop of `map_impl_init`: only these two arrays are written.
unfoldable pub clear_from {ℓ} : {K : Type ℓ} → Table K → (rounds i : ℕ) → Table K
clear_from t zero i = t
clear_from t (suc rounds) i =
    clear_from (record t { busybits = write t.busybits i 0; chns = write t.chns i 0 }) rounds
      (i + 1)

-- `t` holds what the allocated memory holds.
unfoldable pub map_impl_init {ℓ} : {K : Type ℓ} → Table K → ℕ → Table K
unfolding clear_from
map_impl_init t capacity = clear_from t capacity 0

module _ {ℓ} {K : Type ℓ} ⦃key : KeyOps K⦄ ⦃build : Build⦄ where
  -- `none` is the result 0, `some v` the result 1 with `v` in `*value`.
  unfoldable pub map_impl_get : Table K → K → (hash capacity : ℕ) → Option ℕ
  map_impl_get t keyp hash capacity = elim (find_key t keyp hash capacity) [
    | none ↦ none
    | some index ↦ some (t.vals index)
  ]

  -- The writes at the slot that `find_empty` returned.
  unfoldable pub fill : Table K → K → (hash value : ℕ) → Option ℕ × Array ℕ → Option (Table K)
  fill t keyp hash value (none, chns') = none
  fill t keyp hash value (some index, chns') = some (record {
    busybits = write t.busybits index 1;
    keyps = write t.keyps index keyp;
    khs = write t.khs index hash;
    chns = chns';
    vals = write t.vals index value;
  })

  -- `none` is a write through the index -1, which `find_empty` returns for a full table.
  unfoldable pub map_impl_put : Table K → K → (hash value capacity : ℕ) → Option (Table K)
  unfolding fill
  map_impl_put t keyp hash value capacity =
      fill t keyp hash value (find_empty t.busybits t.chns (build.loop hash capacity) capacity)

  unfoldable pub map_impl_erase : Table K → K → (hash capacity : ℕ) → Table K × Option K
  map_impl_erase t keyp hash capacity = find_key_remove_chain t keyp hash capacity

-- The loop of `map_impl_size`.
unfoldable pub size_from {ℓ} : {K : Type ℓ} → Table K → (rounds i s : ℕ) → ℕ
size_from t zero i s = s
size_from t (suc rounds) i s = size_from t rounds (i + 1) (if is_busy t i then u32 (s + 1) else s)

unfoldable pub map_impl_size {ℓ} : {K : Type ℓ} → Table K → ℕ → ℕ
unfolding size_from
map_impl_size t capacity = size_from t capacity 0 0
