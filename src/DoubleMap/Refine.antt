-- ===== src/DoubleMap/Refine.antt =====
-- Each function of double-map.c does what its contract says of the values that are stored by index.
use vigor.Prelude.{
  ℕ, ◌+◌, ◌-◌, ◌<◌, ◌≤◌, ◌≡◌, refl, sym, ◌∙◌, ◌⊎◌, inl, inr, Option, none, some, arith, Bool-cases,
  true, ◌==◌,
}
use vigor.Prelude.Arrays.{Array, write, inc32, dec32}
use vigor.Prelude.Counting.{count, count_add, count-le, count-eq-zero}
use mathlib.Core.Option.{some-injective}
use vigor.MapImpl.Interface.{KeyOps, Build, IsCapacity}
use vigor.MapImpl.{Table, map_impl_init}
use vigor.Map.Dict.{is_some}
use vigor.DoubleMap.{
  ValueOps, DoubleMap, DoubleMemory, arrays_a, arrays_b, dmap_allocate, dmap_get_a, dmap_get_b,
  dmap_put, dmap_get_value, dmap_erase,
}
use vigor.DoubleMap.Side.{IsSide, IsFree, side_get, init-IsSide, put-IsSide, erase-IsSide}

module _ {ℓ} {K1 K2 V : Type ℓ} ⦃key1 : KeyOps K1⦄ ⦃key2 : KeyOps K2⦄ ⦃build : Build⦄
    (ops : ValueOps K1 K2 V) where
  -- The map is sound and stores these values.
  pub record IsDouble (vals : Array (Option V)) (map : DoubleMap K1 K2 V) : Type ℓ where
    pub side_a : IsSide ops.extract_a vals map.keys_capacity map.n_vals map.table_a
    pub side_b : IsSide ops.extract_b vals map.keys_capacity map.n_vals map.table_b
    pub held : (i : ℕ) (v : V) → vals i ≡ some v → map.values i ≡ v
    pub in_range : (i : ℕ) (v : V) → vals i ≡ some v → i < map.capacity
    pub counted : map.n_vals ≡ count map.capacity (λ i. is_some (vals i))
    pub room : map.capacity ≤ map.keys_capacity

  -- An allocation that gets its memory returns a double map with no value.
  pub dmap_allocate_lem :
      (mem : DoubleMemory K1 K2 V) (capacity keys_capacity : ℕ) (values : Array V)
      (table_a : Table K1) (table_b : Table K2)
      → mem.has_struct ≡ true
      → mem.vals_alloc ≡ some values
      → arrays_a mem ≡ some table_a
      → arrays_b mem ≡ some table_b
      → IsCapacity keys_capacity
      → capacity ≤ keys_capacity
      → (map : DoubleMap K1 K2 V) × (dmap_allocate mem capacity keys_capacity ≡ some map)
        × (map.capacity ≡ capacity)
        × IsDouble (λ _. none) map
  unfolding dmap_allocate
  dmap_allocate_lem mem capacity keys_capacity values table_a table_b space has_values has_a has_b c
        l =
      (
        record {
          table_a = map_impl_init table_a keys_capacity;
          table_b = map_impl_init table_b keys_capacity;
          values = values;
          n_vals = 0;
          capacity = capacity;
          keys_capacity = keys_capacity;
        },
        rw (c.accepted, space, has_values, has_a, has_b),
        refl,
        record {
          side_a = init-IsSide ops.extract_a table_a keys_capacity c;
          side_b = init-IsSide ops.extract_b table_b keys_capacity c;
          held = λ i v h. absurd (ground (arith, h));
          in_range = λ i v h. absurd (ground (arith, h));
          counted = sym (count-eq-zero capacity _ (λ j l. refl));
          room = l;
        },
      )

  -- A stored value comes back.
  pub dmap_get_value_lem :
      (vals : Array (Option V)) (map : DoubleMap K1 K2 V) (i : ℕ) (v : V)
      → IsDouble vals map
      → vals i ≡ some v
      → dmap_get_value ops map i ≡ v
  unfolding dmap_get_value
  dmap_get_value_lem vals map i v d h = ops.value_copy_lem (map.values i) ∙ d.held i v h

  -- In a sound double map a get by the first key and a get by the second key each either fail,
  -- when no stored value has the key, or return an index whose stored value has the key, and
  -- `dmap_get_value` of that index is this value.
  pub dmap_get_lem :
      (vals : Array (Option V)) (map : DoubleMap K1 K2 V) (a : K1) (b : K2)
      → IsDouble vals map
      → (((dmap_get_a map a ≡ none) × IsFree ops.extract_a vals a)
          ⊎ ((i : ℕ) × (v : V) × (dmap_get_a map a ≡ some i)
              × (vals i ≡ some v)
              × (ops.extract_a v ≡ a)
              × (dmap_get_value ops map i ≡ v)))
        × (((dmap_get_b map b ≡ none) × IsFree ops.extract_b vals b)
            ⊎ ((i : ℕ) × (v : V) × (dmap_get_b map b ≡ some i)
                × (vals i ≡ some v)
                × (ops.extract_b v ≡ b)
                × (dmap_get_value ops map i ≡ v)))
  unfolding dmap_get_a dmap_get_b
  dmap_get_lem vals map a b d = (
    (elim (side_get ops.extract_a vals map.keys_capacity map.n_vals map.table_a a d.side_a) [
      | inl miss ↦ inl miss
      | inr (i, v, e, h, k) ↦ inr (i, v, e, h, k, dmap_get_value_lem vals map i v d h)
    ]),
    (elim (side_get ops.extract_b vals map.keys_capacity map.n_vals map.table_b b d.side_b) [
      | inl miss ↦ inl miss
      | inr (i, v, e, h, k) ↦ inr (i, v, e, h, k, dmap_get_value_lem vals map i v d h)
    ]),
  )

  -- In a sound double map, let an index below the capacity hold no value, and let no stored value
  -- have the first key or the second key of a new one. Then `dmap_put` of that value at that
  -- index does not fault, and the map is a sound one of the same capacity with the same values
  -- and the new one at the index.
  pub dmap_put_lem :
      (vals : Array (Option V)) (map : DoubleMap K1 K2 V) (v : V) (i : ℕ)
      → IsDouble vals map
      → i < map.capacity
      → vals i ≡ none
      → IsFree ops.extract_a vals (ops.extract_a v)
      → IsFree ops.extract_b vals (ops.extract_b v)
      → (map' : DoubleMap K1 K2 V) × (dmap_put ops map v i ≡ some map')
        × (map'.capacity ≡ map.capacity)
        × IsDouble (write vals i (some v)) map'
  unfolding dmap_put
  dmap_put_lem vals map v i d l unused free_a free_b =
      let more =
        count_add map.capacity (λ j. is_some (vals j)) (λ j. is_some (write vals i (some v) j)) i l
          (ground (arith, unused)) (λ j m ne. ground arith) in
      let full = count-le map.capacity (λ j. is_some (write vals i (some v) j)) in
      let space : map.n_vals + 1 ≡ count map.capacity (λ j. is_some (write vals i (some v) j)) =
        ground (arith, more, d.counted) in
      let small : map.n_vals < map.keys_capacity = omega (arith, d.room) in
      let (ta, ea, sa) =
        put-IsSide ops.extract_a vals map.keys_capacity map.n_vals i v map.table_a d.side_a unused
          free_a small in
      let (tb, eb, sb) =
        put-IsSide ops.extract_b vals map.keys_capacity map.n_vals i v map.table_b d.side_b unused
          free_b small in
      let next : inc32 map.n_vals ≡ map.n_vals + 1 = omega (arith, d.side_a.cap.small) in
      let values' = write map.values i (ops.value_copy v) in
      let copied : values' i ≡ v = ground (arith, ops.value_copy_lem v) in
      (
        record {
          table_a = ta;
          table_b = tb;
          values = values';
          n_vals = inc32 map.n_vals;
          capacity = map.capacity;
          keys_capacity = map.keys_capacity;
        },
        rw (copied, ea, eb) refl,
        refl,
        record {
          side_a = rw next sa;
          side_b = rw next sb;
          held = λ j w h. elim (Bool-cases (i == j)) [
            | inl same ↦ rw same (ops.value_copy_lem v ∙ some-injective _ _ (rw same at h))
            | inr other ↦ rw other (d.held j w (rw other at h))
          ];
          in_range = λ j w h. ground (arith, h, l, d.in_range j w);
          counted = next ∙ space;
          room = d.room;
        },
      )

  -- Erasing an index that holds a value from a sound double map leaves a sound one of the same
  -- capacity, with no value at the index and the other values as they were.
  pub dmap_erase_lem :
      (vals : Array (Option V)) (map : DoubleMap K1 K2 V) (v : V) (i : ℕ)
      → IsDouble vals map
      → vals i ≡ some v
      → (((dmap_erase ops map i).capacity) ≡ map.capacity)
        × IsDouble (write vals i none) (dmap_erase ops map i)
  unfolding dmap_erase
  dmap_erase_lem vals map v i d h =
      let less =
        count_add map.capacity (λ j. is_some (write vals i none j)) (λ j. is_some (vals j)) i
          (d.in_range i v h) (ground arith) (λ j m ne. ground arith) in
      let fewer : map.n_vals - 1 ≡ count map.capacity (λ j. is_some (write vals i none j)) =
        ground (arith, less, d.counted, h) in
      let next : dec32 map.n_vals ≡ map.n_vals - 1 = ground (
        arith,
        less,
        d.counted,
        h,
        d.side_a.cap.small,
        d.room,
        count-le map.capacity (λ j. is_some (vals j)),
      ) in
      let here = d.held i v h in
      (
        refl,
        record {
          side_a =
              rw (here, next)
                (erase-IsSide ops.extract_a vals map.keys_capacity map.n_vals i v map.table_a
                  d.side_a h);
          side_b =
              rw (here, next)
                (erase-IsSide ops.extract_b vals map.keys_capacity map.n_vals i v map.table_b
                  d.side_b h);
          held = λ j w f. elim (Bool-cases (i == j)) [
            | inl same ↦ absurd (ground arith)
            | inr other ↦ rw other (d.held j w (rw other at f))
          ];
          in_range = λ j w f. ground (arith, f, d.in_range j w);
          counted = next ∙ fewer;
          room = d.room;
        },
      )
