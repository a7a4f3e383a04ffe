-- ===== src/Tests/Doubles.antt =====
-- A double map with room for three pairs of numbers, and the expiry of its items.
use vigor.Prelude.{ℕ, ◌≡◌, ◌∙◌, refl, sym, ap, subst, true, none, some, Option, ◌⊎◌, arith}
use vigor.Prelude.Arrays.{Array, write}
use vigor.Prelude.Int.{pos}
use vigor.DoubleMap.{
  ValueOps, DoubleMap, DoubleMemory, dmap_allocate, dmap_get_a, dmap_get_b, dmap_put, dmap_erase,
  dmap_get_value,
}
use vigor.DoubleMap.Side.{IsFree}
use vigor.DoubleMap.Refine.{IsDouble, dmap_allocate_lem, dmap_get_lem, dmap_put_lem, dmap_erase_lem}
use vigor.Expirator.Double.{DoubleItems, expire_items}
use vigor.Expirator.DoubleExpire.{IsPair, ItemsExpired, expire_items_lem}
use vigor.Tests.Keys.{number_keys, build, dirt, four, or_else}
use vigor.Tests.Chains.{entries, chain, chain-Models}

-- The keys of a pair are its two numbers.
abbrev pair_ops : ValueOps ℕ ℕ (ℕ × ℕ)
pair_ops = record {
  value_copy = λ v. v;
  extract_a = λ v. v.0;
  extract_b = λ v. v.1;
  value_destroy = λ v. (99, 99);
  value_copy_lem = λ v. refl;
}

abbrev memory : DoubleMemory ℕ ℕ (ℕ × ℕ)
memory = record {
  has_struct = true;
  vals_alloc = some (λ _. (7, 7));
  bbs_a_alloc = some dirt.busybits;
  kps_a_alloc = some dirt.keyps;
  khs_a_alloc = some dirt.khs;
  chns_a_alloc = some dirt.chns;
  inds_a_alloc = some dirt.vals;
  bbs_b_alloc = some dirt.busybits;
  kps_b_alloc = some dirt.keyps;
  khs_b_alloc = some dirt.khs;
  inds_b_alloc = some dirt.vals;
  chns_b_alloc = some dirt.chns;
}

abbrev no_double : DoubleMap ℕ ℕ (ℕ × ℕ)
no_double = record {
  table_a = dirt;
  table_b = dirt;
  values = λ _. (7, 7);
  n_vals = 0;
  capacity = 0;
  keys_capacity = 0;
}

p0 : DoubleMap ℕ ℕ (ℕ × ℕ)
p0 = or_else no_double (dmap_allocate memory 3 4)

p0-IsDouble : (p0.capacity ≡ 3) × IsDouble pair_ops (λ _. none) p0
unfolding p0
p0-IsDouble =
    let (map, e, c, d) =
      dmap_allocate_lem pair_ops memory 3 4 (λ _. (7, 7)) dirt dirt refl refl refl refl four
        (omega arith) in
    subst (λ m. (m.capacity ≡ 3) × IsDouble pair_ops (λ _. none) m) (sym (ap (or_else no_double) e))
      (c, d)

-- Pair (5, 50) at index 0.
abbrev vals1 : Array (Option (ℕ × ℕ))
vals1 = write (λ _. none) 0 (some (5, 50))

p1 : DoubleMap ℕ ℕ (ℕ × ℕ)
p1 = or_else no_double (dmap_put pair_ops p0 (5, 50) 0)

p1-IsDouble : (p1.capacity ≡ 3) × IsDouble pair_ops vals1 p1
unfolding p1
p1-IsDouble =
    let (map, e, c, d) =
      dmap_put_lem pair_ops (λ _. none) p0 (5, 50) 0 p0-IsDouble.1 (rw p0-IsDouble.0 (omega arith))
        refl (λ j w h. absurd (ground (arith, h))) (λ j w h. absurd (ground (arith, h))) in
    subst (λ m. (m.capacity ≡ 3) × IsDouble pair_ops vals1 m) (sym (ap (or_else no_double) e))
      (c ∙ p0-IsDouble.0, d)

-- Pair (9, 90) at index 1.
abbrev vals2 : Array (Option (ℕ × ℕ))
vals2 = write vals1 1 (some (9, 90))

nine-IsFree : IsFree (λ v. v.0) vals1 9
nine-IsFree j w h f =
    let e = ap (λ (o : Option (ℕ × ℕ)). (or_else (3, 3) o).0) h in ground (arith, e, f)

ninety-IsFree : IsFree (λ v. v.1) vals1 90
ninety-IsFree j w h f =
    let e = ap (λ (o : Option (ℕ × ℕ)). (or_else (3, 3) o).1) h in ground (arith, e, f)

dmap_put_lem_example :
    (map' : DoubleMap ℕ ℕ (ℕ × ℕ)) × (dmap_put pair_ops p1 (9, 90) 1 ≡ some map')
    × (map'.capacity ≡ p1.capacity)
    × IsDouble pair_ops vals2 map'
dmap_put_lem_example =
    dmap_put_lem pair_ops vals1 p1 (9, 90) 1 p1-IsDouble.1 (rw p1-IsDouble.0 (omega arith)) refl
      nine-IsFree ninety-IsFree

p2 : DoubleMap ℕ ℕ (ℕ × ℕ)
p2 = or_else no_double (dmap_put pair_ops p1 (9, 90) 1)

p2-IsDouble : (p2.capacity ≡ 3) × IsDouble pair_ops vals2 p2
unfolding p2
p2-IsDouble =
    let (map, e, c, d) =
      dmap_put_lem pair_ops vals1 p1 (9, 90) 1 p1-IsDouble.1 (rw p1-IsDouble.0 (omega arith)) refl
        nine-IsFree ninety-IsFree in
    subst (λ m. (m.capacity ≡ 3) × IsDouble pair_ops vals2 m) (sym (ap (or_else no_double) e))
      (c ∙ p1-IsDouble.0, d)

dmap_get_lem_example :
    (((dmap_get_a p2 9 ≡ none) × IsFree (λ v. v.0) vals2 9)
      ⊎ ((i : ℕ) × (v : ℕ × ℕ) × (dmap_get_a p2 9 ≡ some i)
          × (vals2 i ≡ some v)
          × (v.0 ≡ 9)
          × (dmap_get_value pair_ops p2 i ≡ v)))
    × (((dmap_get_b p2 9 ≡ none) × IsFree (λ v. v.1) vals2 9)
        ⊎ ((i : ℕ) × (v : ℕ × ℕ) × (dmap_get_b p2 9 ≡ some i)
            × (vals2 i ≡ some v)
            × (v.1 ≡ 9)
            × (dmap_get_value pair_ops p2 i ≡ v)))
dmap_get_lem_example = dmap_get_lem pair_ops vals2 p2 9 9 p2-IsDouble.1

dmap_erase_lem_example :
    ((dmap_erase pair_ops p2 0).capacity ≡ p2.capacity)
    × IsDouble pair_ops (write vals2 0 none) (dmap_erase pair_ops p2 0)
dmap_erase_lem_example = dmap_erase_lem pair_ops vals2 p2 (5, 50) 0 p2-IsDouble.1 refl

abbrev items : DoubleItems ℕ ℕ (ℕ × ℕ)
items = record { chain = chain; map = p2 }

items-IsPair : IsPair pair_ops 3 entries vals2 items
items-IsPair = record {
  room = omega (arith, p2-IsDouble.0);
  few = omega arith;
  chain = chain-Models;
  map = p2-IsDouble.1;
  agree = λ i. ground arith;
}

expire_items_lem_example :
    ItemsExpired pair_ops 3 (pos 15) 0 entries vals2 (expire_items pair_ops items (pos 15))
expire_items_lem_example = expire_items_lem pair_ops entries 3 (pos 15) vals2 items items-IsPair
