-- ===== src/Tests/Expiry.antt =====
-- An item table for three items: item 0 has the key 5 and item 1 the key 9.
use vigor.Prelude.{ℕ, ◌≡◌, ◌∙◌, refl, sym, ap, subst, none, some, arith, if◌then◌else◌, ◌==◌}
use vigor.Prelude.Int.{pos, negsuc}
use vigor.Map.Dict.{Dict, empty, update}
use vigor.Map.Dict
use vigor.Map.{Map, set_up, map_allocate, map_put}
use vigor.Map.Refine.{Models, map_put-Models}
use vigor.Expirator.{Items, expire_items_single_map}
use vigor.Expirator.Coherent.{IsTable}
use vigor.Expirator.Expire.{expire_items_single_map-recent}
use vigor.DoubleChain.Entries.{recent}
use vigor.Tests.Keys.{number_keys, build, or_else}
use vigor.Tests.Maps.{no_map, m0, m0-Models}
use vigor.Tests.Chains.{entries, chain, chain-Models}

abbrev d1 : Dict ℕ
d1 = record { read = update (λ _. none) 5 (some 0); size = 1 }

abbrev d2 : Dict ℕ
d2 = record { read = update d1.read 9 (some 1); size = 2 }

m1 : Map ℕ
m1 = or_else no_map (map_put m0 5 0)

m1-Models : (m1.capacity ≡ 4) × Models d1 m1
unfolding m1 m0 Dict.put map_allocate set_up
m1-Models =
    let (m, e, c, r) = map_put-Models empty d1 m0 5 0 m0-Models refl in
    subst (λ m. (m.capacity ≡ 4) × Models d1 m) (sym (ap (or_else no_map) e)) (c, r)

m2 : Map ℕ
m2 = or_else no_map (map_put m1 9 1)

m2-both : (m2.capacity ≡ 4) × Models d2 m2
unfolding m2 Dict.put
m2-both =
    let (m, e, c, r) = map_put-Models d1 d2 m1 9 1 m1-Models.1 (rw m1-Models.0 refl) in
    subst (λ m. (m.capacity ≡ 4) × Models d2 m) (sym (ap (or_else no_map) e)) (c ∙ m1-Models.0, r)

m2-Models : Models d2 m2
m2-Models = m2-both.1

m2-capacity : m2.capacity ≡ 4
m2-capacity = m2-both.0

abbrev items : Items ℕ
items = record {
  chain = chain;
  vector = record { items = λ i. if i == 0 then 5 else 9; capacity = 3 };
  map = m2;
}

items-IsTable : IsTable 3 entries d2 items
items-IsTable = record {
  room = omega arith;
  few = omega arith;
  map_room = omega (arith, m2-capacity);
  chain = chain-Models;
  map = m2-Models;
  coherent = record {
    present = λ i h. ground (arith, h);
    stored = λ k i h. ground (arith, h);
    sized = refl;
  };
}

expire_items_single_map-recent_example :
    (d' : Dict ℕ) × (out : Items ℕ) × (expire_items_single_map items (pos 15) ≡ some (1, out))
    × IsTable 3 (recent (pos 15) entries) d' out
    × (out.vector ≡ items.vector)
unfolding recent
expire_items_single_map-recent_example =
    expire_items_single_map-recent entries 3 (pos 15) (negsuc 0) d2 items items-IsTable
      (omega arith, (omega arith, tt))
