-- ===== src/Tests/Maps.antt =====
-- The map with room for four keys.
use vigor.Prelude.{ℕ, ◌≡◌, refl, sym, ap, subst, true, none, some, List, [], ◌∷◌}
use vigor.Map.Dict.{Dict, empty, update}
use vigor.Map.Dict
use vigor.Map.{Map, Memory, set_up, map_allocate, map_put}
use vigor.Map.Refine.{Models, map_allocate_lem, map_put-Models}
use vigor.Map.Run.{
  Op, Reply, get, put, erase, size, value, done, trash, number, run, run_dict, run_refines,
}
use vigor.Tests.Keys.{number_keys, build, dirt, four, or_else}

abbrev memory : Memory ℕ
memory = record {
  has_struct = true;
  bbs_alloc = some dirt.busybits;
  keyps_alloc = some dirt.keyps;
  khs_alloc = some dirt.khs;
  chns_alloc = some dirt.chns;
  vals_alloc = some dirt.vals;
}

-- What stands for the result of a call that fails.
abbrev pub no_map : Map ℕ
no_map = record { table = dirt; capacity = 0; size = 0 }

unfoldable pub m0 : Map ℕ
m0 = or_else no_map (map_allocate memory 4)

pub m0-Models : Models empty m0
unfolding m0
m0-Models =
    let (m, e, _, r) = map_allocate_lem memory 4 {t = dirt} refl refl four in
    subst (Models empty) (sym (ap (or_else no_map) e)) r

-- The partial function that leads from 5 to 70 alone.
abbrev d1 : Dict ℕ
d1 = record { read = update (λ _. none) 5 (some 70); size = 1 }

m1 : Map ℕ
m1 = or_else no_map (map_put m0 5 70)

m1-Models : Models d1 m1
unfolding m1 m0 Dict.put map_allocate set_up
m1-Models =
    let (m, e, _, r) = map_put-Models empty d1 m0 5 70 m0-Models refl in
    subst (Models d1) (sym (ap (or_else no_map) e)) r

-- What is left of it without 5.
abbrev d2 : Dict ℕ
d2 = record { read = update d1.read 5 none; size = 0 }

-- 9 starts its probe where 5 does; a second put of 5 is outside the contract until 5 is erased.
abbrev calls : List (Op ℕ)
calls = put 5 70 ∷ put 9 90 ∷ get 9 ∷ erase 5 ∷ get 5 ∷ get 9 ∷ put 5 71 ∷ get 5 ∷ size ∷ []

abbrev replies : List (Reply ℕ)
replies =
    done
    ∷ done
    ∷ value (some 90)
    ∷ trash (some 5)
    ∷ value none
    ∷ value (some 90)
    ∷ done
    ∷ value (some 71)
    ∷ number 2
    ∷ []

run_refines_example : run m0 calls ≡ some replies
unfolding run_dict Dict.put Dict.erase m0 map_allocate set_up
run_refines_example = run_refines calls empty m0 m0-Models refl
