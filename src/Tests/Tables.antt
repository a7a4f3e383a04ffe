-- ===== src/Tests/Tables.antt =====
-- The hash table: keys 5 and 9 start their probes at the same slot of four.
use vigor.Prelude.{ℕ, ◌+◌, ◌≡◌, refl, sym, ap, subst, none, some, arith, if◌then◌else◌, ◌==◌}
use vigor.Prelude.Counting.{count}
use vigor.MapImpl.Inv.{IsValid, scan, lookup, busy_count}
use vigor.MapImpl.Loop.{loop_mod, loop_pow2, loop_pow2_lem, is_pow2}
use vigor.MapImpl.Find.{find_key-scan}
use vigor.MapImpl.Put.{map_impl_put_lem}
use vigor.MapImpl.Erase.{Erased, map_impl_erase_lem}
use vigor.MapImpl.Rest.{map_impl_init_lem}
use vigor.MapImpl.{
  Table, find_key, find_from, find_key_remove_chain, remove_from, size_from, map_impl_init,
  map_impl_put, map_impl_erase, map_impl_size, find_empty, find_empty_from, fill, clear_from,
}
use vigor.Tests.Keys.{number_keys, build, dirt, four, or_else}

loop_pow2_lem_example : loop_pow2 4294967295 8 ≡ 7
unfolding is_pow2
loop_pow2_lem_example = loop_pow2_lem 4294967295 8 (omega arith) (omega arith) refl

abbrev pub fresh : Table ℕ
fresh = map_impl_init dirt 4

abbrev pub fresh-IsValid : IsValid 4 fresh
fresh-IsValid = (map_impl_init_lem dirt 4).0

abbrev pub one : Table ℕ
one = or_else fresh (map_impl_put fresh 5 5 70 4)

-- What the theorem on a put gives of the table that the put returns.
stored-IsValid :
    (t : Table ℕ) (k v : ℕ)
    → IsValid 4 t
    → scan t k 4 ≡ none
    → busy_count 4 t ≡ 0
    → IsValid 4 (or_else fresh (map_impl_put t k (number_keys.khash k) v 4))
stored-IsValid t k v valid absent empty =
    let (t', e, valid', _, _) = map_impl_put_lem t k v four valid absent (omega (arith, empty)) in
    subst (IsValid 4) (sym (ap (or_else fresh) e)) valid'

one-IsValid : IsValid 4 one
one-IsValid =
    let (_, absent, empty) = map_impl_init_lem dirt 4 in
    stored-IsValid fresh 5 70 fresh-IsValid (absent 5) empty

map_impl_put_lem_example :
    (t' : Table ℕ) × (map_impl_put one 9 9 90 4 ≡ some t')
    × IsValid 4 t'
    × ((q : ℕ) → lookup 4 t' q ≡ (if 9 == q then some 90 else lookup 4 one q))
    × (busy_count 4 t' ≡ busy_count 4 one + 1)
unfolding scan map_impl_put find_empty find_empty_from fill clear_from map_impl_init loop_mod count
map_impl_put_lem_example = map_impl_put_lem one 9 90 four one-IsValid refl (omega arith)

find_key-scan_example : find_key one 5 5 4 ≡ scan one 5 4
find_key-scan_example = find_key-scan four one 5 one-IsValid

map_impl_erase_lem_example : Erased 4 one 5 (map_impl_erase one 5 5 4)
unfolding scan map_impl_put find_empty find_empty_from fill clear_from map_impl_init loop_mod
map_impl_erase_lem_example = map_impl_erase_lem one 5 {j = 1} four one-IsValid refl

-- Key 9 goes to the slot behind key 5 and is found there; after key 5 has left it is still found.
two : Table ℕ
two = or_else fresh (map_impl_put one 9 9 90 4)

run_of_puts :
    (find_key two 5 5 4 ≡ some 1)
    × (find_key two 9 9 4 ≡ some 2)
    × (find_key two 13 13 4 ≡ none)
    × (find_key (map_impl_erase two 5 5 4).0 9 9 4 ≡ some 2)
    × (map_impl_size two 4 ≡ 2)
unfolding two map_impl_put find_empty find_empty_from fill clear_from map_impl_init loop_mod
    find_key find_from map_impl_erase map_impl_size find_key_remove_chain remove_from size_from
run_of_puts = (refl, refl, refl, refl, refl)
