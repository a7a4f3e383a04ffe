-- ===== src/Tests/Chains.antt =====
-- An index allocator for two indices.
use vigor.Prelude.{
  ℕ, ◌≡◌, ◌<◌, refl, true, false, none, some, arith, [], ◌∷◌, ◌++◌, if◌then◌else◌, ◌==◌,
}
use vigor.Prelude.Int.{pos}
use vigor.DoubleChain.{
  DoubleChain, dchain_allocate_new_index, dchain_rejuvenate_index, dchain_expire_one_index,
}
use vigor.DoubleChain.Entries.{Entries, has, without}
use vigor.DoubleChain.Refine.{Models, dchain_rejuvenate_index_lem, dchain_allocate_new_index_lem}
use vigor.DoubleChain.Expire.{dchain_expire_one_index_lem}
use vigor.DoubleChain.{restamp, expire_oldest}
use vigor.DoubleChainImpl.{
  init, init_from, allocate_new_index, free_index, get_oldest_index, rejuvenate_index,
}
use vigor.Tests.Cells.{c1, c2, c2-Holds, full, full-Holds}

-- Index 0 was used at time 10 and index 1 at time 20.
abbrev pub entries : Entries
entries = (0, pos 10) ∷ (1, pos 20) ∷ []

abbrev pub chain : DoubleChain
chain = record { cells = c2; timestamps = λ i. if i == 0 then pos 10 else pos 20 }

pub chain-Models : Models 3 entries chain
chain-Models = record { free_cells = 4 ∷ []; holds = c2-Holds; stamped = (refl, (refl, tt)) }

abbrev full_chain : DoubleChain
full_chain = record { cells = full; timestamps = λ i. pos 10 }

full_chain-Models : Models 1 ((0, pos 10) ∷ []) full_chain
full_chain-Models = record { free_cells = []; holds = full-Holds; stamped = (refl, tt) }

dchain_rejuvenate_index_lem_example :
    ((dchain_rejuvenate_index chain 0 (pos 30)).0 ≡ true)
    × Models 3
        (without 0 entries ++ ((0, pos 30) ∷ []))
        (dchain_rejuvenate_index chain 0 (pos 30)).1
dchain_rejuvenate_index_lem_example =
    dchain_rejuvenate_index_lem chain-Models 0 (pos 30) (omega arith)

dchain_allocate_new_index_lem_example :
    (i : ℕ) × (chain' : DoubleChain) × (dchain_allocate_new_index chain (pos 30) ≡ (some i, chain'))
    × (i < 3)
    × (has i entries ≡ false)
    × Models 3 (entries ++ ((i, pos 30) ∷ [])) chain'
dchain_allocate_new_index_lem_example =
    dchain_allocate_new_index_lem chain-Models (pos 30) (omega arith)

dchain_expire_one_index_lem_example :
    ((dchain_expire_one_index chain (pos 15)).0 ≡ some 0)
    × Models 3 ((1, pos 20) ∷ []) (dchain_expire_one_index chain (pos 15)).1
dchain_expire_one_index_lem_example = dchain_expire_one_index_lem (pos 15) entries chain-Models

-- A rejuvenated index is expired after the others, whatever its number.
run_of_calls :
    let older = (dchain_rejuvenate_index chain 0 (pos 30)).1 in
    let (first, left) = dchain_expire_one_index older (pos 25) in
    (first ≡ some 1) × ((dchain_expire_one_index left (pos 25)).0 ≡ none)
unfolding dchain_rejuvenate_index restamp dchain_expire_one_index expire_oldest c1 c2 init init_from
    allocate_new_index free_index get_oldest_index rejuvenate_index
run_of_calls = (refl, refl)
