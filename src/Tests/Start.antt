-- ===== src/Tests/Start.antt =====
-- An item table with room for three items and nothing in it, for any type of key.
use vigor.Prelude.{ℕ, ◌≡◌, refl, none, arith, [], ◌∷◌}
use vigor.Prelude.Int.{pos}
use vigor.MapImpl.{Table, map_impl_init}
use vigor.MapImpl.Inv.{lookup-none}
use vigor.MapImpl.Rest.{map_impl_init_lem}
use vigor.MapImpl.Interface.{KeyOps}
use vigor.Map.{Map}
use vigor.Map.Dict.{empty}
use vigor.Map.Refine.{Models}
use vigor.DoubleChainImpl.{init}
use vigor.Expirator.{Items}
use vigor.Expirator.Coherent.{IsCoherent}
use vigor.ItemTable
use vigor.ItemTable.{IsItemTable, live-known}
use vigor.Tests.Keys.{build, four}
use vigor.Tests.Cells.{dirt, c0-Holds}

module _ {K : Type 0} ⦃ops : KeyOps K⦄ (memory : Table K) where
  abbrev pub empty_map : Map K
  empty_map = record { table = map_impl_init memory 4; capacity = 4; size = 0 }

  pub empty_map-Models : Models empty empty_map
  empty_map-Models =
      let (valid, absent, busy) = map_impl_init_lem memory 4 in
      record {
        cap = four;
        valid = valid;
        size = refl;
        busy = busy;
        reads = λ k. lookup-none 4 _ k (absent k);
      }

  abbrev pub no_items : Items K
  no_items = record {
    chain = record { cells = init dirt 3; timestamps = λ _. pos 0 };
    vector = record { items = memory.keyps; capacity = 3 };
    map = empty_map;
  }

  pub no_items-IsCoherent : IsCoherent [] memory.keyps empty
  no_items-IsCoherent = record {
    present = λ i h. ground (arith, h);
    stored = λ k i h. ground (arith, h);
    sized = refl;
  }

  abbrev pub no_items-IsItemTable : IsItemTable 3 5 no_items
  no_items-IsItemTable = record {
    entries = [];
    dict = empty;
    table = record {
      room = omega arith;
      few = omega arith;
      map_room = omega arith;
      chain = record { free_cells = 2 ∷ 3 ∷ 4 ∷ []; holds = c0-Holds; stamped = tt };
      map = empty_map-Models;
      coherent = no_items-IsCoherent;
    };
    sorted = tt;
    until = tt;
  }

  pub nothing_lives :
      {V : Type 0} (values : ℕ → V) (k : K) → ItemTable.live values no_items k ≡ none
  nothing_lives values k = live-known values no_items-IsItemTable k
