-- ===== src/Expirator/Coherent.antt =====
-- The invariant of an item table: the map leads exactly from the keys of the allocated indices to
-- their indices.
use vigor.Prelude.{ℕ, ◌-◌, ◌<◌, ◌≤◌, ◌≡◌, true, arith, none, some, ◌∷◌}
use vigor.Prelude.Arrays.{Array}
use vigor.Prelude.Int.{ℤ}
use vigor.Prelude.Lists.{length, Distinct}
use vigor.MapImpl.Interface.{KeyOps, Build}
use vigor.DoubleChain.Entries.{Entries, has, slots, elem-slots}
use vigor.DoubleChain.Refine.{Models as ChainModels}
use vigor.Map.Dict.{Dict, update}
use vigor.Map.Refine.{Models as MapModels}
use vigor.Expirator.{Items}

module _ {ℓ} {K : Type ℓ} ⦃ops : KeyOps K⦄ where
  -- Chain, keys and map agree.
  pub record IsCoherent (es : Entries) (keys : Array K) (d : Dict K) : Type ℓ where
    pub present : (i : ℕ) → has i es ≡ true → d.read (keys i) ≡ some i
    pub stored : (k : K) (i : ℕ) → d.read k ≡ some i → (has i es ≡ true) × (keys i ≡ k)
    pub sized : d.size ≡ length es

  -- Taking the oldest index out, and its key out of the map, keeps the table coherent.
  pub forget-IsCoherent :
      (i : ℕ) (t : ℤ) (rest : Entries) (keys : Array K) (d : Dict K)
      → Distinct (slots ((i, t) ∷ rest))
      → IsCoherent ((i, t) ∷ rest) keys d
      → IsCoherent rest keys (record { read = update d.read (keys i) none; size = d.size - 1 })
  forget-IsCoherent i t rest keys d (fresh, _) c = record {
    present = λ j h. ground (
      arith,
      c.present i,
      c.present j,
      h,
      elem-slots i rest,
      fresh,
      ops.keys_eq_iff (keys i) (keys j),
    );
    stored = λ k j h. ground (arith, h, c.stored k j, ops.keys_eq_iff (keys i) k);
    sized = omega (arith, c.sized);
  }

  module _ ⦃build : Build⦄ where
    -- The table is sound, holds the entries, and its three objects agree.
    pub record IsTable (size : ℕ) (es : Entries) (d : Dict K) (items : Items K) : Type ℓ where
      pub room : size ≤ items.vector.capacity
      pub few : size < 2147483648
      pub map_room : size ≤ items.map.capacity
      pub chain : ChainModels size es items.chain
      pub map : MapModels d items.map
      pub coherent : IsCoherent es items.vector.items d
