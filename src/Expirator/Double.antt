-- ===== src/Expirator/Double.antt =====
-- libvig/verified/expirator.c, `expire_items`: every item that has not been used since a time
-- leaves the chain and the double map.
use vigor.Prelude.{ℕ, zero, suc, ◌+◌, Option, none, some}
use vigor.Prelude.Arrays.{inc32}
use vigor.Prelude.Int.{ℤ}
use vigor.MapImpl.Interface.{KeyOps, Build}
use vigor.DoubleChain.{DoubleChain, dchain_expire_one_index}
use vigor.DoubleMap.{ValueOps, DoubleMap, dmap_erase}

pub record DoubleItems {ℓ} (K1 K2 V : Type ℓ) : Type ℓ where
  pub chain : DoubleChain
  pub map : DoubleMap K1 K2 V

module _ {ℓ} {K1 K2 V : Type ℓ} ⦃key1 : KeyOps K1⦄ ⦃key2 : KeyOps K2⦄ ⦃build : Build⦄
    (ops : ValueOps K1 K2 V) where
  -- What the loop does after its test, with `again` for the next round.
  unfoldable pub expire_item :
      (DoubleItems K1 K2 V → ℕ → Option (ℕ × DoubleItems K1 K2 V))
      → DoubleItems K1 K2 V
      → ℕ
      → Option ℕ × DoubleChain
      → Option (ℕ × DoubleItems K1 K2 V)
  expire_item again items count (none, chain') = some (count, record items { chain = chain' })
  expire_item again items count (some index, chain') =
      again (record { chain = chain'; map = dmap_erase ops items.map index }) (inc32 count)

  -- The `while` loop on fuel; `none` means that the fuel ran out.
  unfoldable pub expire_items_from :
      ℕ → DoubleItems K1 K2 V → ℤ → ℕ → Option (ℕ × DoubleItems K1 K2 V)
  unfolding expire_item
  expire_items_from zero items time count = none
  expire_items_from (suc fuel) items time count =
      expire_item (λ s c. expire_items_from fuel s time c) items count
        (dchain_expire_one_index items.chain time)

  -- Every round frees an index, and there are as many as values in the map.
  unfoldable pub expire_items : DoubleItems K1 K2 V → ℤ → Option (ℕ × DoubleItems K1 K2 V)
  expire_items items time = expire_items_from (items.map.capacity + 1) items time 0
