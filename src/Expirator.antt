-- ===== src/Expirator.antt =====
-- libvig/verified/expirator.c, `expire_items_single_map`: every item that has not been used since
-- a time leaves the chain and the map. The vector holds the keys by their index.
pub mod Coherent
pub mod Expire
pub mod Double
pub mod DoubleExpire
use vigor.Prelude.{ℕ, zero, suc, ◌+◌, Option, none, some}
use vigor.Prelude.Arrays.{inc32}
use vigor.Prelude.Int.{ℤ}
use vigor.MapImpl.Interface.{KeyOps, Build}
use vigor.DoubleChain.{DoubleChain, dchain_expire_one_index}
use vigor.Vector.{Vector, vector_borrow, vector_return}
use vigor.Map.{Map, map_erase}

-- The three objects that the functions of an item table share.
pub record Items {ℓ} (K : Type ℓ) : Type ℓ where
  pub chain : DoubleChain
  pub vector : Vector K
  pub map : Map K

-- What `map_erase` leaves in `key`.
abbrev pub or_key {ℓ} : {K : Type ℓ} → Option K → K → K
or_key none key = key
or_key (some trash) key = trash

module _ {ℓ} {K : Type ℓ} ⦃ops : KeyOps K⦄ ⦃build : Build⦄ where
  -- The body of the loop for one index: borrow its key, erase it, give it back.
  unfoldable pub forget : Items K → ℕ → DoubleChain → Items K
  forget items index chain' =
      let key = vector_borrow items.vector index in
      let (map', trash) = map_erase items.map key in
      record {
        chain = chain';
        vector = vector_return items.vector index (or_key trash key);
        map = map';
      }

  -- What the loop does after its test, with `again` for the next round.
  unfoldable pub expire_next :
      (Items K → ℕ → Option (ℕ × Items K))
      → Items K
      → ℕ
      → Option ℕ × DoubleChain
      → Option (ℕ × Items K)
  expire_next again items count (none, chain') = some (count, record items { chain = chain' })
  expire_next again items count (some index, chain') =
      again (forget items index chain') (inc32 count)

  -- The `while` loop on fuel; `none` means that the fuel ran out.
  unfoldable pub expire_from : ℕ → Items K → ℤ → ℕ → Option (ℕ × Items K)
  unfolding expire_next
  expire_from zero items time count = none
  expire_from (suc fuel) items time count =
      expire_next (λ s c. expire_from fuel s time c) items count
        (dchain_expire_one_index items.chain time)

  -- Every round frees an index, and there are as many as elements in the vector.
  pub expire_items_single_map : Items K → ℤ → Option (ℕ × Items K)
  expire_items_single_map items time = expire_from (items.vector.capacity + 1) items time 0
