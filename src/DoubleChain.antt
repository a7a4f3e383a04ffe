-- ===== src/DoubleChain.antt =====
-- libvig/verified/double-chain.c: the index allocator, with the time of last use of each index.
pub mod Entries
pub mod Refine
pub mod Expire
pub mod Order
use vigor.Prelude.{ℕ, ◌+◌, Bool, true, false, Option, none, some, if◌then◌else◌}
use vigor.Prelude.Arrays.{Array, write}
use vigor.Prelude.Int.{ℤ, ltb_ℤ}
use vigor.DoubleChainImpl
use vigor.DoubleChainImpl.{Cells}

pub record DoubleChain : Type 0 where
  pub cells : Cells
  pub timestamps : Array ℤ

-- What the three calls of `malloc` return; `none` is NULL. On NULL what was allocated is freed,
-- `*chain_out` is restored and the result is 0, here `none`.
unfoldable pub set_up : ℕ → Option Cells → Option (Array ℤ) → Option DoubleChain
set_up index_range none times = none
set_up index_range (some cells) none = none
set_up index_range (some cells) (some times) =
    some (record { cells = DoubleChainImpl.init cells index_range; timestamps = times })

unfoldable pub dchain_allocate :
    (has_struct : Bool) (cells_alloc : Option Cells) (timestamps_alloc : Option (Array ℤ))
    → ℕ
    → Option DoubleChain
unfolding set_up
dchain_allocate has_struct cells_alloc timestamps_alloc index_range =
    if has_struct then set_up index_range cells_alloc timestamps_alloc else none

unfoldable pub stamp : DoubleChain → ℤ → Option ℕ × Cells → Option ℕ × DoubleChain
stamp chain time (none, c) = (none, record chain { cells = c })
stamp chain time (some index, c) =
    (some index, record { cells = c; timestamps = write chain.timestamps index time })

-- The option is the result with what goes out through `index_out`.
unfoldable pub dchain_allocate_new_index : DoubleChain → ℤ → Option ℕ × DoubleChain
unfolding stamp
dchain_allocate_new_index chain time =
    stamp chain time (DoubleChainImpl.allocate_new_index chain.cells)

unfoldable pub restamp : DoubleChain → ℕ → ℤ → Bool × Cells → Bool × DoubleChain
restamp chain index time (true, c) =
    (true, record { cells = c; timestamps = write chain.timestamps index time })
restamp chain index time (false, c) = (false, record chain { cells = c })

unfoldable pub dchain_rejuvenate_index : DoubleChain → ℕ → ℤ → Bool × DoubleChain
unfolding restamp
dchain_rejuvenate_index chain index time =
    restamp chain index time (DoubleChainImpl.rejuvenate_index chain.cells index)

-- The index goes out only with the result 1; at the result 0 no caller reads it.
unfoldable pub expire_oldest : DoubleChain → ℤ → Option ℕ → Option ℕ × DoubleChain
expire_oldest chain time none = (none, chain)
expire_oldest chain time (some index) =
    let (rez, c) = DoubleChainImpl.free_index chain.cells index in
    if ltb_ℤ (chain.timestamps index) time
    then (if rez then some index else none, record chain { cells = c })
    else (none, chain)

unfoldable pub dchain_expire_one_index : DoubleChain → ℤ → Option ℕ × DoubleChain
unfolding expire_oldest
dchain_expire_one_index chain time =
    expire_oldest chain time (DoubleChainImpl.get_oldest_index chain.cells)

unfoldable pub dchain_is_index_allocated : DoubleChain → ℕ → Bool
dchain_is_index_allocated chain index = DoubleChainImpl.is_index_allocated chain.cells index

unfoldable pub dchain_free_index : DoubleChain → ℕ → Bool × DoubleChain
dchain_free_index chain index =
    let (rez, c) = DoubleChainImpl.free_index chain.cells index in (rez, record chain { cells = c })
