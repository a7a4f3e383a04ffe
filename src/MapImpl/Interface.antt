-- ===== src/MapImpl/Interface.antt =====
-- What map-impl.c is handed and what it is compiled with: the key functions of map-util.h, and
-- `loop` with the capacity check of `map_allocate`, which `CAPACITY_POW2` switches.
use vigor.Prelude.{ℕ, ◌*◌, ◌%◌, ◌<◌, ◌≡◌, ◌↔◌, Bool, true}

-- `map_keys_equality` and `map_key_hash`, with their contracts: equality decides the equality of
-- the values, and the hash is an `unsigned`.
pub record KeyOps {ℓ} (K : Type ℓ) : Type ℓ where
  pub keys_eq : K → K → Bool
  pub khash : K → ℕ
  pub keys_eq_iff : (a b : K) → (keys_eq a b ≡ true) ↔ (a ≡ b)
  pub khash-lt : (a : K) → khash a < 4294967296

-- `guard` is the check of `map_allocate`. 2147483647 is INT_MAX, in the contract of `loop`.
pub record Build : Type 0 where
  pub loop : ℕ → ℕ → ℕ
  pub guard : ℕ → Bool
  pub loop_lem :
      (k n : ℕ) → k < 4294967296 → 0 < n → 2 * n < 2147483647 → guard n ≡ true → loop k n ≡ k % n

-- A capacity that the build accepts.
pub record IsCapacity ⦃build : Build⦄ (n : ℕ) : Type 0 where
  pub positive : 0 < n
  pub small : 2 * n < 2147483647
  pub accepted : build.guard n ≡ true
