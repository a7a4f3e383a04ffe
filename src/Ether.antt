-- ===== src/Ether.antt =====
-- libvig/verified/ether.c: Ethernet addresses as keys of a map.
use vigor.Prelude.{ℕ, ◌<◌, ◌≡◌, ◌↔◌, ◌==◌, Bool, true, ◌&&◌, arith}
use vigor.MapImpl.Interface.{KeyOps}

-- `struct rte_ether_addr`, by its array of six bytes.
pub record EtherAddr : Type 0 where
  pub byte0 : ℕ
  pub byte1 : ℕ
  pub byte2 : ℕ
  pub byte3 : ℕ
  pub byte4 : ℕ
  pub byte5 : ℕ

unfoldable pub rte_ether_addr_eq : EtherAddr → EtherAddr → Bool
rte_ether_addr_eq a b =
    a.byte0 == b.byte0
    && a.byte1 == b.byte1
    && a.byte2 == b.byte2
    && a.byte3 == b.byte3
    && a.byte4 == b.byte4
    && a.byte5 == b.byte5

abbrev pub rte_ether_addr_allocate : EtherAddr
rte_ether_addr_allocate = record {
  byte0 = 0;
  byte1 = 0;
  byte2 = 0;
  byte3 = 0;
  byte4 = 0;
  byte5 = 0;
}

rte_ether_addr_eq_iff : (a b : EtherAddr) → (rte_ether_addr_eq a b ≡ true) ↔ (a ≡ b)
unfolding rte_ether_addr_eq
rte_ether_addr_eq_iff a b = ground arith

-- `crc32` is the instruction behind `__builtin_ia32_crc32si`, which returns an `unsigned`.
module _ (crc32 : ℕ → ℕ → ℕ) (crc32-lt : (hash byte : ℕ) → crc32 hash byte < 4294967296) where
  unfoldable pub rte_ether_addr_hash : EtherAddr → ℕ
  rte_ether_addr_hash a =
      crc32 (crc32 (crc32 (crc32 (crc32 (crc32 0 a.byte0) a.byte1) a.byte2) a.byte3) a.byte4)
        a.byte5

  rte_ether_addr_hash-lt : (a : EtherAddr) → rte_ether_addr_hash a < 4294967296
  unfolding rte_ether_addr_hash
  rte_ether_addr_hash-lt a = crc32-lt _ a.byte5

  -- The two functions keep the contract of a map's keys.
  pub ether_keys : KeyOps EtherAddr
  ether_keys = record {
    keys_eq = rte_ether_addr_eq;
    khash = rte_ether_addr_hash;
    keys_eq_iff = rte_ether_addr_eq_iff;
    khash-lt = rte_ether_addr_hash-lt;
  }
