-- ===== src/Bridge.antt =====
-- vigbridge/bridge_main.c: a bridge that learns which device an Ethernet address is behind.
pub mod Learn
pub mod Process
use vigor.Prelude.{ℕ, ◌%◌, ◌==◌, Bool, true, false, Option, none, some, if◌then◌else◌}
use vigor.Prelude.Int.{ℤ, pos}
use vigor.Prelude.Time.{last_time}
use vigor.MapImpl.Interface.{KeyOps, Build}
use vigor.DoubleChain.{DoubleChain, dchain_allocate_new_index, dchain_rejuvenate_index}
use vigor.Vector.{Vector, vector_borrow, vector_return}
use vigor.Map.{Map, map_get, map_put}
use vigor.Expirator.{Items, expire_items_single_map}
use vigor.Ether.{EtherAddr}

-- `struct StaticKey`
pub record StaticKey : Type 0 where
  pub addr : EtherAddr
  pub device : ℕ

-- `struct DynamicValue`
pub record DynamicValue : Type 0 where
  pub device : ℕ

-- `mac_tables`, with `expiration_time` of `struct nf_config`: `dyn_heap`, `dyn_keys` and `dyn_map`
-- are the items.
pub record Bridge : Type 0 where
  pub items : Items EtherAddr
  pub dyn_vals : Vector DynamicValue
  pub st_map : Map StaticKey
  pub expiration_time : ℕ

-- An `int` is its 32 bits: -1 and -2.
abbrev pub minus_one : ℕ
minus_one = 4294967295

abbrev pub minus_two : ℕ
minus_two = 4294967294

-- `FLOOD_FRAME`
abbrev pub flood_frame : ℕ
flood_frame = 65535

module _ ⦃ops : KeyOps EtherAddr⦄ ⦃build : Build⦄ where
  unfoldable pub with_items : Bridge → Option (ℕ × Items EtherAddr) → Option Bridge
  with_items b none = none
  with_items b (some (count, items)) = some (record b { items = items })

  unfoldable pub bridge_expire_entries : Bridge → (time : ℕ) → Option Bridge
  bridge_expire_entries b time =
      with_items b (expire_items_single_map b.items (last_time time b.expiration_time))

  -- `map_put` and the two vectors; `none` is its fault.
  unfoldable pub record_entry :
      Bridge
      → EtherAddr
      → (src_device index : ℕ) → DoubleChain
      → Option (Map EtherAddr)
      → Option Bridge
  record_entry b src src_device index chain none = none
  record_entry b src src_device index chain (some stored) = some (record b {
    items = record { chain = chain; vector = vector_return b.items.vector index src; map = stored };
    dyn_vals = vector_return b.dyn_vals index (record { device = src_device });
  })

  unfoldable pub admit_entry :
      Bridge → EtherAddr → (src_device : ℕ) → Option ℕ × DoubleChain → Option Bridge
  admit_entry b src src_device (none, chain) =
      some (record b { items = record b.items { chain = chain } })
  admit_entry b src src_device (some index, chain) =
      record_entry b src src_device index chain (map_put b.items.map src index)

  -- The part behind `map_get`.
  unfoldable pub refresh_or_learn :
      Bridge → EtherAddr → (src_device : ℕ) → ℤ → Option ℕ → Option Bridge
  refresh_or_learn b src src_device time none =
      admit_entry b src src_device (dchain_allocate_new_index b.items.chain time)
  refresh_or_learn b src src_device time (some index) = some (record b {
    items = record b.items { chain = (dchain_rejuvenate_index b.items.chain index time).1 };
  })

  unfoldable pub bridge_put_update_entry :
      Bridge → (src : EtherAddr) → (src_device : ℕ) → ℤ → Option Bridge
  bridge_put_update_entry b src src_device time =
      refresh_or_learn b src src_device time (map_get b.items.map src)

  -- The part behind the lookup in `dyn_map`, with `dyn_vals` as it is left.
  unfoldable pub device_of_index : Bridge → Option ℕ → ℕ × Bridge
  device_of_index b none = (minus_one, b)
  device_of_index b (some index) =
      let value = vector_borrow b.dyn_vals index in
      (value.device, record b { dyn_vals = vector_return b.dyn_vals index value })

  unfoldable pub device_or_dynamic : Bridge → (dst : EtherAddr) → Option ℕ → ℕ × Bridge
  device_or_dynamic b dst (some device) = (device, b)
  device_or_dynamic b dst none = device_of_index b (map_get b.items.map dst)

module _ ⦃ops : KeyOps EtherAddr⦄ ⦃static_ops : KeyOps StaticKey⦄ ⦃build : Build⦄ where
  unfoldable pub bridge_get_device : Bridge → (dst : EtherAddr) → (src_device : ℕ) → ℕ × Bridge
  bridge_get_device b dst src_device =
      device_or_dynamic b dst (map_get b.st_map (record { addr = dst; device = src_device }))

  -- Where the frame goes by the result of `bridge_get_device`, as 32 bits again.
  unfoldable pub verdict : (device forward_to : ℕ) → ℕ
  verdict device forward_to =
      if forward_to == minus_one
      then flood_frame
      else if forward_to == minus_two
      then device
      else forward_to

  unfoldable pub forward : (device : ℕ) → (dst : EtherAddr) → Option Bridge → Option (ℕ × Bridge)
  forward device dst none = none
  forward device dst (some b) =
      let (forward_to, b') = bridge_get_device b dst device in some (verdict device forward_to, b')

  unfoldable pub learn :
      (device now : ℕ) → (src dst : EtherAddr) → Option Bridge → Option (ℕ × Bridge)
  learn device now src dst none = none
  learn device now src dst (some b) =
      forward device dst (bridge_put_update_entry b src device (pos now))

  -- The device that the frame goes to. The addresses are those of its Ethernet header.
  unfoldable pub nf_process :
      Bridge → (device now : ℕ) → (src dst : EtherAddr) → Option (ℕ × Bridge)
  nf_process b device now src dst = learn device now src dst (bridge_expire_entries b now)
