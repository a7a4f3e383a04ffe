-- ===== src/Policer.antt =====
-- vigpol/policer_main.c: a policer that lets a packet in from the WAN device only while the token
-- bucket of its destination has tokens for it.
pub mod Bucket
pub mod Rate
pub mod Check
pub mod Process
use vigor.Prelude.{
  ℕ, ◌+◌, ◌-◌, ◌*◌, ◌/◌, ◌%◌, ◌==◌, Bool, true, false, ◌&&◌, Option, none, some, if◌then◌else◌, ltb,
  leb,
}
use vigor.Prelude.Int.{pos}
use vigor.Prelude.Time.{before}
use vigor.MapImpl.Interface.{KeyOps, Build}
use vigor.DoubleChain.{DoubleChain, dchain_allocate_new_index, dchain_rejuvenate_index}
use vigor.Vector.{Vector, vector_borrow, vector_return}
use vigor.Map.{Map, map_get, map_put}
use vigor.Expirator.{Items, expire_items_single_map}

-- `struct ip_addr`, the key of the table
pub record IpAddr : Type 0 where
  pub addr : ℕ

-- `struct DynamicValue`. The time is written only after an assertion that it is not negative.
pub record DynamicValue : Type 0 where
  pub bucket_size : ℕ
  pub bucket_time : ℕ

-- What `nf_process` reads of `struct nf_config`.
pub record Config : Type 0 where
  pub lan_device : ℕ
  pub wan_device : ℕ
  pub rate : ℕ
  pub burst : ℕ

-- `dynamic_ft`: heap, keys and map are the items.
pub record Policer : Type 0 where
  pub items : Items IpAddr
  pub dyn_vals : Vector DynamicValue

-- `VIGOR_TIME_SECONDS_MULTIPLIER`
abbrev pub second : ℕ
second = 1000000000

-- A `uint64_t` that wraps.
abbrev pub u64 : ℕ → ℕ
u64 x = x % 18446744073709551616

-- The bucket after the tokens of the time that has passed, before the packet.
unfoldable pub refill : Config → DynamicValue → (time : ℕ) → ℕ
refill config value time =
    let time_diff = u64 (time + (18446744073709551616 - value.bucket_time)) in
    let added_tokens = u64 (time_diff * config.rate) / second in
    let size = u64 (value.bucket_size + added_tokens) in
    if ltb time_diff (u64 (config.burst * second) / config.rate)
    then (if ltb config.burst size then config.burst else size)
    else config.burst

-- The rest of the work on a bucket: the result is `fwd`.
unfoldable pub spend : (bucket_size size time : ℕ) → Bool × DynamicValue
spend bucket_size size time =
    if ltb size bucket_size
    then (true, record { bucket_size = bucket_size - size; bucket_time = time })
    else (false, record { bucket_size = bucket_size; bucket_time = time })

-- The assertions on a bucket; the second one stands in the branch that adds tokens.
unfoldable pub asserted : Config → DynamicValue → (time : ℕ) → Bool
asserted config value time =
    let time_diff = u64 (time + (18446744073709551616 - value.bucket_time)) in
    leb value.bucket_time time
    && (if ltb time_diff (u64 (config.burst * second) / config.rate)
        then leb value.bucket_size config.burst
        else true)

module _ ⦃ops : KeyOps IpAddr⦄ ⦃build : Build⦄ where
  -- The branch of a known destination. `none` is a failed assertion.
  unfoldable pub check_known : Config → Policer → (index size time : ℕ) → Option (Bool × Policer)
  check_known config p index size time =
      let value = vector_borrow p.dyn_vals index in
      let (fwd, value') = spend (refill config value time) size time in
      if asserted config value time
      then some (
        fwd,
        record {
          items = record p.items {
            chain = (dchain_rejuvenate_index p.items.chain index (pos time)).1;
          };
          dyn_vals = vector_return p.dyn_vals index value';
        },
      )
      else none

  -- `map_put` and the two vectors; `none` is its fault.
  unfoldable pub record_bucket :
      Config
      → Policer
      → IpAddr
      → (size time index : ℕ) → DoubleChain
      → Option (Map IpAddr)
      → Option (Bool × Policer)
  record_bucket config p dst size time index chain none = none
  record_bucket config p dst size time index chain (some stored) = some (
    true,
    record {
      items = record {
        chain = chain;
        vector = vector_return p.items.vector index dst;
        map = stored;
      };
      dyn_vals =
          vector_return p.dyn_vals index
            (record { bucket_size = config.burst - size; bucket_time = time });
    },
  )

  -- The part behind `dchain_allocate_new_index`.
  unfoldable pub admit_bucket :
      Config → Policer → IpAddr → (size time : ℕ) → Option ℕ × DoubleChain → Option (Bool × Policer)
  admit_bucket config p dst size time (none, chain) =
      some (false, record p { items = record p.items { chain = chain } })
  admit_bucket config p dst size time (some index, chain) =
      record_bucket config p dst size time index chain (map_put p.items.map dst index)

  -- The part behind `map_get`.
  unfoldable pub check_or_admit :
      Config → Policer → IpAddr → (size time : ℕ) → Option ℕ → Option (Bool × Policer)
  check_or_admit config p dst size time (some index) = check_known config p index size time
  check_or_admit config p dst size time none =
      if ltb config.burst size
      then some (false, p)
      else admit_bucket config p dst size time (dchain_allocate_new_index p.items.chain (pos time))

  -- `none` is a failed assertion, or the fault of `map_put` on a full map.
  unfoldable pub policer_check_tb :
      Config → Policer → IpAddr → (size time : ℕ) → Option (Bool × Policer)
  policer_check_tb config p dst size time =
      check_or_admit config p dst size time (map_get p.items.map dst)

  unfoldable pub with_items : Policer → Option (ℕ × Items IpAddr) → Option Policer
  with_items p none = none
  with_items p (some (count, items)) = some (record p { items = items })

  unfoldable pub policer_expire_entries : Config → Policer → (time : ℕ) → Option Policer
  policer_expire_entries config p time =
      with_items p (
        expire_items_single_map p.items (before time (u64 (second * (config.burst / config.rate)))))

  -- Where an incoming packet goes by the result of `policer_check_tb`.
  unfoldable pub police : Config → Option (Bool × Policer) → Option (ℕ × Policer)
  police config none = none
  police config (some (fwd, p)) = some (if fwd then config.lan_device else config.wan_device, p)

  -- The part behind `policer_expire_entries`.
  unfoldable pub forward :
      Config → (device packet_length now : ℕ) → IpAddr → Option Policer → Option (ℕ × Policer)
  forward config device packet_length now dst none = none
  forward config device packet_length now dst (some p) =
      if device == config.lan_device
      then some (config.wan_device, p)
      else if device == config.wan_device
      then police config (policer_check_tb config p dst packet_length now)
      else some (device, p)

  -- The device that the packet goes to, which is its own if it is dropped. The option is the
  -- destination in the IPv4 header, if there is one; `now` passes the assertion `time >= 0`.
  unfoldable pub nf_process :
      Config → Policer → (device packet_length now : ℕ) → Option IpAddr → Option (ℕ × Policer)
  nf_process config p device packet_length now none = some (device, p)
  nf_process config p device packet_length now (some dst) =
      forward config device packet_length now dst (policer_expire_entries config p now)
