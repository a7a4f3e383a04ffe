-- ===== src/Nat.antt =====
-- vignat/nat_flowmanager.c and vignat/nat_main.c: a NAT that gives each flow from inside a port of
-- its own address, and translates what comes to that port back.
pub mod Table
pub mod External
pub mod Process
use vigor.Prelude.{
  ℕ, ◌+◌, ◌-◌, ◌%◌, ◌==◌, Bool, true, false, ◌&&◌, Option, none, some, if◌then◌else◌, ltb, leb,
}
use vigor.Prelude.Int.{ℤ, pos}
use vigor.Prelude.Time.{last_time}
use vigor.MapImpl.Interface.{KeyOps, Build}
use vigor.DoubleChain.{
  DoubleChain, dchain_allocate_new_index, dchain_rejuvenate_index, dchain_is_index_allocated,
}
use vigor.Vector.{Vector, vector_borrow, vector_return}
use vigor.Map.{Map, map_get, map_put}
use vigor.Expirator.{Items, expire_items_single_map}
use vigor.Packet.{Ipv4Hdr, TcpudpHdr}

-- `struct FlowId`
pub record FlowId : Type 0 where
  pub src_port : ℕ
  pub dst_port : ℕ
  pub src_ip : ℕ
  pub dst_ip : ℕ
  pub internal_device : ℕ
  pub protocol : ℕ

-- `struct FlowManager` with its `struct State`.
pub record FlowManager : Type 0 where
  pub items : Items FlowId
  pub start_port : ℕ
  pub expiration_time : ℕ

-- What `nf_process` reads of `struct nf_config`.
pub record Config : Type 0 where
  pub wan_device : ℕ
  pub external_addr : ℕ

-- Where the packet goes, and its headers then.
pub record Sent : Type 0 where
  pub device : ℕ
  pub ip : Ipv4Hdr
  pub ports : TcpudpHdr

abbrev pub with_chain : FlowManager → DoubleChain → FlowManager
with_chain manager chain = record manager { items = record manager.items { chain = chain } }

-- `index + start_port` in 16 bits.
abbrev pub port_at : FlowManager → ℕ → ℕ
port_at manager index = (manager.start_port + index) % 65536

-- The identifier of the flow of a packet from inside.
abbrev pub flow_of : (device : ℕ) → Ipv4Hdr → TcpudpHdr → FlowId
flow_of device ip ports = record {
  src_port = ports.src_port;
  dst_port = ports.dst_port;
  src_ip = ip.src_addr;
  dst_ip = ip.dst_addr;
  internal_device = device;
  protocol = ip.next_proto_id;
}

-- Whether a packet from outside is from the other end of the flow.
unfoldable pub answers : FlowId → Ipv4Hdr → TcpudpHdr → Bool
answers flow ip ports =
    flow.dst_ip == ip.src_addr
    && flow.dst_port == ports.src_port
    && flow.protocol == ip.next_proto_id

module _ ⦃ops : KeyOps FlowId⦄ ⦃build : Build⦄ where
  -- `none` is the fault of `map_put`.
  unfoldable pub record_flow :
      FlowManager
      → FlowId
      → (index : ℕ) → DoubleChain
      → Option (Map FlowId)
      → Option (Option ℕ × FlowManager)
  record_flow manager id index chain none = none
  record_flow manager id index chain (some stored) = some (
    some (port_at manager index),
    record manager {
      items = record {
        chain = chain;
        vector = vector_return manager.items.vector index id;
        map = stored;
      };
    },
  )

  unfoldable pub admit_flow :
      FlowManager → FlowId → Option ℕ × DoubleChain → Option (Option ℕ × FlowManager)
  admit_flow manager id (none, chain) = some (none, with_chain manager chain)
  admit_flow manager id (some index, chain) =
      record_flow manager id index chain (map_put manager.items.map id index)

  -- The inner option is the result with what goes out through `external_port`.
  unfoldable pub flow_manager_allocate_flow :
      FlowManager → FlowId → ℤ → Option (Option ℕ × FlowManager)
  flow_manager_allocate_flow manager id time =
      admit_flow manager id (dchain_allocate_new_index manager.items.chain time)

  unfoldable pub with_items : FlowManager → Option (ℕ × Items FlowId) → Option FlowManager
  with_items manager none = none
  with_items manager (some (count, items)) = some (record manager { items = items })

  unfoldable pub flow_manager_expire : FlowManager → ℕ → Option FlowManager
  flow_manager_expire manager time =
      with_items manager
        (expire_items_single_map manager.items (last_time time manager.expiration_time))

  unfoldable pub port_of_known : FlowManager → ℤ → Option ℕ → Option ℕ × FlowManager
  port_of_known manager time none = (none, manager)
  port_of_known manager time (some index) = (
    some (port_at manager index),
    with_chain manager (dchain_rejuvenate_index manager.items.chain index time).1,
  )

  -- The option is the result with what goes out through `external_port`.
  unfoldable pub flow_manager_get_internal : FlowManager → FlowId → ℤ → Option ℕ × FlowManager
  flow_manager_get_internal manager id time =
      port_of_known manager time (map_get manager.items.map id)

  -- The part behind the subtraction, with an index in range.
  unfoldable pub flow_at : FlowManager → (index : ℕ) → ℤ → Option FlowId × FlowManager
  flow_at manager index time =
      if dchain_is_index_allocated manager.items.chain index
      then (
        some (vector_borrow manager.items.vector index),
        record manager {
          items = record manager.items {
            chain = (dchain_rejuvenate_index manager.items.chain index time).1;
            vector =
                vector_return manager.items.vector index (vector_borrow manager.items.vector index);
          };
        },
      )
      else (none, manager)

  -- `none` is an access outside the arrays, which the code does not exclude: the port comes from
  -- the packet. The inner option is the result with what goes out through `out_flow`.
  unfoldable pub flow_manager_get_external :
      FlowManager → (external_port : ℕ) → ℤ → Option (Option FlowId × FlowManager)
  flow_manager_get_external manager external_port time =
      if leb manager.start_port external_port
        && ltb (external_port - manager.start_port) manager.items.vector.capacity
      then some (flow_at manager (external_port - manager.start_port) time)
      else none

  -- A packet from outside, by what `flow_manager_get_external` returns.
  unfoldable pub translate_back :
      (device : ℕ)
      → Ipv4Hdr
      → TcpudpHdr
      → Option (Option FlowId × FlowManager)
      → Option (Sent × FlowManager)
  translate_back device ip ports none = none
  translate_back device ip ports (some (none, manager)) =
      some (record { device = device; ip = ip; ports = ports }, manager)
  translate_back device ip ports (some (some flow, manager)) =
      if answers flow ip ports
      then some (
        record {
          device = flow.internal_device;
          ip = record ip { dst_addr = flow.src_ip };
          ports = record ports { dst_port = flow.src_port };
        },
        manager,
      )
      else some (record { device = device; ip = ip; ports = ports }, manager)

  -- A packet from inside with the port of its flow, or without one.
  unfoldable pub translate :
      Config
      → (device : ℕ) → Ipv4Hdr
      → TcpudpHdr
      → Option (Option ℕ × FlowManager)
      → Option (Sent × FlowManager)
  translate config device ip ports none = none
  translate config device ip ports (some (none, manager)) =
      some (record { device = device; ip = ip; ports = ports }, manager)
  translate config device ip ports (some (some external_port, manager)) = some (
    record {
      device = config.wan_device;
      ip = record ip { src_addr = config.external_addr };
      ports = record ports { src_port = external_port };
    },
    manager,
  )

  -- A flow that has no port yet gets one.
  unfoldable pub or_allocate : FlowId → ℤ → Option ℕ × FlowManager → Option (Option ℕ × FlowManager)
  or_allocate id time (none, manager) = flow_manager_allocate_flow manager id time
  or_allocate id time (some external_port, manager) = some (some external_port, manager)

  -- The part behind `flow_manager_expire`, for a packet with both headers.
  unfoldable pub forward :
      Config
      → (device now : ℕ) → Ipv4Hdr
      → TcpudpHdr
      → Option FlowManager
      → Option (Sent × FlowManager)
  forward config device now ip ports none = none
  forward config device now ip ports (some manager) =
      let id = flow_of device ip ports in
      if device == config.wan_device
      then translate_back device ip ports
          (flow_manager_get_external manager ports.dst_port (pos now))
      else translate config device ip ports
          (or_allocate id (pos now) (flow_manager_get_internal manager id (pos now)))

  -- For a packet with both headers; without one it is dropped after the expiry. The MAC addresses
  -- and the checksum that the function sets then are left out. A dropped packet goes to the device
  -- that it came from.
  unfoldable pub nf_process :
      Config → FlowManager → (device now : ℕ) → Ipv4Hdr → TcpudpHdr → Option (Sent × FlowManager)
  nf_process config manager device now ip ports =
      forward config device now ip ports (flow_manager_expire manager now)
