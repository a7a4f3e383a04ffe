-- ===== src/Firewall.antt =====
-- vigfw/fw_flowmanager.c and vigfw/fw_main.c: a firewall that lets a packet in from the WAN device
-- only when it answers a live flow that a device inside has opened.
pub mod Table
pub mod Outbound
pub mod Expire
pub mod Process
pub mod History
use vigor.Prelude.{ℕ, ◌+◌, ◌-◌, ◌*◌, ◌%◌, ◌==◌, Bool, Option, none, some, if◌then◌else◌, ltb}
use vigor.Prelude.Time.{last_time}
use vigor.Prelude.Int.{ℤ, pos, negsuc}
use vigor.MapImpl.Interface.{KeyOps, Build}
use vigor.DoubleChain.{DoubleChain, dchain_allocate_new_index, dchain_rejuvenate_index}
use vigor.Vector.{Vector, vector_borrow, vector_return}
use vigor.Map.{Map, map_get, map_put}
use vigor.Packet.{Ipv4Hdr, TcpudpHdr}
use vigor.Expirator.{Items, expire_items_single_map}

-- `struct FlowId`
pub record FlowId : Type 0 where
  pub src_port : ℕ
  pub dst_port : ℕ
  pub src_ip : ℕ
  pub dst_ip : ℕ
  pub protocol : ℕ

-- `struct FlowManager` with its `struct State`: the heap, `fv` and `fm` are the items.
pub record FlowManager : Type 0 where
  pub items : Items FlowId
  pub int_devices : Vector ℕ
  pub expiration_time : ℕ

-- The manager with another heap.
abbrev pub with_chain : FlowManager → DoubleChain → FlowManager
with_chain manager chain = record manager { items = record manager.items { chain = chain } }

-- The identifier of the flow that a packet belongs to, and of the flow that it answers.
abbrev pub flow_of : Ipv4Hdr → TcpudpHdr → FlowId
flow_of ip ports = record {
  src_port = ports.src_port;
  dst_port = ports.dst_port;
  src_ip = ip.src_addr;
  dst_ip = ip.dst_addr;
  protocol = ip.next_proto_id;
}

abbrev pub reply_flow_of : Ipv4Hdr → TcpudpHdr → FlowId
reply_flow_of ip ports = record {
  src_port = ports.dst_port;
  dst_port = ports.src_port;
  src_ip = ip.dst_addr;
  dst_ip = ip.src_addr;
  protocol = ip.next_proto_id;
}

-- The `dst_device` of a packet from outside, whose 32 bits go to 16; `device` drops the packet.
unfoldable pub answer : (device : ℕ) → Option ℕ × FlowManager → ℕ × FlowManager
answer device (none, manager) = (device, manager)
answer device (some dst_device_long, manager) = (dst_device_long % 65536, manager)

unfoldable pub let_out : (wan_device : ℕ) → Option FlowManager → Option (ℕ × FlowManager)
let_out wan_device none = none
let_out wan_device (some manager) = some (wan_device, manager)

module _ ⦃ops : KeyOps FlowId⦄ ⦃build : Build⦄ where
  -- The writes to the two vectors around `map_put`, whose result is `stored`.
  unfoldable pub record_flow :
      FlowManager
      → FlowId
      → (internal_device index : ℕ) → DoubleChain
      → Option (Map FlowId)
      → Option FlowManager
  record_flow manager id internal_device index chain none = none
  record_flow manager id internal_device index chain (some stored) = some (record manager {
    items = record {
      chain = chain;
      vector = vector_return manager.items.vector index id;
      map = stored;
    };
    int_devices = vector_return manager.int_devices index internal_device;
  })

  -- The part behind `dchain_allocate_new_index`.
  unfoldable pub admit_flow :
      FlowManager → FlowId → (internal_device : ℕ) → Option ℕ × DoubleChain → Option FlowManager
  admit_flow manager id internal_device (none, chain) = some (with_chain manager chain)
  admit_flow manager id internal_device (some index, chain) =
      record_flow manager id internal_device index chain (map_put manager.items.map id index)

  -- The part behind `map_get`.
  unfoldable pub refresh_or_admit :
      FlowManager → FlowId → (internal_device : ℕ) → ℤ → Option ℕ → Option FlowManager
  refresh_or_admit manager id internal_device time (some index) =
      some (with_chain manager (dchain_rejuvenate_index manager.items.chain index time).1)
  refresh_or_admit manager id internal_device time none =
      admit_flow manager id internal_device (dchain_allocate_new_index manager.items.chain time)

  -- `none` is the fault of `map_put` on a full map.
  unfoldable pub flow_manager_allocate_or_refresh_flow :
      FlowManager → FlowId → (internal_device : ℕ) → ℤ → Option FlowManager
  flow_manager_allocate_or_refresh_flow manager id internal_device time =
      refresh_or_admit manager id internal_device time (map_get manager.items.map id)

  unfoldable pub with_items : FlowManager → Option (ℕ × Items FlowId) → Option FlowManager
  with_items manager none = none
  with_items manager (some (count, items)) = some (record manager { items = items })

  -- `none` is a loop that does not end within its fuel.
  unfoldable pub flow_manager_expire : FlowManager → ℕ → Option FlowManager
  flow_manager_expire manager time =
      with_items manager
        (expire_items_single_map manager.items (last_time time manager.expiration_time))

  unfoldable pub refresh_known : FlowManager → ℤ → Option ℕ → Option ℕ × FlowManager
  refresh_known manager time none = (none, manager)
  refresh_known manager time (some index) = (
    some (vector_borrow manager.int_devices index),
    with_chain
        (record manager {
          int_devices =
              vector_return manager.int_devices index (vector_borrow manager.int_devices index);
        })
        (dchain_rejuvenate_index manager.items.chain index time).1,
  )

  -- `some` is the result `true` with what goes out through `internal_device`.
  unfoldable pub flow_manager_get_refresh_flow : FlowManager → FlowId → ℤ → Option ℕ × FlowManager
  flow_manager_get_refresh_flow manager id time =
      refresh_known manager time (map_get manager.items.map id)

  -- The part behind `flow_manager_expire`, with what the two header getters return.
  unfoldable pub forward :
      (wan_device device now : ℕ)
      → Option Ipv4Hdr
      → Option TcpudpHdr
      → FlowManager
      → Option (ℕ × FlowManager)
  forward wan_device device now none tcpudp manager = some (device, manager)
  forward wan_device device now (some ip) none manager = some (device, manager)
  forward wan_device device now (some ip) (some ports) manager =
      if device == wan_device
      then some
          (answer device (flow_manager_get_refresh_flow manager (reply_flow_of ip ports) (pos now)))
      else let_out wan_device
          (flow_manager_allocate_or_refresh_flow manager (flow_of ip ports) device (pos now))

  unfoldable pub forward_after :
      (wan_device device now : ℕ)
      → Option Ipv4Hdr
      → Option TcpudpHdr
      → Option FlowManager
      → Option (ℕ × FlowManager)
  forward_after wan_device device now ipv4 tcpudp none = none
  forward_after wan_device device now ipv4 tcpudp (some manager) =
      forward wan_device device now ipv4 tcpudp manager

  -- The device that the packet goes to, which is its own if it is dropped. `now` passes the
  -- assertion `time >= 0`.
  unfoldable pub nf_process :
      FlowManager
      → (wan_device device now : ℕ) → Option Ipv4Hdr
      → Option TcpudpHdr
      → Option (ℕ × FlowManager)
  nf_process manager wan_device device now ipv4 tcpudp =
      forward_after wan_device device now ipv4 tcpudp (flow_manager_expire manager now)
