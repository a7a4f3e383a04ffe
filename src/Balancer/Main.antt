-- ===== src/Balancer/Main.antt =====
-- viglb/lb_main.c: what the load balancer does with a packet.
use vigor.Prelude.{ℕ, ◌==◌, Option, none, some, if◌then◌else◌}
use vigor.Prelude.Int.{pos}
use vigor.MapImpl.Interface.{KeyOps, Build}
use vigor.Ether.{EtherAddr}
use vigor.Packet.{Ipv4Hdr, TcpudpHdr}
use vigor.Balancer.{
  LoadBalancer, LoadBalancedFlow, LoadBalancedBackend, lb_get_backend, lb_process_heartbit,
  lb_expire_flows, lb_expire_backends,
}

-- Where a packet goes, and its IPv4 header then.
pub record Forwarded : Type 0 where
  pub device : ℕ
  pub ip : Ipv4Hdr

abbrev pub flow_of : Ipv4Hdr → TcpudpHdr → LoadBalancedFlow
flow_of ip ports = record {
  src_ip = ip.src_addr;
  dst_ip = ip.dst_addr;
  src_port = ports.src_port;
  dst_port = ports.dst_port;
  protocol = ip.next_proto_id;
}

-- The end of `nf_process` for what `lb_get_backend` returns. Without a backend the device is the
-- WAN device.
unfoldable pub to_backend : (wan_device : ℕ) → Ipv4Hdr → Option LoadBalancedBackend → Forwarded
to_backend wan_device ip none = record { device = wan_device; ip = ip }
to_backend wan_device ip (some backend) =
    if backend.nic == wan_device
    then record { device = backend.nic; ip = ip }
    else record { device = backend.nic; ip = record ip { dst_addr = backend.ip } }

unfoldable pub forward_to :
    (wan_device : ℕ)
    → Ipv4Hdr
    → Option (Option LoadBalancedBackend × LoadBalancer)
    → Option (Forwarded × LoadBalancer)
forward_to wan_device ip none = none
forward_to wan_device ip (some (backend, b)) = some (to_backend wan_device ip backend, b)

unfoldable pub drop_heartbeat :
    (device : ℕ) → Ipv4Hdr → Option LoadBalancer → Option (Forwarded × LoadBalancer)
drop_heartbeat device ip none = none
drop_heartbeat device ip (some b) = some (record { device = device; ip = ip }, b)

module _ ⦃ops : KeyOps LoadBalancedFlow⦄ ⦃ips : KeyOps ℕ⦄ ⦃build : Build⦄ where
  unfoldable pub expire_backends_then : (now : ℕ) → Option LoadBalancer → Option LoadBalancer
  expire_backends_then now none = none
  expire_backends_then now (some b) = lb_expire_backends b now

  -- The part behind the two expiries. Two calls of `lb_get_backend` are enough.
  unfoldable pub balance :
      (wan_device device now : ℕ)
      → (s_addr : EtherAddr) → Ipv4Hdr
      → TcpudpHdr
      → Option LoadBalancer
      → Option (Forwarded × LoadBalancer)
  balance wan_device device now s_addr ip ports none = none
  balance wan_device device now s_addr ip ports (some b) =
      let flow = flow_of ip ports in
      if device == wan_device
      then forward_to wan_device ip (lb_get_backend 2 b flow (pos now))
      else drop_heartbeat device ip (lb_process_heartbit b flow s_addr device (pos now))

  -- For a packet with both headers; without one it is dropped after the expiries. The MAC addresses
  -- and the checksum that the function sets then are left out.
  unfoldable pub nf_process :
      (wan_device : ℕ)
      → LoadBalancer
      → (device now : ℕ) → (s_addr : EtherAddr) → Ipv4Hdr
      → TcpudpHdr
      → Option (Forwarded × LoadBalancer)
  nf_process wan_device b device now s_addr ip ports =
      balance wan_device device now s_addr ip ports
        (expire_backends_then now (lb_expire_flows b now))
