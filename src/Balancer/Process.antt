-- ===== src/Balancer/Process.antt =====
-- `nf_process` of the load balancer.
use vigor.Prelude.{
  ℕ, ◌≤◌, ◌≡◌, refl, sym, ◌∙◌, ap, true, ◌==◌, Option, none, some, arith, if◌then◌else◌, ltb,
}
use vigor.Prelude.Int.{ℤ, pos}
use vigor.Prelude.Time.{last_time}
use vigor.Prelude.Lists.{length}
use vigor.MapImpl.Interface.{KeyOps, Build}
use vigor.Vector.{Vector}
use vigor.Ether.{EtherAddr}
use vigor.Packet.{Ipv4Hdr, TcpudpHdr}
use vigor.ItemTable.Expire.{unless_old, unless_old-some, expire_lem}
use vigor.Balancer.{
  LoadBalancer, LoadBalancedFlow, LoadBalancedBackend, lb_expire_flows, lb_expire_backends,
  with_flows, with_active,
}
use vigor.Balancer.Main.{
  Forwarded, flow_of, to_backend, forward_to, expire_backends_then, balance, nf_process,
}
use vigor.Balancer.Flows.{assigned, IsBalancer, backend_at, preferred, is_active}
use vigor.Balancer.Backend.{Served, lb_get_backend_lem}
use vigor.Balancer.Heartbeat.{backend_of}

-- Where a packet from the WAN device goes, and with which header: back without a backend, else to
-- the device of the backend, with the address of the backend unless that is the WAN device.
abbrev pub sent_on : (wan_device : ℕ) → Ipv4Hdr → Option LoadBalancedBackend → Forwarded
sent_on wan_device ip none = record { device = wan_device; ip = ip }
sent_on wan_device ip (some backend) = record {
  device = backend.nic;
  ip = record {
    src_addr = ip.src_addr;
    dst_addr = if backend.nic == wan_device then ip.dst_addr else backend.ip;
    next_proto_id = ip.next_proto_id;
  };
}

to_backend-sent_on :
    (wan_device : ℕ) (ip : Ipv4Hdr) (backend : Option LoadBalancedBackend)
    → to_backend wan_device ip backend ≡ sent_on wan_device ip backend
unfolding to_backend
to_backend-sent_on wan_device ip none = refl
to_backend-sent_on wan_device ip (some backend) = ground arith

module _ ⦃ops : KeyOps LoadBalancedFlow⦄ ⦃ips : KeyOps ℕ⦄ ⦃build : Build⦄
    {flow_size backend_size before : ℕ} {b : LoadBalancer}
    (r : IsBalancer flow_size backend_size before b) (now : ℕ) where
  -- The load balancer after both expiries: what is too old is gone.
  pub record Expired (b1 : LoadBalancer) : Type 0 where
    pub sound : IsBalancer flow_size backend_size before b1
    pub same_backends : b1.backends ≡ b.backends
    pub same_cht : b1.cht ≡ b.cht
    pub same_height : b1.cht_height ≡ b.cht_height
    pub flows_left :
        (q : LoadBalancedFlow)
        → assigned b1 q ≡ unless_old (last_time now b.flow_expiration_time) (assigned b q)
    pub backends_left :
        (q : ℕ)
        → backend_of b1 q ≡ unless_old (last_time now b.backend_expiration_time) (backend_of b q)

  expired_lem :
      (b1 : LoadBalancer) × (expire_backends_then now (lb_expire_flows b now) ≡ some b1)
      × Expired b1
  unfolding expire_backends_then lb_expire_flows lb_expire_backends with_flows with_active
  expired_lem =
      let last = last_time now b.flow_expiration_time in
      let (_, flows', e, flows, _, view) = expire_lem r.flows last in
      let (_, active', e', active, _, view') =
        expire_lem r.active (last_time now b.backend_expiration_time) in
      let v = view ℕ b.flow_id_to_backend_id.items in
      (
        record b { flows = flows'; active = active' },
        rw e (rw e' refl),
        record {
          sound = record {
            flows = flows;
            active = active;
            capacity = r.capacity;
            ids = λ q j t h. r.ids q j t (unless_old-some last (assigned b q) j t (sym (v q) ∙ h));
            short = r.short;
            rows = r.rows;
          };
          same_backends = refl;
          same_cht = refl;
          same_height = refl;
          flows_left = v;
          backends_left = view' LoadBalancedBackend b.backends.items;
        },
      )

  backend_at-same :
      (b1 b2 : LoadBalancer) (choice : Option ℕ)
      → b1.backends ≡ b2.backends
      → backend_at b1 choice ≡ backend_at b2 choice
  backend_at-same b1 b2 none same = refl
  backend_at-same b1 b2 (some j) same =
      ap (λ (v : Vector LoadBalancedBackend). some (v.items j)) same

  -- A packet with both headers from the WAN device, over a sound load balancer and at a time not
  -- before the last one, faults nowhere. First the flows and the backends that are too old go.
  -- Then the backend of its flow is chosen if that one is still active, and else the first active
  -- backend that the flow prefers. The packet goes to the device of that backend with the address
  -- of the backend as its destination, which stays as it was if that device is the WAN device,
  -- and back unchanged if there is no active backend; the flow is kept with that backend, if
  -- there is room. No other flow changes, and the load balancer is sound again.
  pub nf_process-balanced :
      (wan_device : ℕ) (s_addr : EtherAddr) (ip : Ipv4Hdr) (ports : TcpudpHdr)
      (later : before ≤ now)
      → let flow : LoadBalancedFlow = record {
        src_ip = ip.src_addr;
        dst_ip = ip.dst_addr;
        src_port = ports.src_port;
        dst_port = ports.dst_port;
        protocol = ip.next_proto_id;
      } in
        (b1 : LoadBalancer) × (x : Expired b1) × (choice : Option ℕ) × (new : Option (ℕ × ℤ))
        × (after : LoadBalancer) × Served
            (preferred x.sound flow now later)
            (is_active x.sound flow now later)
            backend_size
            (ltb (length x.sound.flows.entries) flow_size)
            (pos now)
            (assigned b1 flow)
            choice
            new
        × (nf_process wan_device b wan_device now s_addr ip ports
            ≡ some (sent_on wan_device ip (backend_at b choice), after))
        × IsBalancer flow_size backend_size now after
        × ((q : LoadBalancedFlow)
            → assigned after q ≡ (if ops.keys_eq flow q then new else assigned b1 q))
  unfolding nf_process balance forward_to
  nf_process-balanced wan_device s_addr ip ports later =
      let flow = flow_of ip ports in
      let (b1, e, x) = expired_lem in
      let (choice, new, served, out) = lb_get_backend_lem x.sound flow now later 0 in
      let wan : (wan_device == wan_device) ≡ true = ground arith in
      (
        b1,
        x,
        choice,
        new,
        out.after,
        served,
        rw (e, wan, out.returns)
            (ap (λ k. some (to_backend wan_device ip k, out.after))
                (backend_at-same b1 b choice x.same_backends)
              ∙ ap (λ f. some (f, out.after))
                  (to_backend-sent_on wan_device ip (backend_at b choice))),
        out.sound,
        out.view,
      )
