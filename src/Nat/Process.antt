-- ===== src/Nat/Process.antt =====
-- `nf_process` of the NAT: what a packet does to the mappings, and what leaves.
use vigor.Prelude.{
  ℕ, ◌+◌, ◌*◌, ◌≤◌, ◌<◌, ◌≡◌, ◌≢◌, refl, sym, ◌∙◌, ap, Bool, true, false, ◌==◌, ◌&&◌, Option, none,
  some, arith, if◌then◌else◌, ltb,
}
use vigor.Prelude.Int.{ℤ, pos}
use vigor.Prelude.Time.{last_time}
use vigor.Prelude.Lists.{length}
use vigor.MapImpl.Interface.{KeyOps, Build}
use vigor.DoubleChain.Entries.{recent}
use vigor.ItemTable.{IsItemTable-later}
use vigor.ItemTable.Expire.{unless_old, not_old}
use vigor.Packet.{Ipv4Hdr, TcpudpHdr}
use vigor.Nat.{
  FlowId, FlowManager, Config, Sent, port_at, flow_of, answers, translate, translate_back, forward,
  nf_process,
}
use vigor.Nat.Table.{
  mapping, IsNat, mapping-stored, flow_manager_expire_lem, Serves, used, port_of, ported_lem,
}
use vigor.Nat.External.{get_external-known, get_external-unknown}

-- A dropped packet goes back to its device.
abbrev pub dropped : (device : ℕ) → Ipv4Hdr → TcpudpHdr → Sent
dropped device ip ports = record { device = device; ip = ip; ports = ports }

-- What leaves for a packet from inside: it has the address of the NAT and the port of its flow.
abbrev pub sent_out :
    Config → FlowManager → (device : ℕ) → Ipv4Hdr → TcpudpHdr → (index : Option ℕ) → Sent
sent_out config m device ip ports none = dropped device ip ports
sent_out config m device ip ports (some i) = record {
  device = config.wan_device;
  ip = record ip { src_addr = config.external_addr };
  ports = record ports { src_port = m.start_port + i };
}

-- Whether a packet from outside has the source and the protocol of the other end of a flow.
abbrev pub is_reply : FlowId → Ipv4Hdr → TcpudpHdr → Bool
is_reply flow ip ports =
    ip.next_proto_id == flow.protocol
    && ip.src_addr == flow.dst_ip
    && ports.src_port == flow.dst_port

-- What leaves for a packet from outside to the port of a flow.
abbrev pub sent_back : FlowId → (device : ℕ) → Ipv4Hdr → TcpudpHdr → Sent
sent_back flow device ip ports =
    if is_reply flow ip ports
    then record {
      device = flow.internal_device;
      ip = record ip { dst_addr = flow.src_ip };
      ports = record ports { dst_port = flow.src_port };
    }
    else dropped device ip ports

-- The code lets in what is a reply.
answers-is_reply :
    (flow : FlowId) (ip : Ipv4Hdr) (ports : TcpudpHdr)
    → answers flow ip ports ≡ is_reply flow ip ports
unfolding answers
answers-is_reply flow ip ports = ground arith

-- The port is not reduced to 16 bits.
translate-sent :
    ⦃ops : KeyOps FlowId⦄ ⦃build : Build⦄ (config : Config) (m m1 after : FlowManager) (device : ℕ)
    (ip : Ipv4Hdr) (ports : TcpudpHdr) (index : Option ℕ)
    → m1.start_port ≡ m.start_port
    → ((i : ℕ) → index ≡ some i → m.start_port + i < 65536)
    → translate config device ip ports (some (port_of m1 index, after))
      ≡ some (sent_out config m device ip ports index, after)
unfolding translate
translate-sent config m m1 after device ip ports none same small = refl
translate-sent config m m1 after device ip ports (some i) same small =
    let port : port_at m1 i ≡ m.start_port + i = omega (arith, same, small i refl) in rw port refl

module _ ⦃ops : KeyOps FlowId⦄ ⦃build : Build⦄ {size before : ℕ} {m : FlowManager}
    (r : IsNat size before m) (config : Config) (now : ℕ) (later : before ≤ now) where
  -- The mappings that are left when the packet has come in.
  abbrev pub young : FlowId → Option (ℕ × ℤ)
  young q = unless_old (last_time now m.expiration_time) (mapping m q)

  -- Whether there is room for one more then.
  abbrev pub has_free : Bool
  has_free = ltb (length (recent (last_time now m.expiration_time) r.entries)) size

  -- A packet with both headers from any other device, over a sound table, faults nowhere. It is
  -- dropped if its flow does not live after the expiry and no index is free. Otherwise it leaves
  -- to the WAN device with the address of the NAT and, without any wrap to 16 bits, the port of
  -- the index of its flow, which is the one that it had if it lived, and is used again. No other
  -- flow changes but those that are too old.
  pub nf_process-translated :
      (device : ℕ) (ip : Ipv4Hdr) (ports : TcpudpHdr)
      → device ≢ config.wan_device
      → let id = flow_of device ip ports in
        (index : Option ℕ) × (m' : FlowManager) × (nf_process config m device now ip ports
          ≡ some (sent_out config m device ip ports index, m'))
        × Serves size (young id) has_free index
        × IsNat size now m'
        × (m'.expiration_time ≡ m.expiration_time)
        × (m'.start_port ≡ m.start_port)
        × ((q : FlowId)
            → mapping m' q ≡ (if ops.keys_eq id q then used index (pos now) else young q))
  unfolding nf_process forward
  nf_process-translated device ip ports inside =
      let id = flow_of device ip ports in
      let (m1, e, r1, left, keep, same_port, view) = flow_manager_expire_lem r now in
      let out = ported_lem r1 id now later in
      let other : (device == config.wan_device) ≡ false = ground (arith, inside) in
      let self : ops.keys_eq id id ≡ true = (ops.keys_eq_iff id id).1 refl in
      let small : (i : ℕ) → out.index ≡ some i → m.start_port + i < 65536 = λ i h.
        (let found : mapping out.after id ≡ some (i, pos now) = out.view id ∙ rw (self, h) refl in
          let (_, _, _, l) = mapping-stored out.sound id i (pos now) found in
          omega (arith, l, r.ports)) in
      (
        out.index,
        out.after,
        rw (e, other, out.returns)
            (translate-sent config m m1 out.after device ip ports out.index same_port small),
        (rw (view id, left) at out.serves),
        out.sound,
        out.expires ∙ keep,
        out.starts ∙ same_port,
        λ q. out.view q ∙ rw (view q) refl,
      )

  -- A packet with both headers from the WAN device, over a sound table, to the port of a flow
  -- that is not too old faults nowhere. If its protocol is that of the flow, and its source
  -- address and source port are the destination of the flow, it goes to the device of the flow
  -- with the address and the port inside; else it is dropped. In both cases the flow is used
  -- again, and no other flow changes but those that are too old.
  pub nf_process-translated_back :
      (ip : Ipv4Hdr) (ports : TcpudpHdr) (flow : FlowId) (i : ℕ) (t : ℤ)
      → young flow ≡ some (i, t)
      → ports.dst_port ≡ m.start_port + i
      → let wan = config.wan_device in
        (m' : FlowManager) × (nf_process config m wan now ip ports
          ≡ some (sent_back flow wan ip ports, m'))
        × IsNat size now m'
        × ((q : FlowId)
            → mapping m' q ≡ (if ops.keys_eq flow q then some (i, pos now) else young q))
  unfolding nf_process forward translate_back
  nf_process-translated_back ip ports flow i t found port =
      let (m1, e, r1, left, keep, same_port, view) = flow_manager_expire_lem r now in
      let (m', e', r', view') =
        get_external-known r1 i ports.dst_port now (omega (arith, port, same_port)) flow t later
          (view flow ∙ found) in
      let wan : (config.wan_device == config.wan_device) ≡ true = ground arith in
      (
        m',
        rw (e, wan, e', answers-is_reply flow ip ports) (ground arith),
        r',
        λ q. view' q ∙ rw (view q) refl,
      )

  -- A packet with both headers from the WAN device, over a sound table, to a port in range that
  -- no flow has after the expiry is dropped, and only the flows that are too old go.
  pub nf_process-unsolicited :
      (ip : Ipv4Hdr) (ports : TcpudpHdr) (i : ℕ)
      → i < size
      → ports.dst_port ≡ m.start_port + i
      → ((flow : FlowId) (t : ℤ) → young flow ≢ some (i, t))
      → let wan = config.wan_device in
        (m' : FlowManager) × (nf_process config m wan now ip ports
          ≡ some (dropped wan ip ports, m'))
        × IsNat size now m'
        × ((q : FlowId) → mapping m' q ≡ young q)
  unfolding nf_process forward translate_back
  nf_process-unsolicited ip ports i l port unused =
      let (m1, e, r1, left, keep, same_port, view) = flow_manager_expire_lem r now in
      let e' =
        get_external-unknown r1 i ports.dst_port now (omega (arith, port, same_port)) l
          (λ q t h. unused q t (sym (view q) ∙ h)) in
      let wan : (config.wan_device == config.wan_device) ≡ true = ground arith in
      (
        m1,
        rw (e, wan, e') refl,
        record { flows = IsItemTable-later now later r1.flows; ports = r1.ports },
        view,
      )

served :
    (size : ℕ) (was : Option (ℕ × ℤ)) (index : Option ℕ)
    → Serves size was true index
    → (i : ℕ) × (index ≡ some i)
served size none index (i, e, l) = (i, e)
served size (some (i, t)) index e = (i, e)

-- The headers of the answer to a packet.
abbrev pub answer_ip : Ipv4Hdr → Ipv4Hdr
answer_ip ip = record ip { src_addr = ip.dst_addr; dst_addr = ip.src_addr }

abbrev pub answer_ports : TcpudpHdr → TcpudpHdr
answer_ports ports = record { src_port = ports.dst_port; dst_port = ports.src_port }

module _ ⦃ops : KeyOps FlowId⦄ ⦃build : Build⦄ {size before : ℕ} {m : FlowManager}
    (r : IsNat size before m) (config : Config) where
  -- Let a packet come from a device inside over a sound table that has room after the expiry, and
  -- let its answer come from the WAN device to the address and port that left, not before it and
  -- no later than the expiration time after it. If neither the time of the answer nor the
  -- expiration time in nanoseconds overflows a signed 64-bit number, then the packet leaves to
  -- the WAN device with the address of the NAT, and the answer is translated back to the address
  -- and port inside and goes to the device that the packet came from.
  pub nf_process-round_trip :
      (device first now : ℕ) (ip : Ipv4Hdr) (ports : TcpudpHdr) (l : before ≤ first)
      → first ≤ now
      → now ≤ first + m.expiration_time * 1000
      → now < 9223372036854775808
      → m.expiration_time * 1000 < 9223372036854775808
      → device ≢ config.wan_device
      → has_free r config first l ≡ true
      → (sent : Sent) × (m1 : FlowManager) × (m2 : FlowManager) × (nf_process config m device first
            ip ports
          ≡ some (sent, m1))
        × (sent.device ≡ config.wan_device)
        × (sent.ip.src_addr ≡ config.external_addr)
        × (nf_process config m1 config.wan_device now (answer_ip sent.ip) (answer_ports sent.ports)
            ≡ some (record { device = device; ip = answer_ip ip; ports = answer_ports ports }, m2))
  nf_process-round_trip device first now ip ports l later soon small short inside room =
      let id = flow_of device ip ports in
      let (index, m1, e, serves, r1, keep, same_port, view) =
        nf_process-translated r config first l device ip ports inside in
      let self : ops.keys_eq id id ≡ true = (ops.keys_eq_iff id id).1 refl in
      let (i, got) : (i : ℕ) × (index ≡ some i) =
        served size (young r config first l id) index (rw room at serves) in
      let found : mapping m1 id ≡ some (i, pos first) = view id ∙ rw (self, got) refl in
      let still : young r1 config now later id ≡ some (i, pos first) =
        rw (found, keep) (not_old i first now m.expiration_time small short soon) in
      let sent = sent_out config m device ip ports (some i) in
      let (m2, e', _, _) =
        nf_process-translated_back r1 config now later (answer_ip sent.ip) (answer_ports sent.ports)
          id i (pos first) still (omega (arith, same_port)) in
      let back : sent_back id config.wan_device (answer_ip sent.ip) (answer_ports sent.ports)
          ≡ record { device = device; ip = answer_ip ip; ports = answer_ports ports } =
        ground arith in
      (
        sent,
        m1,
        m2,
        e ∙ ap (λ o. some (sent_out config m device ip ports o, m1)) got,
        refl,
        refl,
        e' ∙ ap (λ s. some (s, m2)) back,
      )
