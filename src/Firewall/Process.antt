-- ===== src/Firewall/Process.antt =====
-- `nf_process`: what a packet does to the live flows, and where it goes.
use vigor.Prelude.{
  ◌⊎◌, inl, inr, ℕ, ◌+◌, ◌*◌, ◌%◌, ◌≤◌, ◌<◌, ◌≡◌, ◌≢◌, refl, ◌∙◌, ap, Bool, true, false, ◌==◌,
  Option, none, some, arith, if◌then◌else◌, ltb,
}
use vigor.Prelude.Int.{ℤ, pos}
use vigor.Prelude.Lists.{length}
use vigor.MapImpl.Interface.{KeyOps, Build}
use vigor.DoubleChain.Entries.{recent}
use vigor.Packet.{Ipv4Hdr, TcpudpHdr}
use vigor.Firewall.{
  FlowId, FlowManager, flow_of, reply_flow_of, nf_process, forward, forward_after, answer, let_out,
  flow_manager_get_refresh_flow,
}
use vigor.Firewall.Table.{live, IsFlowTable}
use vigor.ItemTable.Expire.{unless_old, not_old}
use vigor.ItemTable.{opened, IsItemTable-later}
use vigor.Prelude.Time.{last_time}
use vigor.Firewall.Expire.{flow_manager_expire_lem}
use vigor.Firewall.Outbound.{
  flow_manager_allocate_or_refresh_flow_lem, flow_manager_get_refresh_flow_lem, device_of,
}

-- Where a packet from outside goes: to the device of the flow that it answers, or nowhere.
abbrev pub verdict : (device : ℕ) → Option (ℕ × ℤ) → ℕ
verdict device none = device
verdict device (some (inside, t)) = inside % 65536

answer-verdict :
    (device : ℕ) (m : FlowManager) (l : Option (ℕ × ℤ))
    → answer device (device_of l, m) ≡ (verdict device l, m)
unfolding answer
answer-verdict device m none = refl
answer-verdict device m (some (inside, t)) = refl

module _ ⦃ops : KeyOps FlowId⦄ ⦃build : Build⦄ {size before : ℕ} {m : FlowManager}
    (r : IsFlowTable size before m) (wan now : ℕ) (later : before ≤ now) where
  forward-no_header :
      (device : ℕ) (ipv4 : Option Ipv4Hdr) (tcpudp : Option TcpudpHdr) (m' : FlowManager)
      → (ipv4 ≡ none) ⊎ (tcpudp ≡ none)
      → forward wan device now ipv4 tcpudp m' ≡ some (device, m')
  unfolding forward
  forward-no_header device none tcpudp m' missing = refl
  forward-no_header device (some ip) none m' missing = refl
  forward-no_header device (some ip) (some ports) m' (inl e) = cc
  forward-no_header device (some ip) (some ports) m' (inr e) = cc

  -- The flows that are live when the packet has come in.
  abbrev pub alive : FlowId → Option (ℕ × ℤ)
  alive q = unless_old (last_time now m.expiration_time) (live m q)

  -- Whether there is room for one more then.
  abbrev pub has_room : Bool
  has_room = ltb (length (recent (last_time now m.expiration_time) r.entries)) size

  -- A packet in which the IPv4 header or the TCP or UDP header was not found, over a sound table,
  -- never faults and is dropped, as the result is its own device. It only expires the flows that
  -- are too old.
  pub nf_process-no_header :
      (device : ℕ) (ipv4 : Option Ipv4Hdr) (tcpudp : Option TcpudpHdr)
      → (ipv4 ≡ none) ⊎ (tcpudp ≡ none)
      → (m' : FlowManager) × (nf_process m wan device now ipv4 tcpudp ≡ some (device, m'))
        × IsFlowTable size now m'
        × ((q : FlowId) → live m' q ≡ alive q)
  unfolding nf_process forward_after
  nf_process-no_header device ipv4 tcpudp missing =
      let (m1, e, r1, _, _, view) = flow_manager_expire_lem r now in
      (
        m1,
        rw e (forward-no_header device ipv4 tcpudp m1 missing),
        record { flows = IsItemTable-later now later r1.flows },
        view,
      )

  -- A packet with both headers from the WAN device, over a sound table, never faults. It goes to
  -- the device inside of the flow that it answers, if that flow is alive and not expired, and is
  -- dropped, as the result is its own device, if it is not. It opens no flow; it refreshes the
  -- flow that it answers, and expires those that are too old.
  pub nf_process-outside :
      (ip : Ipv4Hdr) (ports : TcpudpHdr)
      → let id = reply_flow_of ip ports in
        (m' : FlowManager) × (nf_process m wan wan now (some ip) (some ports)
          ≡ some (verdict wan (alive id), m'))
        × IsFlowTable size now m'
        × ((q : FlowId)
            → live m' q
              ≡ (if ops.keys_eq id q then opened (alive id) false 0 (pos now) else alive q))
  unfolding nf_process forward_after forward
  nf_process-outside ip ports =
      let id = reply_flow_of ip ports in
      let (m1, e, r1, _, _, view) = flow_manager_expire_lem r now in
      let (out, r', view') = flow_manager_get_refresh_flow_lem r1 id now later in
      let m' = (flow_manager_get_refresh_flow m1 id (pos now)).1 in
      let wan_device : (wan == wan) ≡ true = ground arith in
      (
        m',
        rw (e, wan_device)
            (ap some (
              ap (λ o. answer wan (o, m')) out
              ∙ answer-verdict wan m' (live m1 id)
              ∙ ap (λ l. (verdict wan l, m')) (view id))),
        r',
        λ q. view' q ∙ rw (view id, view q) refl,
      )

  -- A packet with both headers from any other device, over a sound table, never faults and goes
  -- to the WAN device. Its flow is refreshed with its first device if it is alive, opened with
  -- the device of the packet if it is not and the table has room after the expiry, and not opened
  -- if the table is full. Every other flow stays as it is, unless it is too old.
  pub nf_process-inside :
      (device : ℕ) (ip : Ipv4Hdr) (ports : TcpudpHdr)
      → device ≢ wan
      → let id = flow_of ip ports in
        (m' : FlowManager) × (nf_process m wan device now (some ip) (some ports) ≡ some (wan, m'))
        × IsFlowTable size now m'
        × (m'.expiration_time ≡ m.expiration_time)
        × ((q : FlowId)
            → live m' q
              ≡ (if ops.keys_eq id q then opened (alive id) has_room device (pos now) else alive q))
  unfolding nf_process forward_after forward let_out
  nf_process-inside device ip ports inside =
      let id = flow_of ip ports in
      let (m1, e, r1, left, keep, view) = flow_manager_expire_lem r now in
      let (m', e', r', keep', view') =
        flow_manager_allocate_or_refresh_flow_lem r1 id device now later in
      let other : (device == wan) ≡ false = ground (arith, inside) in
      (m', rw (e, other, e') refl, r', keep' ∙ keep, λ q. view' q ∙ rw (view id, view q, left) refl)

module _ ⦃ops : KeyOps FlowId⦄ ⦃build : Build⦄ {size before : ℕ} {m : FlowManager}
    (r : IsFlowTable size before m) (wan : ℕ) where
  -- Let a packet with both headers come from a device inside (its number fits in 16 bits) while
  -- its flow is not alive and the sound table has room, and let its answer come from the WAN
  -- device, not before it and no later than the expiration time after it. If neither the time of
  -- the answer nor the expiration time in nanoseconds overflows a signed 64-bit number, then the
  -- first packet goes out to the WAN device and the answer goes to the device that the first one
  -- came from.
  pub nf_process-reply :
      (device first now : ℕ) (ip ip' : Ipv4Hdr) (ports ports' : TcpudpHdr)
      → before ≤ first
      → first ≤ now
      → now ≤ first + m.expiration_time * 1000
      → now < 9223372036854775808
      → m.expiration_time * 1000 < 9223372036854775808
      → device ≢ wan
      → device < 65536
      → reply_flow_of ip' ports' ≡ flow_of ip ports
      → unless_old (last_time first m.expiration_time) (live m (flow_of ip ports)) ≡ none
      → length (recent (last_time first m.expiration_time) r.entries) < size
      → (m1 : FlowManager) × (m2 : FlowManager) × (nf_process m wan device first
            (some ip)
            (some ports)
          ≡ some (wan, m1))
        × (nf_process m1 wan wan now (some ip') (some ports') ≡ some (device, m2))
  nf_process-reply device first now ip ip' ports ports' l later soon small short inside narrow
        answers fresh room =
      let id = flow_of ip ports in
      let (m1, e, r1, keep, view) = nf_process-inside r wan first l device ip ports inside in
      let (m2, e', _, _) = nf_process-outside r1 wan now later ip' ports' in
      let self : ops.keys_eq id id ≡ true = (ops.keys_eq_iff id id).1 refl in
      let free : has_room r wan first l ≡ true = ground (arith, room) in
      let found : live m1 id ≡ some (device, pos first) = view id ∙ rw (self, fresh, free) refl in
      let still : unless_old (last_time now m1.expiration_time) (live m1 id)
          ≡ some (device, pos first) =
        rw (found, keep) (not_old device first now m.expiration_time small short soon) in
      let out : verdict wan (alive r1 wan now later (reply_flow_of ip' ports')) ≡ device =
        rw (answers, still) (omega arith) in
      (m1, m2, e, e' ∙ ap (λ d. some (d, m2)) out)
