-- ===== src/Firewall/History.antt =====
-- The firewall over any sequence of packets: what it lets in from outside.
use vigor.Prelude.{
  ℕ, ◌%◌, ◌≤◌, ◌≡◌, ◌≢◌, ◌⊎◌, inl, inr, refl, sym, ◌∙◌, ap, subst, Bool, true, false, ◌==◌, Option,
  none, some, arith, List, [], ◌∷◌, if◌then◌else◌, Bool-cases, Option-cases,
}
use vigor.Prelude.Int.{ℤ, pos}
use vigor.MapImpl.Interface.{KeyOps, Build}
use vigor.Packet.{Ipv4Hdr, TcpudpHdr}
use vigor.ItemTable.{opened}
use vigor.ItemTable.Expire.{unless_old-some}
use vigor.Firewall.{FlowId, FlowManager, flow_of, reply_flow_of, nf_process}
use vigor.Firewall.Table.{live, IsFlowTable}
use vigor.Firewall.Process.{
  verdict, alive, has_room, nf_process-no_header, nf_process-outside, nf_process-inside,
}

-- A packet with its device and time, and the headers that were found in it.
pub record Packet : Type 0 where
  pub device : ℕ
  pub time : ℕ
  pub ipv4 : Option Ipv4Hdr
  pub tcpudp : Option TcpudpHdr

-- One of the packets, the latest first, came from `device` inside and is of the flow `id`.
pub data WasOpened (wan : ℕ) (id : FlowId) (device : ℕ) : List Packet → Type 0 where
  by_last :
      (p : Packet) (past : List Packet) (ip : Ipv4Hdr) (ports : TcpudpHdr)
      → p.ipv4 ≡ some ip
      → p.tcpudp ≡ some ports
      → flow_of ip ports ≡ id
      → p.device ≡ device
      → device ≢ wan
      → WasOpened wan id device (p ∷ past)
  earlier :
      (p : Packet) (past : List Packet)
      → WasOpened wan id device past
      → WasOpened wan id device (p ∷ past)

module _ ⦃ops : KeyOps FlowId⦄ ⦃build : Build⦄ where
  -- The states that the firewall gets to, with the packets that have come, the latest first, and
  -- the time of the latest.
  pub data Reaches (wan : ℕ) (start : FlowManager) (begin : ℕ)
      : List Packet → FlowManager → ℕ → Type 0 where
    nothing_yet : Reaches wan start begin [] start begin
    packet :
        {past : List Packet} {m m' : FlowManager} {now : ℕ} (p : Packet) (out : ℕ)
        → Reaches wan start begin past m now
        → now ≤ p.time
        → nf_process m wan p.device p.time p.ipv4 p.tcpudp ≡ some (out, m')
        → Reaches wan start begin (p ∷ past) m' p.time

abbrev state_of : FlowManager → Option (ℕ × FlowManager) → FlowManager
state_of m none = m
state_of m (some (out, m')) = m'

abbrev out_of : ℕ → Option (ℕ × FlowManager) → ℕ
out_of d none = d
out_of d (some (out, m)) = out

-- A flow that is refreshed or opened had its device before, or has that of the packet.
opened-some :
    (o : Option (ℕ × ℤ)) (free : Bool) (device : ℕ) (now : ℤ) (first : ℕ) (t : ℤ)
    → opened o free device now ≡ some (first, t)
    → ((u : ℤ) × (o ≡ some (first, u))) ⊎ ((free ≡ true) × (device ≡ first))
opened-some (some (d, u)) free device now first t e =
    let same : d ≡ first = ground (arith, e) in inl (u, ap (λ x. some (x, u)) same)
opened-some none true device now first t e = inr (refl, ground (arith, e))
opened-some none false device now first t e = absurd (ground (arith, e))

module _ ⦃ops : KeyOps FlowId⦄ ⦃build : Build⦄ (wan size : ℕ) where
  -- What one packet does: the table is sound again, and what lives has a reason.
  record Stepped (m : FlowManager) (past : List Packet) (p : Packet) : Type 0 where
    after : FlowManager
    out : ℕ
    returns : nf_process m wan p.device p.time p.ipv4 p.tcpudp ≡ some (out, after)
    sound : IsFlowTable size p.time after
    reason :
        (q : FlowId) (device : ℕ) (t : ℤ)
        → live after q ≡ some (device, t)
        → ((u : ℤ) × (live m q ≡ some (device, u))) ⊎ WasOpened wan q device (p ∷ past)

  module _ {m : FlowManager} {now : ℕ} (r : IsFlowTable size now m) (past : List Packet) where
    dropped_lem :
        (device time : ℕ) (ipv4 : Option Ipv4Hdr) (tcpudp : Option TcpudpHdr)
        → now ≤ time
        → (ipv4 ≡ none) ⊎ (tcpudp ≡ none)
        → Stepped m past (record { device = device; time = time; ipv4 = ipv4; tcpudp = tcpudp })
    dropped_lem device time ipv4 tcpudp later missing =
        let (m', e, sound, view) =
          nf_process-no_header r wan time later device ipv4 tcpudp missing in
        record {
          after = m';
          out = device;
          returns = e;
          sound = sound;
          reason = λ q d t h. inl (t, unless_old-some _ (live m q) d t (sym (view q) ∙ h));
        }

    -- A flow that a packet touches, or another one.
    touched_lem :
        (time : ℕ) (later : now ≤ time) (id : FlowId) (free : Bool) (device : ℕ) (q : FlowId)
        (d : ℕ) (t : ℤ)
        → (if ops.keys_eq id q
            then opened (alive r wan time later id) free device (pos time)
            else alive r wan time later q)
          ≡ some (d, t)
        → ((u : ℤ) × (live m q ≡ some (d, u))) ⊎ ((free ≡ true) × (device ≡ d) × (id ≡ q))
    touched_lem time later id free device q d t h = elim (Bool-cases (ops.keys_eq id q)) [
      | inr other ↦ inl (t, unless_old-some _ (live m q) d t (rw other at h))
      | inl alike ↦
          let same : id ≡ q = (ops.keys_eq_iff id q).0 alike in
          elim (opened-some (alive r wan time later id) free device (pos time) d t
            (rw alike at h)) [
              | inl (u, e) ↦ inl (u, ap (live m) (sym same) ∙ unless_old-some _ (live m id) d u e)
              | inr (e, f) ↦ inr (e, f, same)
            ]
    ]

    packet_lem :
        (device time : ℕ) (ipv4 : Option Ipv4Hdr) (tcpudp : Option TcpudpHdr)
        → now ≤ time
        → Stepped m past (record { device = device; time = time; ipv4 = ipv4; tcpudp = tcpudp })
    packet_lem device time none tcpudp later = dropped_lem device time none tcpudp later (inl refl)
    packet_lem device time (some ip) none later =
        dropped_lem device time (some ip) none later (inr refl)
    packet_lem device time (some ip) (some ports) later = elim (Bool-cases (device == wan)) [
      | inl outside ↦
          let here : device ≡ wan = ground (arith, outside) in
          let (m', e, sound, view) = nf_process-outside r wan time later ip ports in
          record {
            after = m';
            out = verdict wan (alive r wan time later (reply_flow_of ip ports));
            returns = rw here e;
            sound = sound;
            reason = λ q d t h.
                elim (touched_lem time later (reply_flow_of ip ports) false 0 q d t
                  (sym (view q) ∙ h)) [
                    | inl old ↦ inl old
                    | inr (never, _, _) ↦ absurd (ground (arith, never))
                  ];
          }
      | inr inside ↦
          let apart : device ≢ wan = ground (arith, inside) in
          let (m', e, sound, _, view) = nf_process-inside r wan time later device ip ports apart in
          record {
            after = m';
            out = wan;
            returns = e;
            sound = sound;
            reason = λ q d t h.
                elim (touched_lem time later (flow_of ip ports) (has_room r wan time later) device q
                  d t (sym (view q) ∙ h)) [
                    | inl old ↦ inl old
                    | inr (_, same, flow) ↦
                        inr (
                          by_last _ past ip ports refl refl flow same (ground (arith, same, apart)))
                  ];
          }
    ]

  module _ {start : FlowManager} {begin : ℕ} (r : IsFlowTable size begin start)
      (empty : (q : FlowId) → live start q ≡ none) where
    -- In every state that the firewall gets to, the table is sound, and a flow that lives was
    -- opened from its device.
    reaches_lem :
        {past : List Packet} {m : FlowManager} {now : ℕ}
        → Reaches wan start begin past m now
        → IsFlowTable size now m
          × ((q : FlowId) (device : ℕ) (t : ℤ)
              → live m q ≡ some (device, t)
              → WasOpened wan q device past)
    reaches_lem nothing_yet = (
      r,
      λ q device t h.
          let no : none ≡ some (device, t) = sym (empty q) ∙ h in absurd (ground (arith, no)),
    )
    reaches_lem (packet {past} {m} {m'} {now} p out before later e) =
        let (sound, opened_by) = reaches_lem before in
        let s = packet_lem sound past p.device p.time p.ipv4 p.tcpudp later in
        let same : s.after ≡ m' = ap (state_of m) (sym s.returns ∙ e) in
        (
          subst (IsFlowTable size p.time) same s.sound,
          λ q device t h. elim (s.reason q device t (ap (λ x. live x q) same ∙ h)) [
            | inl (u, old) ↦ earlier p past (opened_by q device u old)
            | inr opens ↦ opens
          ],
        )

    -- Start the firewall with a sound table in which no flow lives, and let any packets come
    -- from any devices, in the order of their times. If then a packet from the WAN device goes
    -- anywhere else than back, then one of the packets that came before it had both headers,
    -- was of the flow that it answers, and came from a device inside, and it goes to that
    -- device, by its lowest 16 bits.
    pub let_in_by_request :
        {past : List Packet} {m m' : FlowManager} {last : ℕ} (now out : ℕ) (ip : Ipv4Hdr)
        (ports : TcpudpHdr)
        → Reaches wan start begin past m last
        → last ≤ now
        → nf_process m wan wan now (some ip) (some ports) ≡ some (out, m')
        → out ≢ wan
        → (device : ℕ) × (out ≡ device % 65536) × WasOpened wan (reply_flow_of ip ports) device past
    let_in_by_request {m = m} now out ip ports before later e passed =
        let (sound, opened_by) = reaches_lem before in
        let id = reply_flow_of ip ports in
        let (m'', e', _, _) = nf_process-outside sound wan now later ip ports in
        let goes : verdict wan (alive sound wan now later id) ≡ out =
          ap (out_of out) (sym e' ∙ e) in
        elim (Option-cases (alive sound wan now later id)) [
          | inl gone ↦ absurd (passed (sym goes ∙ ap (verdict wan) gone))
          | inr ((device, t), lives) ↦ (
            device,
            sym goes ∙ ap (verdict wan) lives,
            opened_by id device t (unless_old-some _ (live m id) device t lives),
          )
        ]
