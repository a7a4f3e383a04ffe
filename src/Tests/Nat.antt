-- ===== src/Tests/Nat.antt =====
-- A NAT with room for three flows, and a packet and its answer.
use vigor.Prelude.{
  ℕ, ◌+◌, ◌<◌, subst, ◌≡◌, ◌≢◌, ◌↔◌, refl, ap, sym, ◌∙◌, Bool, true, none, some, arith, ◌==◌, ◌&&◌,
  Option, if◌then◌else◌,
}
use vigor.Prelude.Int.{ℤ, pos}
use vigor.Prelude.Arrays.{u32}
use vigor.MapImpl.{Table}
use vigor.MapImpl.Interface.{KeyOps}
use vigor.DoubleChain.Entries.{recent}
use vigor.Packet.{Ipv4Hdr, TcpudpHdr}
use vigor.ItemTable.Expire.{unless_old, not_old}
use vigor.Prelude.Time.{last_time}
use vigor.Nat.{FlowId, FlowManager, Config, Sent, flow_of, nf_process}
use vigor.Nat.Table.{mapping, IsNat, Serves, used}
use vigor.Nat.Process.{
  young, has_free, sent_out, dropped, answer_ip, answer_ports, nf_process-translated,
  nf_process-translated_back, nf_process-unsolicited, nf_process-round_trip,
}
use vigor.Tests.Keys.{build}
use vigor.Tests.Start.{no_items, no_items-IsItemTable, nothing_lives}

abbrev flow_eq : FlowId → FlowId → Bool
flow_eq a b =
    a.src_port == b.src_port
    && a.dst_port == b.dst_port
    && a.src_ip == b.src_ip
    && a.dst_ip == b.dst_ip
    && a.internal_device == b.internal_device
    && a.protocol == b.protocol

flow_eq_iff : (a b : FlowId) → (flow_eq a b ≡ true) ↔ (a ≡ b)
flow_eq_iff a b = ground arith

instance abbrev flow_keys : KeyOps FlowId
flow_keys = record {
  keys_eq = flow_eq;
  khash = λ a. u32 (a.src_port + a.dst_ip);
  keys_eq_iff = flow_eq_iff;
  khash-lt = λ a. omega arith;
}

abbrev memory : Table FlowId
memory = record {
  busybits = λ _. 7;
  keyps = λ i. record {
    src_port = i;
    dst_port = 1;
    src_ip = 2;
    dst_ip = 3;
    internal_device = 4;
    protocol = 17;
  };
  khs = λ _. 3;
  chns = λ _. 9;
  vals = λ _. 1;
}

-- No flow yet; flows expire after a microsecond.
abbrev start : FlowManager
start = record { items = no_items memory; start_port = 1024; expiration_time = 1 }

abbrev start-IsNat : IsNat 3 5 start
start-IsNat = record { flows = no_items-IsItemTable memory; ports = omega arith }

abbrev config : Config
config = record { wan_device = 0; external_addr = 99 }

abbrev ip : Ipv4Hdr
ip = record { src_addr = 10; dst_addr = 20; next_proto_id = 6 }

abbrev ports : TcpudpHdr
ports = record { src_port = 1000; dst_port = 80 }

nf_process-translated_example :
    (index : Option ℕ) × (m' : FlowManager) × (nf_process config start 1 7 ip ports
      ≡ some (sent_out config start 1 ip ports index, m'))
    × Serves 3
        (young start-IsNat config 7 (omega arith) (flow_of 1 ip ports))
        (has_free start-IsNat config 7 (omega arith))
        index
    × IsNat 3 7 m'
    × (m'.expiration_time ≡ 1)
    × (m'.start_port ≡ 1024)
    × ((q : FlowId)
        → mapping m' q ≡ (
            if flow_eq (flow_of 1 ip ports) q
            then used index (pos 7)
            else young start-IsNat config 7 (omega arith) q))
nf_process-translated_example =
    nf_process-translated start-IsNat config 7 (omega arith) 1 ip ports (λ e. absurd (omega arith))

nf_process-round_trip_example :
    (sent : Sent) × (m1 : FlowManager) × (m2 : FlowManager) × (nf_process config start 1 7 ip ports
      ≡ some (sent, m1))
    × (sent.device ≡ 0)
    × (sent.ip.src_addr ≡ 99)
    × (nf_process config m1 0 900 (answer_ip sent.ip) (answer_ports sent.ports)
        ≡ some (
          record {
            device = 1;
            ip = record { src_addr = 20; dst_addr = 10; next_proto_id = 6 };
            ports = record { src_port = 80; dst_port = 1000 };
          },
          m2,
        ))
unfolding recent
nf_process-round_trip_example =
    nf_process-round_trip start-IsNat config 1 7 900 ip ports (omega arith) (omega arith)
      (omega arith) (omega arith) (omega arith) (λ e. absurd (omega arith)) refl

no_mapping : (q : FlowId) (last : ℤ) → unless_old last (mapping start q) ≡ none
no_mapping q last = ap (unless_old last) (nothing_lives memory (λ j. j) q)

unused : (q : FlowId) (t : ℤ) → young start-IsNat config 7 (omega arith) q ≢ some (1, t)
unused q t e =
    let no : none ≡ some (1, t) = sym (no_mapping q (last_time 7 1)) ∙ e in
    absurd (ground (arith, no))

nf_process-unsolicited_example :
    (m' : FlowManager) × (nf_process config start 0 7
        (answer_ip ip)
        (record { src_port = 80; dst_port = 1025 })
      ≡ some (dropped 0 (answer_ip ip) (record { src_port = 80; dst_port = 1025 }), m'))
    × IsNat 3 7 m'
    × ((q : FlowId) → mapping m' q ≡ young start-IsNat config 7 (omega arith) q)
nf_process-unsolicited_example =
    nf_process-unsolicited start-IsNat config 7 (omega arith) (answer_ip ip)
      (record { src_port = 80; dst_port = 1025 }) 1 (omega arith) refl unused

-- The NAT after the packet.
abbrev after : FlowManager
after =
    (nf_process-translated start-IsNat config 7 (omega arith) 1 ip ports
      (λ e. absurd (omega arith))).1

-- The flow lives in it.
flow_lives :
    IsNat 3 7 after
    × (after.start_port ≡ 1024)
    × (after.expiration_time ≡ 1)
    × ((i : ℕ) × (mapping after (flow_of 1 ip ports) ≡ some (i, pos 7)))
unfolding recent
flow_lives =
    let id = flow_of 1 ip ports in
    let (index, m1, _, serves, r1, keep, same_port, view) =
      nf_process-translated start-IsNat config 7 (omega arith) 1 ip ports
        (λ e. absurd (omega arith)) in
    let (i, e, _) : (i : ℕ) × (index ≡ some i) × (i < 3) =
      subst (λ o. Serves 3 o true index) (no_mapping id (last_time 7 1)) serves in
    (r1, same_port, keep, (i, view id ∙ rw e refl))

abbrev index : ℕ
index = flow_lives.3.0

lives_on : young flow_lives.0 config 900 (omega arith) (flow_of 1 ip ports) ≡ some (index, pos 7)
lives_on =
    rw (flow_lives.3.1, flow_lives.2)
      (not_old index 7 900 1 (omega arith) (omega arith) (omega arith))

nf_process-translated_back_example :
    (m' : FlowManager) × (nf_process config after 0 900
        (answer_ip ip)
        (record { src_port = 80; dst_port = 1024 + index })
      ≡ some (
        record { device = 1; ip = answer_ip ip; ports = record { src_port = 80; dst_port = 1000 } },
        m',
      ))
    × IsNat 3 900 m'
    × ((q : FlowId)
        → mapping m' q ≡ (
            if flow_eq (flow_of 1 ip ports) q
            then some (index, pos 900)
            else young flow_lives.0 config 900 (omega arith) q))
nf_process-translated_back_example =
    nf_process-translated_back flow_lives.0 config 900 (omega arith) (answer_ip ip)
      (record { src_port = 80; dst_port = 1024 + index }) (flow_of 1 ip ports) index (pos 7)
      lives_on (ap (λ k. k + index) (sym flow_lives.1))

-- The same packet that says to be of another protocol goes back.
other_protocol :
    (m' : FlowManager) × (nf_process config after 0 900
        (record (answer_ip ip) { next_proto_id = 17 })
        (record { src_port = 80; dst_port = 1024 + index })
      ≡ some (
        record {
          device = 0;
          ip = record { src_addr = 20; dst_addr = 10; next_proto_id = 17 };
          ports = record { src_port = 80; dst_port = 1024 + index };
        },
        m',
      ))
other_protocol =
    let (m', e, _, _) =
      nf_process-translated_back flow_lives.0 config 900 (omega arith)
        (record (answer_ip ip) { next_proto_id = 17 })
        (record { src_port = 80; dst_port = 1024 + index }) (flow_of 1 ip ports) index (pos 7)
        lives_on (ap (λ k. k + index) (sym flow_lives.1)) in
    (m', e)
