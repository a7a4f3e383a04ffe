-- ===== src/Tests/Firewall.antt =====
-- A firewall with room for three flows, and a packet and its answer.
use vigor.Prelude.{
  ℕ, ◌%◌, [], ◌∷◌, inr, ◌+◌, ◌≡◌, ◌↔◌, refl, ap, Bool, true, false, none, some, arith, ◌==◌, ◌&&◌,
  if◌then◌else◌,
}
use vigor.Prelude.Int.{pos}
use vigor.Prelude.Arrays.{u32}
use vigor.MapImpl.{Table}
use vigor.MapImpl.Interface.{KeyOps}
use vigor.DoubleChain.Entries.{recent}
use vigor.Packet.{Ipv4Hdr, TcpudpHdr}
use vigor.Firewall.{FlowId, FlowManager, nf_process, flow_of}
use vigor.ItemTable.{opened}
use vigor.ItemTable.Expire.{unless_old}
use vigor.Prelude.Time.{last_time}
use vigor.Firewall.Table.{live, IsFlowTable}
use vigor.Firewall.Process.{
  verdict, alive, has_room, nf_process-outside, nf_process-no_header, nf_process-inside,
  nf_process-reply,
}
use vigor.Firewall.History.{Packet, WasOpened, nothing_yet, packet, let_in_by_request}
use vigor.Tests.Keys.{build}
use vigor.Tests.Start.{no_items, no_items-IsItemTable, nothing_lives}

abbrev flow_eq : FlowId → FlowId → Bool
flow_eq a b =
    a.src_port == b.src_port
    && a.dst_port == b.dst_port
    && a.src_ip == b.src_ip
    && a.dst_ip == b.dst_ip
    && a.protocol == b.protocol

flow_eq_iff : (a b : FlowId) → (flow_eq a b ≡ true) ↔ (a ≡ b)
flow_eq_iff a b = ground arith

instance abbrev flow_keys : KeyOps FlowId
flow_keys = record {
  keys_eq = flow_eq;
  khash = λ a. u32 (a.src_port + a.dst_ip);
  keys_eq_iff = flow_eq_iff;
  khash-lt = λ a. omega arith;
}

abbrev memory : Table FlowId
memory = record {
  busybits = λ _. 7;
  keyps = λ i. record { src_port = i; dst_port = 1; src_ip = 2; dst_ip = 3; protocol = 17 };
  khs = λ _. 3;
  chns = λ _. 9;
  vals = λ _. 1;
}

-- No flow yet; flows expire after a microsecond.
abbrev start : FlowManager
start = record {
  items = no_items memory;
  int_devices = record { items = λ _. 0; capacity = 3 };
  expiration_time = 1;
}

abbrev start-IsFlowTable : IsFlowTable 3 5 start
start-IsFlowTable = record { flows = no_items-IsItemTable memory }

abbrev ip : Ipv4Hdr
ip = record { src_addr = 10; dst_addr = 20; next_proto_id = 6 }

abbrev ports : TcpudpHdr
ports = record { src_port = 1000; dst_port = 80 }

-- The headers of the answer.
abbrev ip' : Ipv4Hdr
ip' = record { src_addr = 20; dst_addr = 10; next_proto_id = 6 }

abbrev ports' : TcpudpHdr
ports' = record { src_port = 80; dst_port = 1000 }

nf_process-outside_example :
    (m' : FlowManager) × (nf_process start 0 0 7 (some ip') (some ports')
      ≡ some (verdict 0 (alive start-IsFlowTable 0 7 (omega arith) (flow_of ip ports)), m'))
    × IsFlowTable 3 7 m'
    × ((q : FlowId)
        → live m' q ≡ (
            if flow_eq (flow_of ip ports) q
            then opened
                (alive start-IsFlowTable 0 7 (omega arith) (flow_of ip ports))
                false
                0
                (pos 7)
            else alive start-IsFlowTable 0 7 (omega arith) q))
nf_process-outside_example = nf_process-outside start-IsFlowTable 0 7 (omega arith) ip' ports'

nf_process-inside_example :
    (m' : FlowManager) × (nf_process start 0 1 7 (some ip) (some ports) ≡ some (0, m'))
    × IsFlowTable 3 7 m'
    × (m'.expiration_time ≡ 1)
    × ((q : FlowId)
        → live m' q ≡ (
            if flow_eq (flow_of ip ports) q
            then opened
                (alive start-IsFlowTable 0 7 (omega arith) (flow_of ip ports))
                (has_room start-IsFlowTable 0 7 (omega arith))
                1
                (pos 7)
            else alive start-IsFlowTable 0 7 (omega arith) q))
nf_process-inside_example =
    nf_process-inside start-IsFlowTable 0 7 (omega arith) 1 ip ports (λ e. absurd (omega arith))

no_flow : live start (flow_of ip ports) ≡ none
no_flow = nothing_lives memory start.int_devices.items (flow_of ip ports)

nf_process-reply_example :
    (m1 : FlowManager) × (m2 : FlowManager) × (nf_process start 0 1 7 (some ip) (some ports)
      ≡ some (0, m1))
    × (nf_process m1 0 0 900 (some ip') (some ports') ≡ some (1, m2))
unfolding recent
nf_process-reply_example =
    nf_process-reply start-IsFlowTable 0 1 7 900 ip ip' ports ports' (omega arith) (omega arith)
      (omega arith) (omega arith) (omega arith) (λ e. absurd (omega arith)) (omega arith) refl
      (ap (unless_old (last_time 7 1)) no_flow) (omega arith)

nf_process-no_header_example :
    (m' : FlowManager) × (nf_process start 0 1 7 (some ip) none ≡ some (1, m'))
    × IsFlowTable 3 7 m'
    × ((q : FlowId) → live m' q ≡ alive start-IsFlowTable 0 7 (omega arith) q)
nf_process-no_header_example =
    nf_process-no_header start-IsFlowTable 0 7 (omega arith) 1 (some ip) none (inr refl)

abbrev request : Packet
request = record { device = 1; time = 7; ipv4 = some ip; tcpudp = some ports }

let_in_by_request_example :
    (device : ℕ) × (1 ≡ device % 65536) × WasOpened 0 (flow_of ip ports) device (request ∷ [])
unfolding recent
let_in_by_request_example =
    let (m1, m2, e, e') =
      nf_process-reply start-IsFlowTable 0 1 7 900 ip ip' ports ports' (omega arith) (omega arith)
        (omega arith) (omega arith) (omega arith) (λ e. absurd (omega arith)) (omega arith) refl
        (ap (unless_old (last_time 7 1)) no_flow) (omega arith) in
    let_in_by_request 0 3 start-IsFlowTable (nothing_lives memory start.int_devices.items) 900 1 ip'
      ports' (packet request 0 nothing_yet (omega arith) e) (omega arith) e'
      (λ e. absurd (omega arith))
