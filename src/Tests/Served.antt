-- ===== src/Tests/Served.antt =====
-- A load balancer over a filled consistent hash, after the first heartbeat of a backend.
use vigor.Prelude.{
  ℕ, ◌%◌, ◌≡◌, refl, sym, ◌∙◌, ap, subst, true, Option, none, some, arith, ltb, if◌then◌else◌,
}
use vigor.Prelude.Int.{ℤ, pos}
use vigor.DoubleChain.Entries.{has}
use vigor.Vector.{Vector, vector_return}
use vigor.Cht.{cht_fill_cht}
use vigor.Cht.Fill.{cht_fill_cht_lem}
use vigor.Packet.{Ipv4Hdr, TcpudpHdr}
use vigor.Prelude.Lists.{length}
use vigor.Ether.{rte_ether_addr_allocate}
use vigor.Balancer.{
  LoadBalancer, LoadBalancedFlow, LoadBalancedBackend, lb_get_backend, lb_process_heartbit,
}
use vigor.Balancer.Flows.{assigned, IsBalancer, backend_at, preferred, is_active}
use vigor.Balancer.Backend.{Served}
use vigor.Balancer.Main.{nf_process}
use vigor.Balancer.Process.{Expired, sent_on, nf_process-balanced}
use vigor.Balancer.Heartbeat.{backend_of, lb_process_heartbit_lem}
use vigor.Balancer.Filled.{
  hash_of, choice-IsActive, lb_process_heartbit-hash_of, lb_get_backend-serves,
}
use vigor.ItemTable.{opened, live, IsItemTable, IsItemTable-later}
use vigor.ItemTable.Admit.{admit_lem}
use vigor.ItemTable.Expire.{unless_old}
use vigor.Map.{Map}
use vigor.DoubleChain.{DoubleChain}
use vigor.Prelude.Time.{last_time}
use vigor.Tests.Keys.{build, number_keys, dirt, or_else}
use vigor.Tests.Start.{nothing_lives}
use vigor.Tests.Cht.{five-IsSize}
use vigor.Tests.Balancer.{flow_keys, flow_eq, flow, start, start-IsBalancer}

abbrev unfilled : Vector ℕ
unfilled = record { items = λ _. 9; capacity = 15 }

abbrev filled : Vector ℕ
filled = (cht_fill_cht (some (λ _. 7)) (some (λ _. 7)) unfilled 5 3).1

-- The balancer of the other tests with five buckets.
abbrev idle : LoadBalancer
idle = record start { cht = filled; cht_height = 5 }

idle-IsBalancer : IsBalancer 3 3 5 idle
idle-IsBalancer =
    let (_, rows) = cht_fill_cht_lem (λ _. 7) (λ _. 7) unfilled five-IsSize in
    record {
      flows = start-IsBalancer.flows;
      active = start-IsBalancer.active;
      capacity = refl;
      ids = start-IsBalancer.ids;
      short = λ hash. omega arith;
      rows = λ hash j l. (rows (hash % 5) (omega arith)).in_range j l;
    }

abbrev heard : LoadBalancedBackend
heard = record { nic = 2; mac = rte_ether_addr_allocate; ip = 10 }

-- A heartbeat of the address 10.
serving : LoadBalancer
serving = or_else idle (lb_process_heartbit idle flow rte_ether_addr_allocate 2 (pos 7))

serving-IsBalancer :
    IsBalancer 3 3 7 serving
    × (hash_of serving ≡ hash_of idle)
    × (backend_of serving 10 ≡ some (heard, pos 7))
unfolding serving idle-IsBalancer
serving-IsBalancer =
    let (b', e, sound, _, view) =
      lb_process_heartbit_lem idle-IsBalancer 7 (omega arith) flow rte_ether_addr_allocate 2 in
    let keeps = lb_process_heartbit-hash_of idle b' flow rte_ether_addr_allocate 2 (pos 7) e in
    let nobody : backend_of idle 10 ≡ none = nothing_lives dirt idle.backends.items 10 in
    let now : backend_of b' 10 ≡ some (heard, pos 7) =
      view 10 ∙ ap (λ (o : Option (LoadBalancedBackend × ℤ)). opened o true heard (pos 7)) nobody in
    subst
      (λ b.
        IsBalancer 3 3 7 b × (hash_of b ≡ hash_of idle) × (backend_of b 10 ≡ some (heard, pos 7)))
      (sym (ap (or_else idle) e)) (sound, keeps, now)

lb_get_backend-serves_example :
    (v : ℕ) × (after : LoadBalancer) × (lb_get_backend 2 serving flow (pos 8)
      ≡ some (some (serving.backends.items v), after))
    × (has v serving-IsBalancer.0.active.entries ≡ true)
lb_get_backend-serves_example =
    let height : serving.cht_height ≡ 5 = ap (λ (h : Vector ℕ × ℕ). h.1) serving-IsBalancer.1 in
    let table : serving.cht ≡ filled = ap (λ (h : Vector ℕ × ℕ). h.0) serving-IsBalancer.1 in
    lb_get_backend-serves serving-IsBalancer.0 flow 8 (omega arith) 0 10 (heard, pos 7) (λ _. 7)
      (λ _. 7) unfilled (rw height five-IsSize) (rw height table) serving-IsBalancer.2

abbrev ip : Ipv4Hdr
ip = record { src_addr = 10; dst_addr = 20; next_proto_id = 6 }

abbrev ports : TcpudpHdr
ports = record { src_port = 1000; dst_port = 80 }

-- The backend of the address 10 in the table of active ones, since the time 7.
abbrev admitted :
    (i : ℕ) × (chain' : DoubleChain) × (map' : Map ℕ) × IsItemTable 3 7
      (record { chain = chain'; vector = vector_return idle.active.vector i 10; map = map' })
    × (live
          (λ _. heard)
          (record { chain = chain'; vector = vector_return idle.active.vector i 10; map = map' })
          10
        ≡ some (heard, pos 7))
admitted =
    let (i, chain', map', _, _, _, table, _, view) =
      admit_lem start-IsBalancer.active 10 7 (omega arith) refl (omega arith) in
    (i, chain', map', table, view LoadBalancedBackend (λ _. heard) (λ _. heard) 10 (λ j ne. refl))

abbrev lively : LoadBalancer
lively = record idle {
  active = record {
    chain = admitted.1;
    vector = vector_return idle.active.vector admitted.0 10;
    map = admitted.2;
  };
  backends = record { items = λ _. heard; capacity = 3 };
}

lively-IsBalancer : IsBalancer 3 3 7 lively
lively-IsBalancer = record {
  flows = IsItemTable-later 7 (omega arith) idle-IsBalancer.flows;
  active = admitted.3;
  capacity = refl;
  ids = idle-IsBalancer.ids;
  short = idle-IsBalancer.short;
  rows = idle-IsBalancer.rows;
}

nf_process-balanced_example :
    (b1 : LoadBalancer) × (x : Expired lively-IsBalancer 8 b1) × (choice : Option ℕ) × (new : Option
      (ℕ × ℤ))
    × (after : LoadBalancer) × Served
        (preferred x.sound flow 8 (omega arith))
        (is_active x.sound flow 8 (omega arith))
        3
        (ltb (length x.sound.flows.entries) 3)
        (pos 8)
        (assigned b1 flow)
        choice
        new
    × (nf_process 0 lively 0 8 rte_ether_addr_allocate ip ports
        ≡ some (sent_on 0 ip (backend_at lively choice), after))
    × IsBalancer 3 3 8 after
    × ((q : LoadBalancedFlow) → assigned after q ≡ (if flow_eq flow q then new else assigned b1 q))
nf_process-balanced_example =
    nf_process-balanced lively-IsBalancer 8 0 rte_ether_addr_allocate ip ports (omega arith)

-- The packet goes to the device and the address of the backend, which is the only one.
balanced_to_backend :
    (after : LoadBalancer) × (nf_process 0 lively 0 8 rte_ether_addr_allocate ip ports
      ≡ some (record { device = 2; ip = record ip { dst_addr = 10 } }, after))
unfolding last_time
balanced_to_backend =
    let (b1, x, choice, new, after, served, e, _, _) =
      nf_process-balanced lively-IsBalancer 8 0 rte_ether_addr_allocate ip ports (omega arith) in
    let stays : backend_of b1 10 ≡ some (heard, pos 7) =
      x.backends_left 10 ∙ ap (unless_old (last_time 8 1)) admitted.4 in
    let (v, chosen, _) =
      choice-IsActive x.sound flow 8 (omega arith) 10 (heard, pos 7) (λ _. 7) (λ _. 7) unfilled
        choice (rw x.same_height five-IsSize) (x.same_cht ∙ rw x.same_height refl) stays served in
    (after, e ∙ ap (λ o. some (sent_on 0 ip (backend_at lively o), after)) chosen)
