-- ===== src/Tests/Balancer.antt =====
-- A load balancer with room for three flows and three backends.
use vigor.Prelude.{
  ℕ, ◌+◌, ◌%◌, ◌<◌, ◌≡◌, ◌↔◌, refl, sym, ◌∙◌, Bool, true, none, some, arith, ◌==◌, ◌&&◌, Option,
  if◌then◌else◌,
}
use vigor.Prelude.Int.{ℤ, pos}
use vigor.Prelude.Arrays.{u32}
use vigor.MapImpl.{Table}
use vigor.MapImpl.Interface.{KeyOps}
use vigor.ItemTable.{opened}
use vigor.Ether.{rte_ether_addr_allocate}
use vigor.Balancer.{LoadBalancer, LoadBalancedFlow, lb_get_backend, lb_process_heartbit}
use vigor.Balancer.Flows.{assigned, IsBalancer, preferred, is_active, Leaves}
use vigor.Balancer.Backend.{Served, lb_get_backend_lem}
use vigor.Balancer.Heartbeat.{backend_of, lb_process_heartbit_lem}
use vigor.Tests.Keys.{build, number_keys, dirt}
use vigor.Tests.Start.{no_items, no_items-IsItemTable, nothing_lives}

abbrev pub flow_eq : LoadBalancedFlow → LoadBalancedFlow → Bool
flow_eq a b =
    a.src_ip == b.src_ip
    && a.dst_ip == b.dst_ip
    && a.src_port == b.src_port
    && a.dst_port == b.dst_port
    && a.protocol == b.protocol

pub flow_eq_iff : (a b : LoadBalancedFlow) → (flow_eq a b ≡ true) ↔ (a ≡ b)
flow_eq_iff a b = ground arith

instance abbrev pub flow_keys : KeyOps LoadBalancedFlow
flow_keys = record {
  keys_eq = flow_eq;
  khash = λ a. u32 (a.src_ip + a.src_port);
  keys_eq_iff = flow_eq_iff;
  khash-lt = λ a. omega arith;
}

abbrev pub flow : LoadBalancedFlow
flow = record { src_ip = 10; dst_ip = 20; src_port = 1000; dst_port = 80; protocol = 6 }

abbrev pub memory : Table LoadBalancedFlow
memory = record { busybits = λ _. 7; keyps = λ _. flow; khs = λ _. 3; chns = λ _. 9; vals = λ _. 1 }

-- Both buckets prefer the backends in the order of their indices.
abbrev pub start : LoadBalancer
start = record {
  flows = no_items memory;
  flow_id_to_backend_id = record { items = λ _. 0; capacity = 3 };
  active = no_items dirt;
  backends = record {
    items = λ _. record { nic = 0; mac = rte_ether_addr_allocate; ip = 0 };
    capacity = 3;
  };
  cht = record { items = λ k. k % 3; capacity = 6 };
  cht_height = 2;
  backend_capacity = 3;
  flow_expiration_time = 1;
  backend_expiration_time = 1;
}

abbrev pub unassigned :
    (q : LoadBalancedFlow) (j : ℕ) (t : ℤ) → assigned start q ≡ some (j, t) → j < 3
unassigned q j t e =
    let never : none ≡ some (j, t) =
      sym (nothing_lives memory start.flow_id_to_backend_id.items q) ∙ e in
    absurd (ground (arith, never))

abbrev pub start-IsBalancer : IsBalancer 3 3 5 start
start-IsBalancer = record {
  flows = no_items-IsItemTable memory;
  active = no_items-IsItemTable dirt;
  capacity = refl;
  ids = unassigned;
  short = λ hash. omega arith;
  rows = λ hash j l. omega arith;
}

lb_get_backend_lem_example :
    (choice : Option ℕ) × (new : Option (ℕ × ℤ)) × Served
      (preferred start-IsBalancer flow 7 (omega arith))
      (is_active start-IsBalancer flow 7 (omega arith))
      3
      true
      (pos 7)
      (assigned start flow)
      choice
      new
    × Leaves start-IsBalancer flow 7 (omega arith) choice new (lb_get_backend 2 start flow (pos 7))
lb_get_backend_lem_example = lb_get_backend_lem start-IsBalancer flow 7 (omega arith) 0

lb_process_heartbit_lem_example :
    (b' : LoadBalancer) × (lb_process_heartbit start flow rte_ether_addr_allocate 2 (pos 7)
      ≡ some b')
    × IsBalancer 3 3 7 b'
    × ((q : LoadBalancedFlow) → assigned b' q ≡ assigned start q)
    × ((q : ℕ)
        → backend_of b' q ≡ (
            if 10 == q
            then opened
                (backend_of start 10)
                true
                (record { nic = 2; mac = rte_ether_addr_allocate; ip = 10 })
                (pos 7)
            else backend_of start q))
lb_process_heartbit_lem_example =
    lb_process_heartbit_lem start-IsBalancer 7 (omega arith) flow rte_ether_addr_allocate 2
