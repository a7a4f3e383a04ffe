-- ===== src/Balancer.antt =====
-- viglb/lb_balancer.c: a load balancer that keeps a flow at its backend while the backend lives.
pub mod Flows
pub mod Backend
pub mod Heartbeat
pub mod Main
pub mod Process
pub mod Filled
use vigor.Prelude.{ℕ, suc, zero, ◌%◌, Option, none, some, if◌then◌else◌}
use vigor.Prelude.Int.{ℤ}
use vigor.Prelude.Time.{last_time}
use vigor.MapImpl.Interface.{KeyOps, Build}
use vigor.DoubleChain.{
  DoubleChain, dchain_allocate_new_index, dchain_rejuvenate_index, dchain_is_index_allocated,
  dchain_free_index,
}
use vigor.Vector.{Vector, vector_borrow, vector_return}
use vigor.Map.{Map, map_get, map_put, map_erase}
use vigor.Expirator.{Items, or_key, expire_items_single_map}
use vigor.Ether.{EtherAddr}
use vigor.Cht.{cht_find_preferred_available_backend}

-- `struct LoadBalancedFlow`
pub record LoadBalancedFlow : Type 0 where
  pub src_ip : ℕ
  pub dst_ip : ℕ
  pub src_port : ℕ
  pub dst_port : ℕ
  pub protocol : ℕ

-- `struct LoadBalancedBackend`
pub record LoadBalancedBackend : Type 0 where
  pub nic : ℕ
  pub mac : EtherAddr
  pub ip : ℕ

-- `struct LoadBalancer` with its `struct State`: `flow_chain`, `flow_heap` and `flow_to_flow_id`
-- are the flows, `active_backends`, `backend_ips` and `ip_to_backend_id` are the active backends.
pub record LoadBalancer : Type 0 where
  pub flows : Items LoadBalancedFlow
  pub flow_id_to_backend_id : Vector ℕ
  pub active : Items ℕ
  pub backends : Vector LoadBalancedBackend
  pub cht : Vector ℕ
  pub cht_height : ℕ
  pub backend_capacity : ℕ
  pub flow_expiration_time : ℕ
  pub backend_expiration_time : ℕ

-- An element that is borrowed, read and given back.
abbrev pub returned {ℓ} : {A : Type ℓ} → Vector A → ℕ → Vector A
returned v i = vector_return v i (vector_borrow v i)

module _ ⦃ops : KeyOps LoadBalancedFlow⦄ ⦃build : Build⦄ where
  unfoldable pub with_flows :
      LoadBalancer → Option (ℕ × Items LoadBalancedFlow) → Option LoadBalancer
  with_flows b none = none
  with_flows b (some (count, flows)) = some (record b { flows = flows })

  -- The branch of a flow whose backend is active.
  unfoldable pub keep_backend :
      LoadBalancer → (flow_index backend_index : ℕ) → ℤ → LoadBalancedBackend × LoadBalancer
  keep_backend b flow_index backend_index now = (
    vector_borrow b.backends backend_index,
    record b {
      flows = record b.flows { chain = (dchain_rejuvenate_index b.flows.chain flow_index now).1 };
      flow_id_to_backend_id = returned b.flow_id_to_backend_id flow_index;
      backends = returned b.backends backend_index;
    },
  )

  -- The flow is taken out, since its backend is not active any more.
  unfoldable pub drop_flow : LoadBalancer → LoadBalancedFlow → (flow_index : ℕ) → LoadBalancer
  drop_flow b flow flow_index =
      let (map, trash) = map_erase b.flows.map flow in
      record b {
        flows = record {
          chain = (dchain_free_index b.flows.chain flow_index).1;
          vector =
              vector_return b.flows.vector flow_index
                (or_key trash (vector_borrow b.flows.vector flow_index));
          map = map;
        };
        flow_id_to_backend_id = returned b.flow_id_to_backend_id flow_index;
      }

  -- `map_put` and the two vectors; `none` is its fault.
  unfoldable pub record_flow :
      LoadBalancer
      → LoadBalancedFlow
      → (backend_index flow_index : ℕ) → DoubleChain
      → Option (Map LoadBalancedFlow)
      → Option LoadBalancer
  record_flow b flow backend_index flow_index chain none = none
  record_flow b flow backend_index flow_index chain (some stored) = some (record b {
    flows = record {
      chain = chain;
      vector = vector_return b.flows.vector flow_index flow;
      map = stored;
    };
    flow_id_to_backend_id = vector_return b.flow_id_to_backend_id flow_index backend_index;
  })

  -- The part behind `dchain_allocate_new_index`.
  unfoldable pub admit_flow :
      LoadBalancer
      → LoadBalancedFlow
      → (backend_index : ℕ) → Option ℕ × DoubleChain
      → Option LoadBalancer
  admit_flow b flow backend_index (none, chain) =
      some (record b { flows = record b.flows { chain = chain } })
  admit_flow b flow backend_index (some flow_index, chain) =
      record_flow b flow backend_index flow_index chain (map_put b.flows.map flow flow_index)

  unfoldable pub read_backend :
      (backend_index : ℕ) → Option LoadBalancer → Option (Option LoadBalancedBackend × LoadBalancer)
  read_backend backend_index none = none
  read_backend backend_index (some b) = some (
    some (vector_borrow b.backends backend_index),
    record b { backends = returned b.backends backend_index },
  )

  -- The branch of an unknown flow, by the choice of a backend.
  unfoldable pub place :
      LoadBalancer
      → LoadBalancedFlow
      → ℤ
      → Option ℕ × Vector ℕ
      → Option (Option LoadBalancedBackend × LoadBalancer)
  place b flow now (none, cht) = some (none, record b { cht = cht })
  place b flow now (some backend_index, cht) = read_backend backend_index (
      admit_flow (record b { cht = cht }) flow backend_index
        (dchain_allocate_new_index b.flows.chain now))

  -- The hash of the flow is its hash in the map.
  unfoldable pub place_new :
      LoadBalancer → LoadBalancedFlow → ℤ → Option (Option LoadBalancedBackend × LoadBalancer)
  place_new b flow now = place b flow now (
      cht_find_preferred_available_backend (ops.khash flow) b.cht b.active.chain b.cht_height
        b.backend_capacity)

  unfoldable pub got :
      LoadBalancedBackend × LoadBalancer → Option (Option LoadBalancedBackend × LoadBalancer)
  got (backend, b) = some (some backend, b)

  -- The part behind `map_get`, with `again` for the recursive call.
  unfoldable pub keep_or_place :
      (LoadBalancer → Option (Option LoadBalancedBackend × LoadBalancer))
      → LoadBalancer
      → LoadBalancedFlow
      → ℤ
      → Option ℕ
      → Option (Option LoadBalancedBackend × LoadBalancer)
  keep_or_place again b flow now none = place_new b flow now
  keep_or_place again b flow now (some flow_index) =
      let backend_index = vector_borrow b.flow_id_to_backend_id flow_index in
      if dchain_is_index_allocated b.active.chain backend_index
      then got (keep_backend b flow_index backend_index now)
      else again (drop_flow b flow flow_index)

  -- The outer `none` is the end of the fuel, or the fault of `map_put`. The inner one is the backend
  -- with the WAN device alone, where the packet is dropped.
  unfoldable pub lb_get_backend :
      (fuel : ℕ)
      → LoadBalancer
      → LoadBalancedFlow
      → ℤ
      → Option (Option LoadBalancedBackend × LoadBalancer)
  lb_get_backend zero b flow now = none
  lb_get_backend (suc fuel) b flow now =
      keep_or_place (λ b'. lb_get_backend fuel b' flow now) b flow now (map_get b.flows.map flow)

  unfoldable pub lb_expire_flows : LoadBalancer → (time : ℕ) → Option LoadBalancer
  lb_expire_flows b time =
      with_flows b (expire_items_single_map b.flows (last_time time b.flow_expiration_time))

module _ ⦃ips : KeyOps ℕ⦄ ⦃build : Build⦄ where
  unfoldable pub with_active : LoadBalancer → Option (ℕ × Items ℕ) → Option LoadBalancer
  with_active b none = none
  with_active b (some (count, active)) = some (record b { active = active })

  unfoldable pub lb_expire_backends : LoadBalancer → (time : ℕ) → Option LoadBalancer
  lb_expire_backends b time =
      with_active b (expire_items_single_map b.active (last_time time b.backend_expiration_time))

  -- `map_put` and the two vectors; `none` is its fault.
  unfoldable pub record_backend :
      LoadBalancer
      → LoadBalancedBackend
      → (backend_index : ℕ) → DoubleChain
      → Option (Map ℕ)
      → Option LoadBalancer
  record_backend b backend backend_index chain none = none
  record_backend b backend backend_index chain (some stored) = some (record b {
    active = record {
      chain = chain;
      vector = vector_return b.active.vector backend_index backend.ip;
      map = stored;
    };
    backends = vector_return b.backends backend_index backend;
  })

  unfoldable pub admit_backend :
      LoadBalancer → LoadBalancedBackend → Option ℕ × DoubleChain → Option LoadBalancer
  admit_backend b backend (none, chain) =
      some (record b { active = record b.active { chain = chain } })
  admit_backend b backend (some backend_index, chain) =
      record_backend b backend backend_index chain (map_put b.active.map backend.ip backend_index)

  -- The part behind `map_get`.
  unfoldable pub refresh_or_admit :
      LoadBalancer → LoadBalancedBackend → ℤ → Option ℕ → Option LoadBalancer
  refresh_or_admit b backend now none =
      admit_backend b backend (dchain_allocate_new_index b.active.chain now)
  refresh_or_admit b backend now (some backend_index) = some (record b {
    active = record b.active {
      chain = (dchain_rejuvenate_index b.active.chain backend_index now).1;
    };
  })

  unfoldable pub lb_process_heartbit :
      LoadBalancer → LoadBalancedFlow → (mac_addr : EtherAddr) → (nic : ℕ) → ℤ → Option LoadBalancer
  lb_process_heartbit b flow mac_addr nic now =
      refresh_or_admit b (record { nic = nic % 65536; mac = mac_addr; ip = flow.src_ip }) now
        (map_get b.active.map flow.src_ip)
