-- ===== src/Balancer/Heartbeat.antt =====
-- `lb_process_heartbit`: a backend that shows itself is active.
use vigor.Prelude.{
  ℕ, ◌%◌, ◌≤◌, ◌≡◌, refl, sym, subst, ◌∙◌, Option, some, arith, Bool-cases, Option-cases, inl, inr,
  if◌then◌else◌, ltb,
}
use vigor.Prelude.Arrays.{write}
use vigor.Prelude.Int.{ℤ, pos}
use vigor.Prelude.Lists.{length}
use vigor.MapImpl.Interface.{KeyOps, Build}
use vigor.DoubleChain.{dchain_rejuvenate_index}
use vigor.Map.Refine.{map_get-Models}
use vigor.Vector.{vector_return}
use vigor.Ether.{EtherAddr}
use vigor.ItemTable
use vigor.ItemTable.{IsItemTable, IsItemTable-later, live-known, live-same, opened}
use vigor.ItemTable.Refresh.{refresh_lem}
use vigor.ItemTable.Admit.{admit_lem, full_lem}
use vigor.Balancer.{
  LoadBalancer, LoadBalancedFlow, LoadBalancedBackend, lb_process_heartbit, refresh_or_admit,
  admit_backend, record_backend,
}
use vigor.Balancer.Flows.{IsBalancer, assigned}

module _ ⦃ops : KeyOps LoadBalancedFlow⦄ ⦃ips : KeyOps ℕ⦄ ⦃build : Build⦄ where
  -- The active backend of an address, with the time of its last heartbeat.
  abbrev pub backend_of : LoadBalancer → (ip : ℕ) → Option (LoadBalancedBackend × ℤ)
  backend_of b ip = ItemTable.live b.backends.items b.active ip

module _ ⦃ops : KeyOps LoadBalancedFlow⦄ ⦃ips : KeyOps ℕ⦄ ⦃build : Build⦄
    {flow_size backend_size now : ℕ} {b : LoadBalancer}
    (r : IsBalancer flow_size backend_size now b) (time : ℕ) (later : now ≤ time) where
  -- The invariant, when only the active backends have changed.
  active-IsBalancer :
      {after : LoadBalancer}
      → IsItemTable backend_size time after.active
      → after ≡ record b { active = after.active; backends = after.backends }
      → IsBalancer flow_size backend_size time after
  active-IsBalancer {after} table same =
      subst (IsBalancer flow_size backend_size time) (sym same) (record {
        flows = IsItemTable-later time later r.flows;
        active = table;
        capacity = r.capacity;
        ids = r.ids;
        short = r.short;
        rows = r.rows;
      })

  -- Over a sound load balancer, at a time not before the last one, `lb_process_heartbit` faults
  -- nowhere and leaves a sound load balancer. The backend of the source address is refreshed as
  -- it was first seen if it is active, becomes active with the MAC address and the device if it
  -- is not and an index is free, and is left out if none is. No other backend and no flow
  -- changes.
  pub lb_process_heartbit_lem :
      (flow : LoadBalancedFlow) (mac_addr : EtherAddr) (nic : ℕ)
      → let backend : LoadBalancedBackend = record {
        nic = nic % 65536;
        mac = mac_addr;
        ip = flow.src_ip;
      } in
        (b' : LoadBalancer) × (lb_process_heartbit b flow mac_addr nic (pos time) ≡ some b')
        × IsBalancer flow_size backend_size time b'
        × ((q : LoadBalancedFlow) → assigned b' q ≡ assigned b q)
        × ((q : ℕ)
            → backend_of b' q ≡ (
                if ips.keys_eq flow.src_ip q
                then opened
                    (backend_of b flow.src_ip)
                    (ltb (length r.active.entries) backend_size)
                    backend
                    (pos time)
                else backend_of b q))
  unfolding lb_process_heartbit refresh_or_admit admit_backend record_backend vector_return
  lb_process_heartbit_lem flow mac_addr nic =
      let ip = flow.src_ip in
      let g = map_get-Models r.active.dict b.active.map ip r.active.table.map in
      let vals = b.backends.items in
      let backend : LoadBalancedBackend = record { nic = nic % 65536; mac = mac_addr; ip = ip } in
      let was = live-known vals r.active ip in
      elim (Option-cases (r.active.dict.read ip)) [
        | inr (i, e) ↦
            let (table, _, view) = refresh_lem r.active ip i time later e in
            (
              record b {
                active = record b.active {
                  chain = (dchain_rejuvenate_index b.active.chain i (pos time)).1;
                };
              },
              rw (g, e) refl,
              active-IsBalancer table refl,
              λ q. refl,
              λ q. view LoadBalancedBackend vals vals q (λ _ _. refl) ∙ rw (was, e) refl,
            )
        | inl e ↦ elim (Bool-cases (ltb (length r.active.entries) backend_size)) [
          | inl free ↦
              let (i, chain', map', e1, e2, _, table, _, view) =
                admit_lem r.active ip time later e (ground (arith, free)) in
              let b' : LoadBalancer = record b {
                active = record {
                  chain = chain';
                  vector = vector_return b.active.vector i ip;
                  map = map';
                };
                backends = vector_return b.backends i backend;
              } in
              (
                b',
                rw (g, e) (rw (e1, e2) refl),
                active-IsBalancer table refl,
                λ q. refl,
                λ q.
                    view LoadBalancedBackend vals (write vals i backend) q (λ j ne. ground arith)
                    ∙ rw (was, e, free) (ground arith),
              )
          | inr full ↦ (
            b,
            rw (g, e) (rw (full_lem r.active time (ground (arith, full))) refl),
            active-IsBalancer (IsItemTable-later time later r.active) refl,
            λ q. refl,
            λ q. live-same vals b.active ip q ∙ rw (was, e, full) refl,
          )
        ]
      ]
