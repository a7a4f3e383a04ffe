-- ===== src/Firewall/Outbound.antt =====
-- `flow_manager_allocate_or_refresh_flow` and `flow_manager_get_refresh_flow`.
use vigor.Prelude.{
  ℕ, ◌≤◌, ◌≡◌, refl, sym, ◌∙◌, ap, false, Option, none, some, arith, Bool-cases, inl, inr,
  if◌then◌else◌, Option-cases, ltb,
}
use vigor.Prelude.Int.{ℤ, pos}
use vigor.Prelude.Lists.{length}
use vigor.MapImpl.Interface.{KeyOps, Build}
use vigor.DoubleChain.Order.{time_of}
use vigor.DoubleChain.{dchain_rejuvenate_index}
use vigor.Map.Refine.{map_get-Models}
use vigor.Vector.Borrow.{vector_return-borrow}
use vigor.Vector.{vector_return, Vector, vector_borrow}
use vigor.Firewall.{
  FlowId, FlowManager, with_chain, flow_manager_allocate_or_refresh_flow, refresh_or_admit,
  admit_flow, record_flow, flow_manager_get_refresh_flow, refresh_known,
}
use vigor.Firewall.Table.{live, IsFlowTable}
use vigor.ItemTable.{live-known, live-same, opened, IsItemTable-later}
use vigor.ItemTable.Refresh.{refresh_lem}
use vigor.ItemTable.Admit.{admit_lem, full_lem}
use vigor.Prelude.Arrays.{write}

abbrev pub device_of : Option (ℕ × ℤ) → Option ℕ
device_of none = none
device_of (some (device, t)) = some device

module _ ⦃ops : KeyOps FlowId⦄ ⦃build : Build⦄ {size now : ℕ} {m : FlowManager}
    (r : IsFlowTable size now m) where
  -- When no index is free, a new flow changes nothing.
  refused-view :
      (id : FlowId) (device : ℕ) (time : ℤ) (q : FlowId)
      → live m id ≡ none
      → live m q ≡ (if ops.keys_eq id q then opened (live m id) false device time else live m q)
  refused-view id device time q absent = live-same m.int_devices.items m.items id q ∙ rw absent refl

  -- comment
  pub flow_manager_allocate_or_refresh_flow_lem :
      (id : FlowId) (device time : ℕ)
      → now ≤ time
      → (m' : FlowManager) × (flow_manager_allocate_or_refresh_flow m id device (pos time)
          ≡ some m')
        × IsFlowTable size time m'
        × (m'.expiration_time ≡ m.expiration_time)
        × ((q : FlowId)
            → live m' q ≡ (
                if ops.keys_eq id q
                then opened (live m id) (ltb (length r.entries) size) device (pos time)
                else live m q))
  unfolding flow_manager_allocate_or_refresh_flow refresh_or_admit admit_flow record_flow
      vector_return
  flow_manager_allocate_or_refresh_flow_lem id device time later =
      let g = map_get-Models r.dict m.items.map id r.table.map in
      let devices = m.int_devices.items in
      let was = live-known devices r.flows id in
      elim (Option-cases (r.dict.read id)) [
        | inr (i, e) ↦
            let (r', _, view) = refresh_lem r.flows id i time later e in
            (
              with_chain m (dchain_rejuvenate_index m.items.chain i (pos time)).1,
              rw (g, e) refl,
              record { flows = r' },
              refl,
              λ q. view ℕ devices devices q (λ _ _. refl) ∙ rw (was, e) refl,
            )
        | inl e ↦ elim (Bool-cases (ltb (length r.entries) size)) [
          | inl free ↦
              let (i, chain', map', e1, e2, _, r', _, view) =
                admit_lem r.flows id time later e (ground (arith, free)) in
              let m' : FlowManager = record m {
                items = record {
                  chain = chain';
                  vector = vector_return m.items.vector i id;
                  map = map';
                };
                int_devices = vector_return m.int_devices i device;
              } in
              (
                m',
                rw (g, e) (rw (e1, e2) refl),
                record { flows = r' },
                refl,
                λ q.
                    view ℕ devices (write devices i device) q (λ j ne. ground arith)
                    ∙ rw (was, e, free) (ground arith),
              )
          | inr full ↦ (
            m,
            rw (g, e) (rw (full_lem r.flows time (ground (arith, full))) refl),
            record { flows = IsItemTable-later time later r.flows },
            refl,
            λ q. rw full (refused-view id device (pos time) q (was ∙ rw e refl)),
          )
        ]
      ]

  -- What a packet from outside does for a flow that does not live and for one that does.
  unknown_flow :
      (id : FlowId) (time : ℤ)
      → r.dict.read id ≡ none
      → flow_manager_get_refresh_flow m id time ≡ (none, m)
  unfolding flow_manager_get_refresh_flow refresh_known
  unknown_flow id time e = rw (map_get-Models r.dict m.items.map id r.table.map, e) refl

  known_flow :
      (id : FlowId) (i : ℕ) (time : ℤ)
      → r.dict.read id ≡ some i
      → flow_manager_get_refresh_flow m id time ≡ (
        some (m.int_devices.items i),
        with_chain m (dchain_rejuvenate_index m.items.chain i time).1,
      )
  unfolding flow_manager_get_refresh_flow refresh_known
  known_flow id i time e =
      rw (map_get-Models r.dict m.items.map id r.table.map, e)
        (ap
            (λ (v : Vector ℕ). (
              some (vector_borrow m.int_devices i),
              with_chain (record m { int_devices = v })
                  (dchain_rejuvenate_index m.items.chain i time).1,
            ))
            (vector_return-borrow m.int_devices i)
          ∙ unfold vector_borrow in refl)

  -- On a sound table the function finds the device of the flow exactly if it is alive, and then
  -- refreshes it. No other flow changes, and the table is sound again.
  pub flow_manager_get_refresh_flow_lem :
      (id : FlowId) (time : ℕ)
      → now ≤ time
      → let (out, m') = flow_manager_get_refresh_flow m id (pos time) in
        (out ≡ device_of (live m id))
        × IsFlowTable size time m'
        × ((q : FlowId)
            → live m' q
              ≡ (if ops.keys_eq id q then opened (live m id) false 0 (pos time) else live m q))
  flow_manager_get_refresh_flow_lem id time later = elim (Option-cases (r.dict.read id)) [
    | inl e ↦
        let slot : live m id ≡ none = live-known m.int_devices.items r.flows id ∙ rw e refl in
        rw (unknown_flow id (pos time) e) (
          sym (ap device_of slot),
          record { flows = IsItemTable-later time later r.flows },
          λ q. refused-view id 0 (pos time) q slot,
        )
    | inr (i, e) ↦
        let (r', _, view) = refresh_lem r.flows id i time later e in
        let slot : live m id ≡ some (m.int_devices.items i, time_of i r.entries) =
          live-known m.int_devices.items r.flows id ∙ rw e refl in
        rw (known_flow id i (pos time) e) (
          sym (ap device_of slot),
          record { flows = r' },
          λ q.
              view ℕ m.int_devices.items m.int_devices.items q (λ _ _. refl)
              ∙ ap (λ o. if ops.keys_eq id q then opened o false 0 (pos time) else live m q)
                  (sym slot),
        )
  ]
