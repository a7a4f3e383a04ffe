-- ===== src/Nat/External.antt =====
-- `flow_manager_get_external`: the flow behind a port.
use vigor.Prelude.{
  ℕ, ◌+◌, ◌-◌, ◌≤◌, ◌<◌, ◌≡◌, ◌≢◌, refl, ◌∙◌, none, some, arith, Bool-cases, inl, inr,
  if◌then◌else◌,
}
use vigor.Prelude.Int.{ℤ, pos}
use vigor.MapImpl.Interface.{KeyOps, Build}
use vigor.DoubleChain.Entries.{has}
use vigor.DoubleChain.Order.{time_of}
use vigor.DoubleChain.{dchain_rejuvenate_index}
use vigor.DoubleChain.Refine.{dchain_is_index_allocated_lem}
use vigor.Vector.Borrow.{vector_return-borrow}
use vigor.Vector.{vector_borrow}
use vigor.ItemTable.{live-known}
use vigor.ItemTable.Refresh.{refresh_lem}
use vigor.Nat.{FlowId, FlowManager, with_chain, flow_at, flow_manager_get_external}
use vigor.Nat.Table.{mapping, IsNat, mapping-stored}

module _ ⦃ops : KeyOps FlowId⦄ ⦃build : Build⦄ {size now : ℕ} {m : FlowManager}
    (r : IsNat size now m) (i external_port time : ℕ)
    (at_port : external_port ≡ m.start_port + i) where
  -- A port of the table is in range.
  in_range :
      i < size
      → flow_manager_get_external m external_port (pos time) ≡ some (flow_at m i (pos time))
  unfolding flow_manager_get_external
  in_range l =
      let index : external_port - m.start_port ≡ i = omega (arith, at_port) in
      let room = r.table.room in rw index (ground (arith, at_port, l, room))

  -- The flow that has the port is found and refreshed.
  pub get_external-known :
      (q : FlowId) (t : ℤ)
      → now ≤ time
      → mapping m q ≡ some (i, t)
      → (m' : FlowManager) × (flow_manager_get_external m external_port (pos time)
          ≡ some (some q, m'))
        × IsNat size time m'
        × ((u : FlowId)
            → mapping m' u ≡ (if ops.keys_eq q u then some (i, pos time) else mapping m u))
  unfolding flow_at
  get_external-known q t later found =
      let (e, h, key, l) = mapping-stored r q i t found in
      let allocated = dchain_is_index_allocated_lem r.table.chain i l in
      let (flows, _, view) = refresh_lem r.flows q i time later e in
      let stored : vector_borrow m.items.vector i ≡ q = unfold vector_borrow in key in
      let m' = with_chain m (dchain_rejuvenate_index m.items.chain i (pos time)).1 in
      (
        m',
        in_range l ∙ rw (allocated, h, vector_return-borrow m.items.vector i, stored) refl,
        record { flows = flows; ports = r.ports },
        λ u. view ℕ (λ j. j) (λ j. j) u (λ _ _. refl),
      )

  -- A port that no flow has changes nothing.
  pub get_external-unknown :
      i < size
      → ((q : FlowId) (t : ℤ) → mapping m q ≢ some (i, t))
      → flow_manager_get_external m external_port (pos time) ≡ some (none, m)
  unfolding flow_at
  get_external-unknown l unused =
      let allocated = dchain_is_index_allocated_lem r.table.chain i l in
      in_range l ∙ elim (Bool-cases (has i r.entries)) [
        | inr free ↦ rw (allocated, free) refl
        | inl h ↦
            let q = m.items.vector.items i in
            let found : mapping m q ≡ some (i, time_of i r.entries) =
              live-known (λ j. j) r.flows q ∙ rw (r.table.coherent.present i h) refl in
            absurd (unused q (time_of i r.entries) found)
      ]
