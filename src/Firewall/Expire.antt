-- ===== src/Firewall/Expire.antt =====
-- `flow_manager_expire`.
use vigor.Prelude.{ℕ, ◌≡◌, refl, some}
use vigor.Prelude.Time.{last_time}
use vigor.MapImpl.Interface.{KeyOps, Build}
use vigor.DoubleChain.Entries.{recent}
use vigor.ItemTable.Expire.{unless_old, expire_lem}
use vigor.Firewall.{FlowId, FlowManager, flow_manager_expire, with_items}
use vigor.Firewall.Table.{live, IsFlowTable}

module _ ⦃ops : KeyOps FlowId⦄ ⦃build : Build⦄ {size now : ℕ} {m : FlowManager}
    (r : IsFlowTable size now m) where
  -- comment
  pub flow_manager_expire_lem :
      (time : ℕ)
      → (m' : FlowManager) × (flow_manager_expire m time ≡ some m')
        × (r' : IsFlowTable size now m') × (r'.entries
            ≡ recent (last_time time m.expiration_time) r.entries)
        × (m'.expiration_time ≡ m.expiration_time)
        × ((q : FlowId) → live m' q ≡ unless_old (last_time time m.expiration_time) (live m q))
  unfolding flow_manager_expire with_items
  flow_manager_expire_lem time =
      let (count, items', e, r', left, view) =
        expire_lem r.flows (last_time time m.expiration_time) in
      (
        record m { items = items' },
        rw e refl,
        record { flows = r' },
        left,
        refl,
        view ℕ m.int_devices.items,
      )
