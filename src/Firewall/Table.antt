-- ===== src/Firewall/Table.antt =====
-- The flow table of the firewall: the flows that live in it, with their devices.
use vigor.Prelude.{ℕ, Option}
use vigor.Prelude.Int.{ℤ}
use vigor.MapImpl.Interface.{KeyOps, Build}
use vigor.ItemTable
use vigor.ItemTable.{IsItemTable}
use vigor.Firewall.{FlowId, FlowManager}

module _ ⦃ops : KeyOps FlowId⦄ ⦃build : Build⦄ where
  -- The device and the time of last use of a flow.
  abbrev pub live : FlowManager → FlowId → Option (ℕ × ℤ)
  live m q = ItemTable.live m.int_devices.items m.items q

  -- A sound flow table at the time `now`, for `size` flows.
  pub record IsFlowTable (size now : ℕ) (m : FlowManager) : Type 0 where
    pub flows : IsItemTable size now m.items
    pub open flows use *
