-- ===== src/Bridge/Learn.antt =====
-- `bridge_expire_entries` and `bridge_put_update_entry`, against the learned addresses.
use vigor.Prelude.{
  ℕ, ◌≤◌, ◌≡◌, refl, ◌∙◌, Option, some, arith, Bool-cases, Option-cases, inl, inr, if◌then◌else◌,
  ltb,
}
use vigor.Prelude.Arrays.{write}
use vigor.Prelude.Int.{ℤ, pos}
use vigor.Prelude.Time.{last_time}
use vigor.Prelude.Lists.{length}
use vigor.MapImpl.Interface.{KeyOps, Build}
use vigor.DoubleChain.Entries.{recent}
use vigor.DoubleChain.{dchain_rejuvenate_index}
use vigor.Map.Refine.{map_get-Models}
use vigor.Vector.{vector_return}
use vigor.Ether.{EtherAddr}
use vigor.ItemTable
use vigor.ItemTable.{IsItemTable, IsItemTable-later, live-known, live-same, opened}
use vigor.ItemTable.Refresh.{refresh_lem}
use vigor.ItemTable.Admit.{admit_lem, full_lem}
use vigor.ItemTable.Expire.{unless_old, expire_lem}
use vigor.Bridge.{
  Bridge, DynamicValue, with_items, bridge_expire_entries, bridge_put_update_entry,
  refresh_or_learn, admit_entry, record_entry,
}

module _ ⦃ops : KeyOps EtherAddr⦄ ⦃build : Build⦄ where
  -- The device that an address was learned from, and when it was last seen.
  abbrev pub learned : Bridge → EtherAddr → Option (DynamicValue × ℤ)
  learned b q = ItemTable.live b.dyn_vals.items b.items q

  -- A sound bridge at the time `now`, for `size` addresses.
  pub record IsBridge (size now : ℕ) (b : Bridge) : Type 0 where
    pub addresses : IsItemTable size now b.items
    pub open addresses use *

  -- What a call leaves of the parts that no packet changes.
  abbrev pub Keeps : Bridge → Bridge → Type 0
  Keeps b b' = (b'.st_map ≡ b.st_map) × (b'.expiration_time ≡ b.expiration_time)

module _ ⦃ops : KeyOps EtherAddr⦄ ⦃build : Build⦄ {size now : ℕ} {b : Bridge}
    (r : IsBridge size now b) (time : ℕ) where
  pub bridge_expire_entries_lem :
      (b' : Bridge) × (bridge_expire_entries b time ≡ some b')
      × (r' : IsBridge size now b') × (r'.entries
          ≡ recent (last_time time b.expiration_time) r.entries)
      × Keeps b b'
      × ((q : EtherAddr)
          → learned b' q ≡ unless_old (last_time time b.expiration_time) (learned b q))
  unfolding bridge_expire_entries with_items
  bridge_expire_entries_lem =
      let (count, items', e, r', left, view) =
        expire_lem r.addresses (last_time time b.expiration_time) in
      (
        record b { items = items' },
        rw e refl,
        record { addresses = r' },
        left,
        (refl, refl),
        view DynamicValue b.dyn_vals.items,
      )

  -- The address of a frame is refreshed, learned if there is room, or left out.
  pub bridge_put_update_entry_lem :
      (src : EtherAddr) (device : ℕ)
      → now ≤ time
      → (b' : Bridge) × (bridge_put_update_entry b src device (pos time) ≡ some b')
        × IsBridge size time b'
        × Keeps b b'
        × ((q : EtherAddr)
            → learned b' q ≡ (
                if ops.keys_eq src q
                then opened
                    (learned b src)
                    (ltb (length r.entries) size)
                    (record { device = device })
                    (pos time)
                else learned b q))
  unfolding bridge_put_update_entry refresh_or_learn admit_entry record_entry vector_return
  bridge_put_update_entry_lem src device later =
      let g = map_get-Models r.dict b.items.map src r.table.map in
      let vals = b.dyn_vals.items in
      let value : DynamicValue = record { device = device } in
      let was = live-known vals r.addresses src in
      elim (Option-cases (r.dict.read src)) [
        | inr (i, e) ↦
            let (r', _, view) = refresh_lem r.addresses src i time later e in
            (
              record b {
                items = record b.items {
                  chain = (dchain_rejuvenate_index b.items.chain i (pos time)).1;
                };
              },
              rw (g, e) refl,
              record { addresses = r' },
              (refl, refl),
              λ q. view DynamicValue vals vals q (λ _ _. refl) ∙ rw (was, e) refl,
            )
        | inl e ↦ elim (Bool-cases (ltb (length r.entries) size)) [
          | inl free ↦
              let (i, chain', map', e1, e2, _, r', _, view) =
                admit_lem r.addresses src time later e (ground (arith, free)) in
              let b' : Bridge = record b {
                items = record {
                  chain = chain';
                  vector = vector_return b.items.vector i src;
                  map = map';
                };
                dyn_vals = vector_return b.dyn_vals i value;
              } in
              (
                b',
                rw (g, e) (rw (e1, e2) refl),
                record { addresses = r' },
                (refl, refl),
                λ q.
                    view DynamicValue vals (write vals i value) q (λ j ne. ground arith)
                    ∙ rw (was, e, free) (ground arith),
              )
          | inr full ↦ (
            b,
            rw (g, e) (rw (full_lem r.addresses time (ground (arith, full))) refl),
            record { addresses = IsItemTable-later time later r.addresses },
            (refl, refl),
            λ q. live-same vals b.items src q ∙ rw (was, e, full) refl,
          )
        ]
      ]
