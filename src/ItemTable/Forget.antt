-- ===== src/ItemTable/Forget.antt =====
-- An item is taken out: its key leaves the map, and its index is free again.
use vigor.Prelude.Arrays.{Array}
use vigor.Prelude.{
  ℕ, ◌-◌, ◌<◌, ◌≡◌, refl, sym, ◌∙◌, ap, true, none, some, arith, Bool-cases, inl, inr, ◌==◌,
  if◌then◌else◌, Option-cases,
}
use vigor.Prelude.Int.{pos}
use vigor.Prelude.Lists.{length}
use vigor.MapImpl.Interface.{KeyOps, Build}
use vigor.DoubleChain.Entries.{without, has-without, length-without}
use vigor.DoubleChain.Order.{time_of-without, Sorted-without, Until-without}
use vigor.DoubleChain.Refine.{dchain_free_index_lem, has-lt, length-le}
use vigor.DoubleChain.{dchain_free_index}
use vigor.Map.{map_erase}
use vigor.Map.Dict.{Dict, update, erase}
use vigor.Map.Refine.{map_erase-Models}
use vigor.Expirator.{Items}
use vigor.Expirator.Coherent.{IsCoherent}
use vigor.ItemTable.{live, known, live-known, IsItemTable}

module _ {ℓ} {K : Type ℓ} ⦃ops : KeyOps K⦄ ⦃build : Build⦄ {size now : ℕ} {items : Items K}
    (r : IsItemTable size now items) (id : K) (i : ℕ) (found : r.dict.read id ≡ some i) where
  without-IsCoherent :
      IsCoherent
        (without i r.entries)
        items.vector.items
        (record { read = update r.dict.read id none; size = r.dict.size - 1 })
  without-IsCoherent =
      let es = r.entries in
      let c = r.table.coherent in
      let once = r.table.chain.holds.al_once in
      let (here, key) = c.stored id i found in
      record {
        present = λ j h. ground (
          arith,
          h,
          has-without i j es once,
          c.present j,
          ops.keys_eq_iff id (items.vector.items j),
          found,
        );
        stored = λ k j h.
            ground (arith, h, has-without i j es once, c.stored k j, ops.keys_eq_iff id k, key);
        sized = omega (arith, length-without i es here, c.sized);
      }

  forgotten-view :
      {V : Type 0} (values : Array V) (q : K)
      → known values (without i r.entries) (update r.dict.read id none q)
        ≡ (if ops.keys_eq id q then none else known values r.entries (r.dict.read q))
  forgotten-view values q = elim (Bool-cases (ops.keys_eq id q)) [
    | inl alike ↦ rw alike refl
    | inr other ↦ rw other (elim (Option-cases (r.dict.read q)) [
      | inl e ↦ rw e refl
      | inr (j, e) ↦
          let (there, key') = r.table.coherent.stored q j e in
          let (here, key) = r.table.coherent.stored id i found in
          elim (Bool-cases (j == i)) [
            | inr apart ↦ rw e (ap (λ t. some (values j, t)) (time_of-without j i r.entries apart))
            | inl same ↦
                let eq : j ≡ i = ground (arith, same) in
                let alike : ops.keys_eq id q ≡ true =
                  (ops.keys_eq_iff id q).1 (sym key ∙ ap items.vector.items (sym eq) ∙ key') in
                absurd (ground (arith, alike, other))
          ]
    ])
  ]

  -- The items without the one of the key.
  abbrev pub forgotten : Items K
  forgotten = record items {
    chain = (dchain_free_index items.chain i).1;
    map = (map_erase items.map id).0;
  }

  pub forget_lem :
      (r' : IsItemTable size now forgotten) × (r'.dict.read id ≡ none)
      × (length r'.entries < size)
      × ((map_erase items.map id).1 ≡ some id)
      × ((V : Type 0) (values : Array V) (q : K)
          → live values forgotten q ≡ (if ops.keys_eq id q then none else live values items q))
  unfolding erase
  forget_lem =
      let es = r.entries in
      let (here, key) = r.table.coherent.stored id i found in
      let (_, chain) = dchain_free_index_lem r.table.chain i (has-lt i r.table.chain here) in
      let d' : Dict K = record { read = update r.dict.read id none; size = r.dict.size - 1 } in
      let gone : erase r.dict id ≡ some d' = rw found refl in
      let (trash, cap, map) = map_erase-Models r.dict d' items.map id r.table.map gone in
      let r' : IsItemTable size now forgotten = record {
        entries = without i es;
        dict = d';
        table = record {
          room = r.table.room;
          few = r.table.few;
          map_room = omega (arith, cap, r.table.map_room);
          chain = (rw here at chain);
          map = map;
          coherent = without-IsCoherent;
        };
        sorted = Sorted-without (pos 0) i es r.sorted;
        until = Until-without (pos now) i es r.until;
      } in
      (
        r',
        rw ((ops.keys_eq_iff id id).1 refl) refl,
        omega (arith, length-without i es here, length-le r.table.chain),
        trash,
        λ _ values q.
            live-known values r' q ∙ forgotten-view values q ∙ rw (live-known values r q) refl,
      )
