-- ===== src/ItemTable/Refresh.antt =====
-- An item is used again: its index becomes the youngest.
use vigor.Prelude.Arrays.{Array}
use vigor.Prelude.{
  ◌≢◌, ℕ, ◌≤◌, ◌≡◌, refl, sym, ◌∙◌, ap, true, false, ◌==◌, some, arith, [], ◌∷◌, ◌++◌, Bool-cases,
  inl, inr, if◌then◌else◌, Option-cases,
}
use vigor.Prelude.Int.{ℤ, pos}
use vigor.Prelude.Lists.{length, length-append}
use vigor.MapImpl.Interface.{KeyOps, Build}
use vigor.DoubleChain.Entries.{has, without, has-append, has-without, length-without}
use vigor.DoubleChain.Order.{
  time_of-append, time_of-without, Sorted-append, Sorted-without, Until-append, Until-without,
  Until-weaken,
}
use vigor.DoubleChain.Refine.{dchain_rejuvenate_index_lem, has-lt}
use vigor.DoubleChain.{dchain_rejuvenate_index}
use vigor.Expirator.{Items}
use vigor.ItemTable.{live, known, live-known, IsItemTable, IsCoherent-reorder}

module _ {ℓ} {K : Type ℓ} ⦃ops : KeyOps K⦄ ⦃build : Build⦄ {size now : ℕ} {items : Items K}
    (r : IsItemTable size now items) where
  -- The items when the index of the key `id` becomes the youngest entry, and nothing but its value
  -- may change.
  moved-view :
      {V : Type 0} (values values' : Array V) (id : K) (i : ℕ) (time : ℤ) (q : K)
      → ((j : ℕ) → j ≢ i → values' j ≡ values j)
      → r.dict.read id ≡ some i
      → known values' (without i r.entries ++ ((i, time) ∷ [])) (r.dict.read q) ≡ (
          if ops.keys_eq id q
          then some (values' i, time)
          else known values r.entries (r.dict.read q))
  moved-view values values' id i time q rest found = elim (Option-cases (r.dict.read q)) [
    | inl e ↦ rw e (ground (arith, e, found, ops.keys_eq_iff id q))
    | inr (j, e) ↦
        let es = r.entries in
        let (here, key) = r.table.coherent.stored id i found in
        let (there, key') = r.table.coherent.stored q j e in
        let t = time_of-append j i time (without i es) in
        let w = has-without i j es r.table.chain.holds.al_once in
        elim (Bool-cases (j == i)) [
          | inl same ↦
              let eq : j ≡ i = ground (arith, same) in
              let alike : ops.keys_eq id q ≡ true =
                (ops.keys_eq_iff id q).1 (sym key ∙ ap items.vector.items (sym eq) ∙ key') in
              rw (e, alike) (ground (arith, t, w, eq))
          | inr other ↦
              let apart : ops.keys_eq id q ≡ false =
                ground (arith, ops.keys_eq_iff id q, found, e, other) in
              rw (e, apart)
                (ground (arith, t, w, other, there, time_of-without j i es other, rest j))
        ]
  ]

  -- The item of a key is used again.
  pub refresh_lem :
      (id : K) (i time : ℕ)
      → now ≤ time
      → r.dict.read id ≡ some i
      → let items' = record items {
        chain = (dchain_rejuvenate_index items.chain i (pos time)).1;
      } in
        (r' : IsItemTable size time items') × (length r'.entries ≡ length r.entries)
        × ((V : Type 0) (values values' : Array V) (q : K)
            → ((j : ℕ) → j ≢ i → values' j ≡ values j)
            → live values' items' q
              ≡ (if ops.keys_eq id q then some (values' i, pos time) else live values items q))
  refresh_lem id i time later found =
      let es = r.entries in
      let (here, key) = r.table.coherent.stored id i found in
      let (done, chain) =
        dchain_rejuvenate_index_lem r.table.chain i (pos time) (has-lt i r.table.chain here) in
      let once = r.table.chain.holds.al_once in
      let es' = without i es ++ ((i, pos time) ∷ []) in
      let len : length es' ≡ length es =
        omega
          (arith, length-append (without i es) ((i, pos time) ∷ []), length-without i es here) in
      let same : (u : ℕ) → has u es' ≡ has u es = λ u.
        ground (
          arith,
          has-append u (without i es) ((i, pos time) ∷ []),
          has-without i u es once,
          here,
        ) in
      let until = Until-weaken (pos now) (pos time) es (omega arith) r.until in
      let r' : IsItemTable size time
          (record items { chain = (dchain_rejuvenate_index items.chain i (pos time)).1 }) =
        record {
          entries = es';
          dict = r.dict;
          table = record {
            room = r.table.room;
            few = r.table.few;
            map_room = r.table.map_room;
            chain = (rw here at chain);
            map = r.table.map;
            coherent = IsCoherent-reorder same len r.table.coherent;
          };
          sorted =
              Sorted-append (pos 0) i (pos time) (without i es) (omega arith)
                (Sorted-without (pos 0) i es r.sorted) (Until-without (pos time) i es until);
          until =
              Until-append (pos time) i (pos time) (without i es) (omega arith)
                (Until-without (pos time) i es until);
        } in
      (
        r',
        len,
        λ _ values values' q rest.
            live-known values' r' q
            ∙ moved-view values values' id i (pos time) q rest found
            ∙ rw (live-known values r q) refl,
      )
