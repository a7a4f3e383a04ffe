-- ===== src/ItemTable/Admit.antt =====
-- A new item gets a free index.
use vigor.DoubleChain.{DoubleChain}
use vigor.Map.{Map, map_put}
use vigor.Vector.{vector_return}
use vigor.Prelude.Arrays.{Array}
use vigor.Prelude.{
  ◌≢◌, ℕ, ◌+◌, ◌≤◌, ◌<◌, ◌≡◌, refl, ◌∙◌, false, none, some, arith, [], ◌∷◌, ◌++◌, Bool-cases, inl,
  inr, if◌then◌else◌, Option-cases,
}
use vigor.Prelude.Int.{ℤ, pos}
use vigor.Prelude.Lists.{length, length-append}
use vigor.MapImpl.Interface.{KeyOps, Build}
use vigor.DoubleChain.Entries.{has}
use vigor.DoubleChain.Order.{time_of-append, Sorted-append, Until-append, Until-weaken}
use vigor.DoubleChain.Refine.{
  dchain_allocate_new_index_full, length-le, dchain_allocate_new_index_lem,
}
use vigor.DoubleChain.{dchain_allocate_new_index}
use vigor.Map.Dict.{Dict, update, put}
use vigor.Map.Refine.{map_put-Models}
use vigor.Vector.{vector_return}
use vigor.Expirator.{Items}
use vigor.ItemTable.{live, known, live-known, IsItemTable, IsCoherent-admit}

module _ {ℓ} {K : Type ℓ} ⦃ops : KeyOps K⦄ ⦃build : Build⦄ {size now : ℕ} {items : Items K}
    (r : IsItemTable size now items) where
  -- The items when a new index gets a key that is absent, and nothing but its value may change.
  admitted-view :
      {V : Type 0} (values values' : Array V) (id : K) (i : ℕ) (time : ℤ) (q : K)
      → ((j : ℕ) → j ≢ i → values' j ≡ values j)
      → has i r.entries ≡ false
      → known values' (r.entries ++ ((i, time) ∷ [])) (update r.dict.read id (some i) q) ≡ (
          if ops.keys_eq id q
          then some (values' i, time)
          else known values r.entries (r.dict.read q))
  admitted-view values values' id i time q rest new = elim (Bool-cases (ops.keys_eq id q)) [
    | inl alike ↦ rw alike (ground (arith, time_of-append i i time r.entries, new))
    | inr other ↦ rw other (elim (Option-cases (r.dict.read q)) [
      | inl e ↦ rw e refl
      | inr (j, e) ↦
          let (there, _) = r.table.coherent.stored q j e in
          rw e (ground (arith, there, time_of-append j i time r.entries, new, rest j))
    ])
  ]

  -- The table with a new item, from what the allocator and the map return.
  abbrev with_item : K → ℕ → DoubleChain → Map K → Items K
  with_item id i chain' map' = record {
    chain = chain';
    vector = vector_return items.vector i id;
    map = map';
  }

  -- A key that is absent gets a free index, while there is one.
  pub admit_lem :
      (id : K) (time : ℕ)
      → now ≤ time
      → r.dict.read id ≡ none
      → length r.entries < size
      → (i : ℕ) × (chain' : DoubleChain) × (map' : Map K) × (dchain_allocate_new_index items.chain
            (pos time)
          ≡ (some i, chain'))
        × (map_put items.map id i ≡ some map')
        × (i < size)
        × (r' : IsItemTable size time (with_item id i chain' map')) × (r'.entries
            ≡ r.entries ++ ((i, pos time) ∷ []))
        × ((V : Type 0) (values values' : Array V) (q : K)
            → ((j : ℕ) → j ≢ i → values' j ≡ values j)
            → live values' (with_item id i chain' map') q
              ≡ (if ops.keys_eq id q then some (values' i, pos time) else live values items q))
  unfolding put vector_return
  admit_lem id time later absent free =
      let es = r.entries in
      let (i, chain', e, l, new, chain) =
        dchain_allocate_new_index_lem r.table.chain (pos time) free in
      let d' : Dict K = record { read = update r.dict.read id (some i); size = r.dict.size + 1 } in
      let allowed : put items.map.capacity r.dict id i ≡ some d' =
        ground (arith, absent, r.table.coherent.sized, r.table.map_room) in
      let (map', e', cap, map) = map_put-Models r.dict d' items.map id i r.table.map allowed in
      let len = length-append es ((i, pos time) ∷ []) in
      let until = Until-weaken (pos now) (pos time) es (omega arith) r.until in
      let r' : IsItemTable size time (with_item id i chain' map') = record {
        entries = es ++ ((i, pos time) ∷ []);
        dict = d';
        table = record {
          room = r.table.room;
          few = r.table.few;
          map_room = omega (arith, cap, r.table.map_room);
          chain = chain;
          map = map;
          coherent =
              IsCoherent-admit i (pos time) id new absent (omega (arith, len)) r.table.coherent;
        };
        sorted = Sorted-append (pos 0) i (pos time) es (omega arith) r.sorted until;
        until = Until-append (pos time) i (pos time) es (omega arith) until;
      } in
      (
        i,
        chain',
        map',
        e,
        e',
        l,
        r',
        refl,
        λ _ values values' q rest.
            live-known values' r' q
            ∙ admitted-view values values' id i (pos time) q rest new
            ∙ rw (live-known values r q) refl,
      )

  -- When no index is free, the allocator changes nothing.
  pub full_lem :
      (time : ℕ)
      → size ≤ length r.entries
      → dchain_allocate_new_index items.chain (pos time) ≡ (none, items.chain)
  full_lem time full =
      let all : length r.entries ≡ size = omega (arith, length-le r.table.chain) in
      dchain_allocate_new_index_full r.table.chain (pos time) all
