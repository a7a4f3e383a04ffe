-- ===== src/Expirator/Expire.antt =====
-- `expire_items_single_map` drops exactly what is too old, from all three objects.
use vigor.Prelude.{
  ℕ, zero, suc, ◌+◌, ◌-◌, ◌<◌, ◌≡◌, refl, ◌∙◌, ap, subst, arith, Option, none, some, [], ◌∷◌,
  Bool-cases, inl, inr,
}
use vigor.Prelude.Arrays.{inc32}
use vigor.Prelude.Int.{ℤ, ltb_ℤ}
use vigor.Prelude.Lists.{length}
use vigor.MapImpl.Interface.{KeyOps, Build}
use vigor.DoubleChain.Entries.{
  Entries, drop_expired, drop_expired-le, recent, Sorted, drop_expired-recent,
}
use vigor.DoubleChain.Refine.{length-le, Models as ChainModels}
use vigor.DoubleChain.Expire.{dchain_expire_one_index_old, dchain_expire_one_index-none}
use vigor.DoubleChain.{DoubleChain, dchain_expire_one_index}
use vigor.Vector.{vector_borrow, vector_return}
use vigor.Vector.Borrow.{vector_return-borrow}
use vigor.Map.Dict.{Dict, update, erase}
use vigor.Map.Refine.{map_erase-Models}
use vigor.Map.{map_erase}
use vigor.Expirator.{Items, or_key, forget, expire_from, expire_items_single_map}
use vigor.Expirator.Coherent.{IsTable, forget-IsCoherent}

module _ {ℓ} {K : Type ℓ} ⦃ops : KeyOps K⦄ ⦃build : Build⦄ where
  erase_of_present :
      (d : Dict K) (k : K) {i : ℕ}
      → d.read k ≡ some i
      → erase d k ≡ some (record { read = update d.read k none; size = d.size - 1 })
  unfolding erase
  erase_of_present d k h = rw h

  -- One round of the loop.
  pub forget-IsTable :
      (size i : ℕ) (t : ℤ) (rest : Entries) (d : Dict K) (items : Items K) (chain' : DoubleChain)
      → IsTable size ((i, t) ∷ rest) d items
      → ChainModels size rest chain'
      → (d' : Dict K) × IsTable size rest d' (forget items i chain')
        × ((forget items i chain').vector ≡ items.vector)
  unfolding forget vector_borrow
  forget-IsTable size i t rest d items chain' table r =
      let keys = items.vector.items in
      let c = table.coherent in
      let d' : Dict K = record { read = update d.read (keys i) none; size = d.size - 1 } in
      let (out, cap, models) =
        map_erase-Models d d' items.map (keys i) table.map
          (erase_of_present d (keys i) (c.present i (ground arith))) in
      let same : vector_return items.vector i (or_key (map_erase items.map (keys i)).1 (keys i))
          ≡ items.vector =
        rw out (unfold vector_borrow in vector_return-borrow items.vector i) in
      (
        d',
        record {
          room = rw same table.room;
          few = table.few;
          map_room = rw cap table.map_room;
          chain = r;
          map = models;
          coherent = rw same (forget-IsCoherent i t rest keys d table.chain.holds.al_once c);
        },
        same,
      )

  -- What the loop comes to from a table with the entries `es`.
  pub record Expired (size : ℕ) (time : ℤ) (count : ℕ) (es : Entries) (items : Items K)
      (out : Option (ℕ × Items K)) : Type ℓ where
    pub dict : Dict K
    pub after : Items K
    pub returns : out ≡ some (count + (length es - length (drop_expired time es)), after)
    pub table : IsTable size (drop_expired time es) dict after
    pub vector : after.vector ≡ items.vector

  expire_stops :
      (fuel size count : ℕ) (time : ℤ) (es : Entries) (d : Dict K) (items : Items K)
      → IsTable size es d items
      → drop_expired time es ≡ es
      → Expired size time count es items (expire_from (suc fuel) items time count)
  unfolding expire_from
  expire_stops fuel size count time es d items table same = record {
    dict = d;
    after = items;
    returns =
        rw (dchain_expire_one_index-none time es table.chain same)
          (ap (λ (k : ℕ). some (k, items)) (omega (arith, ap length same)));
    table = rw same table;
    vector = refl;
  }

  expire_goes_on :
      (fuel count : ℕ) (time : ℤ) (items : Items K) (i : ℕ) (chain' : DoubleChain)
      → dchain_expire_one_index items.chain time ≡ (some i, chain')
      → expire_from (suc fuel) items time count
        ≡ expire_from fuel (forget items i chain') time (inc32 count)
  unfolding expire_from
  expire_goes_on fuel count time items i chain' e = rw e refl

  expire_from-Expired :
      (fuel : ℕ) (es : Entries) (size count : ℕ) (time : ℤ) (d : Dict K) (items : Items K)
      → length es < fuel
      → count + length es < 4294967296
      → IsTable size es d items
      → Expired size time count es items (expire_from fuel items time count)
  expire_from-Expired zero es size count time d items l n table = absurd (omega arith)
  expire_from-Expired (suc fuel) [] size count time d items l n table =
      expire_stops fuel size count time [] d items table (unfold drop_expired in refl)
  expire_from-Expired (suc fuel) ((i, t) ∷ rest) size count time d items l n table =
      elim (Bool-cases (ltb_ℤ t time)) [
        | inr young ↦
            expire_stops fuel size count time ((i, t) ∷ rest) d items table
              (unfold drop_expired in rw young)
        | inl old ↦
            let (chain', e, r) = dchain_expire_one_index_old time i t rest table.chain old in
            let (d', table', same) = forget-IsTable size i t rest d items chain' table r in
            let out =
              expire_from-Expired fuel rest size (inc32 count) time d' (forget items i chain')
                (omega arith) (omega arith) table' in
            let dropped : drop_expired time ((i, t) ∷ rest) ≡ drop_expired time rest =
              unfold drop_expired in rw old in
            record {
              dict = out.dict;
              after = out.after;
              returns =
                  expire_goes_on fuel count time items i chain' e
                  ∙ out.returns
                  ∙ ap (λ (k : ℕ). some (k, out.after))
                      (omega (arith, drop_expired-le time rest, ap length dropped));
              table = rw dropped out.table;
              vector = out.vector ∙ same;
            }
      ]

  -- In a sound item table with entries in any order of times, the expiry ends within its fuel. It
  -- drops entries from the oldest end until one is not older than the time, returns how many it
  -- dropped, takes the keys of those alone out of the map, and leaves a sound table. The vector
  -- is unchanged.
  pub expire_items_single_map_lem :
      (es : Entries) (size : ℕ) (time : ℤ) (d : Dict K) (items : Items K)
      → IsTable size es d items
      → Expired size time 0 es items (expire_items_single_map items time)
  unfolding expire_items_single_map
  expire_items_single_map_lem es size time d items table =
      expire_from-Expired (items.vector.capacity + 1) es size 0 time d items
        (omega (arith, length-le table.chain, table.room))
        (omega (arith, length-le table.chain, table.few)) table

  -- In a sound item table whose entries are in the order of their times, the expiry ends, returns
  -- the number of entries older than the time, and leaves a sound table that holds the entries
  -- that are not older, in their order. The vector is unchanged.
  pub expire_items_single_map-recent :
      (es : Entries) (size : ℕ) (time low : ℤ) (d : Dict K) (items : Items K)
      → IsTable size es d items
      → Sorted low es
      → (d' : Dict K) × (out : Items K) × (expire_items_single_map items time
          ≡ some (length es - length (recent time es), out))
        × IsTable size (recent time es) d' out
        × (out.vector ≡ items.vector)
  expire_items_single_map-recent es size time low d items table sorted =
      let r = expire_items_single_map_lem es size time d items table in
      let same = drop_expired-recent time low es sorted in
      (
        r.dict,
        r.after,
        r.returns ∙ ap (λ (k : ℕ). some (k, r.after)) (omega (arith, ap length same)),
        subst (λ l. IsTable size l r.dict r.after) same r.table,
        r.vector,
      )
