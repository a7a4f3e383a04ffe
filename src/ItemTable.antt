-- ===== src/ItemTable.antt =====
-- A map, a chain and a vector that work together as a table of items with their times of last use:
-- when such a table is sound, and what it holds. The network functions keep values by its indices.
pub mod Refresh
pub mod Admit
pub mod Expire
pub mod Forget
use vigor.Prelude.{
  if◌then◌else◌, Bool, Bool-cases, ap, ℕ, ◌+◌, ◌≡◌, ◌≤◌, refl, sym, ◌∙◌, ap, false, Option, none,
  some, arith, [], ◌∷◌, ◌++◌, inl, inr, Option-cases,
}
use vigor.Prelude.Arrays.{Array, write}
use vigor.Prelude.Int.{ℤ, pos}
use vigor.Prelude.Lists.{length}
use vigor.MapImpl.Interface.{KeyOps, Build}
use vigor.DoubleChain.Entries.{Entries, has, Sorted, has-append}
use vigor.DoubleChain.Order.{Until, Until-weaken, time_of, time_of-Stamped}
use vigor.Map.Dict.{Dict, update}
use vigor.Map.{map_get}
use vigor.Map.Refine.{map_get-Models}
use vigor.Expirator.Coherent.{IsCoherent, IsTable}
use vigor.Expirator.{Items}

-- The value and the time of last use that a slot holds.
abbrev slot_of {ℓ κ} : {K : Type ℓ} {V : Type κ} → Array V → Items K → Option ℕ → Option (V × ℤ)
slot_of values items none = none
slot_of values items (some i) = some (values i, items.chain.timestamps i)

-- The same by the entries.
abbrev pub known {κ} : {V : Type κ} → Array V → Entries → Option ℕ → Option (V × ℤ)
known values es none = none
known values es (some i) = some (values i, time_of i es)

-- The live item of a key once the key is seen with a value. `free` tells whether the table has room
-- for one more.
abbrev pub opened {κ} :
    {V : Type κ} → Option (V × ℤ) → (free : Bool) → (value : V) → ℤ → Option (V × ℤ)
opened (some (first, t)) free value time = some (first, time)
opened none free value time = if free then some (value, time) else none

module _ {ℓ} {K : Type ℓ} ⦃ops : KeyOps K⦄ ⦃build : Build⦄ where
  -- The live item of a key: its value and its time.
  abbrev pub live {κ} : {V : Type κ} → Array V → Items K → K → Option (V × ℤ)
  live values items q = slot_of values items (map_get items.map q)

  -- A sound table at the time `now`, for `size` items.
  pub record IsItemTable (size now : ℕ) (items : Items K) : Type ℓ where
    pub entries : Entries
    pub dict : Dict K
    pub table : IsTable size entries dict items
    pub sorted : Sorted (pos 0) entries
    pub until : Until (pos now) entries

  pub live-known {κ} :
      {V : Type κ} {size now : ℕ} {items : Items K} (values : Array V)
      (r : IsItemTable size now items) (q : K)
      → live values items q ≡ known values r.entries (r.dict.read q)
  live-known {items = items} values r q =
      rw (map_get-Models r.dict items.map q r.table.map) (elim (Option-cases (r.dict.read q)) [
        | inl e ↦ rw e refl
        | inr (i, e) ↦
            let (h, _) = r.table.coherent.stored q i e in
            rw e (
              ap (λ t. some (values i, t))
                (time_of-Stamped items.chain.timestamps i r.entries r.table.chain.stamped h))
      ])

  -- Keys that are equal have the same item.
  pub live-same :
      {V : Type 0} (values : Array V) (items : Items K) (id q : K)
      → live values items q
        ≡ (if ops.keys_eq id q then live values items id else live values items q)
  live-same values items id q = elim (Bool-cases (ops.keys_eq id q)) [
    | inr other ↦ rw other refl
    | inl alike ↦ rw alike (ap (live values items) (sym ((ops.keys_eq_iff id q).0 alike)))
  ]

  -- Time passes.
  pub IsItemTable-later :
      {size now : ℕ} {items : Items K} (time : ℕ)
      → now ≤ time
      → IsItemTable size now items
      → IsItemTable size time items
  IsItemTable-later {now = now} time later r = record {
    entries = r.entries;
    dict = r.dict;
    table = r.table;
    sorted = r.sorted;
    until = Until-weaken (pos now) (pos time) r.entries (omega arith) r.until;
  }

module _ {ℓ} {K : Type ℓ} ⦃ops : KeyOps K⦄ where
  -- What the entries hold does not depend on their order.
  pub IsCoherent-reorder :
      {es es' : Entries} {keys : Array K} {d : Dict K}
      → ((u : ℕ) → has u es' ≡ has u es)
      → length es' ≡ length es
      → IsCoherent es keys d
      → IsCoherent es' keys d
  IsCoherent-reorder same len c = record {
    present = λ i h. c.present i (sym (same i) ∙ h);
    stored = λ k i h. let (a, b) = c.stored k i h in (same i ∙ a, b);
    sized = c.sized ∙ sym len;
  }

  -- A new index for a key that is not in the table.
  pub IsCoherent-admit :
      {es : Entries} {keys : Array K} {d : Dict K} (i : ℕ) (t : ℤ) (k : K)
      → has i es ≡ false
      → d.read k ≡ none
      → length (es ++ ((i, t) ∷ [])) ≡ length es + 1
      → IsCoherent es keys d
      → IsCoherent
          (es ++ ((i, t) ∷ []))
          (write keys i k)
          (record { read = update d.read k (some i); size = d.size + 1 })
  IsCoherent-admit {es} {keys} {d} i t k new absent len c = record {
    present = λ j h. ground (
      arith,
      h,
      has-append j es ((i, t) ∷ []),
      c.present j,
      absent,
      ops.keys_eq_iff k (keys j),
      ops.keys_eq_iff k k,
    );
    stored = λ q j h.
        ground (arith, h, has-append j es ((i, t) ∷ []), c.stored q j, new, ops.keys_eq_iff k q);
    sized = omega (arith, len, c.sized);
  }
