-- ===== src/ItemTable/Expire.antt =====
-- Old items leave the table.
use vigor.Prelude.Arrays.{Array}
use vigor.Prelude.{
  ℕ, ◌+◌, ◌*◌, ◌≤◌, ◌<◌, ◌≡◌, refl, sym, ◌∙◌, ap, false, not, ◌&&◌, Option, none, some, arith,
  Bool-cases, inl, inr, if◌then◌else◌, Option-cases,
}
use vigor.Prelude.Int.{ℤ, pos, ltb_ℤ}
use vigor.Prelude.Time.{last_time, last_time_lem}
use vigor.MapImpl.Interface.{KeyOps, Build}
use vigor.DoubleChain.Entries.{has, recent}
use vigor.DoubleChain.Order.{time_of, has-recent, time_of-recent, Sorted-recent, Until-recent}
use vigor.Map.Dict.{Dict}
use vigor.Vector.{Vector}
use vigor.Expirator.{expire_items_single_map, Items}
use vigor.Expirator.Coherent.{IsTable}
use vigor.Expirator.Expire.{expire_items_single_map-recent}
use vigor.ItemTable.{live, known, live-known, IsItemTable}

-- An item that was last used before `last` lives no more.
abbrev pub unless_old {κ} : {V : Type κ} → ℤ → Option (V × ℤ) → Option (V × ℤ)
unless_old last none = none
unless_old last (some (value, t)) = if ltb_ℤ t last then none else some (value, t)

-- What lives after the expiry lived before it.
pub unless_old-some {κ} :
    {V : Type κ} (last : ℤ) (o : Option (V × ℤ)) (value : V) (t : ℤ)
    → unless_old last o ≡ some (value, t)
    → o ≡ some (value, t)
unless_old-some last none value t e = e
unless_old-some last (some (w, u)) value t e = elim (Bool-cases (ltb_ℤ u last)) [
  | inr young ↦ sym (rw young refl) ∙ e
  | inl old ↦
      let gone : none ≡ some (value, t) = sym (rw old refl) ∙ e in absurd (ground (arith, gone))
]

-- An item that was used within the expiration time lives on.
pub not_old {κ} :
    {V : Type κ} (value : V) (first now expiration : ℕ)
    → now < 9223372036854775808
    → expiration * 1000 < 9223372036854775808
    → now ≤ first + expiration * 1000
    → unless_old (last_time now expiration) (some (value, pos first)) ≡ some (value, pos first)
not_old value first now expiration small short soon =
    rw (last_time_lem now expiration small short) (ground (arith, soon))

module _ {ℓ} {K : Type ℓ} ⦃ops : KeyOps K⦄ ⦃build : Build⦄ {size now : ℕ} {items : Items K}
    (r : IsItemTable size now items) where
  module _ (last : ℤ) (d' : Dict K) (out : Items K)
      (table : IsTable size (recent last r.entries) d' out) (same : out.vector ≡ items.vector) where
    key_of : (i : ℕ) → out.vector.items i ≡ items.vector.items i
    key_of i = ap (λ (v : Vector K). v.items i) same

    recent_iff :
        (i : ℕ)
        → has i (recent last r.entries)
          ≡ (has i r.entries && not (ltb_ℤ (time_of i r.entries) last))
    recent_iff i = has-recent i last r.entries r.table.chain.holds.al_once

    -- A key that is left had the same index before.
    carried :
        (q : K) (j : ℕ)
        → d'.read q ≡ some j
        → (r.dict.read q ≡ some j) × (ltb_ℤ (time_of j r.entries) last ≡ false)
    carried q j e =
        let (h, key) = table.coherent.stored q j e in
        let before = r.table.coherent.present j (ground (arith, recent_iff j, h)) in
        (ap r.dict.read (sym key ∙ key_of j) ∙ before, ground (arith, recent_iff j, h))

    kept :
        (q : K) (i : ℕ)
        → r.dict.read q ≡ some i
        → ltb_ℤ (time_of i r.entries) last ≡ false
        → d'.read q ≡ some i
    kept q i e young =
        let (h, key) = r.table.coherent.stored q i e in
        ap d'.read (sym key ∙ sym (key_of i))
        ∙ table.coherent.present i (ground (arith, recent_iff i, h, young))

    -- The items before and after.
    expired-view :
        {V : Type 0} (values : Array V) (q : K)
        → known values (recent last r.entries) (d'.read q)
          ≡ unless_old last (known values r.entries (r.dict.read q))
    expired-view values q = elim (Option-cases (d'.read q)) [
      | inr (j, e) ↦
          let (before, young) = carried q j e in
          let (h, _) = table.coherent.stored q j e in
          rw (e, before, young)
            (ap (λ t. some (values j, t))
              (time_of-recent j last r.entries r.table.chain.holds.al_once h))
      | inl e ↦ elim (Option-cases (r.dict.read q)) [
        | inl e' ↦ rw (e, e') refl
        | inr (i, e') ↦ elim (Bool-cases (ltb_ℤ (time_of i r.entries) last)) [
          | inl old ↦ rw (e, e', old) refl
          | inr young ↦ let found = kept q i e' young in absurd (ground (arith, e, found))
        ]
      ]
    ]

  -- The expiry ends, and takes away exactly the items that were last used before `last`.
  pub expire_lem :
      (last : ℤ)
      → (count : ℕ) × (items' : Items K) × (expire_items_single_map items last
          ≡ some (count, items'))
        × (r' : IsItemTable size now items') × (r'.entries ≡ recent last r.entries)
        × ((V : Type 0) (values : Array V) (q : K)
            → live values items' q ≡ unless_old last (live values items q))
  expire_lem last =
      let (d', out, e, table, same) =
        expire_items_single_map-recent r.entries size last (pos 0) r.dict items r.table r.sorted in
      let r' : IsItemTable size now out = record {
        entries = recent last r.entries;
        dict = d';
        table = table;
        sorted = Sorted-recent (pos 0) last r.entries r.sorted;
        until = Until-recent (pos now) last r.entries r.until;
      } in
      (
        _,
        out,
        e,
        r',
        refl,
        λ _ values q.
            live-known values r' q
            ∙ expired-view last d' out table same values q
            ∙ ap (unless_old last) (sym (live-known values r q)),
      )
