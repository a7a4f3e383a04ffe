-- ===== src/Map/Refine.antt =====
-- Each function of map.c does to the map what its contract says of the partial function.
use vigor.Prelude.{
  ℕ, ◌+◌, ◌<◌, ◌≡◌, refl, ◌∙◌, subst, true, none, some, arith, inl, inr, Option-cases,
}
use vigor.Prelude.Arrays.{inc32}
use vigor.Prelude.Counting.{count-le}
use vigor.MapImpl.Interface.{KeyOps, Build, IsCapacity}
use vigor.MapImpl.Inv.{IsValid, scan, lookup, lookup-some, lookup-none, busy_count}
use vigor.MapImpl.Put.{map_impl_put_lem}
use vigor.MapImpl.Erase.{map_impl_erase_lem}
use vigor.MapImpl.Rest.{map_impl_init_lem, map_impl_get_lem}
use vigor.MapImpl.{Table, is_busy}
use vigor.Map.Dict.{Dict, empty, is_some, update, put-eq-some, erase-eq-some}
use vigor.Map.Dict
use vigor.Map.{Map, Memory, arrays, map_allocate, map_get, map_put, map_erase}

module _ {ℓ} {K : Type ℓ} ⦃key : KeyOps K⦄ ⦃build : Build⦄ where
  -- The map is sound and reads as the partial function.
  pub record Models (d : Dict K) (m : Map K) : Type ℓ where
    pub cap : IsCapacity m.capacity
    pub valid : IsValid m.capacity m.table
    pub size : m.size ≡ d.size
    pub busy : busy_count m.capacity m.table ≡ d.size
    pub reads : (k : K) → lookup m.capacity m.table k ≡ d.read k

  pub scan_of_lookup-none : (n : ℕ) (t : Table K) (k : K) → lookup n t k ≡ none → scan t k n ≡ none
  scan_of_lookup-none n t k h = elim (Option-cases (scan t k n)) [
    | inl e ↦ e
    | inr (j, e) ↦ absurd (let s = lookup-some n t k e in ground (arith, h, s))
  ]

  pub scan_of_lookup-some :
      (n : ℕ) (t : Table K) (k : K) {v : ℕ}
      → lookup n t k ≡ some v
      → (j : ℕ) × (scan t k n ≡ some j)
  scan_of_lookup-some n t k h = elim (Option-cases (scan t k n)) [
    | inr s ↦ s
    | inl e ↦ absurd (let s = lookup-none n t k e in ground (arith, h, s))
  ]

  -- If every allocation succeeds and the build accepts the capacity, `map_allocate` returns a map
  -- of that capacity that represents the empty function, whatever the memory held.
  pub map_allocate_lem :
      (mem : Memory K) (n : ℕ) {t : Table K}
      → mem.has_struct ≡ true
      → arrays mem ≡ some t
      → IsCapacity n
      → (m : Map K) × (map_allocate mem n ≡ some m) × (m.capacity ≡ n) × Models empty m
  unfolding map_allocate
  map_allocate_lem mem n {t} room all c =
      let (valid, absent, busy) = map_impl_init_lem t n in
      (
        record { table = _; capacity = n; size = 0 },
        rw (c.accepted, room, all),
        refl,
        record {
          cap = c;
          valid = valid;
          size = refl;
          busy = busy;
          reads = λ k. lookup-none n _ k (absent k);
        },
      )

  -- `map_get` on a map of a partial function returns what the function has for the key, and fails
  -- exactly where it has nothing.
  pub map_get-Models : (d : Dict K) (m : Map K) (k : K) → Models d m → map_get m k ≡ d.read k
  unfolding map_get
  map_get-Models d m k r = map_impl_get_lem m.table k r.cap r.valid ∙ r.reads k

  put_explicit :
      (d : Dict K) (m : Map K) (k : K) (v : ℕ)
      → Models d m
      → d.read k ≡ none
      → d.size < m.capacity
      → (m' : Map K) × (map_put m k v ≡ some m')
        × (m'.capacity ≡ m.capacity)
        × Models (record { read = update d.read k (some v); size = d.size + 1 }) m'
  unfolding map_put
  put_explicit d m k v r absent room =
      let (t', e, valid, reads, busy) =
        map_impl_put_lem m.table k v r.cap r.valid
          (scan_of_lookup-none m.capacity m.table k (r.reads k ∙ absent)) (omega (arith, r.busy)) in
      (
        record m { table = t'; size = inc32 m.size },
        rw e,
        refl,
        record {
          cap = r.cap;
          valid = valid;
          size = omega (arith, r.size, r.cap.small);
          busy = omega (arith, busy, r.busy);
          reads = λ q. reads q ∙ ground (arith, r.reads q);
        },
      )

  -- A put that the contract allows, of an absent key while there is room, does not fault and
  -- turns a map of a partial function into a map of the updated function, of the same capacity.
  pub map_put-Models :
      (d d' : Dict K) (m : Map K) (k : K) (v : ℕ)
      → Models d m
      → Dict.put m.capacity d k v ≡ some d'
      → (m' : Map K) × (map_put m k v ≡ some m') × (m'.capacity ≡ m.capacity) × Models d' m'
  map_put-Models d d' m k v r h =
      let (absent, room, same) = put-eq-some m.capacity d d' k v h in
      subst
        (λ x. (m' : Map K) × (map_put m k v ≡ some m') × (m'.capacity ≡ m.capacity) × Models x m')
        same (put_explicit d m k v r absent room)

  -- An erase that the contract allows, of a present key, hands the stored key out and turns a map
  -- of a partial function into a map of the function without that key, of the same capacity.
  pub map_erase-Models :
      (d d' : Dict K) (m : Map K) (k : K)
      → Models d m
      → Dict.erase d k ≡ some d'
      → let (m', trash) = map_erase m k in
        (trash ≡ some k) × (m'.capacity ≡ m.capacity) × Models d' m'
  unfolding map_erase
  map_erase-Models d d' m k r h =
      let ((v, present), same) = erase-eq-some d d' k h in
      let (j, found) = scan_of_lookup-some m.capacity m.table k (r.reads k ∙ present) in
      let out = map_impl_erase_lem m.table k r.cap r.valid found in
      (
        out.key_out,
        refl,
        subst (λ x. Models x (map_erase m k).0) same
            (record {
              cap = r.cap;
              valid = out.valid;
              size = omega (
                arith,
                r.size,
                out.busy,
                r.busy,
                r.cap.small,
                count-le m.capacity (is_busy m.table),
              );
              busy = omega (arith, out.busy, r.busy);
              reads = λ q. out.reads q ∙ ground (arith, r.reads q);
            }),
      )
