-- ===== src/DoubleMap/Side.antt =====
-- One of the two tables of double-map.c: it leads from the key of each stored value to its index.
use vigor.Prelude.{
  ℕ, ◌+◌, ◌-◌, ◌<◌, ◌≡◌, ◌≢◌, sym, ◌∙◌, ap, ◌⊎◌, inl, inr, Option, none, some, Option-cases, arith,
}
use vigor.Prelude.{Bool-cases, true, ◌==◌, ==_iff, if◌then◌else◌}
use mathlib.Core.Option.{some-injective}
use vigor.Prelude.Arrays.{Array, write}
use vigor.MapImpl.Interface.{KeyOps, Build, IsCapacity}
use vigor.MapImpl.Inv.{IsValid, lookup, lookup-none, busy_count}
use vigor.MapImpl.Put.{map_impl_put_lem}
use vigor.MapImpl.Erase.{map_impl_erase_lem}
use vigor.MapImpl.Rest.{map_impl_init_lem, map_impl_get_lem}
use vigor.MapImpl.{Table, map_impl_init, map_impl_get, map_impl_put, map_impl_erase}
use vigor.Map.Refine.{scan_of_lookup-none, scan_of_lookup-some}

module _ {ℓ} {K V : Type ℓ} ⦃key : KeyOps K⦄ ⦃build : Build⦄ (extract : V → K) where
  pub record IsSide (vals : Array (Option V)) (n size : ℕ) (t : Table K) : Type ℓ where
    pub cap : IsCapacity n
    pub valid : IsValid n t
    pub busy : busy_count n t ≡ size
    pub present : (i : ℕ) (v : V) → vals i ≡ some v → lookup n t (extract v) ≡ some i
    pub stored :
        (k : K) (i : ℕ) → lookup n t k ≡ some i → (v : V) × (vals i ≡ some v) × (extract v ≡ k)

  -- No stored value has the key.
  abbrev pub IsFree : Array (Option V) → K → Type ℓ
  IsFree vals k = (j : ℕ) (w : V) → vals j ≡ some w → extract w ≢ k

  -- What a get by a key returns.
  pub side_get :
      (vals : Array (Option V)) (n size : ℕ) (t : Table K) (k : K)
      → IsSide vals n size t
      → ((map_impl_get t k (key.khash k) n ≡ none) × IsFree vals k)
        ⊎ ((i : ℕ) × (v : V) × (map_impl_get t k (key.khash k) n ≡ some i)
            × (vals i ≡ some v)
            × (extract v ≡ k))
  side_get vals n size t k s =
      let read = map_impl_get_lem t k s.cap s.valid in
      elim (Option-cases (lookup n t k)) [
        | inl e ↦ inl (
          read ∙ e,
          λ j w h f.
              absurd
                (let p = s.present j w h in let q = ap (lookup n t) f in ground (arith, e, p, q)),
        )
        | inr (i, e) ↦ let (v, h, f) = s.stored k i e in inr (i, v, read ∙ e, h, f)
      ]

  pub init-IsSide :
      (t : Table K) (n : ℕ) → IsCapacity n → IsSide (λ _. none) n 0 (map_impl_init t n)
  init-IsSide t n c =
      let (valid, absent, busy) = map_impl_init_lem t n in
      record {
        cap = c;
        valid = valid;
        busy = busy;
        present = λ i v h. absurd (ground (arith, h));
        stored = λ k i h. absurd (ground (arith, h, lookup-none n _ k (absent k)));
      }

  put_present :
      (vals : Array (Option V)) (n size i j : ℕ) (v w : V) (t : Table K)
      → IsSide vals n size t
      → IsFree vals (extract v)
      → write vals i (some v) j ≡ some w
      → (if key.keys_eq (extract v) (extract w) then some i else lookup n t (extract w)) ≡ some j
  put_present vals n size i j v w t s free h = elim (Bool-cases (i == j)) [
    | inl same ↦
        let e : v ≡ w = some-injective _ _ (rw same at h) in
        let keys : key.keys_eq (extract v) (extract w) ≡ true =
          (key.keys_eq_iff (extract v) (extract w)).1 (ap extract e) in
        rw keys (ap some ((==_iff i j).0 same))
    | inr other ↦
        let old : vals j ≡ some w = rw other at h in
        ground (arith, free j w old, s.present j w old, key.keys_eq_iff (extract v) (extract w))
  ]

  put_stored :
      (vals : Array (Option V)) (n size i j : ℕ) (v : V) (t : Table K) (k : K)
      → IsSide vals n size t
      → vals i ≡ none
      → (if key.keys_eq (extract v) k then some i else lookup n t k) ≡ some j
      → (w : V) × (write vals i (some v) j ≡ some w) × (extract w ≡ k)
  put_stored vals n size i j v t k s unused h = elim (Bool-cases (key.keys_eq (extract v) k)) [
    | inl same ↦
        let e : i ≡ j = some-injective _ _ (rw same at h) in
        (v, ground arith, (key.keys_eq_iff (extract v) k).0 same)
    | inr other ↦ let (w, f, g) = s.stored k j (rw other at h) in (w, ground (arith, f, unused), g)
  ]

  erase_present :
      (vals : Array (Option V)) (n size i j : ℕ) (v w : V) (t : Table K)
      → IsSide vals n size t
      → vals i ≡ some v
      → write vals i none j ≡ some w
      → (if key.keys_eq (extract v) (extract w) then none else lookup n t (extract w)) ≡ some j
  erase_present vals n size i j v w t s h f = elim (Bool-cases (i == j)) [
    | inl same ↦ absurd (ground arith)
    | inr other ↦
        let old : vals j ≡ some w = rw other at f in
        let first = s.present i v h in
        let second = s.present j w old in
        elim (Bool-cases (key.keys_eq (extract v) (extract w))) [
          | inl equal ↦
              let e = ap (lookup n t) ((key.keys_eq_iff (extract v) (extract w)).0 equal) in
              absurd (ground (arith, first, second, e, other))
          | inr apart ↦ rw apart second
        ]
  ]

  erase_stored :
      (vals : Array (Option V)) (n size i j : ℕ) (v : V) (t : Table K) (k : K)
      → IsSide vals n size t
      → vals i ≡ some v
      → (if key.keys_eq (extract v) k then none else lookup n t k) ≡ some j
      → (w : V) × (write vals i none j ≡ some w) × (extract w ≡ k)
  erase_stored vals n size i j v t k s h f = elim (Bool-cases (key.keys_eq (extract v) k)) [
    | inl same ↦ absurd (ground arith)
    | inr other ↦
        let (w, g, e) = s.stored k j (rw other at f) in
        elim (Bool-cases (i == j)) [
          | inr apart ↦ (w, rw apart g, e)
          | inl same ↦
              let here : vals i ≡ some w = rw ((==_iff i j).0 same) g in
              let equal : v ≡ w = some-injective _ _ (sym h ∙ here) in
              let keys = (key.keys_eq_iff (extract v) k).1 (ap extract equal ∙ e) in
              absurd (ground (arith, keys, other))
        ]
  ]

  pub put-IsSide :
      (vals : Array (Option V)) (n size i : ℕ) (v : V) (t : Table K)
      → IsSide vals n size t
      → vals i ≡ none
      → IsFree vals (extract v)
      → size < n
      → (t' : Table K) × (map_impl_put t (extract v) (key.khash (extract v)) i n ≡ some t')
        × IsSide (write vals i (some v)) n (size + 1) t'
  put-IsSide vals n size i v t s unused free room =
      let absent : lookup n t (extract v) ≡ none = elim (Option-cases (lookup n t (extract v))) [
        | inl e ↦ e
        | inr (j, e) ↦ let (w, h, f) = s.stored (extract v) j e in absurd (free j w h f)
      ] in
      let (t', e, valid, reads, busy) =
        map_impl_put_lem t (extract v) i s.cap s.valid (scan_of_lookup-none n t (extract v) absent)
          (omega (arith, s.busy)) in
      (
        t',
        e,
        record {
          cap = s.cap;
          valid = valid;
          busy = omega (arith, busy, s.busy);
          present = λ j w h. reads (extract w) ∙ put_present vals n size i j v w t s free h;
          stored = λ k j h. put_stored vals n size i j v t k s unused (sym (reads k) ∙ h);
        },
      )

  pub erase-IsSide :
      (vals : Array (Option V)) (n size i : ℕ) (v : V) (t : Table K)
      → IsSide vals n size t
      → vals i ≡ some v
      → IsSide
          (write vals i none)
          n
          (size - 1)
          (map_impl_erase t (extract v) (key.khash (extract v)) n).0
  erase-IsSide vals n size i v t s h =
      let (j, found) = scan_of_lookup-some n t (extract v) (s.present i v h) in
      let out = map_impl_erase_lem t (extract v) s.cap s.valid found in
      record {
        cap = s.cap;
        valid = out.valid;
        busy = omega (arith, out.busy, s.busy);
        present = λ j w f. out.reads (extract w) ∙ erase_present vals n size i j v w t s h f;
        stored = λ k j f. erase_stored vals n size i j v t k s h (sym (out.reads k) ∙ f);
      }
