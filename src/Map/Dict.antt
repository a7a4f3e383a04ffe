-- ===== src/Map/Dict.antt =====
-- What map.h promises: a partial function from keys to numbers, with the number of its keys. The
-- contract asks that a key is put only while it is absent and there is room, and erased only while
-- it is present: `none` is a call outside the contract.
use vigor.Prelude.{
  ℕ, ◌+◌, ◌-◌, ◌<◌, ◌≡◌, refl, arith, Bool, true, false, Option, none, some, if◌then◌else◌, ltb,
}
use vigor.MapImpl.Interface.{KeyOps}

pub record Dict {ℓ} (K : Type ℓ) : Type ℓ where
  pub read : K → Option ℕ
  pub size : ℕ

abbrev pub empty {ℓ} : {K : Type ℓ} → Dict K
empty = record { read = λ _. none; size = 0 }

abbrev pub is_some {ℓ} : {A : Type ℓ} → Option A → Bool
is_some none = false
is_some (some _) = true

module _ {ℓ} {K : Type ℓ} ⦃key : KeyOps K⦄ where
  abbrev pub update : (K → Option ℕ) → K → Option ℕ → K → Option ℕ
  update f k v q = if key.keys_eq k q then v else f q

  unfoldable pub put : ℕ → Dict K → K → ℕ → Option (Dict K)
  put capacity d k v =
      if is_some (d.read k)
      then none
      else if ltb d.size capacity
      then some (record { read = update d.read k (some v); size = d.size + 1 })
      else none

  unfoldable pub erase : Dict K → K → Option (Dict K)
  erase d k =
      if is_some (d.read k)
      then some (record { read = update d.read k none; size = d.size - 1 })
      else none

  -- What a put and an erase within the contract have found.
  pub put-eq-some :
      (capacity : ℕ) (d d' : Dict K) (k : K) (v : ℕ)
      → put capacity d k v ≡ some d'
      → (d.read k ≡ none)
        × (d.size < capacity)
        × (record { read = update d.read k (some v); size = d.size + 1 } ≡ d')
  unfolding put
  put-eq-some capacity d d' k v h = (ground arith, ground arith, ground arith)

  pub erase-eq-some :
      (d d' : Dict K) (k : K)
      → erase d k ≡ some d'
      → ((v : ℕ) × (d.read k ≡ some v))
        × (record { read = update d.read k none; size = d.size - 1 } ≡ d')
  unfolding erase
  erase-eq-some d d' k h = (present (d.read k) refl, ground arith)
    where
      present : (o : Option ℕ) → d.read k ≡ o → (v : ℕ) × (d.read k ≡ some v)
      present none e = absurd (ground (arith, e))
      present (some v) e = (v, e)
