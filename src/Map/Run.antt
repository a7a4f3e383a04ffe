-- ===== src/Map/Run.antt =====
-- A client's calls in order: the hash map answers as the partial function does, as long as the
-- client keeps to the contract.
use vigor.Prelude.{ℕ, ◌≡◌, refl, ◌∙◌, Option, none, some, inl, inr, Option-cases, List, [], ◌∷◌}
use vigor.MapImpl.Interface.{KeyOps, Build}
use vigor.Map.Dict.{Dict, is_some}
use vigor.Map.Dict
use vigor.Map.Refine.{Models, map_get-Models, map_put-Models, map_erase-Models}
use vigor.Map.{Map, map_get, map_put, map_erase, map_size}

pub data Op {ℓ} (K : Type ℓ) : Type ℓ where
  get : K → Op K
  put : K → ℕ → Op K
  erase : K → Op K
  size : Op K

pub data Reply {ℓ} (K : Type ℓ) : Type ℓ where
  value : Option ℕ → Reply K
  done : Reply K
  trash : Option K → Reply K
  number : ℕ → Reply K

abbrev reply {ℓ} : {K : Type ℓ} → Reply K → Option (List (Reply K)) → Option (List (Reply K))
reply r none = none
reply r (some rs) = some (r ∷ rs)

module _ {ℓ} {K : Type ℓ} ⦃key : KeyOps K⦄ where
  -- `none` is a call outside the contract.
  unfoldable pub run_dict : ℕ → Dict K → List (Op K) → Option (List (Reply K))
  run_dict capacity d [] = some []
  run_dict capacity d (get k ∷ ops) = reply (value (d.read k)) (run_dict capacity d ops)
  run_dict capacity d (put k v ∷ ops) = elim (Dict.put capacity d k v) [
    | none ↦ none
    | some d' ↦ reply done (run_dict capacity d' ops)
  ]
  run_dict capacity d (erase k ∷ ops) = elim (Dict.erase d k) [
    | none ↦ none
    | some d' ↦ reply (trash (some k)) (run_dict capacity d' ops)
  ]
  run_dict capacity d (size ∷ ops) = reply (number d.size) (run_dict capacity d ops)

  module _ ⦃build : Build⦄ where
    -- `none` is a fault.
    unfoldable pub run : Map K → List (Op K) → Option (List (Reply K))
    run m [] = some []
    run m (get k ∷ ops) = reply (value (map_get m k)) (run m ops)
    run m (put k v ∷ ops) = elim (map_put m k v) [ none ↦ none | some m' ↦ reply done (run m' ops) ]
    run m (erase k ∷ ops) = let (m', out) = map_erase m k in reply (trash out) (run m' ops)
    run m (size ∷ ops) = reply (number (map_size m)) (run m ops)

    none≢some : {rs : List (Reply K)} → none ≡ some rs → ⊥
    none≢some e = cc

    reply-eq-some :
        (r : Reply K) (o o' : Option (List (Reply K))) {rs : List (Reply K)}
        → ((rest : List (Reply K)) → o ≡ some rest → o' ≡ some rest)
        → reply r o ≡ some rs
        → reply r o' ≡ some rs
    reply-eq-some r none o' h e = cc
    reply-eq-some r (some rest) o' h e = rw (h rest refl) e

    run_from :
        (ops : List (Op K)) (d : Dict K) (m : Map K) (capacity : ℕ) (rs : List (Reply K))
        → m.capacity ≡ capacity
        → Models d m
        → run_dict capacity d ops ≡ some rs
        → run m ops ≡ some rs
    unfolding run_dict run map_size
    run_from [] d m capacity rs c r h = h
    run_from (get k ∷ ops) d m capacity rs c r h = rw (map_get-Models d m k r) (
        reply-eq-some (value (d.read k)) (run_dict capacity d ops) (run m ops)
          (λ rest. run_from ops d m capacity rest c r) h)
    run_from (put k v ∷ ops) d m capacity rs c r h = elim (Option-cases (Dict.put capacity d k v)) [
      | inl e ↦ let bad = rw (e, run_dict) at h in absurd (none≢some bad)
      | inr (d', e) ↦
          let (m', ok, c', r') = map_put-Models d d' m k v r (rw c e) in
          rw (ok, run)
            (reply-eq-some done (run_dict capacity d' ops) (run m' ops)
              (λ rest. run_from ops d' m' capacity rest (c' ∙ c) r') (rw (e, run_dict) at h))
    ]
    run_from (erase k ∷ ops) d m capacity rs c r h = elim (Option-cases (Dict.erase d k)) [
      | inl e ↦ let bad = rw (e, run_dict) at h in absurd (none≢some bad)
      | inr (d', e) ↦
          let (m', out) = map_erase m k in
          let (t, c', r') = map_erase-Models d d' m k r e in
          rw t (
            reply-eq-some (trash (some k)) (run_dict capacity d' ops) (run m' ops)
              (λ rest. run_from ops d' m' capacity rest (c' ∙ c) r') (rw (e, run_dict) at h))
    ]
    run_from (size ∷ ops) d m capacity rs c r h = simp r.size (
        reply-eq-some (number d.size) (run_dict capacity d ops) (run m ops)
          (λ rest. run_from ops d m capacity rest c r) h)

    -- Let a map represent a partial function, and let a client make any sequence of gets, puts,
    -- erases and size queries in which every put is of an absent key while there is room and
    -- every erase is of a present key. Then no call faults, and the answers are those of the
    -- partial function.
    pub run_refines :
        (ops : List (Op K)) (d : Dict K) (m : Map K) {rs : List (Reply K)}
        → Models d m
        → run_dict m.capacity d ops ≡ some rs
        → run m ops ≡ some rs
    run_refines ops d m {rs} r h = run_from ops d m m.capacity rs refl r h
