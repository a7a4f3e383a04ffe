-- ===== src/Tests/Cht.antt =====
-- A consistent hash with two rows of three backends.
use vigor.Prelude.{true, ltb, ◌&&◌, ◌==◌, ◌*◌, ◌%◌, ◌<◌, ℕ, ◌-◌, ◌≡◌, refl, some, arith}
use vigor.Vector.{Vector, vector_borrow, vector_return}
use vigor.DoubleChain.Entries.{has, without}
use vigor.DoubleChain.Refine.{Models, dchain_free_index_lem}
use vigor.DoubleChain.{dchain_free_index, dchain_is_index_allocated}
use vigor.DoubleChainImpl.{is_index_allocated, init, allocate_new_index}
use vigor.Cht.{cht_find_preferred_available_backend, choose_from, cht_fill_cht}
use vigor.Cht.Choose.{Chooses, row_of, cht_find_preferred_available_backend_lem, cht_find-stable}
use vigor.Prelude.Counting.{count, count-pos}
use vigor.Cht.Permut.{IsPrime, IsSize}
use vigor.Cht.Fill.{IsRow, cht_fill_cht_lem, cht_fill_cht-serves}
use vigor.Tests.Cells.{c1, c2}
use vigor.Tests.Chains.{chain, entries, chain-Models}

-- The second bucket prefers backend 2, then 1, then 0.
abbrev cht : Vector ℕ
cht = record { items = λ k. 5 - k; capacity = 6 }

cht_find_preferred_available_backend_lem_example :
    ((cht_find_preferred_available_backend 7 cht chain 2 3).1 ≡ cht)
    × Chooses
        (row_of cht 1 3)
        (λ b. has b entries)
        3
        (cht_find_preferred_available_backend 7 cht chain 2 3).0
cht_find_preferred_available_backend_lem_example =
    cht_find_preferred_available_backend_lem 7 cht 2 chain-Models (omega arith)
      (λ j l. omega (arith, l))

-- Backend 2 is not active, and 1 is.
finds_one : (cht_find_preferred_available_backend 7 cht chain 2 3).0 ≡ some 1
unfolding cht_find_preferred_available_backend choose_from vector_borrow vector_return
    dchain_is_index_allocated is_index_allocated c1 c2 init allocate_new_index
finds_one = refl

-- Backend 0 leaves.
fewer-Models : Models 3 (without 0 entries) (dchain_free_index chain 0).1
fewer-Models = let (_, r) = dchain_free_index_lem chain-Models 0 (omega arith) in r

cht_find-stable_example :
    cht_find_preferred_available_backend 7 cht (dchain_free_index chain 0).1 2 3 ≡ (some 1, cht)
unfolding without
cht_find-stable_example =
    cht_find-stable 7 cht 2 1 chain-Models fewer-Models (omega arith) (λ j l. omega (arith, l))
      finds_one (λ u h. ground (arith, h)) refl

-- The products below `h` that it divides, counted for each factor.
abbrev divided : (h a : ℕ) → ℕ
divided h a = count h (λ d. ltb 0 a && ltb 0 d && a * d % h == 0)

IsPrime-of-divided : (h : ℕ) → count h (λ a. ltb 0 (divided h a)) ≡ 0 → IsPrime h
IsPrime-of-divided h none_divided a d p l q k e =
    let at_d =
      count-pos h (λ d. ltb 0 a && ltb 0 d && a * d % h == 0) d k (ground (arith, p, q, e)) in
    let at_a = count-pos h (λ a. ltb 0 (divided h a)) a l (ground (arith, at_d)) in
    absurd (omega (arith, at_a, none_divided))

-- Five buckets for three backends.
pub five-IsSize : IsSize 5 3
unfolding count
five-IsSize = record {
  prime = IsPrime-of-divided 5 refl;
  positive = omega arith;
  fewer = omega arith;
  small = omega arith;
}

cht_fill_cht_lem_example :
    let (done, cht') = cht_fill_cht (some (λ _. 7)) (some (λ _. 7)) cht 5 3 in
    (done ≡ true) × ((bucket : ℕ) → bucket < 5 → IsRow 3 (row_of cht' bucket 3))
cht_fill_cht_lem_example = cht_fill_cht_lem (λ _. 7) (λ _. 7) cht five-IsSize

cht_fill_cht-serves_example :
    let cht' = (cht_fill_cht (some (λ _. 7)) (some (λ _. 7)) cht 5 3).1 in
    (v : ℕ) × (cht_find_preferred_available_backend 7 cht' chain 5 3 ≡ (some v, cht'))
    × (has v entries ≡ true)
cht_fill_cht-serves_example =
    cht_fill_cht-serves (λ _. 7) (λ _. 7) cht 7 1 five-IsSize chain-Models (omega arith) refl
