-- ===== src/Lpm/Stores.antt =====
-- The loops of lpm-dir-24-8.c that write a range of a table, and what a lookup reads.
use vigor.Prelude.{
  ℕ, zero, suc, ◌+◌, ◌-◌, ◌%◌, ◌≤◌, ◌<◌, ◌≡◌, ◌∙◌, ◌&&◌, leb, ltb, if◌then◌else◌, arith,
}
use vigor.Prelude.Arrays.{Array, write}
use vigor.Prelude.Loops.{for_range}
use vigor.Lpm.{store_value, fill_invalid, invalid}

range_writes :
    (n i v : ℕ) (t : Array ℕ) (j : ℕ)
    → for_range n i (λ k a. write a k v) t j ≡ (if leb i j && ltb j (i + n) then v else t j)
unfolding for_range
range_writes zero i v t j = ground arith
range_writes (suc n) i v t j =
    let rest = range_writes n (i + 1) v (write t i v) j in rest ∙ ground arith

pub fill_invalid-at : (t : Array ℕ) (size j : ℕ) → j < size → fill_invalid t size j ≡ invalid
unfolding fill_invalid
fill_invalid-at t size j l = range_writes size 0 invalid t j ∙ ground arith

pub store_value-at :
    (t : Array ℕ) (first z v j : ℕ)
    → first + z ≤ 16777216
    → store_value t first z v j ≡ (if leb first j && ltb j (first + z) then v else t j)
unfolding store_value
store_value-at t first z v j l =
    let n : (first + z) % 4294967296 - first ≡ z = omega arith in rw n (range_writes z first v t j)
