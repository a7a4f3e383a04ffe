-- ===== src/MapImpl/Empty.antt =====
-- `find_empty`: the first empty slot of a probe, and the chains that it counts up.

use vigor.Prelude.{
  ℕ, zero, suc, ◌+◌, ◌<◌, ◌≤◌, ◌≡◌, ◌&&◌, Option, some, ◌==◌, ==_iff, ltb, leb, arith, inl, inr,
  Bool-cases,
}
use vigor.Prelude.Arrays.{Array, u32, inc32, write}
use vigor.Prelude.Counting.{to_nat}
use vigor.MapImpl.Interface.{Build, IsCapacity}
use vigor.MapImpl.Probe.{dist, dist-lt, dist_injective, loop-probe}
use vigor.MapImpl.{find_empty_from, find_empty}

-- What `find_empty` has done when it stops, from the round `i` on: the slot is empty, and the
-- chains of the slots before it, and no others, are one longer.
pub record Placed (n h i : ℕ) (busybits chns : Array ℕ) (out : Option ℕ × Array ℕ) : Type 0 where
  pub slot : ℕ
  pub found : out.0 ≡ some slot
  pub in_range : slot < n
  pub empty : busybits slot ≡ 0
  pub beyond : i ≤ dist n h slot
  pub chains :
      (x : ℕ)
      → x < n
      → out.1 x ≡ chns x + to_nat (leb i (dist n h x) && ltb (dist n h x) (dist n h slot))

module _ ⦃build : Build⦄ {n : ℕ} (cap : IsCapacity n) (busybits : Array ℕ) (h : ℕ)
    (start : h < n) where
  find_empty_from-Placed :
      (rounds i : ℕ) (chns : Array ℕ) (e : ℕ)
      → i + rounds ≡ n
      → e < n
      → busybits e ≡ 0
      → i ≤ dist n h e
      → ((x : ℕ) → x < n → i ≤ dist n h x → chns x < 4294967295)
      → Placed n h i busybits chns (find_empty_from busybits chns h n rounds i)
  unfolding find_empty_from
  find_empty_from-Placed zero i chns e sum l free before small =
      absurd (omega (arith, dist-lt n h e start l))
  find_empty_from-Placed (suc rounds) i chns e sum l free before small =
      let x = build.loop (u32 (h + i)) n in
      let (at, steps) = loop-probe cap h i start (omega arith) in
      elim (Bool-cases (busybits x == 0)) [
        | inl empty ↦ record {
          slot = x;
          found = rw empty;
          in_range = at;
          empty = (==_iff _ _).0 empty;
          beyond = omega (arith, steps);
          chains = λ y m. rw empty (ground (arith, steps));
        }
        | inr taken ↦
            let chns' = write chns x (inc32 (chns x)) in
            let apart = λ (y : ℕ) (m : y < n). dist_injective n h x y start at m in
            let r =
              find_empty_from-Placed rounds (i + 1) chns' e (omega arith) l free
                (ground (arith, taken, steps, apart e l))
                (λ y m b. ground (arith, steps, small y m)) in
            record {
              slot = r.slot;
              found = rw taken r.found;
              in_range = r.in_range;
              empty = r.empty;
              beyond = omega (arith, r.beyond);
              chains = λ y m.
                  rw taken (ground (arith, steps, r.chains y m, r.beyond, small x at, apart y m));
            }
      ]

  -- A table that is not full has an empty slot, and `find_empty` finds one.
  pub find_empty-Placed :
      (chns : Array ℕ)
      → ((x : ℕ) → x < n → chns x < 4294967295)
      → (e : ℕ) → e < n
      → busybits e ≡ 0
      → Placed n h 0 busybits chns (find_empty busybits chns h n)
  unfolding find_empty
  find_empty-Placed chns small e l free =
      find_empty_from-Placed n 0 chns e (omega arith) l free (omega arith) (λ x m _. small x m)
