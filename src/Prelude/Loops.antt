-- ===== src/Prelude/Loops.antt =====
-- `for (k = first; k < first + rounds; k++) state = body k state`, and its invariant rule.
use Prim.Native.Nat.{ℕ, zero, suc, ◌+◌, ◌<◌}
use mathlib.Core.Path.{◌≡◌}
use native.Mathlib.Omega.{arith}

-- Recursion on the count of the rounds left.
unfoldable pub for_range {ℓ} :
    {State : Type ℓ} → (rounds first : ℕ) → (ℕ → State → State) → State → State
for_range zero first body state = state
for_range (suc rounds) first body state = for_range rounds (first + 1) body (body first state)

module _ {ℓ κ} {State : Type ℓ} (Holds : ℕ → State → Type κ) (body : ℕ → State → State) where
  -- A property that every round before `last` keeps holds at the end.
  pub for_range_inv :
      (rounds first last : ℕ) (state : State)
      → first + rounds ≡ last
      → ((k : ℕ) (t : State) → k < last → Holds k t → Holds (k + 1) (body k t))
      → Holds first state
      → Holds last (for_range rounds first body state)
  unfolding for_range
  for_range_inv zero first last state bound keep now =
      let done : first ≡ last = omega arith in rw (← done) now
  for_range_inv (suc rounds) first last state bound keep now =
      let next = keep first state (omega arith) now in
      for_range_inv rounds (first + 1) last (body first state) (omega arith) keep next
