-- ===== src/Prelude/Arrays.antt =====
-- C arrays as functions from an index. That an access is in range is a theorem of its component.
use Prim.Native.Nat.{ℕ, ◌+◌, ◌%◌, ◌<◌}
use mathlib.Core.Path.{◌≡◌}
use native.Mathlib.Omega.{arith}
use vigor.Prelude.Tests.{◌==◌, if◌then◌else◌}

abbrev pub Array {ℓ} : Type ℓ → Type ℓ
Array A = ℕ → A

-- `a[i] = v`
abbrev pub write {ℓ} : {A : Type ℓ} → Array A → ℕ → A → Array A
write a i v j = if i == j then v else a j

-- An `int` or `unsigned` that wraps is the number of its 32 bits.
abbrev pub u32 : ℕ → ℕ
u32 x = x % 4294967296

-- `x + 1` and `x - 1` on such a number.
abbrev pub inc32 : ℕ → ℕ
inc32 x = u32 (x + 1)

abbrev pub dec32 : ℕ → ℕ
dec32 x = u32 (x + 4294967295)

pub inc32-small : (x : ℕ) → x < 4294967295 → inc32 x ≡ x + 1
inc32-small x h = omega arith

pub dec32-small : (x : ℕ) → 0 < x → x < 4294967296 → dec32 x + 1 ≡ x
dec32-small x p h = omega arith
