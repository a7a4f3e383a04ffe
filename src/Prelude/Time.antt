-- ===== src/Prelude/Time.antt =====
-- `vigor_time_t` is an `int64_t`: the time before which items are too old, as every network
-- function computes it.
use Prim.Native.Nat.{ℕ, ◌+◌, ◌-◌, ◌*◌, ◌%◌, ◌<◌}
use mathlib.Core.Path.{◌≡◌}
use native.Mathlib.Omega.{arith}
use vigor.Prelude.Tests.{ltb, if◌then◌else◌}
use vigor.Prelude.Int.{ℤ, pos, negsuc, sub_ℕ}

-- The 64 bits `x` as a `vigor_time_t`.
abbrev pub to_signed : ℕ → ℤ
to_signed x = if ltb x 9223372036854775808 then pos x else negsuc (18446744073709551615 - x)

-- `time_u - back`, which is unsigned, stored in a `vigor_time_t`.
abbrev pub before : ℕ → ℕ → ℤ
before time back =
    to_signed ((time + (18446744073709551616 - back % 18446744073709551616)) % 18446744073709551616)

-- `time_u - expiration_time * 1000`
unfoldable pub last_time : ℕ → ℕ → ℤ
last_time time expiration_time = before time (expiration_time * 1000)

-- The subtraction does not wrap: the result is the difference as an integer.
pub before_lem :
    (time back : ℕ)
    → time < 9223372036854775808
    → back < 9223372036854775808
    → before time back ≡ sub_ℕ time back
before_lem time back l e = ground arith

pub last_time_lem :
    (time expiration_time : ℕ)
    → time < 9223372036854775808
    → expiration_time * 1000 < 9223372036854775808
    → last_time time expiration_time ≡ sub_ℕ time (expiration_time * 1000)
unfolding last_time
last_time_lem time expiration_time = before_lem time (expiration_time * 1000)
