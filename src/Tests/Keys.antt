-- ===== src/Tests/Keys.antt =====
-- Keys for the tests: numbers, which hash to their lowest 32 bits.
use vigor.Prelude.{ℕ, refl, ◌==◌, ==_iff, arith, Option, none, some}
use vigor.Prelude.Arrays.{u32}
use vigor.MapImpl.Interface.{KeyOps, Build, IsCapacity}
use vigor.MapImpl.Loop.{modulo_build}
use vigor.MapImpl.{Table}

instance abbrev pub number_keys : KeyOps ℕ
number_keys = record {
  keys_eq = ◌==◌;
  khash = u32;
  keys_eq_iff = ==_iff;
  khash-lt = λ a. omega arith;
}

instance abbrev pub build : Build
build = modulo_build

-- What the memory of four slots may hold.
abbrev pub dirt : Table ℕ
dirt = record { busybits = λ _. 7; keyps = λ i. i; khs = λ _. 3; chns = λ _. 9; vals = λ _. 1 }

abbrev pub four : IsCapacity 4
four = record { positive = omega arith; small = omega arith; accepted = refl }

-- The result, or `other` for a fault.
abbrev pub or_else {ℓ} : {A : Type ℓ} → A → Option A → A
or_else other none = other
or_else other (some a) = a
