-- ===== src/Lpm/Lookup.antt =====
-- The tables of lpm-dir-24-8.c between the operations, and what a lookup reads in them.
use vigor.Prelude.{
  ℕ, ◌+◌, ◌-◌, ◌*◌, ◌/◌, ◌%◌, ◌≤◌, ◌<◌, ◌≡◌, ◌≢◌, refl, sym, ◌∙◌, ◌⊎◌, inl, inr, true, false, ◌==◌,
  leb, Bool-cases, arith,
}
use vigor.Prelude.Bits.{bit_and-ones}
use vigor.Lpm.{
  Lpm, invalid, lpm_lookup_elem, lpm_24_entry_flag, lpm_24_extract_first_index,
  lpm_long_extract_first_index, needs_new_index,
}
use Prim.Native.Nat.{bit_and}
use native.Mathlib.Decide.{ℕ_discrete}

pub record IsLpm (lpm : Lpm) : Type 0 where
  pub index_bound : lpm.lpm_long_index ≤ 256
  pub flagged :
      (i : ℕ)
      → i < 16777216
      → 32768 ≤ lpm.lpm_24 i
      → lpm.lpm_24 i ≢ invalid
      → lpm.lpm_24 i < 32768 + lpm.lpm_long_index
  -- No two entries share a block.
  pub apart :
      (i j : ℕ)
      → i < 16777216
      → j < 16777216
      → 32768 ≤ lpm.lpm_24 i
      → lpm.lpm_24 i ≢ invalid
      → lpm.lpm_24 i ≡ lpm.lpm_24 j
      → i ≡ j
  pub fresh :
      (b x : ℕ) → lpm.lpm_long_index ≤ b → b < 256 → x < 256 → lpm.lpm_long (b * 256 + x) ≡ invalid

-- An entry that is no index of a block.
abbrev pub IsPlain : ℕ → Type 0
IsPlain v = (v ≡ 65535) ⊎ (v < 32768)

pub entry_cases :
    (lpm : Lpm) (i : ℕ)
    → IsLpm lpm
    → i < 16777216
    → IsPlain (lpm.lpm_24 i) ⊎ ((b : ℕ) × (b < lpm.lpm_long_index) × (lpm.lpm_24 i ≡ 32768 + b))
entry_cases lpm i w l = elim (ℕ_discrete (lpm.lpm_24 i) 65535) [
  | yes e ↦ inl (inl e)
  | no d ↦ elim (Bool-cases (leb 32768 (lpm.lpm_24 i))) [
    | inl high ↦
        let le : 32768 ≤ lpm.lpm_24 i = ground arith in
        inr (lpm.lpm_24 i - 32768, omega (arith, w.flagged i l le d), omega arith)
    | inr low ↦ inl (inr (ground arith))
  ]
]

pub lookup_plain :
    (lpm : Lpm) (a v : ℕ) → lpm.lpm_24 (a / 256) ≡ v → IsPlain v → lpm_lookup_elem lpm a ≡ v
unfolding lpm_lookup_elem lpm_24_extract_first_index lpm_24_entry_flag
lookup_plain lpm a v e (inl p) = rw (e, p) refl
lookup_plain lpm a v e (inr p) =
    let flag : v / 32768 ≡ 0 = omega arith in rw (e, flag) (ground arith)

pub lookup_flagged :
    (lpm : Lpm) (a b : ℕ)
    → b < 256
    → lpm.lpm_24 (a / 256) ≡ 32768 + b
    → lpm_lookup_elem lpm a ≡ lpm.lpm_long (lpm_long_extract_first_index a 32 b)
unfolding lpm_lookup_elem lpm_24_extract_first_index lpm_24_entry_flag
lookup_flagged lpm a b l e =
    let flag : (32768 + b) / 32768 ≡ 1 = omega arith in
    let base : bit_and (32768 + b) 255 % 256 ≡ b = omega (arith, bit_and-ones 8 (32768 + b)) in
    let other : ((32768 + b) == 65535) ≡ false = ground arith in rw (e, other, flag, base) refl

-- A lookup reads one entry of each table.
pub lookup_congr :
    (lpm lpm' : Lpm) (a : ℕ)
    → lpm'.lpm_24 (a / 256) ≡ lpm.lpm_24 (a / 256)
    → ((b : ℕ)
        → b < 256
        → lpm.lpm_24 (a / 256) ≡ 32768 + b
        → lpm'.lpm_long (lpm_long_extract_first_index a 32 b)
          ≡ lpm.lpm_long (lpm_long_extract_first_index a 32 b))
    → IsPlain (lpm.lpm_24 (a / 256)) ⊎ ((b : ℕ) × (b < 256) × (lpm.lpm_24 (a / 256) ≡ 32768 + b))
    → lpm_lookup_elem lpm' a ≡ lpm_lookup_elem lpm a
lookup_congr lpm lpm' a e same (inl p) =
    lookup_plain lpm' a (lpm.lpm_24 (a / 256)) e p
    ∙ sym (lookup_plain lpm a (lpm.lpm_24 (a / 256)) refl p)
lookup_congr lpm lpm' a e same (inr (b, l, f)) =
    lookup_flagged lpm' a b l (e ∙ f) ∙ same b l f ∙ sym (lookup_flagged lpm a b l f)

pub needs-plain : (v : ℕ) → IsPlain v → needs_new_index v ≡ true
unfolding needs_new_index lpm_24_entry_flag
needs-plain v (inl p) = ground arith
needs-plain v (inr p) = let flag : v / 32768 ≡ 0 = omega arith in rw flag (ground arith)

pub needs-flagged : (b : ℕ) → b < 256 → needs_new_index (32768 + b) ≡ false
unfolding needs_new_index lpm_24_entry_flag
needs-flagged b l = let flag : (32768 + b) / 32768 ≡ 1 = omega arith in rw flag (ground arith)
