-- ===== src/Lpm/Inv.antt =====
-- The operations of lpm-dir-24-8.c keep its tables well formed, and `lpm_update_elem` as a whole.
use vigor.Prelude.{
  ℕ, ◌+◌, ◌*◌, ◌/◌, ◌%◌, ◌^◌, ◌≤◌, ◌<◌, ◌≡◌, ◌≢◌, subst, ◌∙◌, ◌⊎◌, inl, inr, true, ltb, some,
  Bool-cases, arith,
}
use mathlib.Core.Option.{some-injective}
use vigor.Prelude.Arrays.{Array}
use vigor.Lpm.{Lpm, invalid, lpm_update_elem, lpm_allocate, lpm_long_extract_first_index}
use vigor.Lpm.Blocks.{key_index}
use vigor.Lpm.Stores.{fill_invalid-at}
use vigor.Lpm.Lookup.{IsLpm, IsPlain, entry_cases}
use vigor.Lpm.Update.{
  covers, long_store, short_entry, short_rest, long_flagged, long_fresh, long_full,
}
use vigor.Lpm.Route.{kept}

short_entry_cases :
    (lpm : Lpm) (p n v i : ℕ)
    → p < 2 ^ 32
    → n < 25
    → let x = (lpm_update_elem lpm p n v).1.lpm_24 i in (x ≡ v) ⊎ (x ≡ lpm.lpm_24 i)
short_entry_cases lpm p n v i lp l =
    let same : i * 256 / 256 ≡ i = omega arith in
    let entry = rw same at (short_entry lpm p n v (i * 256) lp l) in
    elim (Bool-cases (covers p n (i * 256))) [
      | inl t ↦ inl (rw t at entry)
      | inr f ↦ inr (rw f at entry)
    ]

short-IsLpm :
    (lpm : Lpm) (p n v : ℕ)
    → IsLpm lpm
    → p < 2 ^ 32
    → n < 25
    → v < 32768
    → IsLpm (lpm_update_elem lpm p n v).1
short-IsLpm lpm p n v w lp l lv =
    let (ok, long, index) = short_rest lpm p n v l in
    record {
      index_bound = omega (arith, index, w.index_bound);
      flagged = λ i li high d. elim (short_entry_cases lpm p n v i lp l) [
        | inl e ↦ absurd (omega arith)
        | inr e ↦ omega (arith, index, w.flagged i li (omega arith) (omega arith))
      ];
      apart = λ i j li lj high d e. elim (short_entry_cases lpm p n v i lp l) [
        | inl f ↦ absurd (omega arith)
        | inr f ↦ elim (short_entry_cases lpm p n v j lp l) [
          | inl g ↦ absurd (omega arith)
          | inr g ↦ w.apart i j li lj (omega arith) (omega arith) (omega arith)
        ]
      ];
      fresh = λ b x lb lb' lx. rw long (w.fresh b x (omega (arith, index)) lb' lx);
    }

module _ (lpm : Lpm) (p n v : ℕ) (w : IsLpm lpm) (lp : p < 2 ^ 32) (l : 25 ≤ n) (l' : n ≤ 32) where
  fresh_kept :
      (base b x : ℕ)
      → base < 256
      → base ≢ b
      → lpm.lpm_long_index ≤ b
      → b < 256
      → x < 256
      → long_store lpm base p n v (b * 256 + x) ≡ invalid
  fresh_kept base b x lbase d lb lb' lx =
      let low : x % 256 ≡ x = omega arith in
      let index : lpm_long_extract_first_index x 32 b ≡ b * 256 + x =
        rw low at (key_index x b (omega arith) lb') in
      rw index at (kept lpm p n v lp l l' base x b lbase (omega arith) lb' (omega arith))
      ∙ w.fresh b x lb lb' lx

  flagged-IsLpm :
      (b : ℕ)
      → b < lpm.lpm_long_index
      → lpm.lpm_24 (p / 256) ≡ 32768 + b
      → IsLpm (lpm_update_elem lpm p n v).1
  flagged-IsLpm b lb e =
      let lb' : b < 256 = omega (arith, w.index_bound) in
      rw (long_flagged lpm p n v b l lb' e) (record {
        index_bound = w.index_bound;
        flagged = w.flagged;
        apart = w.apart;
        fresh = λ c x lc lc' lx. fresh_kept b c x lb' (omega arith) lc lc' lx;
      })

  fresh-IsLpm :
      lpm.lpm_long_index < 256
      → IsPlain (lpm.lpm_24 (p / 256))
      → IsLpm (lpm_update_elem lpm p n v).1
  fresh-IsLpm room plain = rw (long_fresh lpm p n v l room plain) (record {
    index_bound = omega arith;
    flagged = λ i li high d. ground (arith, w.flagged i li);
    apart = λ i j li lj high d e. ground (arith, w.apart i j li lj, w.flagged i li, w.flagged j lj);
    fresh =
        λ c x lc lc' lx. fresh_kept lpm.lpm_long_index c x room (omega arith) (omega arith) lc' lx;
  })

-- The three branches of an update.
pub long-IsLpm :
    (lpm : Lpm) (p n v : ℕ)
    → IsLpm lpm
    → p < 2 ^ 32
    → 25 ≤ n
    → n ≤ 32
    → IsLpm (lpm_update_elem lpm p n v).1
long-IsLpm lpm p n v w lp l l' = elim (entry_cases lpm (p / 256) w (omega arith)) [
  | inr (b, lb, e) ↦ flagged-IsLpm lpm p n v w lp l l' b lb e
  | inl plain ↦ elim (Bool-cases (ltb lpm.lpm_long_index 256)) [
    | inl room ↦ fresh-IsLpm lpm p n v w lp l l' (ground arith) plain
    | inr full ↦ rw (long_full lpm p n v l (ground arith) plain) w
  ]
]

-- An update with a 32-bit prefix, a length of at most 32 and a value below 2^15 keeps sound tables
-- sound, whichever branch it takes: at most 256 blocks are in use, an entry that refers to a block
-- refers to one in use, no two entries share a block, and a block that is not in use holds INVALID
-- alone.
pub lpm_update_elem-IsLpm :
    (lpm : Lpm) (p n v : ℕ)
    → IsLpm lpm
    → p < 2 ^ 32
    → n ≤ 32
    → v < 32768
    → IsLpm (lpm_update_elem lpm p n v).1
lpm_update_elem-IsLpm lpm p n v w lp ln lv = elim (Bool-cases (ltb n 25)) [
  | inl short ↦ short-IsLpm lpm p n v w lp (ground arith) lv
  | inr long ↦ long-IsLpm lpm p n v w lp (ground arith) ln
]

-- The allocation.
pub lpm_allocate-IsLpm :
    (t24 long : Array ℕ) (lpm : Lpm)
    → lpm_allocate true (some t24) (some long) ≡ some lpm
    → IsLpm lpm × ((i : ℕ) → i < 16777216 → lpm.lpm_24 i ≡ invalid)
unfolding lpm_allocate
lpm_allocate-IsLpm t24 long lpm e =
    let start = λ (i : ℕ) (l : i < 16777216). fill_invalid-at t24 16777216 i l in
    subst (λ t. IsLpm t × ((i : ℕ) → i < 16777216 → t.lpm_24 i ≡ invalid)) (some-injective _ _ e)
      (
        record {
          index_bound = omega arith;
          flagged = λ i l high d. absurd (d (start i l));
          apart = λ i j li lj high d f. absurd (d (start i li));
          fresh = λ b x lb lb' lx. fill_invalid-at long 65536 (b * 256 + x) (omega arith);
        },
        start,
      )
