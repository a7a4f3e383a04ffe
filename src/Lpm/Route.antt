-- ===== src/Lpm/Route.antt =====
-- What every lookup returns after `lpm_update_elem` of lpm-dir-24-8.c.
use vigor.Prelude.{
  ℕ, ◌+◌, ◌/◌, ◌%◌, ◌^◌, ◌≤◌, ◌<◌, ◌≡◌, ◌≢◌, refl, sym, ap, ◌∙◌, inl, inr, Bool, true, false, ◌==◌,
  if◌then◌else◌, Bool-cases, ==_iff, arith,
}
use vigor.Prelude.Arrays.{write}
use vigor.Lpm.{
  Lpm, invalid, lpm_lookup_elem, lpm_update_elem, lpm_long_extract_first_index, compute_rule_size,
}
use vigor.Lpm.Masks.{block}
use vigor.Lpm.Blocks.{long_range, long_apart, long_end, covered_outer, key_index}
use vigor.Lpm.Stores.{store_value-at}
use vigor.Lpm.Lookup.{IsLpm, IsPlain, entry_cases, lookup_plain, lookup_flagged, lookup_congr}
use vigor.Lpm.Update.{covers, long_store, short_entry, short_rest, long_flagged, long_fresh}
use native.Mathlib.Decide.{ℕ_discrete}

module _ (lpm : Lpm) (p n v : ℕ) (lp : p < 2 ^ 32) (l : 25 ≤ n) (l' : n ≤ 32) where
  written :
      (b a : ℕ)
      → b < 256
      → a < 2 ^ 32
      → a / 256 ≡ p / 256
      → long_store lpm b p n v (lpm_long_extract_first_index a 32 b)
        ≡ (if covers p n a then v else lpm.lpm_long (lpm_long_extract_first_index a 32 b))
  unfolding covers
  written b a lb la e =
      store_value-at lpm.lpm_long (lpm_long_extract_first_index p n b) (compute_rule_size n) v
        (lpm_long_extract_first_index a 32 b) (omega (arith, long_end p n a b lp la l l' lb))
      ∙ ap (λ (t : Bool). if t then v else lpm.lpm_long (lpm_long_extract_first_index a 32 b))
          (long_range p n a b lp la l l' lb e)

  pub kept :
      (b a e : ℕ)
      → b < 256
      → a < 2 ^ 32
      → e < 256
      → e ≢ b
      → long_store lpm b p n v (lpm_long_extract_first_index a 32 e)
        ≡ lpm.lpm_long (lpm_long_extract_first_index a 32 e)
  kept b a e lb la le d =
      store_value-at lpm.lpm_long (lpm_long_extract_first_index p n b) (compute_rule_size n) v
        (lpm_long_extract_first_index a 32 e) (omega (arith, long_end p n a b lp la l l' lb))
      ∙ ap (λ (t : Bool). if t then v else lpm.lpm_long (lpm_long_extract_first_index a 32 e))
          (long_apart p n a b lp la l l' lb e le d)

  -- An address of other 24 bits is not covered.
  uncovered : (a : ℕ) → a / 256 ≢ p / 256 → covers p n a ≡ false
  unfolding covers
  uncovered a d = elim (Bool-cases (a / block n == p / block n)) [
    | inl t ↦ absurd (d (covered_outer p n a l l' ((==_iff _ _).0 t)))
    | inr f ↦ f
  ]

  other_entry :
      (lpm' : Lpm) (b a : ℕ)
      → IsLpm lpm
      → b < 256
      → a < 2 ^ 32
      → lpm'.lpm_24 (a / 256) ≡ lpm.lpm_24 (a / 256)
      → lpm'.lpm_long ≡ long_store lpm b p n v
      → ((e : ℕ) → e < 256 → lpm.lpm_24 (a / 256) ≡ 32768 + e → e ≢ b)
      → lpm_lookup_elem lpm' a ≡ lpm_lookup_elem lpm a
  other_entry lpm' b a w lb la same long off =
      lookup_congr lpm lpm' a same (λ e le f. rw long (kept b a e lb la le (off e le f)))
        (elim (entry_cases lpm (a / 256) w (omega arith)) [
          | inl plain ↦ inl plain
          | inr (e, le, f) ↦ inr (e, omega (arith, w.index_bound), f)
        ])

  -- The entry of the prefix has a block.
  pub flagged_route :
      (b a : ℕ)
      → IsLpm lpm
      → b < lpm.lpm_long_index
      → lpm.lpm_24 (p / 256) ≡ 32768 + b
      → a < 2 ^ 32
      → lpm_lookup_elem (lpm_update_elem lpm p n v).1 a
        ≡ (if covers p n a then v else lpm_lookup_elem lpm a)
  flagged_route b a w lb e la =
      let lb' : b < 256 = omega (arith, w.index_bound) in
      rw (long_flagged lpm p n v b l lb' e) (elim (ℕ_discrete (a / 256) (p / 256)) [
        | yes same ↦
            let e' : lpm.lpm_24 (a / 256) ≡ 32768 + b = rw same e in
            rw (lookup_flagged lpm a b lb' e')
              (lookup_flagged _ a b lb' e' ∙ written b a lb' la same)
        | no d ↦ rw (uncovered a d) (
            other_entry _ b a w lb' la refl refl (λ x lx f g. d (
              w.apart (a / 256) (p / 256) (omega arith) (omega arith) (omega arith) (omega arith)
                (f ∙ ap (λ y. 32768 + y) g ∙ sym e))))
      ])

  -- The entry of the prefix gets the next block.
  pub fresh_route :
      (a : ℕ)
      → IsLpm lpm
      → lpm.lpm_long_index < 256
      → IsPlain (lpm.lpm_24 (p / 256))
      → a < 2 ^ 32
      → lpm_lookup_elem (lpm_update_elem lpm p n v).1 a ≡ (
          if covers p n a then v else if a / 256 == p / 256 then invalid else lpm_lookup_elem lpm a)
  fresh_route a w room plain la =
      let b = lpm.lpm_long_index in
      rw (long_fresh lpm p n v l room plain) (elim (ℕ_discrete (a / 256) (p / 256)) [
        | yes same ↦
            let here : (a / 256 == p / 256) ≡ true = ground arith in
            let entry : write lpm.lpm_24 (p / 256) (32768 + b) (a / 256) ≡ 32768 + b =
              ground arith in
            let empty : lpm.lpm_long (lpm_long_extract_first_index a 32 b) ≡ invalid =
              ap lpm.lpm_long (key_index a b la room)
              ∙ w.fresh b (a % 256) (omega arith) room (omega arith) in
            rw here (
              lookup_flagged _ a b room entry
              ∙ written b a room la same
              ∙ ap (λ x. if covers p n a then v else x) empty)
        | no d ↦
            let there : (a / 256 == p / 256) ≡ false = ground arith in
            let entry : write lpm.lpm_24 (p / 256) (32768 + b) (a / 256) ≡ lpm.lpm_24 (a / 256) =
              ground arith in
            rw (uncovered a d, there)
              (other_entry _ b a w room la entry refl (λ x lx f g.
                omega (arith, w.flagged (a / 256) (omega arith) (omega arith) (omega arith))))
      ])

-- The entry of the prefix is in `lpm_24`.
pub short_route :
    (lpm : Lpm) (p n v a : ℕ)
    → IsLpm lpm
    → p < 2 ^ 32
    → n < 25
    → v < 32768
    → a < 2 ^ 32
    → lpm_lookup_elem (lpm_update_elem lpm p n v).1 a
      ≡ (if covers p n a then v else lpm_lookup_elem lpm a)
short_route lpm p n v a w lp l lv la =
    let lpm' = (lpm_update_elem lpm p n v).1 in
    let (ok, long, index) = short_rest lpm p n v l in
    elim (Bool-cases (covers p n a)) [
      | inl t ↦ rw t (lookup_plain lpm' a v (rw t at (short_entry lpm p n v a lp l)) (inr lv))
      | inr f ↦ rw f (
          lookup_congr lpm lpm' a (rw f at (short_entry lpm p n v a lp l)) (λ e le h. rw long refl)
            (elim (entry_cases lpm (a / 256) w (omega arith)) [
              | inl plain ↦ inl plain
              | inr (e, le, h) ↦ inr (e, omega (arith, w.index_bound), h)
            ]))
    ]
