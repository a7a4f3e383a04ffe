-- ===== src/Lpm/Update.antt =====
-- `lpm_update_elem` of lpm-dir-24-8.c, branch by branch.
use vigor.Prelude.{
  ℕ, ◌+◌, ◌/◌, ◌%◌, ◌^◌, ◌≤◌, ◌<◌, ◌≡◌, refl, ap, ◌∙◌, Bool, true, false, ◌==◌, if◌then◌else◌, leb,
  ltb, arith,
}
use vigor.Prelude.Arrays.{write}
use vigor.Prelude.Bits.{bit_and-ones}
use vigor.Lpm.{
  Lpm, lpm_update_elem, lpm_24_extract_first_index, store_value, lpm_long_extract_first_index,
  choose_base, store_long, compute_rule_size, build_mask_from_prefixlen,
}
use vigor.Lpm.Masks.{block, short_range, set_flag}
use vigor.Lpm.Stores.{store_value-at}
use vigor.Lpm.Lookup.{IsPlain, needs-plain, needs-flagged}
use Prim.Native.Nat.{bit_and}

-- The prefix is that of the address.
unfoldable pub covers : (prefix prefixlen address : ℕ) → Bool
covers prefix prefixlen address = address / block prefixlen == prefix / block prefixlen

-- A rule of at most 24 bits: what `lpm_24` holds after it.
pub short_entry :
    (lpm : Lpm) (p n v a : ℕ)
    → p < 2 ^ 32
    → n < 25
    → (lpm_update_elem lpm p n v).1.lpm_24 (a / 256)
      ≡ (if covers p n a then v else lpm.lpm_24 (a / 256))
unfolding lpm_update_elem lpm_24_extract_first_index covers
short_entry lpm p n v a lp l =
    let (end, test) = short_range p n a lp l in
    let short : ltb n 25 ≡ true = ground arith in
    rw short (
      store_value-at lpm.lpm_24 (bit_and p (build_mask_from_prefixlen n) / 256)
        (compute_rule_size n) v (a / 256) end
      ∙ ap (λ (t : Bool). if t then v else lpm.lpm_24 (a / 256)) test)

pub short_rest :
    (lpm : Lpm) (p n v : ℕ)
    → n < 25
    → let (ok, lpm') = lpm_update_elem lpm p n v in
      (ok ≡ true) × (lpm'.lpm_long ≡ lpm.lpm_long) × (lpm'.lpm_long_index ≡ lpm.lpm_long_index)
unfolding lpm_update_elem
short_rest lpm p n v l = let short : ltb n 25 ≡ true = ground arith in rw short (refl, refl, refl)

-- A rule of more than 24 bits writes to block `b` of `lpm_long`.
abbrev pub long_store : Lpm → (b p n v : ℕ) → ℕ → ℕ
long_store lpm b p n v =
    store_value lpm.lpm_long (lpm_long_extract_first_index p n b) (compute_rule_size n) v

pub long_flagged :
    (lpm : Lpm) (p n v b : ℕ)
    → 25 ≤ n
    → b < 256
    → lpm.lpm_24 (p / 256) ≡ 32768 + b
    → lpm_update_elem lpm p n v ≡ (
      true,
      record {
        lpm_24 = lpm.lpm_24;
        lpm_long = long_store lpm b p n v;
        lpm_long_index = lpm.lpm_long_index;
      },
    )
unfolding lpm_update_elem store_long choose_base lpm_24_extract_first_index
long_flagged lpm p n v b l lb e =
    let long : ltb n 25 ≡ false = ground arith in
    let base : bit_and (32768 + b) 32767 % 256 ≡ b = omega (arith, bit_and-ones 15 (32768 + b)) in
    rw (long, e, needs-flagged b lb, base) refl

pub long_fresh :
    (lpm : Lpm) (p n v : ℕ)
    → 25 ≤ n
    → lpm.lpm_long_index < 256
    → IsPlain (lpm.lpm_24 (p / 256))
    → lpm_update_elem lpm p n v ≡ (
      true,
      record {
        lpm_24 = write lpm.lpm_24 (p / 256) (32768 + lpm.lpm_long_index);
        lpm_long = long_store lpm lpm.lpm_long_index p n v;
        lpm_long_index = lpm.lpm_long_index + 1;
      },
    )
unfolding lpm_update_elem store_long choose_base lpm_24_extract_first_index
long_fresh lpm p n v l room e =
    let long : ltb n 25 ≡ false = ground arith in
    let free : leb 256 lpm.lpm_long_index ≡ false = ground arith in
    let base : lpm.lpm_long_index % 256 ≡ lpm.lpm_long_index = omega arith in
    let next : (lpm.lpm_long_index + 1) % 65536 ≡ lpm.lpm_long_index + 1 = omega arith in
    rw (long, needs-plain _ e, free, next, base, set_flag lpm.lpm_long_index room) refl

pub long_full :
    (lpm : Lpm) (p n v : ℕ)
    → 25 ≤ n
    → 256 ≤ lpm.lpm_long_index
    → IsPlain (lpm.lpm_24 (p / 256))
    → lpm_update_elem lpm p n v ≡ (false, lpm)
unfolding lpm_update_elem store_long choose_base lpm_24_extract_first_index
long_full lpm p n v l full e =
    let long : ltb n 25 ≡ false = ground arith in
    let none_left : leb 256 lpm.lpm_long_index ≡ true = ground arith in
    rw (long, needs-plain _ e, none_left) refl
