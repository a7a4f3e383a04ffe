-- ===== src/Lpm.antt =====
-- libvig/verified/lpm-dir-24-8.c and lpm-dir-24-8.h: routes by the longest prefix of an IPv4
-- address, in a table of the 2^24 prefixes of 24 bits and a table of 256 blocks of 256 addresses.
pub mod Masks
pub mod Blocks
pub mod Stores
pub mod Lookup
pub mod Update
pub mod Route
pub mod Inv
pub mod Run
pub mod Longest
use vigor.Prelude.{
  ℕ, ◌+◌, ◌-◌, ◌*◌, ◌/◌, ◌%◌, Bool, true, false, not, ◌&&◌, Option, none, some, List, [], ◌∷◌, ltb,
  leb, ◌==◌, if◌then◌else◌,
}
use vigor.Prelude.Arrays.{Array, write, u32}
use vigor.Prelude.Loops.{for_range}
use Prim.Native.Nat.{bit_and, bit_or}

abbrev pub invalid : ℕ
invalid = 0xFFFF

abbrev pub lpm_24_max_entries : ℕ
lpm_24_max_entries = 16777216

abbrev pub lpm_long_max_entries : ℕ
lpm_long_max_entries = 65536

abbrev pub lpm_long_offset_max : ℕ
lpm_long_offset_max = 256

pub record Lpm : Type 0 where
  pub lpm_24 : Array ℕ
  pub lpm_long : Array ℕ
  pub lpm_long_index : ℕ

unfoldable pub fill_invalid : Array ℕ → (size : ℕ) → Array ℕ
fill_invalid t size = for_range size 0 (λ i a. write a i invalid) t

-- `table[i]` of an initialised array. The callers stay in range.
unfoldable pub entry_of : List ℕ → Array ℕ
entry_of [] i = 0
entry_of (x ∷ xs) i = if i == 0 then x else entry_of xs (i - 1)

abbrev ip_masks : List ℕ
ip_masks =
    0x00000000 ∷ 0x80000000 ∷ 0xC0000000 ∷ 0xE0000000 ∷ 0xF0000000 ∷ 0xF8000000 ∷ 0xFC000000
    ∷ 0xFE000000 ∷ 0xFF000000 ∷ 0xFF800000 ∷ 0xFFC00000 ∷ 0xFFE00000 ∷ 0xFFF00000 ∷ 0xFFF80000
    ∷ 0xFFFC0000 ∷ 0xFFFE0000 ∷ 0xFFFF0000 ∷ 0xFFFF8000 ∷ 0xFFFFC000 ∷ 0xFFFFE000 ∷ 0xFFFFF000
    ∷ 0xFFFFF800 ∷ 0xFFFFFC00 ∷ 0xFFFFFE00 ∷ 0xFFFFFF00 ∷ 0xFFFFFF80 ∷ 0xFFFFFFC0 ∷ 0xFFFFFFE0
    ∷ 0xFFFFFFF0 ∷ 0xFFFFFFF8 ∷ 0xFFFFFFFC ∷ 0xFFFFFFFE ∷ 0xFFFFFFFF ∷ []

abbrev short_sizes : List ℕ
short_sizes =
    0x1000000 ∷ 0x800000 ∷ 0x400000 ∷ 0x200000 ∷ 0x100000 ∷ 0x80000 ∷ 0x40000 ∷ 0x20000 ∷ 0x10000
    ∷ 0x8000 ∷ 0x4000 ∷ 0x2000 ∷ 0x1000 ∷ 0x800 ∷ 0x400 ∷ 0x200 ∷ 0x100 ∷ 0x80 ∷ 0x40 ∷ 0x20 ∷ 0x10
    ∷ 0x8 ∷ 0x4 ∷ 0x2 ∷ 0x1 ∷ []

abbrev long_sizes : List ℕ
long_sizes = 0x80 ∷ 0x40 ∷ 0x20 ∷ 0x10 ∷ 0x8 ∷ 0x4 ∷ 0x2 ∷ 0x1 ∷ []

unfoldable pub build_mask_from_prefixlen : (prefixlen : ℕ) → ℕ
build_mask_from_prefixlen prefixlen = entry_of ip_masks prefixlen

unfoldable pub lpm_24_extract_first_index : (key : ℕ) → ℕ
lpm_24_extract_first_index key = key / 256

unfoldable pub compute_rule_size : (prefixlen : ℕ) → ℕ
compute_rule_size prefixlen =
    if ltb prefixlen 25
    then entry_of short_sizes prefixlen
    else entry_of long_sizes (prefixlen - 25)

unfoldable pub lpm_24_entry_flag : (entry : ℕ) → Bool
lpm_24_entry_flag entry = entry / 32768 == 1

unfoldable pub lpm_24_entry_set_flag : (entry : ℕ) → ℕ
lpm_24_entry_set_flag entry = bit_or entry 0x8000

unfoldable pub lpm_long_extract_first_index : (key prefixlen base_index : ℕ) → ℕ
lpm_long_extract_first_index key prefixlen base_index =
    let mask = build_mask_from_prefixlen prefixlen in
    let masked_data = bit_and key mask in
    let last_byte = bit_and masked_data 0xFF % 256 in (base_index * 256 + last_byte) % 65536

-- The three calls of `malloc`: whether the first returns memory, and the tables of the others with
-- what the memory holds. `none` is the result 0.
unfoldable pub lpm_allocate : Bool → (lpm_24 lpm_long : Option (Array ℕ)) → Option Lpm
lpm_allocate false lpm_24 lpm_long = none
lpm_allocate true none lpm_long = none
lpm_allocate true (some lpm_24) none = none
lpm_allocate true (some lpm_24) (some lpm_long) = some (record {
  lpm_24 = fill_invalid lpm_24 lpm_24_max_entries;
  lpm_long = fill_invalid lpm_long lpm_long_max_entries;
  lpm_long_index = 0;
})

-- The two branches of a result return what they have read.
unfoldable pub lpm_lookup_elem : Lpm → (prefix : ℕ) → ℕ
lpm_lookup_elem lpm prefix =
    let value = lpm.lpm_24 (lpm_24_extract_first_index prefix) in
    if not (value == invalid) && lpm_24_entry_flag value
    then lpm.lpm_long (lpm_long_extract_first_index prefix 32 (bit_and value 0xFF % 256))
    else value

-- The loop from `first_index` up to `last_index`.
unfoldable pub store_value : Array ℕ → (first_index rule_size value : ℕ) → Array ℕ
store_value t first_index rule_size value =
    let last_index = u32 (first_index + rule_size) in
    for_range (last_index - first_index) first_index (λ i a. write a i value) t

unfoldable pub needs_new_index : (lpm_24_value : ℕ) → Bool
needs_new_index lpm_24_value =
    if lpm_24_value == invalid then true else not (lpm_24_entry_flag lpm_24_value)

-- `base_index`, with the tables as the choice of it leaves them. `none` when no index is left.
unfoldable pub choose_base : Lpm → (lpm_24_index : ℕ) → Option (ℕ × Lpm)
choose_base lpm lpm_24_index =
    let lpm_24_value = lpm.lpm_24 lpm_24_index in
    if needs_new_index lpm_24_value
    then if leb lpm_long_offset_max lpm.lpm_long_index
      then none
      else (let base_index = lpm.lpm_long_index % 256 in
          some (
            base_index,
            record {
              lpm_24 = write lpm.lpm_24 lpm_24_index (lpm_24_entry_set_flag base_index);
              lpm_long = lpm.lpm_long;
              lpm_long_index = (lpm.lpm_long_index + 1) % 65536;
            },
          ))
    else some (bit_and lpm_24_value 0x7FFF % 256, lpm)

-- The rest of a rule of more than 24 bits.
unfoldable pub store_long : Lpm → Option (ℕ × Lpm) → (prefix prefixlen value : ℕ) → Bool × Lpm
store_long lpm none prefix prefixlen value = (false, lpm)
store_long lpm (some (base_index, lpm')) prefix prefixlen value = (
  true,
  record {
    lpm_24 = lpm'.lpm_24;
    lpm_long =
        store_value lpm'.lpm_long (lpm_long_extract_first_index prefix prefixlen base_index)
          (compute_rule_size prefixlen) value;
    lpm_long_index = lpm'.lpm_long_index;
  },
)

-- `false` is the result 0.
unfoldable pub lpm_update_elem : Lpm → (prefix prefixlen value : ℕ) → Bool × Lpm
lpm_update_elem lpm prefix prefixlen value =
    let masked_ip = bit_and prefix (build_mask_from_prefixlen prefixlen) in
    if ltb prefixlen 25
    then (
      true,
      record {
        lpm_24 =
            store_value lpm.lpm_24 (lpm_24_extract_first_index masked_ip)
              (compute_rule_size prefixlen) value;
        lpm_long = lpm.lpm_long;
        lpm_long_index = lpm.lpm_long_index;
      },
    )
    else store_long lpm (choose_base lpm (lpm_24_extract_first_index prefix)) prefix prefixlen value
