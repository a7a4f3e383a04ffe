-- ===== src/Tests/Lpm.antt =====
-- Runs of libvig/verified/lpm-dir-24-8.c on small sets of rules.
use vigor.Prelude.{◌≡◌, refl, true, not, if◌then◌else◌, some, [], ◌∷◌, arith}
use vigor.Prelude.Loops.{for_range}
use vigor.Lpm
use vigor.Lpm.{
  Lpm, invalid, lpm_allocate, lpm_update_elem, lpm_lookup_elem, fill_invalid, needs_new_index,
}
use vigor.Lpm.Lookup.{IsLpm}
use vigor.Lpm.Update.{covers, short_rest}
use vigor.Lpm.Inv.{lpm_update_elem-IsLpm}
use vigor.Lpm.Longest.{longest_rule, route_of, lpm_lookup_elem-longest_rule}
use vigor.Lpm.Run.{
  Rule, Loaded, allocated, updated, exhausted, route_after, latest_match, short_match,
  lpm_update_elem_lem, lpm_lookup_elem_lem,
}

-- Tables with no rule.
abbrev empty : Lpm
empty = record { lpm_24 = λ _. invalid; lpm_long = λ _. invalid; lpm_long_index = 0 }

empty-IsLpm : IsLpm empty
empty-IsLpm = record {
  index_bound = omega arith;
  flagged = λ i l high d. absurd (d refl);
  apart = λ i j li lj high d e. absurd (d refl);
  fresh = λ b x lb lb' lx. refl;
}

-- 192.168.0.0/16 by route 5, then 192.168.0.128/25 by route 7.
abbrev after_short : Lpm
after_short = (lpm_update_elem empty 3232235520 16 5).1

abbrev after_long : Lpm
after_long = (lpm_update_elem after_short 3232235648 25 7).1

-- 192.168.0.180, 192.168.1.1, 10.0.0.1 and 192.168.0.1, which the second rule does not cover.
lookups :
    (lpm_lookup_elem after_long 3232235700 ≡ 7)
    × (lpm_lookup_elem after_long 3232235777 ≡ 5)
    × (lpm_lookup_elem after_long 167772161 ≡ invalid)
    × (lpm_lookup_elem after_short 3232235521 ≡ 5)
    × (lpm_lookup_elem after_long 3232235521 ≡ invalid)
unfolding lpm_lookup_elem lpm_update_elem Lpm.store_long Lpm.choose_base Lpm.store_value
    Lpm.needs_new_index Lpm.compute_rule_size Lpm.build_mask_from_prefixlen Lpm.entry_of
    Lpm.lpm_24_entry_flag Lpm.lpm_24_entry_set_flag Lpm.lpm_24_extract_first_index
    Lpm.lpm_long_extract_first_index for_range
lookups = (refl, refl, refl, refl, refl)

after_short-IsLpm : IsLpm after_short
after_short-IsLpm =
    lpm_update_elem-IsLpm empty 3232235520 16 5 empty-IsLpm (omega arith) (omega arith)
      (omega arith)

lpm_update_elem-IsLpm_example : IsLpm (lpm_update_elem after_short 3232235648 25 7).1
lpm_update_elem-IsLpm_example =
    lpm_update_elem-IsLpm after_short 3232235648 25 7 after_short-IsLpm (omega arith) (omega arith)
      (omega arith)

lpm_update_elem_lem_example :
    ((lpm_update_elem after_short 3232235648 25 7).0 ≡ not (exhausted after_short 3232235648 25))
    × (lpm_lookup_elem after_long 3232235521 ≡ (
        if exhausted after_short 3232235648 25
        then lpm_lookup_elem after_short 3232235521
        else route_after after_short 3232235648 25 7 3232235521))
lpm_update_elem_lem_example =
    lpm_update_elem_lem after_short 3232235648 25 7 3232235521 after_short-IsLpm (omega arith)
      (omega arith) (omega arith) (omega arith)

-- 10.0.0.0/8 by route 5, then 192.168.0.128/25 by route 7, in tables as they are allocated.
abbrev rule_short : Rule
rule_short = record { prefix = 167772160; prefixlen = 8; value = 5 }

abbrev rule_long : Rule
rule_long = record { prefix = 3232235648; prefixlen = 25; value = 7 }

abbrev start : Lpm
start = record {
  lpm_24 = fill_invalid (λ _. 3) 16777216;
  lpm_long = fill_invalid (λ _. 4) 65536;
  lpm_long_index = 0;
}

start_lem : lpm_allocate true (some (λ _. 3)) (some (λ _. 4)) ≡ some start
unfolding lpm_allocate
start_lem = refl

abbrev one_rule : Lpm
one_rule = (lpm_update_elem start 167772160 8 5).1

one_rule-Loaded : Loaded (rule_short ∷ []) one_rule
unfolding exhausted
one_rule-Loaded =
    updated [] start rule_short (allocated (λ _. 3) (λ _. 4) start start_lem)
      (omega arith, omega arith, omega arith) refl refl

two_rules-Loaded : Loaded (rule_long ∷ rule_short ∷ []) (lpm_update_elem one_rule 3232235648 25 7).1
unfolding exhausted short_match covers
two_rules-Loaded =
    updated (rule_short ∷ []) one_rule rule_long one_rule-Loaded
      (omega arith, omega arith, omega arith) refl
      (let left = (short_rest start 167772160 8 5 (omega arith)).2 in ground (arith, left))

lpm_lookup_elem_lem_example :
    lpm_lookup_elem (lpm_update_elem one_rule 3232235648 25 7).1 3232235700
    ≡ latest_match (rule_long ∷ rule_short ∷ []) 3232235700
lpm_lookup_elem_lem_example =
    lpm_lookup_elem_lem (rule_long ∷ rule_short ∷ []) (lpm_update_elem one_rule 3232235648 25 7).1
      3232235700 two_rules-Loaded (omega arith)

lpm_lookup_elem-longest_rule_example :
    lpm_lookup_elem (lpm_update_elem one_rule 3232235648 25 7).1 3232235700
    ≡ route_of (longest_rule (rule_long ∷ rule_short ∷ []) 3232235700)
lpm_lookup_elem-longest_rule_example =
    lpm_lookup_elem-longest_rule (rule_long ∷ rule_short ∷ [])
      (lpm_update_elem one_rule 3232235648 25 7).1 3232235700 two_rules-Loaded
      ((omega arith, tt), (tt, tt)) (omega arith)
