-- ===== src/Lpm/Longest.antt =====
-- With the rules in ascending order of their lengths, as lpm-dir-24-8.h assumes, the latest rule
-- that covers an address is the one with the longest prefix.
use vigor.Prelude.{
  ℕ, ◌≤◌, ◌<◌, ◌^◌, ◌≡◌, refl, ◌∙◌, Option, none, some, Bool-cases, inl, inr, leb, if◌then◌else◌,
  List, [], ◌∷◌, arith,
}
use mathlib.Core.Option.{some-injective}
use vigor.Lpm.{Lpm, invalid, lpm_lookup_elem}
use vigor.Lpm.Update.{covers}
use vigor.Lpm.Run.{Rule, Loaded, latest_match, lpm_lookup_elem_lem}

-- The longer of two rules, the first one if they are equally long.
unfoldable pub longer : Rule → Option Rule → Rule
longer r none = r
longer r (some q) = if leb q.prefixlen r.prefixlen then r else q

-- The rule with the longest prefix that covers the address, whatever the order.
unfoldable pub longest_rule : List Rule → (address : ℕ) → Option Rule
longest_rule [] address = none
longest_rule (r ∷ rs) address =
    let rest = longest_rule rs address in
    if covers r.prefix r.prefixlen address then some (longer r rest) else rest

abbrev pub route_of : Option Rule → ℕ
route_of none = invalid
route_of (some r) = r.value

-- No rule of the list is longer than `most`.
abbrev pub IsBelow : (most : ℕ) → List Rule → Type 0
IsBelow most [] = Unit {0}
IsBelow most (r ∷ rs) = (r.prefixlen ≤ most) × IsBelow most rs

-- The latest rule, which comes first, is the longest.
abbrev pub IsAscending : List Rule → Type 0
IsAscending [] = Unit {0}
IsAscending (r ∷ rs) = IsBelow r.prefixlen rs × IsAscending rs

longer-le :
    (most : ℕ) (r : Rule) (o : Option Rule)
    → r.prefixlen ≤ most
    → ((q : Rule) → o ≡ some q → q.prefixlen ≤ most)
    → (longer r o).prefixlen ≤ most
unfolding longer
longer-le most r none l below = l
longer-le most r (some q) l below = ground (arith, l, below q refl)

longest_rule-le :
    (most : ℕ) (rs : List Rule) (a : ℕ) (q : Rule)
    → IsBelow most rs
    → longest_rule rs a ≡ some q
    → q.prefixlen ≤ most
unfolding longest_rule
longest_rule-le most [] a q below e = absurd (ground (arith, e))
longest_rule-le most (r ∷ rs) a q (l, below) e = elim (Bool-cases (covers r.prefix r.prefixlen a)) [
  | inr other ↦ longest_rule-le most rs a q below (rw other at e)
  | inl here ↦
      let same : longer r (longest_rule rs a) ≡ q = some-injective _ _ (rw here at e) in
      rw (← same)
        (longer-le most r (longest_rule rs a) l (λ p f. longest_rule-le most rs a p below f))
]

longer_of_longest :
    (r : Rule) (o : Option Rule)
    → ((q : Rule) → o ≡ some q → q.prefixlen ≤ r.prefixlen)
    → longer r o ≡ r
unfolding longer
longer_of_longest r none below = refl
longer_of_longest r (some q) below = ground (arith, below q refl)

latest_match-longest_rule :
    (rs : List Rule) (a : ℕ) → IsAscending rs → latest_match rs a ≡ route_of (longest_rule rs a)
unfolding latest_match longest_rule
latest_match-longest_rule [] a w = refl
latest_match-longest_rule (r ∷ rs) a (below, w) =
    elim (Bool-cases (covers r.prefix r.prefixlen a)) [
      | inr other ↦ rw other (latest_match-longest_rule rs a w)
      | inl here ↦
          let first =
            longer_of_longest r (longest_rule rs a)
              (λ q e. longest_rule-le r.prefixlen rs a q below e) in
          rw (here, first) refl
    ]

-- Take tables from an allocation that gets its memory, and apply updates with 32-bit prefixes,
-- lengths of at most 32 and values below 2^15, in ascending order of their lengths. Let each update
-- that needs a new block find one, and let no rule of more than 24 bits have a prefix that a rule
-- of at most 24 bits covers. Then the lookup of any 32-bit address returns the value of the rule
-- with the longest prefix that covers the address, the latest of those that are equally long, and
-- INVALID if no rule covers it.
pub lpm_lookup_elem-longest_rule :
    (rs : List Rule) (lpm : Lpm) (a : ℕ)
    → Loaded rs lpm
    → IsAscending rs
    → a < 2 ^ 32
    → lpm_lookup_elem lpm a ≡ route_of (longest_rule rs a)
lpm_lookup_elem-longest_rule rs lpm a h w la =
    lpm_lookup_elem_lem rs lpm a h la ∙ latest_match-longest_rule rs a w
