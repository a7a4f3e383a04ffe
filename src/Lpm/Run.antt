-- ===== src/Lpm/Run.antt =====
-- Tables that lpm-dir-24-8.c builds by a sequence of updates, against the list of the rules.
use vigor.Prelude.{
  ℕ, ◌/◌, ◌^◌, ◌≤◌, ◌<◌, ◌≡◌, refl, ap, ◌∙◌, inl, inr, Bool, true, false, not, ◌&&◌, ◌||◌, ◌==◌,
  if◌then◌else◌, leb, ltb, some, Bool-cases, List, [], ◌∷◌, arith,
}
use vigor.Prelude.Arrays.{Array}
use vigor.Lpm.{Lpm, invalid, lpm_lookup_elem, lpm_update_elem, lpm_allocate, needs_new_index}
use vigor.Lpm.Lookup.{IsLpm, entry_cases, lookup_plain, needs-plain, needs-flagged}
use vigor.Lpm.Update.{covers, short_entry, short_rest, long_flagged, long_fresh, long_full}
use vigor.Lpm.Route.{flagged_route, fresh_route, short_route}
use vigor.Lpm.Inv.{lpm_update_elem-IsLpm, lpm_allocate-IsLpm}

-- A rule that finds no block left.
unfoldable pub exhausted : Lpm → (prefix prefixlen : ℕ) → Bool
exhausted lpm prefix prefixlen =
    leb 25 prefixlen && (needs_new_index (lpm.lpm_24 (prefix / 256)) && leb 256 lpm.lpm_long_index)

-- The route of an address after a rule for which a block is left.
unfoldable pub route_after : Lpm → (prefix prefixlen value address : ℕ) → ℕ
route_after lpm prefix prefixlen value address =
    if covers prefix prefixlen address
    then value
    else if leb 25 prefixlen
        && (needs_new_index (lpm.lpm_24 (prefix / 256)) && (address / 256 == prefix / 256))
    then invalid
    else lpm_lookup_elem lpm address

-- In sound tables, for a 32-bit prefix, a length of at most 32, a value below 2^15 and any 32-bit
-- address: an update fails exactly if its rule has more than 24 bits, the entry of its prefix has
-- no block and no block is left, and then the lookup of the address stays as it is. Otherwise an
-- address that the rule covers is looked up to its value; an address that it does not cover loses
-- its route if it shares 24 bits with a rule that got a new block; and every other address keeps
-- its route.
pub lpm_update_elem_lem :
    (lpm : Lpm) (p n v a : ℕ)
    → IsLpm lpm
    → p < 2 ^ 32
    → n ≤ 32
    → v < 32768
    → a < 2 ^ 32
    → let (ok, lpm') = lpm_update_elem lpm p n v in
      (ok ≡ not (exhausted lpm p n))
      × (lpm_lookup_elem lpm' a
          ≡ (if exhausted lpm p n then lpm_lookup_elem lpm a else route_after lpm p n v a))
unfolding exhausted route_after
lpm_update_elem_lem lpm p n v a w lp ln lv la = elim (Bool-cases (ltb n 25)) [
  | inl short ↦
      let s : n < 25 = ground arith in
      let s' : leb 25 n ≡ false = ground arith in
      rw s' ((short_rest lpm p n v s).0, short_route lpm p n v a w lp s lv la)
  | inr long ↦
      let l : 25 ≤ n = ground arith in
      let l' : leb 25 n ≡ true = ground arith in
      rw l' (elim (entry_cases lpm (p / 256) w (omega arith)) [
        | inr (b, lb, e) ↦
            let lb' : b < 256 = omega (arith, w.index_bound) in
            rw (e, needs-flagged b lb')
              (
                ap (λ (r : Bool × Lpm). r.0) (long_flagged lpm p n v b l lb' e),
                flagged_route lpm p n v lp l ln b a w lb e la,
              )
        | inl plain ↦ rw (needs-plain _ plain) (elim (Bool-cases (leb 256 lpm.lpm_long_index)) [
          | inl full ↦ rw (full, long_full lpm p n v l (ground arith) plain) (refl, refl)
          | inr left ↦
              let room : lpm.lpm_long_index < 256 = ground arith in
              rw left (
                ap (λ (r : Bool × Lpm). r.0) (long_fresh lpm p n v l room plain),
                fresh_route lpm p n v lp l ln a w room plain la,
              )
        ])
      ])
]

pub record Rule : Type 0 where
  pub prefix : ℕ
  pub prefixlen : ℕ
  pub value : ℕ

-- What `lpm_update_elem` requires of its arguments.
abbrev pub IsRule : Rule → Type 0
IsRule r = (r.prefix < 2 ^ 32) × (r.prefixlen ≤ 32) × (r.value < 32768)

-- The rules come latest first. With rules in ascending order of their lengths the first one that
-- covers an address has the longest prefix.
unfoldable pub latest_match : List Rule → (address : ℕ) → ℕ
latest_match [] address = invalid
latest_match (r ∷ rs) address =
    if covers r.prefix r.prefixlen address then r.value else latest_match rs address

-- Some rule of at most 24 bits covers the address.
unfoldable pub short_match : List Rule → (address : ℕ) → Bool
short_match [] address = false
short_match (r ∷ rs) address =
    ltb r.prefixlen 25 && covers r.prefix r.prefixlen address || short_match rs address

-- The tables after an allocation and a sequence of updates that found a block when they needed one,
-- where no rule of more than 24 bits came after a shorter one that covers it.
pub data Loaded : List Rule → Lpm → Type 0 where
  allocated :
      (t24 long : Array ℕ) (lpm : Lpm)
      → lpm_allocate true (some t24) (some long) ≡ some lpm
      → Loaded [] lpm
  updated :
      (rs : List Rule) (lpm : Lpm) (r : Rule)
      → Loaded rs lpm
      → IsRule r
      → leb 25 r.prefixlen && short_match rs r.prefix ≡ false
      → exhausted lpm r.prefix r.prefixlen ≡ false
      → Loaded (r ∷ rs) (lpm_update_elem lpm r.prefix r.prefixlen r.value).1

-- What holds between two updates.
record Matches (rs : List Rule) (lpm : Lpm) : Type 0 where
  tables : IsLpm lpm
  routes : (a : ℕ) → a < 2 ^ 32 → lpm_lookup_elem lpm a ≡ latest_match rs a
  shorts : (a : ℕ) → a < 2 ^ 32 → lpm.lpm_24 (a / 256) < 32768 → short_match rs a ≡ true

-- The addresses that share 24 bits with a longer prefix and lose their route have none.
no_route :
    (rs : List Rule) (lpm : Lpm) (p a : ℕ)
    → Matches rs lpm
    → p < 2 ^ 32
    → short_match rs p ≡ false
    → needs_new_index (lpm.lpm_24 (p / 256)) ≡ true
    → a / 256 ≡ p / 256
    → lpm_lookup_elem lpm a ≡ invalid
no_route rs lpm p a m lp safe needs same = elim (entry_cases lpm (p / 256) m.tables (omega arith)) [
  | inr (b, lb, e) ↦ ground (arith, needs-flagged b (omega (arith, m.tables.index_bound)), e, needs)
  | inl (inl e) ↦ lookup_plain lpm a invalid (rw same e) (inl refl)
  | inl (inr low) ↦ ground (arith, m.shorts p lp low, safe)
]

route_lem :
    (rs : List Rule) (lpm : Lpm) (r : Rule) (a : ℕ)
    → Matches rs lpm
    → IsRule r
    → leb 25 r.prefixlen && short_match rs r.prefix ≡ false
    → a < 2 ^ 32
    → route_after lpm r.prefix r.prefixlen r.value a ≡ latest_match (r ∷ rs) a
unfolding route_after latest_match
route_lem rs lpm r a m (lp, ln, lv) safe la =
    ground (arith, m.routes a la, no_route rs lpm r.prefix a m lp, safe)

-- A longer rule makes no entry one of `lpm_24` alone.
long_entry :
    (lpm : Lpm) (p n v i : ℕ)
    → IsLpm lpm
    → p < 2 ^ 32
    → 25 ≤ n
    → (lpm_update_elem lpm p n v).1.lpm_24 i < 32768
    → lpm.lpm_24 i < 32768
long_entry lpm p n v i w lp l low = elim (entry_cases lpm (p / 256) w (omega arith)) [
  | inr (b, lb, e) ↦ rw (long_flagged lpm p n v b l (omega (arith, w.index_bound)) e) at low
  | inl plain ↦ elim (Bool-cases (leb 256 lpm.lpm_long_index)) [
    | inl full ↦ rw (long_full lpm p n v l (ground arith) plain) at low
    | inr left ↦
        let entry = rw (long_fresh lpm p n v l (ground arith) plain) at low in ground (arith, entry)
  ]
]

shorts_lem :
    (rs : List Rule) (lpm : Lpm) (r : Rule) (a : ℕ)
    → Matches rs lpm
    → IsRule r
    → a < 2 ^ 32
    → (lpm_update_elem lpm r.prefix r.prefixlen r.value).1.lpm_24 (a / 256) < 32768
    → short_match (r ∷ rs) a ≡ true
unfolding short_match
shorts_lem rs lpm r a m (lp, ln, lv) la low = elim (Bool-cases (ltb r.prefixlen 25)) [
  | inl short ↦
      let entry = short_entry lpm r.prefix r.prefixlen r.value a lp (ground arith) in
      ground (arith, entry, m.shorts a la)
  | inr long ↦
      let old =
        long_entry lpm r.prefix r.prefixlen r.value (a / 256) m.tables lp (ground arith) low in
      ground (arith, m.shorts a la old)
]

matches : (rs : List Rule) (lpm : Lpm) → Loaded rs lpm → Matches rs lpm
unfolding latest_match
matches _ _ (allocated t24 long lpm e) =
    let (w, start) = lpm_allocate-IsLpm t24 long lpm e in
    record {
      tables = w;
      routes = λ a la. lookup_plain lpm a invalid (start (a / 256) (omega arith)) (inl refl);
      shorts = λ a la low. absurd (omega (arith, start (a / 256) (omega arith)));
    }
matches _ _ (updated rs lpm r h (lp, ln, lv) safe room) =
    let m = matches rs lpm h in
    record {
      tables = lpm_update_elem-IsLpm lpm r.prefix r.prefixlen r.value m.tables lp ln lv;
      routes = λ a la.
          rw room at
            ((lpm_update_elem_lem lpm r.prefix r.prefixlen r.value a m.tables lp ln lv la).1)
          ∙ route_lem rs lpm r a m (lp, ln, lv) safe la;
      shorts = λ a la low. shorts_lem rs lpm r a m (lp, ln, lv) la low;
    }

-- Take tables from an allocation that gets its memory, and apply any sequence of updates with
-- 32-bit prefixes, lengths of at most 32 and values below 2^15. Let each update that needs a new
-- block find one, and let no rule of more than 24 bits come after a rule of at most 24 bits that
-- covers its prefix. Then the lookup of any 32-bit address returns the value of the latest rule
-- that covers the address, and INVALID if no rule does.
pub lpm_lookup_elem_lem :
    (rs : List Rule) (lpm : Lpm) (a : ℕ)
    → Loaded rs lpm
    → a < 2 ^ 32
    → lpm_lookup_elem lpm a ≡ latest_match rs a
lpm_lookup_elem_lem rs lpm a h la = (matches rs lpm h).routes a la
