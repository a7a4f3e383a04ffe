-- ===== src/DoubleChain/Order.antt =====
-- The times of the entries: what each index was last used at, and the order of the entries by it.
use vigor.Prelude.{
  ℕ, ◌≡◌, refl, true, false, ◌&&◌, not, ◌==◌, arith, Bool-cases, inl, inr, [], ◌∷◌, ◌++◌,
  if◌then◌else◌,
}
use vigor.Prelude.Arrays.{Array}
use vigor.Prelude.Int.{ℤ, pos, ltb_ℤ, ◌≤ℤ◌, ≤ℤ_trans}
use vigor.Prelude.Lists.{Distinct}
use vigor.DoubleChain.Entries.{Entries, has, without, recent, slots, Stamped, Sorted, elem-slots}

-- The time of an index that has an entry.
abbrev pub time_of : ℕ → Entries → ℤ
time_of i [] = pos 0
time_of i ((j, t) ∷ es) = if j == i then t else time_of i es

-- No entry is younger than `time`.
abbrev pub Until : ℤ → Entries → Type 0
Until time [] = Unit {0}
Until time ((i, t) ∷ es) = (t ≤ℤ time) × Until time es

pub time_of-Stamped :
    (times : Array ℤ) (i : ℕ) (es : Entries)
    → Stamped times es
    → has i es ≡ true
    → times i ≡ time_of i es
time_of-Stamped times i [] s h = absurd (ground arith)
time_of-Stamped times i ((j, t) ∷ es) (e, s) h = elim (Bool-cases (j == i)) [
  | inl here ↦ ground (arith, here, e)
  | inr other ↦ let rest = time_of-Stamped times i es s (ground (arith, h, other)) in rw other rest
]

pub time_of-append :
    (u i : ℕ) (t : ℤ) (es : Entries)
    → time_of u (es ++ ((i, t) ∷ []))
      ≡ (if has u es then time_of u es else if i == u then t else pos 0)
time_of-append u i t [] = refl
time_of-append u i t ((j, s) ∷ es) = ground (arith, time_of-append u i t es)

pub time_of-without :
    (u i : ℕ) (es : Entries) → (u == i) ≡ false → time_of u (without i es) ≡ time_of u es
unfolding without
time_of-without u i [] h = refl
time_of-without u i ((j, t) ∷ es) h = ground (arith, time_of-without u i es h, h)

-- Where no index repeats, the recent entries are those whose time is not older.
pub has-recent :
    (u : ℕ) (time : ℤ) (es : Entries)
    → Distinct (slots es)
    → has u (recent time es) ≡ (has u es && not (ltb_ℤ (time_of u es) time))
unfolding recent
has-recent u time [] d = refl
has-recent u time ((j, t) ∷ es) (fresh, d) = elim (Bool-cases (ltb_ℤ t time)) [
  | inl old ↦ rw old (ground (arith, has-recent u time es d, elem-slots j es, fresh, old))
  | inr young ↦ rw young (ground (arith, has-recent u time es d, elem-slots j es, fresh, young))
]

pub time_of-recent :
    (u : ℕ) (time : ℤ) (es : Entries)
    → Distinct (slots es)
    → has u (recent time es) ≡ true
    → time_of u (recent time es) ≡ time_of u es
unfolding recent
time_of-recent u time [] d h = refl
time_of-recent u time ((j, t) ∷ es) (fresh, d) h = elim (Bool-cases (ltb_ℤ t time)) [
  | inl old ↦
      ground
        (arith, old, h, time_of-recent u time es d, has-recent u time es d, elem-slots j es, fresh)
  | inr young ↦ ground (arith, young, h, time_of-recent u time es d)
]

pub Sorted-weaken : (a b : ℤ) (es : Entries) → a ≤ℤ b → Sorted b es → Sorted a es
Sorted-weaken a b [] l s = tt
Sorted-weaken a b ((i, t) ∷ es) l (m, s) = (≤ℤ_trans a b t l m, s)

pub Sorted-without : (low : ℤ) (i : ℕ) (es : Entries) → Sorted low es → Sorted low (without i es)
unfolding without
Sorted-without low i [] s = tt
Sorted-without low i ((j, t) ∷ es) (l, s) = elim (Bool-cases (j == i)) [
  | inl here ↦ rw here (Sorted-weaken low t es l s)
  | inr other ↦ rw other (l, Sorted-without t i es s)
]

pub Sorted-append :
    (low : ℤ) (i : ℕ) (t : ℤ) (es : Entries)
    → low ≤ℤ t
    → Sorted low es
    → Until t es
    → Sorted low (es ++ ((i, t) ∷ []))
Sorted-append low i t [] l s b = (l, tt)
Sorted-append low i t ((j, u) ∷ es) l (m, s) (c, b) = (m, Sorted-append u i t es c s b)

pub Sorted-recent : (low time : ℤ) (es : Entries) → Sorted low es → Sorted low (recent time es)
unfolding recent
Sorted-recent low time [] s = tt
Sorted-recent low time ((j, t) ∷ es) (l, s) = elim (Bool-cases (ltb_ℤ t time)) [
  | inl old ↦ rw old (Sorted-recent low time es (Sorted-weaken low t es l s))
  | inr young ↦ rw young (l, Sorted-recent t time es s)
]

pub Until-without : (time : ℤ) (i : ℕ) (es : Entries) → Until time es → Until time (without i es)
unfolding without
Until-without time i [] b = tt
Until-without time i ((j, t) ∷ es) (l, b) = elim (Bool-cases (j == i)) [
  | inl here ↦ rw here b
  | inr other ↦ rw other (l, Until-without time i es b)
]

pub Until-append :
    (time : ℤ) (i : ℕ) (t : ℤ) (es : Entries)
    → t ≤ℤ time
    → Until time es
    → Until time (es ++ ((i, t) ∷ []))
Until-append time i t [] l b = (l, tt)
Until-append time i t ((j, u) ∷ es) l (m, b) = (m, Until-append time i t es l b)

pub Until-recent : (bound time : ℤ) (es : Entries) → Until bound es → Until bound (recent time es)
unfolding recent
Until-recent bound time [] b = tt
Until-recent bound time ((j, t) ∷ es) (l, b) = elim (Bool-cases (ltb_ℤ t time)) [
  | inl old ↦ rw old (Until-recent bound time es b)
  | inr young ↦ rw young (l, Until-recent bound time es b)
]

pub Until-weaken : (a b : ℤ) (es : Entries) → a ≤ℤ b → Until a es → Until b es
Until-weaken a b [] l s = tt
Until-weaken a b ((i, t) ∷ es) l (m, s) = (≤ℤ_trans t a b m l, Until-weaken a b es l s)
