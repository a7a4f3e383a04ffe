-- ===== src/DoubleChain/Entries.antt =====
-- What double-chain.h promises: the allocated indices with their times, oldest first.
use vigor.Prelude.{
  ℕ, suc, ◌+◌, ◌≤◌, ◌≡◌, refl, ap, Bool, true, false, ◌||◌, ◌==◌, arith, Bool-cases, inl, inr, sym,
  List, [], ◌∷◌, ◌++◌, if◌then◌else◌,
}
use vigor.Prelude.Arrays.{Array, write}
use vigor.Prelude.Int.{ℤ, ltb_ℤ, ◌≤ℤ◌, ≤ℤ_trans, ≤ℤ-false, ltb_ℤ-false}
use vigor.Prelude.Lists.{length, elem, remove, Distinct}

abbrev pub Entries : Type 0
Entries = List (ℕ × ℤ)

abbrev pub has : ℕ → Entries → Bool
has i [] = false
has i ((j, t) ∷ es) = j == i || has i es

unfoldable pub without : ℕ → Entries → Entries
without i [] = []
without i ((j, t) ∷ es) = if j == i then es else (j, t) ∷ without i es

-- Entries that are older than `time`, from the oldest on, are dropped.
unfoldable pub drop_expired : ℤ → Entries → Entries
drop_expired time [] = []
drop_expired time ((i, t) ∷ es) =
    let rest = drop_expired time es in if ltb_ℤ t time then rest else (i, t) ∷ es

pub drop_expired-le : (time : ℤ) (es : Entries) → length (drop_expired time es) ≤ length es
unfolding drop_expired
drop_expired-le time [] = omega arith
drop_expired-le time ((i, t) ∷ es) = ground (arith, drop_expired-le time es)

-- An oldest entry that is not dropped is not older.
pub drop_expired_kept :
    (time : ℤ) (i : ℕ) (t : ℤ) (es : Entries)
    → drop_expired time ((i, t) ∷ es) ≡ (i, t) ∷ es
    → ltb_ℤ t time ≡ false
unfolding drop_expired
drop_expired_kept time i t es h = elim (Bool-cases (ltb_ℤ t time)) [
  | inr n ↦ n
  | inl y ↦ let e = ap length (rw y at h) in absurd (omega (arith, e, drop_expired-le time es))
]

-- The cells of the entries.
abbrev pub slots : Entries → List ℕ
slots [] = []
slots ((i, t) ∷ es) = (i + 2) ∷ slots es

-- `timestamps` holds the times of the entries.
abbrev pub Stamped : Array ℤ → Entries → Type 0
Stamped times [] = Unit {0}
Stamped times ((i, t) ∷ es) = (times i ≡ t) × Stamped times es

pub elem-slots : (i : ℕ) (es : Entries) → elem (i + 2) (slots es) ≡ has i es
elem-slots i [] = refl
elem-slots i ((j, t) ∷ es) = ground (arith, elem-slots i es)

pub slots-without : (i : ℕ) (es : Entries) → remove (i + 2) (slots es) ≡ slots (without i es)
unfolding remove without
slots-without i [] = refl
slots-without i ((j, t) ∷ es) = ground (arith, slots-without i es)

pub slots-append : (es fs : Entries) → slots (es ++ fs) ≡ slots es ++ slots fs
slots-append [] fs = refl
slots-append ((j, t) ∷ es) fs = ap (◌∷◌ (j + 2)) (slots-append es fs)

pub length-slots : (es : Entries) → length (slots es) ≡ length es
length-slots [] = refl
length-slots ((j, t) ∷ es) = ap suc (length-slots es)

pub Stamped-append :
    (times : Array ℤ) (es fs : Entries)
    → Stamped times es
    → Stamped times fs
    → Stamped times (es ++ fs)
Stamped-append times [] fs s r = r
Stamped-append times ((j, t) ∷ es) fs (e, s) r = (e, Stamped-append times es fs s r)

-- A write at an index that has no entry.
pub Stamped-write :
    (times : Array ℤ) (i : ℕ) (v : ℤ) (es : Entries)
    → has i es ≡ false
    → Stamped times es
    → Stamped (write times i v) es
Stamped-write times i v [] h s = tt
Stamped-write times i v ((j, t) ∷ es) h (e, s) =
    (ground (arith, h, e), Stamped-write times i v es (ground (arith, h)) s)

pub Stamped-without :
    (times : Array ℤ) (i : ℕ) (es : Entries) → Stamped times es → Stamped times (without i es)
unfolding without
Stamped-without times i [] s = tt
Stamped-without times i ((j, t) ∷ es) (e, s) = elim (Bool-cases (j == i)) [
  | inl here ↦ rw here s
  | inr other ↦ rw other (e, Stamped-without times i es s)
]

pub has-append : (i : ℕ) (es fs : Entries) → has i (es ++ fs) ≡ (has i es || has i fs)
has-append i [] fs = refl
has-append i ((j, t) ∷ es) fs = ground (arith, has-append i es fs)

-- Where no index repeats, the one that is taken out is gone, and the others stay.
pub has-without :
    (i u : ℕ) (es : Entries)
    → Distinct (slots es)
    → has u (without i es) ≡ (if u == i then false else has u es)
unfolding without
has-without i u [] d = ground arith
has-without i u ((j, t) ∷ es) (fresh, d) =
    ground (arith, has-without i u es d, elem-slots j es, fresh)

pub length-without :
    (i : ℕ) (es : Entries) → has i es ≡ true → length (without i es) + 1 ≡ length es
unfolding without
length-without i [] h = absurd (ground arith)
length-without i ((j, t) ∷ es) h = ground (arith, length-without i es)

-- Times do not fall from the oldest entry on: they are at least `low`.
abbrev pub Sorted : ℤ → Entries → Type 0
Sorted low [] = Unit {0}
Sorted low ((i, t) ∷ es) = (low ≤ℤ t) × Sorted t es

-- The entries that are not older than `time`.
unfoldable pub recent : ℤ → Entries → Entries
recent time [] = []
recent time ((i, t) ∷ es) = if ltb_ℤ t time then recent time es else (i, t) ∷ recent time es

recent_all : (time low : ℤ) (es : Entries) → Sorted low es → time ≤ℤ low → recent time es ≡ es
unfolding recent
recent_all time low [] s l = refl
recent_all time low ((i, t) ∷ es) (o, s) l =
    let later = ≤ℤ_trans time low t l o in
    rw (≤ℤ-false t time later) (ap (◌∷◌ (i, t)) (recent_all time t es s later))

-- In the order of their times, dropping from the oldest on drops all that are older.
pub drop_expired-recent :
    (time low : ℤ) (es : Entries) → Sorted low es → drop_expired time es ≡ recent time es
unfolding drop_expired recent
drop_expired-recent time low [] s = refl
drop_expired-recent time low ((i, t) ∷ es) (o, s) = elim (Bool-cases (ltb_ℤ t time)) [
  | inl old ↦ rw old (drop_expired-recent time t es s)
  | inr young ↦ rw young (ap (◌∷◌ (i, t)) (sym (recent_all time t es s (ltb_ℤ-false t time young))))
]
