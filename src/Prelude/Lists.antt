-- ===== src/Prelude/Lists.antt =====
-- Lists of numbers: membership as a test, lists without repetition, and removal.
use Prim.Native.Nat.{ℕ, suc, ◌+◌}
use mathlib.Core.Path.{◌≡◌, refl, ap, ◌∙◌}
use mathlib.Core.Logic.{inl, inr}
use mathlib.Core.Bool.{Bool, true, false, ◌&&◌, ◌||◌}
use mathlib.Core.List.{List, [], ◌∷◌, ◌++◌}
use native.Mathlib.Omega.{arith}
use vigor.Prelude.Tests.{◌==◌, ==_iff, if◌then◌else◌, Bool-cases}

abbrev pub length {ℓ} : {A : Type ℓ} → List A → ℕ
length [] = 0
length (x ∷ xs) = suc (length xs)

abbrev pub elem : ℕ → List ℕ → Bool
elem x [] = false
elem x (y ∷ ys) = y == x || elem x ys

abbrev pub Distinct : List ℕ → Type 0
Distinct [] = Unit {0}
Distinct (x ∷ xs) = (elem x xs ≡ false) × Distinct xs

unfoldable pub remove : ℕ → List ℕ → List ℕ
remove x [] = []
remove x (y ∷ ys) = if y == x then ys else y ∷ remove x ys

pub elem-append : (x : ℕ) (xs ys : List ℕ) → elem x (xs ++ ys) ≡ (elem x xs || elem x ys)
elem-append x [] ys = refl
elem-append x (y ∷ xs) ys = ground (arith, elem-append x xs ys)

-- A member stands between what precedes its first occurrence and the rest.
pub record Split (x : ℕ) (xs : List ℕ) : Type 0 where
  pub before : List ℕ
  pub after : List ℕ
  pub parts : xs ≡ before ++ (x ∷ after)
  pub others : remove x xs ≡ before ++ after

pub elem-Split : (x : ℕ) (xs : List ℕ) → elem x xs ≡ true → Split x xs
unfolding remove
elem-Split x [] h = absurd (ground arith)
elem-Split x (y ∷ xs) h = elim (Bool-cases (y == x)) [
  | inl e ↦ record {
    before = [];
    after = xs;
    parts = ap (λ k. k ∷ xs) ((==_iff y x).0 e);
    others = rw e;
  }
  | inr n ↦
      let s = elem-Split x xs (ground (arith, n)) in
      record {
        before = y ∷ s.before;
        after = s.after;
        parts = ap (◌∷◌ y) s.parts;
        others = rw n (ap (◌∷◌ y) s.others);
      }
]

-- What a list without repetition says of its two parts, and back.
pub Distinct-append :
    (xs ys : List ℕ)
    → Distinct (xs ++ ys)
    → Distinct xs × Distinct ys × ((u : ℕ) → (elem u xs && elem u ys) ≡ false)
Distinct-append [] ys d = (tt, d, λ u. refl)
Distinct-append (x ∷ xs) ys (fresh, d) =
    let (p, q, r) = Distinct-append xs ys d in
    let e = elem-append x xs ys in
    ((ground (arith, e, fresh), p), q, λ u. ground (arith, e, fresh, r u))

pub Distinct-join :
    (xs ys : List ℕ)
    → Distinct xs
    → Distinct ys
    → ((u : ℕ) → (elem u xs && elem u ys) ≡ false)
    → Distinct (xs ++ ys)
Distinct-join [] ys p q r = q
Distinct-join (x ∷ xs) ys (fresh, p) q r = (
  elem-append x xs ys ∙ ground (arith, r x, fresh),
  Distinct-join xs ys p q (λ u. ground (arith, r u)),
)

pub length-append {ℓ} : {A : Type ℓ} (xs ys : List A) → length (xs ++ ys) ≡ length xs + length ys
length-append [] ys = omega arith
length-append (x ∷ xs) ys = omega (arith, length-append xs ys)
