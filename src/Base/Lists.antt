-- ===== src/Base/Lists.antt =====
-- Lists measured by native numbers, and lists of thread ids: membership as a test, duplicates.
use Prim.Native.Nat.{ℕ, zero, suc, ◌+◌, ◌≤◌, ◌<◌}
use mathlib.Core.Path.{◌≡◌, refl, ap}
use mathlib.Core.Bool.{Bool, true, false, ◌||◌}
use mathlib.Core.Option.{Option, none, some}
use mathlib.Core.List.{List, [], ◌∷◌, ◌++◌}
use native.Mathlib.Omega.{arith}
use mathlib.Core.Logic.{inl, inr}
use xtern.Base.Tests.{◌==◌, if◌then◌else◌, Bool-cases}

module _ {ℓ} {A : Type ℓ} where
  abbrev pub length : List A → ℕ
  length [] = 0
  length (x ∷ xs) = suc (length xs)

  pub length-append : (xs ys : List A) → length (xs ++ ys) ≡ length xs + length ys
  length-append [] ys = omega arith
  length-append (x ∷ xs) ys = omega (arith, length-append xs ys)

-- The first n elements and the others, where there are as many.
abbrev pub take_args : ℕ → List ℕ → Option (List ℕ × List ℕ)
take_args zero xs = some ([], xs)
take_args (suc n) [] = none
take_args (suc n) (x ∷ xs) = elim (take_args n xs) [
  | none ↦ none
  | some taken ↦ some (x ∷ taken.0, taken.1)
]

pub take_args-append :
    (n : ℕ) (xs : List ℕ)
    → n ≤ length xs
    → (ys : List ℕ) × (rest : List ℕ) × (take_args n xs ≡ some (ys, rest))
      × (ys ++ rest ≡ xs)
      × (length ys ≡ n)
take_args-append zero xs h = ([], xs, refl, refl, refl)
take_args-append (suc n) [] h = absurd (omega arith)
take_args-append (suc n) (x ∷ xs) h =
    let (ys, rest, ran, parts, count) = take_args-append n xs (omega arith) in
    (x ∷ ys, rest, rw ran refl, ap (◌∷◌ x) parts, omega arith)

-- Whether a thread id is on a list, as a scan for it decides.
abbrev pub has : ℕ → List ℕ → Bool
has a [] = false
has a (x ∷ xs) = (a == x) || has a xs

-- No thread id twice.
abbrev pub Distinct : List ℕ → Type 0
Distinct [] = Unit {0}
Distinct (x ∷ xs) = (has x xs ≡ false) × Distinct xs

pub has-append : (a : ℕ) (xs ys : List ℕ) → has a (xs ++ ys) ≡ (has a xs || has a ys)
has-append a [] ys = refl
has-append a (x ∷ xs) ys = ground (arith, has-append a xs ys)

pub Distinct-snoc : (xs : List ℕ) (t : ℕ) → Distinct xs → has t xs ≡ false → Distinct (xs ++ t ∷ [])
Distinct-snoc [] t d h = (refl, tt)
Distinct-snoc (x ∷ xs) t d h =
    (ground (arith, has-append x xs (t ∷ [])), Distinct-snoc xs t d.1 (ground arith))

abbrev pub head? : List ℕ → Option ℕ
head? [] = none
head? (x ∷ xs) = some x

-- The last element of `x ∷ xs`.
abbrev pub last_of : ℕ → List ℕ → ℕ
last_of x [] = x
last_of x (y ∷ ys) = last_of y ys

abbrev pub last? : List ℕ → Option ℕ
last? [] = none
last? (x ∷ xs) = some (last_of x xs)

pub last_of-snoc : (x : ℕ) (xs : List ℕ) (t : ℕ) → last_of x (xs ++ t ∷ []) ≡ t
last_of-snoc x [] t = refl
last_of-snoc x (y ∷ ys) t = last_of-snoc y ys t

pub has-last_of : (x : ℕ) (xs : List ℕ) → has (last_of x xs) (x ∷ xs) ≡ true
has-last_of x [] = ground arith
has-last_of x (y ∷ ys) = ground (arith, has-last_of y ys)

pub ne-last_of : (x y : ℕ) (ys : List ℕ) → has x (y ∷ ys) ≡ false → (x == last_of y ys) ≡ false
ne-last_of x y [] h = ground arith
ne-last_of x y (z ∷ zs) h = ne-last_of x z zs (ground arith)

-- Every thread id is below a bound.
abbrev pub AllBelow : ℕ → List ℕ → Type 0
AllBelow n [] = Unit {0}
AllBelow n (x ∷ xs) = (x < n) × AllBelow n xs

remove : ℕ → List ℕ → List ℕ
remove a [] = []
remove a (x ∷ xs) = if a == x then xs else x ∷ remove a xs

remove-absent : (a : ℕ) (xs : List ℕ) → has a xs ≡ false → AllBelow (suc a) xs → AllBelow a xs
remove-absent a [] h b = tt
remove-absent a (x ∷ xs) h b = (ground arith, remove-absent a xs (ground arith) b.1)

has-remove : (u a : ℕ) (xs : List ℕ) → has u xs ≡ false → has u (remove a xs) ≡ false
unfolding remove
has-remove u a [] h = refl
has-remove u a (x ∷ xs) h = ground (arith, has-remove u a xs)

Distinct-remove : (a : ℕ) (xs : List ℕ) → Distinct xs → Distinct (remove a xs)
unfolding remove
Distinct-remove a [] d = tt
Distinct-remove a (x ∷ xs) d = ground (arith, Distinct-remove a xs, has-remove x a xs)

length-remove : (a : ℕ) (xs : List ℕ) → length xs ≤ suc (length (remove a xs))
unfolding remove
length-remove a [] = omega arith
length-remove a (x ∷ xs) = ground (arith, length-remove a xs)

AllBelow-remove :
    (n : ℕ) (xs : List ℕ) → Distinct xs → AllBelow (suc n) xs → AllBelow n (remove n xs)
unfolding remove
AllBelow-remove n [] d b = tt
AllBelow-remove n (x ∷ xs) d b = elim (Bool-cases (n == x)) [
  | inl e ↦ rw e (remove-absent n xs (ground arith) b.1)
  | inr e ↦ rw e (ground arith, AllBelow-remove n xs d.1 b.1)
]

-- There are at most n distinct thread ids below n.
pub length-le_of_Distinct : (n : ℕ) (xs : List ℕ) → Distinct xs → AllBelow n xs → length xs ≤ n
length-le_of_Distinct n [] d b = omega arith
length-le_of_Distinct zero (x ∷ xs) d b = absurd (omega arith)
length-le_of_Distinct (suc n) (x ∷ xs) d b = omega (
  arith,
  length-remove n (x ∷ xs),
  length-le_of_Distinct n (remove n (x ∷ xs)) (Distinct-remove n (x ∷ xs) d)
      (AllBelow-remove n (x ∷ xs) d b),
)

-- Of a thread on the list and one that is not: they differ.
pub ne_of_has : (u t : ℕ) (xs : List ℕ) → has u xs ≡ true → has t xs ≡ false → (u == t) ≡ false
ne_of_has u t [] h k = cc
ne_of_has u t (x ∷ xs) h k = elim (Bool-cases (has u xs)) [
  | inl e ↦ ne_of_has u t xs e (ground arith)
  | inr e ↦ ground arith
]
