-- ===== src/Prelude/Lists.antt =====
-- Lists measured and indexed by native numbers, and Boolean membership (`Vec::contains`,
-- `Vec::retain`) over a type with decidable equality.
use Prim.Native.Nat.{ℕ, zero, suc, ◌+◌, ◌≤◌, ◌<◌}
use mathlib.Core.Path.{◌≡◌, refl}
use mathlib.Core.Logic.{ite}
use mathlib.Core.Bool.{Bool, true, false, ◌||◌}
use mathlib.Core.List.{List, [], ◌∷◌, ◌++◌, map}
use mathlib.Core.Option.{Option, none, some}
use native.Mathlib.Omega.{arith}

module _ {ℓ} {A : Type ℓ} where
  abbrev pub length : List A → ℕ
  length [] = 0
  length (x ∷ xs) = suc (length xs)

  abbrev pub get_elem? : List A → ℕ → Option A
  get_elem? [] i = none
  get_elem? (x ∷ xs) zero = some x
  get_elem? (x ∷ xs) (suc i) = get_elem? xs i

  abbrev pub take : ℕ → List A → List A
  take zero xs = []
  take (suc n) [] = []
  take (suc n) (x ∷ xs) = x ∷ take n xs

  abbrev pub drop : ℕ → List A → List A
  drop zero xs = xs
  drop (suc n) [] = []
  drop (suc n) (x ∷ xs) = drop n xs

  abbrev pub All {κ} : (A → Type κ) → List A → Type κ
  All P [] = Unit
  All P (x ∷ xs) = P x × All P xs

module _ {ℓ} {A : Type ℓ} where
  pub length-append : (xs ys : List A) → length (xs ++ ys) ≡ length xs + length ys
  length-append [] ys = omega arith
  length-append (x ∷ xs) ys = omega (arith, length-append xs ys)

  pub length-map {κ} : {B : Type κ} (f : A → B) (xs : List A) → length (map f xs) ≡ length xs
  length-map f [] = refl
  length-map f (x ∷ xs) = omega (arith, length-map f xs)

  -- An index below the length is in bounds.
  pub get_elem?-total : (xs : List A) (i : ℕ) → i < length xs → (x : A) × (get_elem? xs i ≡ some x)
  get_elem?-total [] i h = elim h [ ]
  get_elem?-total (x ∷ xs) zero h = (x, refl)
  get_elem?-total (x ∷ xs) (suc i) h = get_elem?-total xs i (omega arith)

module _ {A : Type 0} (dec : Discrete A) where
  abbrev pub contains : List A → A → Bool
  contains [] a = false
  contains (x ∷ xs) a = ite (dec a x) true (contains xs a)

  -- `xs.retain(|x| x != a)`.
  abbrev pub retain_ne : A → List A → List A
  retain_ne a [] = []
  retain_ne a (x ∷ xs) = ite (dec a x) (retain_ne a xs) (x ∷ retain_ne a xs)

  -- No two entries are equal.
  abbrev pub Distinct : List A → Type 0
  Distinct [] = Unit
  Distinct (x ∷ xs) = (contains xs x ≡ false) × Distinct xs

module _ {A : Type 0} (dec : Discrete A) where
  pub contains-append :
      (xs ys : List A) (a : A) → contains dec (xs ++ ys) a ≡ contains dec xs a || contains dec ys a
  contains-append [] ys a = refl
  contains-append (x ∷ xs) ys a = ground (arith, contains-append xs ys a)

  pub contains-retain_ne :
      (k : A) (xs : List A) (a : A)
      → contains dec (retain_ne dec k xs) a ≡ ite (dec a k) false (contains dec xs a)
  contains-retain_ne k [] a = ground arith
  contains-retain_ne k (x ∷ xs) a = ground (arith, contains-retain_ne k xs a)

  pub retain_ne-Distinct :
      (k : A) (xs : List A) → Distinct dec xs → Distinct dec (retain_ne dec k xs)
  retain_ne-Distinct k [] d = tt
  retain_ne-Distinct k (x ∷ xs) d =
      ground (arith, retain_ne-Distinct k xs d.1, contains-retain_ne k xs x)

  pub append-Distinct :
      (xs : List A) (a : A)
      → Distinct dec xs
      → contains dec xs a ≡ false
      → Distinct dec (xs ++ a ∷ [])
  append-Distinct [] a d h = (refl, tt)
  append-Distinct (x ∷ xs) a d h =
      ground (arith, append-Distinct xs a d.1, contains-append xs (a ∷ []) x)

  pub get_elem?-contains :
      (xs : List A) (i : ℕ) (a : A) → get_elem? xs i ≡ some a → contains dec xs a ≡ true
  get_elem?-contains [] i a e = ground arith
  get_elem?-contains (x ∷ xs) zero a e = ground arith
  get_elem?-contains (x ∷ xs) (suc i) a e = ground (arith, get_elem?-contains xs i a e)

  pub contains-get_elem? :
      (xs : List A) (a : A)
      → contains dec xs a ≡ true
      → (i : ℕ) × (i < length xs) × (get_elem? xs i ≡ some a)
  contains-get_elem? [] a h = ground arith
  contains-get_elem? (x ∷ xs) a h = elim (dec a x) [
    | yes e ↦ (0, omega arith, ground arith)
    | no n ↦ let (i, lt, e) = contains-get_elem? xs a (ground arith) in (suc i, omega arith, e)
  ]

  pub length-retain_ne-le : (k : A) (xs : List A) → length (retain_ne dec k xs) ≤ length xs
  length-retain_ne-le k [] = omega arith
  length-retain_ne-le k (x ∷ xs) = ground (arith, length-retain_ne-le k xs)
