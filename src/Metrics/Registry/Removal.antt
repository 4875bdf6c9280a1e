-- ===== src/Metrics/Registry/Removal.antt =====
-- What removing the first entries of a sorted list of accesses leaves of a map.
use madrpc.Prelude.{
  ℕ, zero, suc, ◌+◌, ◌≤◌, ◌≡◌, refl, sym, ap, subst, String, true, false, none, some, List, [], ◌∷◌,
  arith, length, take, contains, Distinct, if◌then◌else◌,
}
use mathlib.Core.Option
use madrpc.Prelude.Text.{str_dec}
use madrpc.Prelude.HashMap.{
  keys, get, remove, get-Every, contains-keys-remove, get-remove, remove-Distinct,
}
use madrpc.Metrics.Registry.{accesses, remove_all}
use madrpc.Metrics.Registry.Sorting.{AtLeast, IsOrdered}

-- The first entries of a list by name.
pub contains-take :
    (a : String) (n : ℕ) (es : List (String × ℕ))
    → contains str_dec (keys es) a ≡ false
    → contains str_dec (keys (take n es)) a ≡ false
contains-take a zero es h = refl
contains-take a (suc n) [] h = refl
contains-take a (suc n) (e ∷ es) h = ground (arith, contains-take a n es)

pub take-Distinct :
    (n : ℕ) (es : List (String × ℕ))
    → Distinct str_dec (keys es)
    → Distinct str_dec (keys (take n es))
take-Distinct zero es d = tt
take-Distinct (suc n) [] d = tt
take-Distinct (suc n) (e ∷ es) d = (contains-take e.0 n es d.0, take-Distinct n es d.1)

pub length-take : (n : ℕ) (es : List (String × ℕ)) → n ≤ length es → length (take n es) ≡ n
length-take zero es h = refl
length-take (suc n) [] h = absurd (omega arith)
length-take (suc n) (e ∷ es) h = ap suc (length-take n es (omega arith))

-- In a list in order, what is among the first entries is no younger than what is not.
pub first_oldest :
    (n : ℕ) (es : List (String × ℕ)) (a b : String) (t u : ℕ)
    → IsOrdered es
    → Distinct str_dec (keys es)
    → contains str_dec (keys (take n es)) a ≡ true
    → contains str_dec (keys (take n es)) b ≡ false
    → get str_dec a es ≡ some t
    → get str_dec b es ≡ some u
    → t ≤ u
unfolding get
first_oldest zero es a b t u o d ha hb ga gb = absurd cc
first_oldest (suc n) [] a b t u o d ha hb ga gb = absurd cc
first_oldest (suc n) ((k, x) ∷ es) a b t u o d ha hb ga gb = elim (str_dec a k) [
  | yes p ↦
      let first : x ≡ t = ground arith in
      let there : get str_dec b es ≡ some u = ground arith in
      omega (arith, get-Every str_dec (AtLeast x) b u es o.0 there)
  | no p ↦
      first_oldest n es a b t u o.1 d.1 (ground arith) (ground arith) (ground arith) (ground arith)
]

module _ {S : Type 0} where
  pub get-remove_all :
      (a : String) (es : List (String × ℕ)) (m : List (String × S))
      → get str_dec a (remove_all es m)
        ≡ (if contains str_dec (keys es) a then none else get str_dec a m)
  unfolding remove_all
  get-remove_all a [] m = refl
  get-remove_all a ((k, t) ∷ es) m =
      ground (arith, get-remove_all a es (remove str_dec k m), get-remove str_dec a k m)

  pub remove_all-Distinct :
      (es : List (String × ℕ)) (m : List (String × S))
      → Distinct str_dec (keys m)
      → Distinct str_dec (keys (remove_all es m))
  unfolding remove_all
  remove_all-Distinct [] m d = d
  remove_all-Distinct ((k, t) ∷ es) m d =
      remove_all-Distinct es (remove str_dec k m) (remove-Distinct str_dec k m d)

  remove_absent :
      (k : String) (m : List (String × S))
      → contains str_dec (keys m) k ≡ false
      → remove str_dec k m ≡ m
  unfolding remove
  remove_absent k [] h = refl
  remove_absent k ((j, s) ∷ m) h = ground (arith, remove_absent k m)

  length-remove :
      (k : String) (m : List (String × S))
      → Distinct str_dec (keys m)
      → contains str_dec (keys m) k ≡ true
      → suc (length (remove str_dec k m)) ≡ length m
  unfolding remove
  length-remove k [] d h = absurd cc
  length-remove k ((j, s) ∷ m) d h = elim (str_dec k j) [
    | yes p ↦
        let gone : remove str_dec k m ≡ m =
          remove_absent k m (subst (λ x. contains str_dec (keys m) x ≡ false) (sym p) d.0) in
        ground (arith, ap length gone)
    | no p ↦ ground (arith, length-remove k m d.1)
  ]

  -- Names that are all there.
  abbrev pub AllIn : List (String × ℕ) → List (String × S) → Type 0
  AllIn es m =
      (a : String) → contains str_dec (keys es) a ≡ true → contains str_dec (keys m) a ≡ true

  pub length-remove_all :
      (es : List (String × ℕ)) (m : List (String × S))
      → Distinct str_dec (keys m)
      → Distinct str_dec (keys es)
      → AllIn es m
      → length es + length (remove_all es m) ≡ length m
  unfolding remove_all
  length-remove_all [] m d f h = omega arith
  length-remove_all ((k, t) ∷ es) m d f h =
      let one = length-remove k m d (h k (ground arith)) in
      let rest =
        length-remove_all es (remove str_dec k m) (remove-Distinct str_dec k m d) f.1
          (λ a c. ground (arith, contains-keys-remove str_dec a k m, h a, f.0)) in
      omega (arith, one, rest)

  module _ (last_access : S → ℕ) where
    pub keys-accesses : (m : List (String × S)) → keys (accesses last_access m) ≡ keys m
    unfolding accesses
    keys-accesses [] = refl
    keys-accesses ((k, s) ∷ m) = ap (◌∷◌ k) (keys-accesses m)

    pub get-accesses :
        (a : String) (m : List (String × S))
        → get str_dec a (accesses last_access m) ≡ Option.map last_access (get str_dec a m)
    unfolding accesses get
    get-accesses a [] = refl
    get-accesses a ((k, s) ∷ m) = ground (arith, get-accesses a m)

    pub length-accesses : (m : List (String × S)) → length (accesses last_access m) ≡ length m
    unfolding accesses
    length-accesses [] = refl
    length-accesses ((k, s) ∷ m) = ap suc (length-accesses m)
