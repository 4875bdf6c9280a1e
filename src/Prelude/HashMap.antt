-- ===== src/Prelude/HashMap.antt =====
-- `HashMap` as an association list: what the program uses of it. The order of the entries stands
-- for the iteration order, which the program does not rely on.
use mathlib.Core.Path.{◌≡◌, refl, sym, ap, ◌∙◌, subst}
use mathlib.Core.Logic.{inl, inr, ite, if_pos, if_neg}
use mathlib.Core.Bool.{Bool, true, false}
use mathlib.Core.List.{List, [], ◌∷◌}
use mathlib.Core.Option.{Option, none, some}
use mathlib.Core.Option
use native.Mathlib.Omega.{arith}
use madrpc.Prelude.Tests.{if◌then◌else◌, Bool-cases, some_inj}
use madrpc.Prelude.Lists.{contains, Distinct}

module _ {ℓ} {V : Type ℓ} {K : Type 0} where
  abbrev pub keys : List (K × V) → List K
  keys [] = []
  keys ((k, v) ∷ m) = k ∷ keys m

-- `retain(|_, v| test(v))`.
unfoldable pub retain {ℓ} : {K : Type 0} {V : Type ℓ} → (V → Bool) → List (K × V) → List (K × V)
retain test [] = []
retain test ((k, v) ∷ m) = if test v then (k, v) ∷ retain test m else retain test m

abbrev pub filtered {ℓ} : {V : Type ℓ} → (V → Bool) → Option V → Option V
filtered test none = none
filtered test (some v) = if test v then some v else none

pub filtered-eq_some {ℓ} :
    {V : Type ℓ} (test : V → Bool) (o : Option V) {v : V}
    → filtered test o ≡ some v
    → (o ≡ some v) × (test v ≡ true)
filtered-eq_some test none e = absurd cc
filtered-eq_some test (some w) {v} e = elim (Bool-cases (test w)) [
  | inl t ↦
      let same : w ≡ v = some_inj (sym (ap (λ b. if b then some w else none) t) ∙ e) in
      (ap some same, subst (λ x. test x ≡ true) same t)
  | inr f ↦ absurd cc
]

abbrev pub is_some {ℓ} : {A : Type ℓ} → Option A → Bool
is_some none = false
is_some (some a) = true

module _ {ℓ} {K : Type 0} {V : Type ℓ} (dec : Discrete K) where
  unfoldable pub get : K → List (K × V) → Option V
  get k [] = none
  get k ((j, v) ∷ m) = ite (dec k j) (some v) (get k m)

  unfoldable pub insert : K → V → List (K × V) → List (K × V)
  insert k v [] = (k, v) ∷ []
  insert k v ((j, w) ∷ m) = ite (dec k j) ((k, v) ∷ m) ((j, w) ∷ insert k v m)

  unfoldable pub remove : K → List (K × V) → List (K × V)
  remove k [] = []
  remove k ((j, w) ∷ m) = ite (dec k j) (remove k m) ((j, w) ∷ remove k m)

  -- What a write through `get_mut` does.
  unfoldable pub alter : K → (V → V) → List (K × V) → List (K × V)
  alter k f [] = []
  alter k f ((j, w) ∷ m) = ite (dec k j) ((j, f w) ∷ m) ((j, w) ∷ alter k f m)

  pub get-insert :
      (j k : K) (v : V) (m : List (K × V)) → get j (insert k v m) ≡ ite (dec j k) (some v) (get j m)
  unfolding get insert
  get-insert j k v [] = refl
  get-insert j k v ((i, w) ∷ m) = ground (arith, get-insert j k v m)

  pub get-remove : (j k : K) (m : List (K × V)) → get j (remove k m) ≡ ite (dec j k) none (get j m)
  unfolding get remove
  get-remove j k [] = ground arith
  get-remove j k ((i, w) ∷ m) = ground (arith, get-remove j k m)

  pub get-alter :
      (j k : K) (f : V → V) (m : List (K × V))
      → get j (alter k f m) ≡ ite (dec j k) (Option.map f (get j m)) (get j m)
  unfolding get alter
  get-alter j k f [] = ground arith
  get-alter j k f ((i, w) ∷ m) = ground (arith, get-alter j k f m)

  pub keys-alter : (k : K) (f : V → V) (m : List (K × V)) → keys (alter k f m) ≡ keys m
  unfolding alter
  keys-alter k f [] = refl
  keys-alter k f ((i, w) ∷ m) = ground (arith, keys-alter k f m)

  pub contains-keys : (k : K) (m : List (K × V)) → contains dec (keys m) k ≡ is_some (get k m)
  unfolding get
  contains-keys k [] = refl
  contains-keys k ((i, w) ∷ m) = ground (arith, contains-keys k m)

  pub contains-keys-insert :
      (j k : K) (v : V) (m : List (K × V))
      → contains dec (keys (insert k v m)) j ≡ ite (dec j k) true (contains dec (keys m) j)
  unfolding insert
  contains-keys-insert j k v [] = refl
  contains-keys-insert j k v ((i, w) ∷ m) = ground (arith, contains-keys-insert j k v m)

  pub contains-keys-remove :
      (j k : K) (m : List (K × V))
      → contains dec (keys (remove k m)) j ≡ ite (dec j k) false (contains dec (keys m) j)
  unfolding remove
  contains-keys-remove j k [] = ground arith
  contains-keys-remove j k ((i, w) ∷ m) = ground (arith, contains-keys-remove j k m)

  pub insert-Distinct :
      (k : K) (v : V) (m : List (K × V))
      → Distinct dec (keys m)
      → Distinct dec (keys (insert k v m))
  unfolding insert
  insert-Distinct k v [] d = (refl, tt)
  insert-Distinct k v ((i, w) ∷ m) d =
      ground (arith, insert-Distinct k v m d.1, contains-keys-insert i k v m)

  pub remove-Distinct :
      (k : K) (m : List (K × V)) → Distinct dec (keys m) → Distinct dec (keys (remove k m))
  unfolding remove
  remove-Distinct k [] d = tt
  remove-Distinct k ((i, w) ∷ m) d =
      ground (arith, remove-Distinct k m d.1, contains-keys-remove i k m)

  contains-keys-retain :
      (test : V → Bool) (k : K) (m : List (K × V))
      → contains dec (keys m) k ≡ false
      → contains dec (keys (retain test m)) k ≡ false
  unfolding retain
  contains-keys-retain test k [] h = refl
  contains-keys-retain test k ((j, v) ∷ m) h = ground (arith, contains-keys-retain test k m)

  pub retain-Distinct :
      (test : V → Bool) (m : List (K × V))
      → Distinct dec (keys m)
      → Distinct dec (keys (retain test m))
  unfolding retain
  retain-Distinct test [] d = tt
  retain-Distinct test ((j, v) ∷ m) d =
      ground (arith, retain-Distinct test m d.1, contains-keys-retain test j m d.0)

  pub get-retain :
      (test : V → Bool) (k : K) (m : List (K × V))
      → Distinct dec (keys m)
      → get k (retain test m) ≡ filtered test (get k m)
  unfolding get retain
  get-retain test k [] d = refl
  get-retain test k ((j, v) ∷ m) d = elim (dec k j) [
    | yes p ↦
        let gone : get k m ≡ none =
          subst (λ x. get x m ≡ none) (sym p) (ground (arith, d, contains-keys j m)) in
        ground (arith, get-retain test k m d.1)
    | no p ↦ ground (arith, get-retain test k m d.1)
  ]

  -- A predicate on every entry.
  abbrev pub Every {κ} : (K → V → Type κ) → List (K × V) → Type κ
  Every P [] = Unit
  Every P ((k, v) ∷ m) = P k v × Every P m

module _ {ℓ κ} {K : Type 0} {V : Type ℓ} (dec : Discrete K) (P : K → V → Type κ) where
  pub get-Every : (k : K) (v : V) (m : List (K × V)) → Every dec P m → get dec k m ≡ some v → P k v
  unfolding get
  get-Every k v [] e h = cc
  get-Every k v ((i, w) ∷ m) e h = elim (dec k i) [
    | yes p ↦ let q : w ≡ v = ground arith in subst (λ x. P x v) (sym p) (subst (P i) q e.0)
    | no p ↦ get-Every k v m e.1 (ground arith)
  ]

  pub insert-Every :
      (k : K) (v : V) (m : List (K × V)) → P k v → Every dec P m → Every dec P (insert dec k v m)
  unfolding insert
  insert-Every k v [] h e = (h, tt)
  insert-Every k v ((i, w) ∷ m) h e = elim (dec k i) [
    | yes p ↦ rw (if_pos _ p) (h, e.1)
    | no p ↦ rw (if_neg _ p) (e.0, insert-Every k v m h e.1)
  ]

  pub remove-Every : (k : K) (m : List (K × V)) → Every dec P m → Every dec P (remove dec k m)
  unfolding remove
  remove-Every k [] e = tt
  remove-Every k ((i, w) ∷ m) e = elim (dec k i) [
    | yes p ↦ rw (if_pos _ p) (remove-Every k m e.1)
    | no p ↦ rw (if_neg _ p) (e.0, remove-Every k m e.1)
  ]

  pub alter-Every :
      (k : K) (f : V → V) (m : List (K × V))
      → ((v : V) → P k v → P k (f v))
      → Every dec P m
      → Every dec P (alter dec k f m)
  unfolding alter
  alter-Every k f [] h e = tt
  alter-Every k f ((i, w) ∷ m) h e = elim (dec k i) [
    | yes p ↦ rw (if_pos _ p) (subst (λ x. P x (f w)) p (h w (subst (λ x. P x w) (sym p) e.0)), e.1)
    | no p ↦ rw (if_neg _ p) (e.0, alter-Every k f m h e.1)
  ]
