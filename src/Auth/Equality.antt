-- ===== src/Auth/Equality.antt =====
-- The comparison of keys against their equality.
use Prim.Native.Nat.{bit_or, bit_xor}
use madrpc.Prelude.{
  ℕ, ◌<◌, ◌≡◌, ◌↔◌, ◌⊎◌, inl, inr, refl, sym, ap, ◌∙◌, Bool, true, not, ◌&&◌, ◌||◌, none, some,
  List, [], ◌∷◌, arith, length, All, ◌==◌, ltb, passes_until, passes_until-total, Option-cases,
  some_inj, subst,
}
use madrpc.Auth.{AuthConfig, differences, constant_time_eq, validate_api_key}

-- Whether the bits of two bytes, and of two results, behave as the comparison needs.
abbrev xor_test : ℕ → ℕ → Bool
xor_test a b =
    ltb (bit_xor a b) 256
    && (not (bit_xor a b == 0) || (a == b))
    && (not (a == b) || (bit_xor a b == 0))

abbrev or_test : ℕ → ℕ → Bool
or_test a b = ltb (bit_or a b) 256 && (not (bit_or a b == 0) || ((a == 0) && (b == 0)))

table : (ℕ → ℕ → Bool) → ℕ → Bool
unfolding passes_until
table test a = passes_until (test a) 256

xor_passes : passes_until (table xor_test) 256 ≡ true
unfolding passes_until table
xor_passes = refl

or_passes : passes_until (table or_test) 256 ≡ true
unfolding passes_until table
or_passes = refl

at_bytes :
    (test : ℕ → ℕ → Bool) (a b : ℕ)
    → passes_until (table test) 256 ≡ true
    → a < 256
    → b < 256
    → test a b ≡ true
unfolding table
at_bytes test a b all ha hb =
    passes_until-total (test a) 256 b hb (passes_until-total (table test) 256 a ha all)

xor_bytes :
    (a b : ℕ)
    → a < 256
    → b < 256
    → (bit_xor a b < 256) × (bit_xor a b ≡ 0 → a ≡ b) × (a ≡ b → bit_xor a b ≡ 0)
xor_bytes a b ha hb =
    let t = at_bytes xor_test a b xor_passes ha hb in
    (ground (arith, t), (λ e. ground (arith, t)), (λ e. ground (arith, t)))

or_bytes : (a b : ℕ) → a < 256 → b < 256 → (bit_or a b < 256) × (bit_or a b ≡ 0 → (a ≡ 0) × (b ≡ 0))
or_bytes a b ha hb =
    let t = at_bytes or_test a b or_passes ha hb in
    (ground (arith, t), (λ e. (ground (arith, t), ground (arith, t))))

-- Every entry is a byte.
abbrev pub AreBytes : List ℕ → Type 0
AreBytes xs = All (λ b. b < 256) xs

differences-zero :
    (r : ℕ) (xs ys : List ℕ)
    → r < 256
    → AreBytes xs
    → AreBytes ys
    → length xs ≡ length ys
    → differences r xs ys ≡ 0
    → (r ≡ 0) × (xs ≡ ys)
unfolding differences
differences-zero r [] [] hr hx hy l e = (e, refl)
differences-zero r [] (y ∷ ys) hr hx hy l e = absurd (omega arith)
differences-zero r (x ∷ xs) [] hr hx hy l e = absurd (omega arith)
differences-zero r (x ∷ xs) (y ∷ ys) hr hx hy l e =
    let (xlt, xeq, xsame) = xor_bytes x y hx.0 hy.0 in
    let (olt, oeq) = or_bytes r (bit_xor x y) hr xlt in
    let (none_, same) =
      differences-zero (bit_or r (bit_xor x y)) xs ys olt hx.1 hy.1 (omega arith) e in
    let parts = oeq none_ in (parts.0, ap (λ b. b ∷ xs) (xeq parts.1) ∙ ap (◌∷◌ y) same)

differences-same : (xs : List ℕ) → AreBytes xs → differences 0 xs xs ≡ 0
unfolding differences
differences-same [] h = refl
differences-same (x ∷ xs) h =
    ap (λ (r : ℕ). differences (bit_or 0 r) xs xs) ((xor_bytes x x h.0 h.0).2 refl)
    ∙ differences-same xs h.1

constant_time_eq-equal :
    (xs ys : List ℕ) → AreBytes xs → AreBytes ys → (constant_time_eq xs ys ≡ true) ↔ (xs ≡ ys)
unfolding constant_time_eq
constant_time_eq-equal xs ys hx hy = (to, from)
  where
    to : constant_time_eq xs ys ≡ true → xs ≡ ys
    to e = (differences-zero 0 xs ys (omega arith) hx hy (ground arith) (ground arith)).1

    from : xs ≡ ys → constant_time_eq xs ys ≡ true
    from e = subst (λ zs. constant_time_eq xs zs ≡ true) e (ground (arith, differences-same xs hx))

-- Keys being bytes, a key is accepted exactly if no key is configured or it is the configured
-- one: the comparison in constant time decides equality.
pub validate_api_key-accepts :
    (key : List ℕ) (config : AuthConfig)
    → AreBytes key
    → ((expected : List ℕ) → config.api_key ≡ some expected → AreBytes expected)
    → (validate_api_key key config ≡ true) ↔ ((config.api_key ≡ none) ⊎ (config.api_key ≡ some key))
unfolding validate_api_key
validate_api_key-accepts key config hk hc = elim (Option-cases config.api_key) [
  | inl e ↦ ((λ t. inl e), (λ t. rw (e, validate_api_key) refl))
  | inr (expected, e) ↦
      let equal = constant_time_eq-equal expected key (hc expected e) hk in
      let value : validate_api_key key config ≡ constant_time_eq expected key =
        rw (e, validate_api_key) refl in
      (
        (λ t. inr (e ∙ ap some (equal.0 (sym value ∙ t)))),
        (λ t. elim t [ inl n ↦ cc | inr s ↦ value ∙ equal.1 (some_inj (sym e ∙ s)) ]),
      )
]
