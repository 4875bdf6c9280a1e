-- ===== src/Examples/Keys.antt =====
-- A key of three bytes.
use madrpc.Prelude.{ℕ, ◌≡◌, ◌↔◌, ◌⊎◌, true, none, some, List, [], ◌∷◌, arith, some_inj, subst}
use madrpc.Auth.{with_api_key, validate_api_key}
use madrpc.Auth.Equality.{AreBytes, validate_api_key-accepts}

abbrev key : List ℕ
key = 107 ∷ 101 ∷ 121 ∷ []

key-AreBytes : AreBytes key
key-AreBytes = (omega arith, (omega arith, (omega arith, tt)))

validate_api_key-accepts_example :
    (validate_api_key key (with_api_key key) ≡ true)
    ↔ (((with_api_key key).api_key ≡ none) ⊎ ((with_api_key key).api_key ≡ some key))
unfolding with_api_key
validate_api_key-accepts_example =
    validate_api_key-accepts key (with_api_key key) key-AreBytes
      (λ expected e. subst AreBytes (some_inj e) key-AreBytes)
