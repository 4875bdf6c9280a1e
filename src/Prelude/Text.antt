-- ===== src/Prelude/Text.antt =====
-- Equality of texts as a decision.
use Prim.Native.String.{String}
use mathlib.Core.Path.{◌≡◌}
use mathlib.Core.Bool.{Bool, true, false}
use text.Mathlib.Text.{◌==◌}
use text.Mathlib.TextEquality.{eq_iff}
use native.Mathlib.Omega.{arith}

dec_of_test : (a b : String) (t : Bool) → (a == b) ≡ t → Dec (a ≡ b)
dec_of_test a b true e = yes ((eq_iff a b).0 e)
dec_of_test a b false e = no (λ p. ground (arith, eq_iff a b))

unfoldable pub str_dec : Discrete String
unfolding dec_of_test
str_dec a b = dec_of_test a b (a == b) (λ i. a == b)
