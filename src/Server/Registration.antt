-- ===== src/Server/Registration.antt =====
-- crates/madrpc-server/src/node.rs: the registration of a node with its orchestrator, and what it amounts
-- to. What the orchestrator answers to each call is an argument.
use Prim.Native.String.{◌++◌ as ◌<>◌}
use madrpc.Prelude.{
  ℕ, zero, suc, ◌+◌, ◌-◌, ◌*◌, ◌≤◌, ◌<◌, ◌≡◌, ◌⊎◌, inl, inr, refl, ap, ◌∙◌, String, Bool, true, not,
  Option, none, some, List, [], ◌∷◌, arith, ltb, min, Bool-cases, ℕ_discrete, if◌then◌else◌,
}
use madrpc.Protocol.{MadrpcError, transport, invalid_request, Result, ok, err, display}

-- A duration is below 2^64 seconds; past that `saturating_mul` stays at the longest.
abbrev pub max_duration : ℕ
max_duration = 18446744073709551616 * 1000000000 - 1

abbrev pub double_saturating : ℕ → ℕ
double_saturating delay = min (delay * 2) max_duration

-- The end of a registration, with how many calls it made and the delays that it slept, in nanoseconds.
pub record Registering : Type 0 where
  pub result : Result {0} Unit
  pub attempts : ℕ
  pub slept : List ℕ

abbrev pub after_delay : ℕ → Registering → Registering
after_delay delay r = record r { slept = delay ∷ r.slept }

abbrev pub max_attempts : ℕ
max_attempts = 5

module _ {V : Type 0} (show : ℕ → String) (answer : ℕ → Result V) where
  abbrev pub gave_up : MadrpcError → MadrpcError
  gave_up e =
      transport
        ("Failed to register after " <> show max_attempts <> " attempts: " <> display show e)

  -- The loop, for as many rounds as the fuel; `none` is more rounds than that. `answer k` is what the
  -- orchestrator answers to call k, counted from 1.
  unfoldable pub register_loop : ℕ → ℕ → ℕ → Option Registering
  register_loop zero attempt delay = none
  register_loop (suc fuel) attempt delay =
      let rest = register_loop fuel (suc attempt) (double_saturating delay) in
      elim (answer (suc attempt)) [
        | ok v ↦ some (record { result = ok tt; attempts = suc attempt; slept = [] })
        | err e ↦
            if not (ltb (suc attempt) max_attempts)
            then some (record { result = err (gave_up e); attempts = suc attempt; slept = [] })
            else elim rest [ none ↦ none | some r ↦ some (after_delay delay r) ]
      ]

  -- Without a client there is nothing to call.
  unfoldable pub register_with_orchestrator : Bool → ℕ → Option Registering
  register_with_orchestrator has_client fuel =
      if has_client
      then register_loop fuel 0 500000000
      else some (record {
        result = err (invalid_request "No orchestrator client configured");
        attempts = 0;
        slept = [];
      })

-- Delays that double.
pub doubling : ℕ → ℕ → List ℕ
doubling delay zero = []
doubling delay (suc n) = delay ∷ doubling (delay * 2) n

saturating : ℕ → ℕ → List ℕ
saturating delay zero = []
saturating delay (suc n) = delay ∷ saturating (double_saturating delay) n

-- The first four delays, from half a second, are far from the longest duration.
saturating-doubling : (n : ℕ) → n ≤ 4 → saturating 500000000 n ≡ doubling 500000000 n
unfolding saturating doubling
saturating-doubling zero h = refl
saturating-doubling (suc zero) h = refl
saturating-doubling (suc (suc zero)) h = refl
saturating-doubling (suc (suc (suc zero))) h = refl
saturating-doubling (suc (suc (suc (suc zero)))) h = refl
saturating-doubling (suc (suc (suc (suc (suc n))))) h = absurd (omega arith)

module _ {V : Type 0} (show : ℕ → String) (answer : ℕ → Result V) where
  -- The calls after `asked`: how many of them there are, which fail, how the last one ends it, and the
  -- delays between them.
  pub record Attempted (asked : ℕ) (delays : ℕ → List ℕ) (r : Registering) : Type 0 where
    pub at_least : asked < r.attempts
    pub at_most : r.attempts ≤ max_attempts
    pub failures : (k : ℕ) → asked < k → k < r.attempts → (e : MadrpcError) × (answer k ≡ err e)
    pub outcome :
        ((v : V) × (answer r.attempts ≡ ok v) × (r.result ≡ ok tt))
        ⊎ ((e : MadrpcError) × (answer r.attempts ≡ err e)
            × (r.attempts ≡ max_attempts)
            × (r.result ≡ err (gave_up show answer e)))
    pub sleeps : r.slept ≡ delays (r.attempts - suc asked)

  abbrev Finished : ℕ → ℕ → Option Registering → Type 0
  Finished asked delay o = (r : Registering) × (o ≡ some r) × Attempted asked (saturating delay) r

  later-Attempted :
      (asked delay : ℕ) (e : MadrpcError) (r : Registering)
      → answer (suc asked) ≡ err e
      → Attempted (suc asked) (saturating (double_saturating delay)) r
      → Attempted asked (saturating delay) (after_delay delay r)
  unfolding saturating
  later-Attempted asked delay e r q a = record {
    at_least = omega (arith, a.at_least);
    at_most = a.at_most;
    failures = λ k h l. elim (ℕ_discrete k (suc asked)) [
      | yes p ↦ (e, ap answer p ∙ q)
      | no p ↦ a.failures k (omega arith) l
    ];
    outcome = a.outcome;
    sleeps =
        ap (λ xs. delay ∷ xs) a.sleeps
        ∙ ap (saturating delay) {x = suc (r.attempts - suc (suc asked))}
            {y = r.attempts - suc asked} (omega (arith, a.at_least));
  }

  Result-cases : (r : Result V) → ((v : V) × (r ≡ ok v)) ⊎ ((e : MadrpcError) × (r ≡ err e))
  Result-cases (ok v) = inl (v, refl)
  Result-cases (err e) = inr (e, refl)

  register_loop-Finished :
      (fuel asked delay : ℕ)
      → asked < max_attempts
      → max_attempts ≤ asked + fuel
      → Finished asked delay (register_loop show answer fuel asked delay)
  unfolding register_loop saturating
  register_loop-Finished zero asked delay h l = absurd (omega arith)
  register_loop-Finished (suc fuel) asked delay h l = elim (Result-cases (answer (suc asked))) [
    | inl (v, q) ↦ (
      record { result = ok tt; attempts = suc asked; slept = [] },
      rw (q, register_loop) refl,
      record {
        at_least = omega arith;
        at_most = omega arith;
        failures = λ k a b. absurd (omega arith);
        outcome = inl (v, q, refl);
        sleeps = ap (saturating delay) {x = 0} {y = suc asked - suc asked} (omega arith);
      },
    )
    | inr (e, q) ↦ elim (Bool-cases (ltb (suc asked) max_attempts)) [
      | inl more ↦
          let (r, done, a) =
            register_loop-Finished fuel (suc asked) (double_saturating delay) (ground (arith, more))
              (omega arith) in
          (
            after_delay delay r,
            rw (q, more, done, register_loop) refl,
            later-Attempted asked delay e r q a,
          )
      | inr over ↦ (
        record { result = err (gave_up show answer e); attempts = suc asked; slept = [] },
        rw (q, over, register_loop) refl,
        record {
          at_least = omega arith;
          at_most = omega arith;
          failures = λ k a b. absurd (omega arith);
          outcome = inr (e, q, ground (arith, over), refl);
          sleeps = ap (saturating delay) {x = 0} {y = suc asked - suc asked} (omega arith);
        },
      )
    ]
  ]

  -- A node with a client ends its registration within 5 calls, for which 5 rounds of the loop
  -- are enough. Every call but the last fails; the last one succeeds, and so does the
  -- registration, or it is the fifth and its error is the one reported. Between calls the node
  -- sleeps half a second and then twice as long each time.
  pub register_with_orchestrator-Attempted :
      (fuel : ℕ)
      → max_attempts ≤ fuel
      → (r : Registering) × (register_with_orchestrator show answer true fuel ≡ some r)
        × Attempted 0 (doubling 500000000) r
  unfolding register_with_orchestrator
  register_with_orchestrator-Attempted fuel h =
      let (r, done, a) = register_loop-Finished fuel 0 500000000 (omega arith) (omega arith) in
      (
        r,
        done,
        record {
          at_least = a.at_least;
          at_most = a.at_most;
          failures = a.failures;
          outcome = a.outcome;
          sleeps = a.sleeps ∙ saturating-doubling (r.attempts - 1) (omega (arith, a.at_most));
        },
      )
