-- ===== src/Client/Retries.antt =====
-- The retry loop of `call` against what it promises.
use madrpc.Prelude.{
  ℕ, zero, suc, ◌+◌, ◌-◌, ◌≤◌, ◌<◌, ◌≡◌, refl, ap, ◌∙◌, ◌⊎◌, inl, inr, true, false, Option, none,
  some, List, [], ◌∷◌, arith, ltb, Bool-cases, ℕ_discrete,
}
use madrpc.Float.{F64}
use madrpc.Protocol.{MadrpcError, invalid_response, is_retryable, Result, ok, err}
use madrpc.Client.Config.{RetryConfig, Draw, calculate_delay}
use madrpc.Client.{Outcome, after_sleep, attempt_from, call}

module _ {F : F64} {V : Type 0} (config : RetryConfig F) (draws : ℕ → Draw)
    (tries : ℕ → Result V) where
  -- The attempts up to `k` all failed in a retryable way.
  abbrev pub Retried : ℕ → Type 0
  Retried k =
      (j : ℕ) → 0 < j → j ≤ k → (e : MadrpcError) × (tries j ≡ err e) × (is_retryable e ≡ true)

  -- The delays after attempts `i`, `i + 1`, …, of `n` of them.
  abbrev pub delays : ℕ → ℕ → List ℕ
  delays i zero = []
  delays i (suc n) = calculate_delay config i (draws i) ∷ delays (suc i) n

  -- What a call promises. It ends with attempt `suc k`.
  pub data Promised (o : Outcome V) : Type 0 where
    answered :
        (k : ℕ) (v : V)
        → suc k ≤ config.max_attempts
        → Retried k
        → tries (suc k) ≡ ok v
        → o ≡ record { result = ok v; attempts = suc k; slept = delays 1 k }
        → Promised o
    gave_up :
        (k : ℕ) (e : MadrpcError)
        → suc k ≤ config.max_attempts
        → Retried k
        → tries (suc k) ≡ err e
        → (is_retryable e ≡ false) ⊎ (suc k ≡ config.max_attempts)
        → o ≡ record { result = err e; attempts = suc k; slept = delays 1 k }
        → Promised o
    untried :
        config.max_attempts ≡ 0
        → o ≡ record {
          result = err (invalid_response "All retry attempts exhausted");
          attempts = 0;
          slept = [];
        }
        → Promised o

  -- The same from an attempt on, `a` of them having failed.
  data From (a : ℕ) (o : Outcome V) : Type 0 where
    answered :
        (k : ℕ) (v : V)
        → a ≤ k
        → suc k ≤ config.max_attempts
        → Retried k
        → tries (suc k) ≡ ok v
        → o ≡ record { result = ok v; attempts = suc k; slept = delays (suc a) (k - a) }
        → From a o
    gave_up :
        (k : ℕ) (e : MadrpcError)
        → a ≤ k
        → suc k ≤ config.max_attempts
        → Retried k
        → tries (suc k) ≡ err e
        → (is_retryable e ≡ false) ⊎ (suc k ≡ config.max_attempts)
        → o ≡ record { result = err e; attempts = suc k; slept = delays (suc a) (k - a) }
        → From a o

  Retried-suc :
      (a : ℕ) (e : MadrpcError)
      → Retried a
      → tries (suc a) ≡ err e
      → is_retryable e ≡ true
      → Retried (suc a)
  Retried-suc a e r t q j pos_ le = elim (ℕ_discrete j (suc a)) [
    | yes p ↦ (e, ap tries p ∙ t, q)
    | no p ↦ r j pos_ (omega arith)
  ]

  slept-step :
      (a k : ℕ)
      → suc a ≤ k
      → calculate_delay config (suc a) (draws (suc a)) ∷ delays (suc (suc a)) (k - suc a)
        ≡ delays (suc a) (k - a)
  slept-step a k h = ap (delays (suc a)) {x = suc (k - suc a)} (omega arith)

  slept-none : (a : ℕ) → [] ≡ delays (suc a) (a - a)
  slept-none a = ap (delays (suc a)) {x = 0} (omega arith)

  wake :
      (a : ℕ) (o : Outcome V)
      → From (suc a) o
      → From a (after_sleep (calculate_delay config (suc a) (draws (suc a))) o)
  wake a o (answered k v l m r t e) = answered k v (omega arith) m r t (
      ap (after_sleep (calculate_delay config (suc a) (draws (suc a)))) e
      ∙ ap (λ s. record { result = ok v; attempts = suc k; slept = s }) (slept-step a k l))
  wake a o (gave_up k x l m r t w e) = gave_up k x (omega arith) m r t w (
      ap (after_sleep (calculate_delay config (suc a) (draws (suc a)))) e
      ∙ ap (λ s. record { result = err x; attempts = suc k; slept = s }) (slept-step a k l))

  Result-cases : (r : Result V) → ((v : V) × (r ≡ ok v)) ⊎ ((e : MadrpcError) × (r ≡ err e))
  Result-cases (ok v) = inl (v, refl)
  Result-cases (err e) = inr (e, refl)

  module _ (a : ℕ) (last : Option MadrpcError) (e : MadrpcError) (t : tries (suc a) ≡ err e) where
    final_failure :
        (left : ℕ)
        → is_retryable e ≡ false
        → attempt_from config draws tries (suc left) a last
          ≡ record { result = err e; attempts = suc a; slept = [] }
    unfolding attempt_from
    final_failure left q = rw (t, attempt_from) (rw q)

    last_failure :
        is_retryable e ≡ true
        → suc a ≡ config.max_attempts
        → attempt_from config draws tries 1 a last
          ≡ record { result = err e; attempts = suc a; slept = [] }
    unfolding attempt_from
    last_failure q m =
        let full : ltb (suc a) config.max_attempts ≡ false = ground arith in
        rw (t, attempt_from) (rw (q, full))

    retried_failure :
        (left : ℕ)
        → is_retryable e ≡ true
        → suc a < config.max_attempts
        → attempt_from config draws tries (suc left) a last
          ≡ after_sleep
              (calculate_delay config (suc a) (draws (suc a)))
              (attempt_from config draws tries left (suc a) (some e))
    unfolding attempt_from
    retried_failure left q m =
        let more : ltb (suc a) config.max_attempts ≡ true = ground arith in
        rw (t, attempt_from) (rw (q, more))

  abbrev NoSleep : (a : ℕ) (r : Result V) → Outcome V → Type 0
  NoSleep a r o = o ≡ record { result = r; attempts = suc a; slept = [] }

  unslept :
      (a : ℕ) (r : Result V) (o : Outcome V)
      → NoSleep a r o
      → o ≡ record { result = r; attempts = suc a; slept = delays (suc a) (a - a) }
  unslept a r o e = e ∙ ap (λ s. record { result = r; attempts = suc a; slept = s }) (slept-none a)

  first_answer :
      (left a : ℕ) (last : Option MadrpcError) (v : V)
      → tries (suc a) ≡ ok v
      → NoSleep a (ok v) (attempt_from config draws tries (suc left) a last)
  unfolding attempt_from
  first_answer left a last v t = rw (t, attempt_from)

  attempt_from-From :
      (left a : ℕ) (last : Option MadrpcError)
      → a + suc left ≡ config.max_attempts
      → Retried a
      → From a (attempt_from config draws tries (suc left) a last)
  attempt_from-From zero a last h r = elim (Result-cases (tries (suc a))) [
    | inl (v, t) ↦
        answered a v (omega arith) (omega arith) r t
          (unslept a (ok v) _ (first_answer 0 a last v t))
    | inr (e, t) ↦ elim (Bool-cases (is_retryable e)) [
      | inl q ↦
          gave_up a e (omega arith) (omega arith) r t (inr (omega arith))
            (unslept a (err e) _ (last_failure a last e t q (omega arith)))
      | inr q ↦
          gave_up a e (omega arith) (omega arith) r t (inl q)
            (unslept a (err e) _ (final_failure a last e t 0 q))
    ]
  ]
  attempt_from-From (suc left) a last h r = elim (Result-cases (tries (suc a))) [
    | inl (v, t) ↦
        answered a v (omega arith) (omega arith) r t
          (unslept a (ok v) _ (first_answer (suc left) a last v t))
    | inr (e, t) ↦ elim (Bool-cases (is_retryable e)) [
      | inl q ↦
          rw (retried_failure a last e t (suc left) q (omega arith)) (
            wake a _
              (attempt_from-From left (suc a) (some e) (omega arith) (Retried-suc a e r t q)))
      | inr q ↦
          gave_up a e (omega arith) (omega arith) r t (inl q)
            (unslept a (err e) _ (final_failure a last e t (suc left) q))
    ]
  ]

  From-Promised : (o : Outcome V) → From 0 o → Promised o
  From-Promised o (answered k v l m r t e) = answered k v m r t (
      e
      ∙ ap (λ (n : ℕ). record { result = ok v; attempts = suc k; slept = delays 1 n })
          (omega arith))
  From-Promised o (gave_up k x l m r t w e) = gave_up k x m r t w (
      e
      ∙ ap (λ (n : ℕ). record { result = err x; attempts = suc k; slept = delays 1 n })
          (omega arith))

  -- A call tries until an attempt is answered, fails for good, or is the last one allowed;
  -- that attempt decides the result, every one before it failed in a retryable way, and
  -- between two attempts it slept the delay of the earlier one. With no attempt allowed it
  -- fails at once.
  pub call-Promised : Promised (call config draws tries)
  unfolding call attempt_from
  call-Promised = by_attempts config.max_attempts refl
    where
      by_attempts :
          (n : ℕ) → config.max_attempts ≡ n → Promised (attempt_from config draws tries n 0 none)
      by_attempts zero e = untried e refl
      by_attempts (suc n) e =
          From-Promised _ (attempt_from-From n 0 none (omega arith) (λ j p l. absurd (omega arith)))
