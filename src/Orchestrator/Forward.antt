-- ===== src/Orchestrator/Forward.antt =====
-- What forwarding a request amounts to: how it ends, how many nodes it asks, what it sleeps and records.
use madrpc.Prelude.{
  ℕ, zero, suc, ◌+◌, ◌≤◌, ◌≡◌, refl, sym, ap, ◌∙◌, subst, inl, inr, ◌⊎◌, String, Bool, true, false,
  ◌&&◌, Option, none, some, List, [], ◌∷◌, arith, max, length, All, ltb, Bool-cases, Option-cases,
  if◌then◌else◌,
}
use madrpc.Float.{F64}
use madrpc.Protocol.{MadrpcError, Result, ok, err}
use madrpc.LoadBalancer.{LoadBalancer, next_node}
use madrpc.LoadBalancer.Loop.{next_node_inv}
use madrpc.Orchestrator.{
  RetryConfig, is_retryable_static, is_ok, Effect, node_requested, slept, call_recorded, Forwarded,
  after_effects, preceded, next_backoff, no_node, retry_from, forward,
}

-- How many nodes were asked, the sleeps, and the flags recorded.
pub requests : List Effect → ℕ
requests [] = 0
requests (node_requested addr ∷ xs) = suc (requests xs)
requests (slept ms ∷ xs) = requests xs
requests (call_recorded flag ∷ xs) = requests xs

pub sleeps : List Effect → List ℕ
sleeps [] = []
sleeps (node_requested addr ∷ xs) = sleeps xs
sleeps (slept ms ∷ xs) = ms ∷ sleeps xs
sleeps (call_recorded flag ∷ xs) = sleeps xs

unfoldable pub recorded : List Effect → List Bool
recorded [] = []
recorded (node_requested addr ∷ xs) = recorded xs
recorded (slept ms ∷ xs) = recorded xs
recorded (call_recorded flag ∷ xs) = flag ∷ recorded xs

-- The effects in their order: a node is asked, and then the request waits and goes on, or records a
-- success, or ends. Nothing else happens, and nothing before a node is asked.
pub data InOrder : List Effect → Type 0 where
  nothing : InOrder []
  refused : (addr : String) → InOrder (node_requested addr ∷ [])
  answered : (addr : String) → InOrder (node_requested addr ∷ call_recorded true ∷ [])
  retried :
      (addr : String) (ms : ℕ) {xs : List Effect}
      → InOrder xs
      → InOrder (node_requested addr ∷ slept ms ∷ xs)

module _ {F : F64} {V : Type 0} (config : RetryConfig F) (send : ℕ → String → Result V)
    (others : ℕ → LoadBalancer F → LoadBalancer F) (message : ℕ → String) (now : ℕ → ℕ) where
  -- Why a request may end with an error: it cannot be retried, no attempt is left, or there was no node.
  abbrev pub Final : Forwarded F V → MadrpcError → ℕ → Type 0
  Final r e asked =
      (is_retryable_static e ≡ false)
      ⊎ (asked ≡ suc config.max_retries)
      ⊎ (e ≡ no_node config send others message now asked)

  -- The account of a request that has asked `asked` nodes before.
  pub record Accounts (asked : ℕ) (bound : ℕ) (r : Forwarded F V) : Type 0 where
    pub asks : asked + requests r.effects ≤ suc config.max_retries
    pub waits : All (λ ms. ms ≤ bound) (sleeps r.effects)
    pub order : InOrder r.effects
    pub pauses : length (sleeps r.effects) ≤ requests r.effects
    pub records : recorded r.effects ≡ (if is_ok r.result then true ∷ [] else [])
    pub fails : (e : MadrpcError) → r.result ≡ err e → Final r e (asked + requests r.effects)

  abbrev Ended : ℕ → ℕ → Option (Forwarded F V) → Type 0
  Ended asked bound o = (r : Forwarded F V) × (o ≡ some r) × Accounts asked bound r

  Result-cases : (r : Result V) → ((v : V) × (r ≡ ok v)) ⊎ ((e : MadrpcError) × (r ≡ err e))
  Result-cases (ok v) = inl (v, refl)
  Result-cases (err e) = inr (e, refl)

  no_node-Accounts :
      (k bound : ℕ) (lb : LoadBalancer F)
      → k ≤ config.max_retries
      → Accounts k bound (record {
        result = err (no_node config send others message now k);
        balancer = lb;
        effects = [];
      })
  unfolding requests sleeps recorded
  no_node-Accounts k bound lb h = record {
    asks = omega arith;
    waits = tt;
    order = nothing;
    pauses = omega arith;
    records = refl;
    fails = λ e q.
        let same : no_node config send others message now k ≡ e = cc in
        inr (inr (sym same ∙ ap (no_node config send others message now) {x = k} (omega arith)));
  }

  answer-Accounts :
      (k bound : ℕ) (lb : LoadBalancer F) (addr : String) (v : V)
      → k ≤ config.max_retries
      → Accounts k bound (record {
        result = ok v;
        balancer = lb;
        effects = node_requested addr ∷ call_recorded true ∷ [];
      })
  unfolding requests sleeps recorded
  answer-Accounts k bound lb addr v h = record {
    asks = omega arith;
    waits = tt;
    order = answered addr;
    pauses = omega arith;
    records = refl;
    fails = λ e q. cc;
  }

  failure-Accounts :
      (k bound : ℕ) (lb : LoadBalancer F) (addr : String) (e : MadrpcError)
      → k ≤ config.max_retries
      → (is_retryable_static e ≡ false) ⊎ (k ≡ config.max_retries)
      → Accounts k bound
          (record { result = err e; balancer = lb; effects = node_requested addr ∷ [] })
  unfolding requests sleeps recorded
  failure-Accounts k bound lb addr e h why = record {
    asks = omega arith;
    waits = tt;
    order = refused addr;
    pauses = omega arith;
    records = refl;
    fails = λ x q.
        let same : e ≡ x = cc in
        elim why [
          | inl n ↦ inl (subst (λ y. is_retryable_static y ≡ false) same n)
          | inr n ↦ inr (inl (omega arith))
        ];
  }

  retry-Accounts :
      (k bound ms : ℕ) (addr : String) (r : Forwarded F V)
      → ms ≤ bound
      → Accounts (suc k) bound r
      → Accounts k bound (after_effects (node_requested addr ∷ slept ms ∷ []) r)
  unfolding requests sleeps recorded
  retry-Accounts k bound ms addr r h a = record {
    asks = omega (arith, a.asks);
    waits = (h, a.waits);
    order = retried addr ms a.order;
    pauses = omega (arith, a.pauses);
    records = a.records;
    fails = λ e q.
        subst (λ n. Final r e n) {x = suc k + requests r.effects} (omega arith) (a.fails e q);
  }

  module _ (k left backoff : ℕ) (lb lb' : LoadBalancer F) (addr : String)
      (found : next_node (now k) lb ≡ some (some addr, lb')) where
    retry_ok :
        (v : V)
        → send k addr ≡ ok v
        → retry_from config send others message now (suc left) k backoff lb
          ≡ some (record {
            result = ok v;
            balancer = lb';
            effects = node_requested addr ∷ call_recorded true ∷ [];
          })
    unfolding retry_from
    retry_ok v t = rw (found, retry_from) (rw t)

    retry_err :
        (e : MadrpcError)
        → send k addr ≡ err e
        → ltb k config.max_retries && is_retryable_static e ≡ false
        → retry_from config send others message now (suc left) k backoff lb
          ≡ some (record { result = err e; balancer = lb'; effects = node_requested addr ∷ [] })
    unfolding retry_from
    retry_err e t q = rw (found, retry_from) (rw t (rw q))

    retry_again :
        (e : MadrpcError)
        → send k addr ≡ err e
        → ltb k config.max_retries && is_retryable_static e ≡ true
        → retry_from config send others message now (suc left) k backoff lb
          ≡ preceded (node_requested addr ∷ slept backoff ∷ []) (
              retry_from config send others message now left
                (suc k)
                (next_backoff config backoff)
                (others k lb'))
    unfolding retry_from
    retry_again e t q = rw (found, retry_from) (rw t (rw q))

  retry_none :
      (k left backoff : ℕ) (lb lb' : LoadBalancer F)
      → next_node (now k) lb ≡ some (none, lb')
      → retry_from config send others message now (suc left) k backoff lb
        ≡ some (record {
          result = err (no_node config send others message now k);
          balancer = lb';
          effects = [];
        })
  unfolding retry_from
  retry_none k left backoff lb lb' e = rw (e, retry_from)

  abbrev longest : ℕ
  longest = max config.initial_backoff_ms config.max_backoff_ms

  next_node-total :
      (k : ℕ) (lb : LoadBalancer F)
      → (a : Option String) × (lb' : LoadBalancer F) × (next_node (now k) lb ≡ some (a, lb'))
  next_node-total k lb =
      let (a, lb', e, u) =
        next_node_inv (λ x. Unit {0}) (now k) (λ x i u. tt) (λ x b u. tt) lb tt in
      (a, lb', e)

  not_retried :
      (k : ℕ) (e : MadrpcError)
      → k ≤ config.max_retries
      → ltb k config.max_retries && is_retryable_static e ≡ false
      → (is_retryable_static e ≡ false) ⊎ (k ≡ config.max_retries)
  not_retried k e h q = elim (Bool-cases (is_retryable_static e)) [
    | inl r ↦ inr (ground arith)
    | inr r ↦ inl r
  ]

  -- One attempt, given the account of what follows if it is retried.
  attempt-Ended :
      (left k backoff : ℕ) (lb : LoadBalancer F)
      → k ≤ config.max_retries
      → backoff ≤ longest
      → (k ≡ config.max_retries)
        ⊎ ((lb' : LoadBalancer F)
            → Ended (suc k) longest (
                retry_from config send others message now left
                  (suc k)
                  (next_backoff config backoff)
                  lb'))
      → Ended k longest (retry_from config send others message now (suc left) k backoff lb)
  attempt-Ended left k backoff lb h b after =
      let (a, lb', found) = next_node-total k lb in
      elim (Option-cases a) [
        | inl n ↦ (
          _,
          retry_none k left backoff lb lb'
              (subst (λ x. next_node (now k) lb ≡ some (x, lb')) n found),
          no_node-Accounts k longest lb' h,
        )
        | inr (addr, n) ↦ asked lb' addr (subst (λ x. next_node (now k) lb ≡ some (x, lb')) n found)
      ]
    where
      asked :
          (lb' : LoadBalancer F) (addr : String)
          → next_node (now k) lb ≡ some (some addr, lb')
          → Ended k longest (retry_from config send others message now (suc left) k backoff lb)
      asked lb' addr found = elim (Result-cases (send k addr)) [
        | inl (v, t) ↦ (
          _,
          retry_ok k left backoff lb lb' addr found v t,
          answer-Accounts k longest lb' addr v h,
        )
        | inr (e, t) ↦ elim (Bool-cases (ltb k config.max_retries && is_retryable_static e)) [
          | inl q ↦ elim after [
            | inl last ↦ absurd (ground arith)
            | inr rest ↦
                let (r, ends, a) = rest (others k lb') in
                (
                  _,
                  retry_again k left backoff lb lb' addr found e t q
                      ∙ ap (preceded (node_requested addr ∷ slept backoff ∷ [])) ends,
                  retry-Accounts k longest backoff addr r b a,
                )
          ]
          | inr q ↦ (
            _,
            retry_err k left backoff lb lb' addr found e t q,
            failure-Accounts k longest lb' addr e h (not_retried k e h q),
          )
        ]
      ]

  retry_from-Ended :
      (left k backoff : ℕ) (lb : LoadBalancer F)
      → k + left ≡ config.max_retries
      → backoff ≤ longest
      → Ended k longest (retry_from config send others message now (suc left) k backoff lb)
  retry_from-Ended zero k backoff lb h b =
      attempt-Ended zero k backoff lb (omega arith) b (inl (omega arith))
  retry_from-Ended (suc left) k backoff lb h b =
      attempt-Ended (suc left) k backoff lb (omega arith) b (
        inr (λ lb'.
          retry_from-Ended left (suc k) (next_backoff config backoff) lb' (omega arith)
            (omega arith)))

  pub forward-Accounts :
      (lb : LoadBalancer F)
      → (r : Forwarded F V) × (forward config send others message now lb ≡ some r)
        × Accounts 0 longest r
  unfolding forward
  forward-Accounts lb =
      retry_from-Ended config.max_retries 0 config.initial_backoff_ms lb (omega arith) (omega arith)
