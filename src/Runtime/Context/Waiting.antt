-- ===== src/Runtime/Context/Waiting.antt =====
-- How long a call waits for a promise, and what it gives then.
use madrpc.Prelude.{
  ℕ, zero, suc, ◌+◌, ◌*◌, ◌≤◌, ◌<◌, ◌≡◌, ◌≢◌, refl, ◌∙◌, ◌⊎◌, inl, inr, String, true, Option, none,
  some, arith, Bool-cases,
}
use madrpc.Protocol.{Result, ok, err}
use madrpc.Runtime.{JsonValue}
use madrpc.Runtime.Conversions.{◌>>=◌}
use madrpc.Runtime.Context.{
  PromiseState, pending, fulfilled, rejected, Realm, timeout_duration,
  promise_poll_interval_async_ms, promise_poll_interval_sync_ms, by_state, wait_promise, call_rpc,
  call_rpc_async, promise_timeout, settle, get_function, apply_function,
}

module _ {C V N F S : Type 0} (R : Realm C V N F S) where
  -- The state of the engine after a number of runs of the jobs.
  unfoldable pub after : ℕ → C → C
  after zero c = c
  after (suc n) c = after n (R.run_jobs c).1

module _ {C V N F S : Type 0} (R : Realm C V N F S) (elapsed : ℕ → ℕ) (interval : ℕ)
    (sleeps : (k : ℕ) → elapsed k + interval ≤ elapsed (suc k)) where
  -- One poll: the time is up, or the promise is looked at.
  wait_promise-late :
      (promise : V) (fuel k : ℕ) (c : C)
      → timeout_duration ≤ elapsed k
      → wait_promise R elapsed promise (suc fuel) k c ≡ some (err (promise_timeout R))
  unfolding wait_promise
  wait_promise-late promise fuel k c h = ground (arith, h)

  wait_promise-early :
      (promise : V) (fuel k : ℕ) (c : C)
      → elapsed k < timeout_duration
      → wait_promise R elapsed promise (suc fuel) k c
        ≡ by_state R
            (R.run_jobs c).1
            (wait_promise R elapsed promise fuel (suc k) (R.run_jobs c).1)
            (R.promise_state promise (R.run_jobs c).1)
  unfolding wait_promise
  wait_promise-early promise fuel k c h = ground (arith, h)

  late_or_early : (k : ℕ) → (timeout_duration ≤ elapsed k) ⊎ (elapsed k < timeout_duration)
  late_or_early k = ground arith

  by_state-returns :
      (c : C) (next : Option (Result (JsonValue N × C))) (s : PromiseState V)
      → (r : Result (JsonValue N × C)) × (next ≡ some r)
      → (r : Result (JsonValue N × C)) × (by_state R c next s ≡ some r)
  by_state-returns c next pending n = n
  by_state-returns c next (fulfilled v) n = (_, refl)
  by_state-returns c next (rejected v) n = (_, refl)

  wait_promise-returns :
      (promise : V) (fuel k : ℕ) (c : C)
      → timeout_duration ≤ elapsed k + fuel * interval
      → (r : Result (JsonValue N × C)) × (wait_promise R elapsed promise (suc fuel) k c ≡ some r)
  wait_promise-returns promise zero k c h =
      (_, wait_promise-late promise zero k c (omega (arith, h)))
  wait_promise-returns promise (suc fuel) k c h = elim (late_or_early k) [
    | inl late ↦ (_, wait_promise-late promise (suc fuel) k c late)
    | inr early ↦
        let (r, e) =
          by_state-returns (R.run_jobs c).1 _ (R.promise_state promise (R.run_jobs c).1) (
            wait_promise-returns promise fuel (suc k) (R.run_jobs c).1
              (omega (arith, h, sleeps k))) in
        (r, wait_promise-early promise (suc fuel) k c early ∙ e)
  ]

  elapsed_mono : (k n m : ℕ) → k + n ≡ m → elapsed k ≤ elapsed m
  elapsed_mono k zero m e = let e' : k ≡ m = omega (arith, e) in rw (e') (omega arith)
  elapsed_mono k (suc n) m e =
      let a = elapsed_mono (suc k) n m (omega (arith, e)) in omega (arith, a, sleeps k)

  by_state-settled :
      (c : C) (next : Option (Result (JsonValue N × C))) (s : PromiseState V)
      → s ≢ pending
      → by_state R c next s ≡ by_state R c none s
  by_state-settled c next pending n = absurd (n refl)
  by_state-settled c next (fulfilled v) n = refl
  by_state-settled c next (rejected v) n = refl

  wait_promise-settled :
      (j : ℕ) (promise : V) (fuel k m : ℕ) (c : C) (s : PromiseState V)
      → j < fuel
      → k + j ≡ m
      → ((i : ℕ) → i < j → R.promise_state promise (after R (suc i) c) ≡ pending)
      → R.promise_state promise (after R (suc j) c) ≡ s
      → s ≢ pending
      → elapsed m < timeout_duration
      → wait_promise R elapsed promise fuel k c ≡ by_state R (after R (suc j) c) none s
  unfolding after
  wait_promise-settled j promise zero k m c s lt e before now n h = absurd (omega arith)
  wait_promise-settled zero promise (suc fuel) k m c s lt e before now n h =
      wait_promise-early promise fuel k c (let a = elapsed_mono k 0 m e in omega (arith, a, h))
      ∙ rw (now) (by_state-settled (R.run_jobs c).1 _ s n)
  wait_promise-settled (suc j) promise (suc fuel) k m c s lt e before now n h =
      wait_promise-early promise fuel k c
        (let a = elapsed_mono k (suc j) m e in omega (arith, a, h))
      ∙ rw (before 0 (omega arith)) (
          wait_promise-settled j promise fuel (suc k) m (R.run_jobs c).1 s (omega (arith, lt))
            (omega (arith, e)) (λ i l. before (suc i) (omega (arith, l))) now n h)

module _ {C V N F S : Type 0} (R : Realm C V N F S) where
  settle-returns :
      (finish : V → C → Result (JsonValue N × C)) (elapsed : ℕ → ℕ) (interval fuel : ℕ)
      → ((k : ℕ) → elapsed k + interval ≤ elapsed (suc k))
      → timeout_duration ≤ fuel * interval
      → (made : Result (V × C))
      → (r : Result (JsonValue N × C)) × (settle R finish elapsed (suc fuel) made ≡ some r)
  settle-returns finish elapsed interval fuel sleeps enough (err e) = (_, refl)
  settle-returns finish elapsed interval fuel sleeps enough (ok (v, c)) =
      elim (Bool-cases (R.is_promise v)) [
        | inl t ↦
            let (r, e) =
              wait_promise-returns R elapsed interval sleeps v fuel 0 c (omega (arith, enough)) in
            (r, rw (t) e)
        | inr f ↦ (finish v c, rw (f) refl)
      ]

  -- A call of a registered function returns, whatever the promise does: within 601 polls of
  -- the blocking version, where a pause is of 50 ms at least, and within 3001 of the other,
  -- where it is of 10 ms at least. The script's function and each run of the jobs return.
  pub call_rpc-returns :
      (method : String) (args : JsonValue N) (c : C) (elapsed elapsed_async : ℕ → ℕ)
      → ((k : ℕ) → elapsed k + promise_poll_interval_sync_ms * 1000000 ≤ elapsed (suc k))
      → ((k : ℕ)
          → elapsed_async k + promise_poll_interval_async_ms * 1000000 ≤ elapsed_async (suc k))
      → ((r : Result (JsonValue N × C)) × (call_rpc R elapsed 601 method args c ≡ some r))
        × ((r : Result (JsonValue N × C)) × (call_rpc_async R elapsed_async 3001 method args c
              ≡ some r))
  unfolding call_rpc call_rpc_async
  call_rpc-returns method args c elapsed elapsed_async sleeps sleeps_async = (
    settle-returns _ elapsed _ 600 sleeps (omega arith) _,
    settle-returns _ elapsed_async _ 3000 sleeps_async (omega arith) _,
  )

  -- Where a registered function gives a promise that the polls find pending until the poll `j`
  -- finds it settled, and the time is not up then, both versions of a call give what the
  -- promise was settled with: the value as JSON, or the error with the reason. The clock does
  -- not go back.
  pub call_rpc-settled :
      (method : String) (args : JsonValue N) (c c' : C) (promise : V) (elapsed : ℕ → ℕ) (j fuel : ℕ)
      → (s : PromiseState V)
      → (get_function R method c >>= apply_function R args) ≡ ok (promise, c')
      → R.is_promise promise ≡ true
      → ((k : ℕ) → elapsed k ≤ elapsed (suc k))
      → ((i : ℕ) → i < j → R.promise_state promise (after R (suc i) c') ≡ pending)
      → R.promise_state promise (after R (suc j) c') ≡ s
      → s ≢ pending
      → elapsed j < timeout_duration
      → j < fuel
      → (call_rpc R elapsed fuel method args c ≡ by_state R (after R (suc j) c') none s)
        × (call_rpc_async R elapsed fuel method args c ≡ by_state R (after R (suc j) c') none s)
  unfolding call_rpc call_rpc_async
  call_rpc-settled method args c c' promise elapsed j fuel s made is grows before now n h lt =
      let waited =
        wait_promise-settled R elapsed 0 (λ k. omega (arith, grows k)) j promise fuel 0 j c' s lt
          (omega arith) before now n h in
      (rw (made, is) waited, rw (made, is) waited)
