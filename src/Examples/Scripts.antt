-- ===== src/Examples/Scripts.antt =====
-- An engine whose numbers are whole and whose texts are texts, and a script's function that gives a
-- promise.
use madrpc.Prelude.{
  ◌⊎◌, ℕ, zero, suc, ◌+◌, ◌*◌, ◌≤◌, ◌<◌, ◌≡◌, refl, String, true, false, Option, none, some, [],
  ◌∷◌, inl, inr, arith, leb, if◌then◌else◌,
}
use madrpc.Float.{ℤ, pos, negsuc}
use madrpc.Protocol.{Result, ok}
use madrpc.Runtime.{
  JsonValue, null, number, string, array, object, nil, cons, end, field, name, symbol_key, JsValue,
  numeric, object_value, plain, done, prop, throwing_prop, Engine,
}
use madrpc.Runtime.Conversions.{◌>>=◌, json_to_js_value, js_value_to_json}
use madrpc.Runtime.Laws.{here, IsLawful, IsPortable}
use madrpc.Runtime.Roundtrip.{js_value_to_json-json_to_js_value}
use madrpc.Runtime.Readable.{succeeds, readable, js_value_to_json-readable}
use madrpc.Runtime.Jobs.{
  task, generic_job, promise_job, new_executor, run_loop, take_async, all_done, work, poll_once,
  drain_jobs, run_generic, run_promises, call, call_all, enqueue_all, enqueue_job, no_jobs,
  then_job, TokioJobExecutor, has_pending_jobs, Progress, run_jobs_async, call_borrowed,
  enqueue_borrowed, enqueue_all_borrowed, returned, panicked,
}
use madrpc.Runtime.Jobs.Borrows.{spawned}
use madrpc.Runtime.Jobs.Accounts.{task_weight, sum, pending}
use madrpc.Runtime.Jobs.Termination.{one_each, nameless, no_extra, run_jobs_async-ends}
use madrpc.Runtime.Context.{
  get_registry, PromiseState, fulfilled, Realm, call_rpc, call_rpc_async, get_function,
  apply_function,
}
use madrpc.Runtime.Context.Waiting.{after, call_rpc-returns}

abbrev of_ℤ : ℤ → ℕ
of_ℤ (pos n) = n
of_ℤ (negsuc n) = 0

abbrev pub whole_engine : Engine ℕ ℕ String
whole_engine = record {
  as_f64 = λ n. some n;
  as_i64 = λ n. none;
  of_i64 = of_ℤ;
  as_i32 = λ n. some (pos n);
  of_i32 = of_ℤ;
  from_f64 = λ n. some n;
  js_string = λ s. s;
  to_std_string = λ s. inr s;
  property_key = λ s. name s;
  show = λ n. "n";
  push_error = λ i v. none;
  create = λ ps k v. inr (prop k v ps);
}

whole_engine-IsLawful : IsLawful whole_engine
whole_engine-IsLawful = record {
  texts = λ s. refl;
  keys = λ s. refl;
  pushes = λ i v. refl;
  creates = λ ps s v w. (prop (name s) v ps, refl, here ps);
}

-- { "a": [1, null], "b": "x" }.
abbrev message : JsonValue ℕ
message = object (field "a" (array (cons (number 1) (cons null nil))) (field "b" (string "x") end))

message-IsPortable : IsPortable whole_engine message
unfolding IsPortable
message-IsPortable =
    (((refl, tt), (tt, tt)), (((1, refl, inl (pos 1, refl, refl)), (tt, tt)), (tt, tt)))

js_value_to_json-json_to_js_value_example :
    (v : JsValue ℕ String) × (json_to_js_value whole_engine message ≡ ok v)
    × (js_value_to_json whole_engine v ≡ ok message)
js_value_to_json-json_to_js_value_example =
    js_value_to_json-json_to_js_value whole_engine whole_engine-IsLawful message message-IsPortable

abbrev answered : JsValue ℕ String
answered = object_value plain (prop (symbol_key 0) (numeric 1) (throwing_prop (name "a") "no" done))

js_value_to_json-readable_example :
    succeeds (js_value_to_json whole_engine answered) ≡ readable whole_engine answered
js_value_to_json-readable_example = js_value_to_json-readable whole_engine answered

-- A promise job that asks for a generic job, and an async job.
abbrev jobs : TokioJobExecutor
jobs = record {
  promise_jobs = task 1 (then_job (generic_job (task 2 no_jobs)) no_jobs) ∷ [];
  async_jobs = task 3 no_jobs ∷ [];
  generic_jobs = [];
}

abbrev first_completes : ℕ → ℕ → Option ℕ
first_completes t n = some 0

abbrev no_wait : ℕ → ℕ
no_wait t = 0

jobs-pending : pending one_each no_extra jobs * suc 0 + no_wait 0 < 4
unfolding task_weight
jobs-pending = omega arith

run_jobs_async-ends_example :
    ((pending nameless spawned jobs ≡ 0)
      × (q : Progress) × (run_jobs_async first_completes 4 jobs ≡ returned q)
      × (has_pending_jobs q.queues ≡ false)
      × ((weight : ℕ → ℕ) → sum weight q.ran ≡ pending weight no_extra jobs))
    ⊎ ((0 < pending nameless spawned jobs) × (run_jobs_async first_completes 4 jobs ≡ panicked))
run_jobs_async-ends_example =
    run_jobs_async-ends first_completes no_wait 0 within later now 4 jobs jobs-pending
  where
    within : (t : ℕ) → no_wait t ≤ 0
    within t = omega arith

    later : (t k : ℕ) → no_wait t ≡ suc k → no_wait (suc t) ≡ k
    later t k e = absurd (omega (arith, e))

    now : (t n : ℕ) → no_wait t ≡ 0 → 0 < n → (i : ℕ) × (first_completes t n ≡ some i) × (i < n)
    now t n e h = (0, refl, h)

-- A promise job, 4, that another one, 1, asks for runs after the next generic job, 3.
abbrev mixed : TokioJobExecutor
mixed = record {
  promise_jobs = task 1 (then_job (promise_job (task 4 no_jobs)) no_jobs) ∷ [];
  async_jobs = [];
  generic_jobs = task 2 no_jobs ∷ task 3 no_jobs ∷ [];
}

mixed_order :
    run_jobs_async first_completes 5 mixed
    ≡ returned (record { queues = new_executor; ran = 2 ∷ 1 ∷ 3 ∷ 4 ∷ [] })
unfolding run_jobs_async run_loop take_async all_done work poll_once drain_jobs run_generic
    run_promises call_borrowed enqueue_all_borrowed call call_all enqueue_all enqueue_job
    new_executor
mixed_order = refl

-- A generic job that enqueues a generic job panics.
generic_panic :
    run_jobs_async first_completes 2 (record {
      promise_jobs = [];
      async_jobs = [];
      generic_jobs = task 1 (then_job (generic_job (task 2 no_jobs)) no_jobs) ∷ [];
    })
    ≡ panicked
unfolding run_jobs_async run_loop take_async all_done work poll_once drain_jobs run_generic
    run_promises call_borrowed enqueue_all_borrowed enqueue_borrowed
generic_panic = refl

-- The state counts the runs of the jobs: the promise, 7, is settled with 5 at the second run.
abbrev pub state_of : ℕ → ℕ → PromiseState ℕ
state_of v c = if leb 2 c then fulfilled 5 else PromiseState.pending

abbrev pub realm : Realm ℕ ℕ ℕ ℕ String
realm = record {
  engine = whole_engine;
  view = λ c v. numeric v;
  realise = λ tree c. (3, c);
  global_object = λ c. 0;
  get = λ o k c. inr (1, c);
  set = λ o k v c. inr c;
  call_function = λ f args c. inr (7, c);
  is_undefined = λ v. false;
  is_object = λ v. true;
  is_callable = λ v. true;
  is_promise = λ v. true;
  as_string = λ v. none;
  debug = λ v. "value";
  run_jobs = λ c. (none, suc c);
  promise_state = state_of;
}

-- Every poll takes 50 ms.
abbrev pub polls : ℕ → ℕ
polls k = k * 50000000

call_rpc-returns_example :
    ((r : Result (JsonValue ℕ × ℕ)) × (call_rpc realm polls 601 "pi" null 0 ≡ some r))
    × ((r : Result (JsonValue ℕ × ℕ)) × (call_rpc_async realm polls 3001 "pi" null 0 ≡ some r))
call_rpc-returns_example =
    call_rpc-returns realm "pi" null 0 polls polls (λ k. omega arith) (λ k. omega arith)

pub called : (get_function realm "pi" 0 >>= apply_function realm null) ≡ ok (7, 0)
unfolding get_function apply_function json_to_js_value get_registry
called = refl

pub pending_once : (i : ℕ) → i < 1 → state_of 7 (after realm (suc i) 0) ≡ PromiseState.pending
unfolding after
pending_once zero h = refl
pending_once (suc i) h = absurd (omega arith)

pub settled_twice : state_of 7 (after realm 2 0) ≡ fulfilled 5
unfolding after
settled_twice = refl
