-- ===== src/Examples/Objects.antt =====
-- An engine with four objects: the global object 0, `madrpc` 1, its registry 2 and a function 3. The
-- state is the value of each property; what is written is read.
use madrpc.Prelude.{
  ℕ, suc, ◌≡◌, ◌≢◌, refl, ap, ◌∙◌, String, true, false, none, some, [], ◌∷◌, inr, arith, ℕ_discrete,
  ite,
}
use madrpc.Prelude.Text.{str_dec}
use madrpc.Protocol.{ok}
use madrpc.Runtime.Context.{PromiseState, Realm, get_function}
use madrpc.Runtime.Bindings.{Natives, register}
use madrpc.Runtime.Bindings.Registered.{register-get_function}
use madrpc.Examples.Scripts.{whole_engine}
use madrpc.Runtime.{undefined}

abbrev Store : Type 0
Store = ℕ → String → ℕ

-- A read of what was written.
abbrev write : ℕ → String → ℕ → Store → Store
write o k v s = λ p q. ite (ℕ_discrete p o) (ite (str_dec q k) v (s p q)) (s p q)

abbrev objects : Realm Store ℕ ℕ ℕ String
objects = record {
  engine = whole_engine;
  view = λ c v. undefined;
  realise = λ tree c. (3, c);
  global_object = λ c. 0;
  get = λ o k c. inr (c o k, c);
  set = λ o k v c. inr (write o k v c);
  call_function = λ f args c. inr (f, c);
  is_undefined = λ v. false;
  is_object = λ v. true;
  is_callable = λ v. true;
  is_promise = λ v. false;
  as_string = λ v. some "pi";
  debug = λ v. "value";
  run_jobs = λ c. (none, c);
  promise_state = λ v c. PromiseState.pending;
}

abbrev natives : Natives Store ℕ ℕ ℕ
natives = record {
  new_object = λ c. (9, c);
  build_function = λ f c. (9, c);
  register_global = λ k v c. inr c;
  new_pending = λ c. (9, c);
  enqueue = λ client method args promise c. c;
  resolve = λ p v c. inr c;
  reject = λ p v c. inr c;
  undefined_value = 9;
}

-- Every property of an object is the object that follows it.
abbrev start : Store
start o k = suc o

written : (o : ℕ) (k : String) (v : ℕ) (c : Store) → write o k v c o k ≡ v
written o k v c = ground (arith)

kept :
    (o : ℕ) (k : String) (v : ℕ) (c : Store) (p : ℕ) (q : String)
    → p ≢ o
    → write o k v c p q ≡ c p q
kept o k v c p q n = ground (arith, n)

register-get_function_example :
    (c' : Store) × (register objects natives (5 ∷ 3 ∷ []) start ≡ inr (9, c'))
    × (get_function objects "pi" c' ≡ ok (3, c'))
register-get_function_example =
    register-get_function objects natives (λ c o k v. c o k ≡ v) (λ c o k. o ≡ 2)
      (λ c o k v e. ap (λ w. inr (w, c)) e)
      (λ c o k v e.
        (write o k v c, refl, written o k v c, (λ p q w h n. kept o k v c p q n ∙ h), refl))
      (5 ∷ 3 ∷ []) 5 3 1 2 "pi" start refl refl refl refl refl refl refl refl refl refl
      (λ e. absurd (omega (arith, e))) (λ e. absurd (omega (arith, e))) refl
