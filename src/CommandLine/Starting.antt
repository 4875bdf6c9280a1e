-- ===== src/CommandLine/Starting.antt =====
-- A node that a command starts: what holds where it has registered, and where it serves.
use madrpc.Prelude.{
  ℕ, ◌≤◌, ◌<◌, ◌≡◌, ◌⊎◌, inl, inr, refl, sym, ap, subst, ◌∙◌, String, Bool, true, false, Option,
  none, some, arith, if◌then◌else◌,
}
use madrpc.Protocol.{MadrpcError, Result, ok, err, display}
use madrpc.Server.{ResourceLimits, validate_limits}
use madrpc.Server.Registration.{Registering, register_with_orchestrator-Attempted}
use madrpc.Server.Construction.{
  Node, Host, make_node, check_path, load, connect, with_client_made, with_resource_limits,
  with_orchestrator_and_resource_limits,
}
use madrpc.CommandLine.{
  is_http_url, validate_http_url, NodeArgs, Settings, Started, Network, failed, serve, settings_of,
  limits_of, public_url_of, client_answers, register_client, register_made, registration,
  after_result, after_registration, register_and_serve, run_made_node, run_checked_node,
  run_node_with, run_node,
}

-- What holds of the value, if there is one.
abbrev pub OnSome : {A : Type 0} → (A → Type 0) → Option A → Type 0
OnSome P none = Unit
OnSome P (some a) = P a

module _ {F Addr V : Type 0} (H : Host) (W : Network Addr V) (args : NodeArgs F) where
  -- One of at most five calls to the orchestrator was answered, and every call before it failed.
  abbrev pub IsTaken : String → String → Type 0
  IsTaken o u =
      (k : ℕ) × (k ≤ 5)
      × ((v : V) × (W.answer o u k ≡ ok v))
      × ((i : ℕ) → 0 < i → i < k → (e : MadrpcError) × (W.answer o u i ≡ err e))

  -- An orchestrator and a public URL: both have a scheme of HTTP, the limits are in range, and the
  -- orchestrator took the registration.
  abbrev pub DueRegistration : String × String → Type 0
  DueRegistration (o, u) =
      (args.orchestrator ≡ some o)
      × (is_http_url o ≡ true)
      × (u ≡ public_url_of H W args)
      × (is_http_url u ≡ true)
      × (validate_limits H.show (limits_of H W args) ≡ none)
      × IsTaken o u

  -- Where a registration was made, it is one that was checked.
  abbrev pub RegistersChecked : Started F Addr Node → Type 0
  RegistersChecked s = OnSome DueRegistration s.registered

  -- The orchestrator that a node registers with, and its public URL.
  abbrev pub due : Option String → Option (String × String)
  due none = none
  due (some o) = some (o, public_url_of H W args)

  -- A node with the script, the client and the limits of the command.
  abbrev pub IsMade : Node → Type 0
  IsMade n =
      (n.script_path ≡ args.script)
      × (H.read_to_string args.script ≡ inr n.script_source)
      × (n.orchestrator_client ≡ args.orchestrator)
      × (n.resource_limits ≡ limits_of H W args)
      × (validate_limits H.show n.resource_limits ≡ none)

  -- A server with its settings and its node: the address is the parsed one, the settings and the node
  -- are those of the command, and the registration that is due has been made.
  abbrev pub Serves : Started F Addr Node → Addr × Settings F × Node → Type 0
  Serves s (addr, settings, n) =
      (W.parse_addr args.bind ≡ inr addr)
      × (settings ≡ settings_of H W args)
      × IsMade n
      × (s.registered ≡ due args.orchestrator)

  abbrev url : String
  url = public_url_of H W args

  abbrev limits : ResourceLimits
  limits = limits_of H W args

  -- Why no server runs: a URL without a scheme of HTTP, a node that cannot be built, five calls of the
  -- registration that fail, or an address that is none.
  pub data Refusal : Type 0 where
    orchestrator_refused :
        (o : String) → args.orchestrator ≡ some o → is_http_url o ≡ false → Refusal
    node_refused :
        (e : MadrpcError) → make_node H args.script args.orchestrator limits ≡ err e → Refusal
    url_refused : (o : String) → args.orchestrator ≡ some o → is_http_url url ≡ false → Refusal
    unregistered :
        (o : String)
        → args.orchestrator ≡ some o
        → ((k : ℕ) → 0 < k → k ≤ 5 → (e : MadrpcError) × (W.answer o url k ≡ err e))
        → Refusal
    address_refused : (e : String) → W.parse_addr args.bind ≡ inl e → Refusal

  -- What runs is right, or nothing runs, for one of the reasons and with an error.
  abbrev pub Ran : Started F Addr Node → Option (Addr × Settings F × Node) → Type 0
  Ran s none = Refusal × (e : String) × (s.error ≡ some e)
  Ran s (some x) = Serves s x

  abbrev pub ServesRegistered : Started F Addr Node → Type 0
  ServesRegistered s = Ran s s.served

  -- The command ends, and all that it has done is right.
  abbrev IsRight : Started F Addr Node → Type 0
  IsRight s = RegistersChecked s × ServesRegistered s

  abbrev EndsRight : Option (Started F Addr Node) → Type 0
  EndsRight o = (s : Started F Addr Node) × (o ≡ some s) × RegistersChecked s × ServesRegistered s

  failed-EndsRight : (e : String) → Refusal → EndsRight (some (failed H W e))
  failed-EndsRight e why = (failed H W e, refl, tt, (why, e, refl))

  unchecked_url : (u d e : String) → validate_http_url u d ≡ inl e → is_http_url u ≡ false
  unfolding validate_http_url
  unchecked_url u d e f = ground (arith, f)

  checked_url : (u d : String) (x : Unit {0}) → validate_http_url u d ≡ inr x → is_http_url u ≡ true
  unfolding validate_http_url
  checked_url u d x e = ground (arith, e)

  made_with_client : (r : Result {0} Unit) (m n : Node) → with_client_made H r m ≡ ok n → m ≡ n
  made_with_client (ok u) m n e = cc
  made_with_client (err x) m n e = absurd cc

  connected : (addr : Option String) (m n : Node) → connect H addr m ≡ ok n → m ≡ n
  connected none m n e = cc
  connected (some a) m n e = made_with_client (H.new_client a) m n e

  loaded :
      (addr : Option String) (n : Node) (r : String ⊎ String)
      → H.read_to_string args.script ≡ r
      → args.orchestrator ≡ addr
      → validate_limits H.show limits ≡ none
      → load H args.script addr limits r ≡ ok n
      → IsMade n
  loaded addr n (inl x) read a l e = absurd cc
  loaded addr n (inr source) read a l e =
      subst IsMade
        (connected addr
          (record {
            script_path = args.script;
            script_source = source;
            orchestrator_client = addr;
            resource_limits = limits;
          })
          n e)
        (refl, read, sym a, refl, l)

  existing :
      {r x : Result Node} (n : Node) (b : Bool)
      → (y : MadrpcError) → x ≡ err y
      → (if b then r else x) ≡ ok n
      → r ≡ ok n
  existing n true y f e = e
  existing n false y f e = absurd cc

  checked_path :
      (addr : Option String) (n : Node) (o : Option String)
      → validate_limits H.show limits ≡ o
      → args.orchestrator ≡ addr
      → check_path H args.script addr limits o ≡ ok n
      → IsMade n
  checked_path addr n (some x) l a e = absurd cc
  checked_path addr n none l a e =
      loaded addr n _ refl a l (existing n (H.exists args.script) _ refl e)

  -- A node of the constructors is one of the command.
  make_node-IsMade :
      (addr : Option String) (n : Node)
      → args.orchestrator ≡ addr
      → make_node H args.script addr limits ≡ ok n
      → IsMade n
  make_node-IsMade addr n a e = checked_path addr n _ refl a e

  serve-IsRight :
      (before : Option (String × String)) (n : Node) (r : String ⊎ Addr)
      → W.parse_addr args.bind ≡ r
      → OnSome DueRegistration before
      → before ≡ due args.orchestrator
      → IsMade n
      → IsRight (serve H W before args.bind (settings_of H W args) n r)
  serve-IsRight before n (inl x) e checked same made = (checked, (address_refused x e, _, refl))
  serve-IsRight before n (inr a) e checked same made = (checked, (e, refl, made, same))

  below_or_last : (k n : ℕ) → k ≤ n → (k < n) ⊎ (k ≡ n)
  below_or_last k n h = ground (arith, h)

  abbrev AllFail : String → Type 0
  AllFail o = (k : ℕ) → 0 < k → k ≤ 5 → (e : MadrpcError) × (W.answer o url k ≡ err e)

  -- The registration with the client's orchestrator ends: it was taken, or it has an error.
  attempted :
      (o : String)
      → (r : Registering) × (register_client H W (some o) url ≡ some r)
        × (((r.result ≡ ok tt) × IsTaken o url)
            ⊎ (((e : MadrpcError) × (r.result ≡ err e)) × AllFail o))
  attempted o =
      let (r, done, a) =
        register_with_orchestrator-Attempted H.show (client_answers H W (some o) url) 5
          (omega arith) in
      elim (a.outcome) [
        | inl (v, answered, result) ↦ (
          r,
          done,
          inl (result, (r.attempts, a.at_most, (v, answered), λ i h k. a.failures i h k)),
        )
        | inr (e, answered, last, result) ↦ (
          r,
          done,
          inr (
            (_, result),
            λ k h l. elim (below_or_last k r.attempts (omega (arith, l, last))) [
              | inl less ↦ a.failures k h less
              | inr same ↦ (e, ap (client_answers H W (some o) url) same ∙ answered)
            ],
          ),
        )
      ]

  after_result-IsRight :
      (o : String) (n : Node) (x : Result {0} Unit)
      → ((x ≡ ok tt) × IsTaken o url) ⊎ (((e : MadrpcError) × (x ≡ err e)) × AllFail o)
      → args.orchestrator ≡ some o
      → is_http_url o ≡ true
      → is_http_url url ≡ true
      → IsMade n
      → IsRight (after_result H W args n url x)
  after_result-IsRight o n (err e) (inl (f, taken)) a b c made = absurd cc
  after_result-IsRight o n (err e) (inr (f, all)) a b c made = (tt, (unregistered o a all, _, refl))
  after_result-IsRight o n (ok u) (inr ((e, f), all)) a b c made = absurd cc
  after_result-IsRight o n (ok u) (inl (f, taken)) a b c (p, q, client, l, valid) =
      let to : registration n.orchestrator_client url ≡ some (o, url) =
        ap (λ k. registration k url) (client ∙ a) in
      let in_range = subst (λ k. validate_limits H.show k ≡ none) l valid in
      serve-IsRight _ n _ refl
        (subst (OnSome DueRegistration) (sym to) (a, b, refl, c, in_range, taken))
        (to ∙ sym (ap due a)) (p, q, client, l, valid)

  register_and_serve-EndsRight :
      (o : String) (n : Node) (v : String ⊎ Unit {0})
      → validate_http_url url "public URL" ≡ v
      → args.orchestrator ≡ some o
      → is_http_url o ≡ true
      → IsMade n
      → EndsRight (register_and_serve H W args n url v)
  register_and_serve-EndsRight o n (inl x) v a b made =
      failed-EndsRight x (url_refused o a (unchecked_url url _ x v))
  register_and_serve-EndsRight o n (inr u) v a b made =
      let (r, done, taken) = attempted o in
      let asked : register_made H W n url ≡ some r =
        ap (λ k. register_client H W k url) (made.2 ∙ a) ∙ done in
      let (checked, serving) =
        after_result-IsRight o n r.result taken a b (checked_url url _ u v) made in
      (
        after_result H W args n url r.result,
        ap (after_registration H W args n url) asked,
        checked,
        serving,
      )

  run_made_node-EndsRight :
      (addr : Option String) (m : Result Node)
      → make_node H args.script addr limits ≡ m
      → args.orchestrator ≡ addr
      → OnSome (λ o. is_http_url o ≡ true) addr
      → EndsRight (run_made_node H W args addr m)
  run_made_node-EndsRight addr (err x) m a h =
      failed-EndsRight (display H.show x)
        (node_refused x (ap (λ k. make_node H args.script k limits) a ∙ m))
  run_made_node-EndsRight none (ok n) m a h =
      let (checked, serving) =
        serve-IsRight none n _ refl tt (sym (ap due a)) (make_node-IsMade none n a m) in
      (_, refl, checked, serving)
  run_made_node-EndsRight (some o) (ok n) m a h =
      register_and_serve-EndsRight o n _ refl a h (make_node-IsMade (some o) n a m)

  run_checked_node-EndsRight :
      (o : String) (r : String ⊎ Unit {0})
      → validate_http_url o "orchestrator address" ≡ r
      → args.orchestrator ≡ some o
      → EndsRight (run_checked_node H W args o r)
  unfolding with_orchestrator_and_resource_limits
  run_checked_node-EndsRight o (inl x) v a =
      failed-EndsRight x (orchestrator_refused o a (unchecked_url o _ x v))
  run_checked_node-EndsRight o (inr u) v a =
      run_made_node-EndsRight (some o) _ refl a (checked_url o _ u v)

  run_node_with-EndsRight :
      (o : Option String) → args.orchestrator ≡ o → EndsRight (run_node_with H W args o)
  unfolding with_resource_limits
  run_node_with-EndsRight none a = run_made_node-EndsRight none _ refl a tt
  run_node_with-EndsRight (some o) a = run_checked_node-EndsRight o _ refl a

  -- A command for a node ends, however the registration goes, with what is right: a
  -- registration that was made went to the orchestrator of the command with the public URL of
  -- the flag, the variable or the bind address, both URLs have a scheme of HTTP, the limits
  -- are in range, and one of at most five calls of the client of the node that was built was
  -- answered, after only failures. A server that runs does so at the parsed address with the
  -- settings of the command, for a node with the script, the client and the limits of the
  -- command, and only after the registration that the command asks for. Where no server runs
  -- there is an error, and a reason: an orchestrator or a public URL without a scheme of HTTP,
  -- a node that cannot be built, five calls of the registration that fail, or an address that
  -- is none.
  pub run_node-Started :
      (s : Started F Addr Node) × (run_node H W args ≡ some s)
      × RegistersChecked s
      × ServesRegistered s
  unfolding run_node
  run_node-Started = run_node_with-EndsRight args.orchestrator refl
