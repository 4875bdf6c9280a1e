-- ===== src/LoadBalancer/Roster.antt =====
-- What the balancer promises of the nodes, with no list, index, circuit or counter: which addresses are
-- known, and for what reason each is out of the rotation.
use mathlib.Core.Option
use madrpc.Prelude.{
  ℕ, ◌≡◌, refl, ap, subst, ◌∙◌, ite, inl, inr, String, Bool, true, false, Option, none, some, List,
  [], ◌∷◌, arith, some_inj, contains, Distinct, Option-cases, if◌then◌else◌,
}
use madrpc.Prelude.Text.{str_dec}
use madrpc.Prelude.HashMap.{get, insert, alter, get-alter, get-insert, get-remove, get-Every}
use madrpc.Float.{F64}
use madrpc.Node
use madrpc.Node.{
  Node, CircuitBreakerConfig, DisableReason, manual, health_check, is_manual, is_health_check,
}
use madrpc.LoadBalancer.Health.{apply_status}
use madrpc.LoadBalancer.{
  LoadBalancer, collect_nodes, with_config, count_request, set_enabled, set_disabled, disable_node,
  enable_node, auto_disable_node, auto_enable_node, add_node, remove_node, update_health_status,
  check_circuit_timeouts,
}
use madrpc.LoadBalancer.Invariant.{IsSound, IsValid}
use madrpc.LoadBalancer.Timeouts.{get-check_timeouts}
use madrpc.LoadBalancer.Loop.{next_node_inv}
use madrpc.LoadBalancer.Manual.{apply_status-reason, check_timeout-reason}
use madrpc.LoadBalancer.History.{
  Call, selects, checks, disables, enables, auto_disables, auto_enables, adds, removes, reports,
  step, run, step-IsValid, with_config-IsValid,
}

-- None for an unknown address, and otherwise the reason for which it is disabled, if it is.
abbrev pub Entry : Type 0
Entry = Option (Option DisableReason)

abbrev pub is_active : Entry → Bool
is_active none = false
is_active (some none) = true
is_active (some (some reason)) = false

-- What a call does to the entry of its own address.
abbrev pub own_entry : Call → Entry → Entry
own_entry (selects now) x = x
own_entry (checks now) x = x
own_entry (disables b) x = Option.map (λ r. some manual) x
own_entry (enables b) x = Option.map (λ r. none) x
own_entry (auto_disables b) x = Option.map (λ r. if is_manual r then r else some health_check) x
own_entry (auto_enables b) x = Option.map (λ r. if is_health_check r then none else r) x
own_entry (adds b) none = some none
own_entry (adds b) (some r) = some r
own_entry (removes b) x = none
own_entry (reports b status now) x = x

abbrev pub address_of : Call → Option String
address_of (selects now) = none
address_of (checks now) = none
address_of (disables b) = some b
address_of (enables b) = some b
address_of (auto_disables b) = some b
address_of (auto_enables b) = some b
address_of (adds b) = some b
address_of (removes b) = some b
address_of (reports b status now) = some b

-- A call leaves the entries of all other addresses.
abbrev pub entry_after : Call → String → Entry → Entry
entry_after c a x = elim (address_of c) [ none ↦ x | some b ↦ ite (str_dec a b) (own_entry c x) x ]

unfoldable pub entry_after_all : List Call → String → Entry → Entry
entry_after_all [] a x = x
entry_after_all (c ∷ cs) a x = entry_after_all cs a (entry_after c a x)

abbrev pub entry_of : {F : F64} → LoadBalancer F → String → Entry
entry_of lb a = Option.map (λ (n : Node). n.disable_reason) (get str_dec a lb.nodes)

module _ {F : F64} (a : String) (lb : LoadBalancer F) where
  altered-entry :
      (b : String) (f : Node → Node) (g : Option DisableReason → Option DisableReason)
      → ((n : Node) → (f n).disable_reason ≡ g n.disable_reason)
      → entry_of (record lb { nodes = alter str_dec b f lb.nodes }) a
        ≡ ite (str_dec a b) (Option.map g (entry_of lb a)) (entry_of lb a)
  altered-entry b f g h = elim (Option-cases (get str_dec a lb.nodes)) [
    | inl e ↦ ground (arith, get-alter str_dec a b f lb.nodes)
    | inr (n, e) ↦ ground (arith, get-alter str_dec a b f lb.nodes, h n)
  ]

  disable-entry :
      (b : String) → entry_of (disable_node b lb).0 a ≡ entry_after (disables b) a (entry_of lb a)
  unfolding disable_node
  disable-entry b = ground (arith, get-alter str_dec a b (set_disabled manual) lb.nodes)

  enable-entry :
      (b : String) → entry_of (enable_node b lb).0 a ≡ entry_after (enables b) a (entry_of lb a)
  unfolding enable_node
  enable-entry b = ground (arith, get-alter str_dec a b set_enabled lb.nodes)

  auto_disable-entry :
      (b : String)
      → entry_of (auto_disable_node b lb).0 a ≡ entry_after (auto_disables b) a (entry_of lb a)
  unfolding auto_disable_node
  auto_disable-entry b = ground (arith, get-alter str_dec a b (set_disabled health_check) lb.nodes)

  auto_enable-entry :
      (b : String)
      → entry_of (auto_enable_node b lb).0 a ≡ entry_after (auto_enables b) a (entry_of lb a)
  unfolding auto_enable_node
  auto_enable-entry b = ground (arith, get-alter str_dec a b set_enabled lb.nodes)

  add-entry : (b : String) → entry_of (add_node b lb) a ≡ entry_after (adds b) a (entry_of lb a)
  unfolding add_node Node.new
  add-entry b = ground (arith, get-insert str_dec a b (Node.new b) lb.nodes)

  remove-entry :
      (b : String) → entry_of (remove_node b lb) a ≡ entry_after (removes b) a (entry_of lb a)
  unfolding remove_node
  remove-entry b = ground (arith, get-remove str_dec a b lb.nodes)

  checks-entry : (now : ℕ) → entry_of (check_circuit_timeouts lb now).0 a ≡ entry_of lb a
  unfolding check_circuit_timeouts
  checks-entry now = elim (Option-cases (get str_dec a lb.nodes)) [
    | inl e ↦ ground (arith, get-check_timeouts lb.circuit_config now a lb.nodes)
    | inr (n, e) ↦ ground (
      arith,
      get-check_timeouts lb.circuit_config now a lb.nodes,
      check_timeout-reason lb.circuit_config now n,
    )
  ]

-- A write that keeps the reason of every node keeps the entries.
kept-entry :
    {F : F64} (a b : String) (f : Node → Node) (lb : LoadBalancer F)
    → ((n : Node) → (f n).disable_reason ≡ n.disable_reason)
    → entry_of (record lb { nodes = alter str_dec b f lb.nodes }) a ≡ entry_of lb a
kept-entry a b f lb h = elim (Option-cases (get str_dec a lb.nodes)) [
  | inl e ↦ ground (arith, get-alter str_dec a b f lb.nodes)
  | inr (n, e) ↦ ground (arith, get-alter str_dec a b f lb.nodes, h n)
]

reports-entry :
    {F : F64} (a b : String) (lb : LoadBalancer F) (status : Node.HealthCheckStatus) (now : ℕ)
    → entry_of (update_health_status b lb status now) a ≡ entry_of lb a
unfolding update_health_status
reports-entry a b lb status now =
    kept-entry a b (apply_status lb.circuit_config status now) lb
      (apply_status-reason lb.circuit_config status now)

step-entry :
    {F : F64} (a : String) (lb lb' : LoadBalancer F) (c : Call)
    → step lb c ≡ some lb'
    → entry_of lb' a ≡ entry_after c a (entry_of lb a)
unfolding step
step-entry a lb lb' (selects now) e =
    let (r, lb1, e1, h1) =
      next_node_inv (λ l. entry_of l a ≡ entry_of lb a) now (λ l i p. p)
        (λ l b p. kept-entry a b (count_request now) l (λ n. refl) ∙ p) lb refl in
    subst (λ l. entry_of l a ≡ entry_of lb a) {x = lb1} {y = lb'} (some_inj (ground arith)) h1
step-entry a lb lb' (checks now) e =
    subst (λ l. entry_of l a ≡ entry_of lb a) (some_inj e) (checks-entry a lb now)
step-entry a lb lb' (disables b) e =
    subst (λ l. entry_of l a ≡ entry_after (disables b) a (entry_of lb a)) (some_inj e)
      (disable-entry a lb b)
step-entry a lb lb' (enables b) e =
    subst (λ l. entry_of l a ≡ entry_after (enables b) a (entry_of lb a)) (some_inj e)
      (enable-entry a lb b)
step-entry a lb lb' (auto_disables b) e =
    subst (λ l. entry_of l a ≡ entry_after (auto_disables b) a (entry_of lb a)) (some_inj e)
      (auto_disable-entry a lb b)
step-entry a lb lb' (auto_enables b) e =
    subst (λ l. entry_of l a ≡ entry_after (auto_enables b) a (entry_of lb a)) (some_inj e)
      (auto_enable-entry a lb b)
step-entry a lb lb' (adds b) e =
    subst (λ l. entry_of l a ≡ entry_after (adds b) a (entry_of lb a)) (some_inj e)
      (add-entry a lb b)
step-entry a lb lb' (removes b) e =
    subst (λ l. entry_of l a ≡ entry_after (removes b) a (entry_of lb a)) (some_inj e)
      (remove-entry a lb b)
step-entry a lb lb' (reports b status now) e =
    subst (λ l. entry_of l a ≡ entry_after (reports b status now) a (entry_of lb a)) (some_inj e)
      (reports-entry a b lb status now ∙ ground arith)

run-entries :
    {F : F64} (lb : LoadBalancer F) (cs : List Call)
    → IsValid lb
    → (lb' : LoadBalancer F) × (run lb cs ≡ some lb')
      × IsValid lb'
      × ((a : String) → entry_of lb' a ≡ entry_after_all cs a (entry_of lb a))
unfolding run entry_after_all
run-entries lb [] v = (lb, refl, v, λ a. refl)
run-entries lb (c ∷ cs) v =
    let (lb1, e, v1) = step-IsValid lb c v in
    let (lb2, e2, v2, h) = run-entries lb1 cs v1 in
    (lb2, rw (e, run) e2, v2, λ a. h a ∙ ap (entry_after_all cs a) (step-entry a lb lb1 c e))

-- The enabled list holds exactly the active addresses.
active-enabled :
    {F : F64} (a : String) (lb : LoadBalancer F)
    → IsValid lb
    → contains str_dec lb.enabled_nodes a ≡ is_active (entry_of lb a)
active-enabled a lb v = elim (Option-cases (get str_dec a lb.nodes)) [
  | inl e ↦ ground (arith, v.agree a)
  | inr (n, e) ↦
      ground (arith, v.agree a, (get-Every str_dec IsSound a n lb.nodes v.sound e).reasoned)
]

abbrev pub first_entry : List String → String → Entry
first_entry addrs a = if contains str_dec addrs a then some none else none

collect_nodes-entry :
    (m : List (String × Node)) (addrs : List String) (a : String)
    → Option.map (λ (n : Node). n.disable_reason) (get str_dec a (collect_nodes m addrs)) ≡ (
        if contains str_dec addrs a
        then some none
        else Option.map (λ (n : Node). n.disable_reason) (get str_dec a m))
unfolding collect_nodes Node.new
collect_nodes-entry m [] a = refl
collect_nodes-entry m (b ∷ addrs) a = ground (
  arith,
  collect_nodes-entry (insert str_dec b (Node.new b) m) addrs a,
  get-insert str_dec a b (Node.new b) m,
)

with_config-entry :
    {F : F64} (addrs : List String) (c : CircuitBreakerConfig F) (a : String)
    → entry_of (with_config addrs c) a ≡ first_entry addrs a
unfolding with_config get
with_config-entry addrs c a = collect_nodes-entry [] addrs a

-- From a balancer built of distinct addresses no sequence of calls panics, and the balancer
-- refines a roster that knows no list, index, circuit or counter: of each address the roster
-- after the calls says whether it is known and for what reason it is disabled, each call
-- changing the entry of its own address alone, and the enabled list holds exactly the addresses
-- that are known with no reason.
pub run-entry_after_all :
    {F : F64} (addrs : List String) (c : CircuitBreakerConfig F) (cs : List Call)
    → Distinct str_dec addrs
    → (lb : LoadBalancer F) × (run (with_config addrs c) cs ≡ some lb)
      × ((a : String)
          → (entry_of lb a ≡ entry_after_all cs a (first_entry addrs a))
            × (contains str_dec lb.enabled_nodes a
                ≡ is_active (entry_after_all cs a (first_entry addrs a))))
run-entry_after_all addrs c cs d =
    let (lb, done, v, h) = run-entries (with_config addrs c) cs (with_config-IsValid addrs c d) in
    let entries = λ (a : String). h a ∙ ap (entry_after_all cs a) (with_config-entry addrs c a) in
    (lb, done, λ a. (entries a, active-enabled a lb v ∙ ap is_active (entries a)))
