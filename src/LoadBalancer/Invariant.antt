-- ===== src/LoadBalancer/Invariant.antt =====
-- What is asked of a load balancer between two calls: how the list of enabled addresses and the map of
-- nodes, and the fields of one node, belong together; and each operation against it.
use madrpc.Prelude.{
  ℕ, ◌≡◌, String, Bool, false, not, none, some, List, ◌∷◌, [], ◌++◌, arith, contains, retain_ne,
  Distinct, contains-append, contains-retain_ne, retain_ne-Distinct, append-Distinct, inl, inr,
  Bool-cases, Option-cases,
}
use madrpc.Prelude.Text.{str_dec}
use madrpc.Prelude.HashMap.{
  keys, get, insert, remove, alter, is_some, Every, get-insert, get-remove, get-alter, keys-alter,
  insert-Distinct, remove-Distinct, insert-Every, remove-Every, alter-Every,
}
use madrpc.Float.{F64}
use madrpc.Node.{
  Node, DisableReason, manual, health_check, is_manual, is_health_check, is_open,
  should_attempt_half_open, try_transition_to_half_open,
}
use madrpc.Node
use madrpc.LoadBalancer.Health.{apply_status}
use madrpc.LoadBalancer.{
  LoadBalancer, is_half_open, push_absent, set_disabled, set_enabled, disabled_as, enabled_again,
  disable_node, enable_node, auto_disable_node, auto_enable_node, add_node, remove_node,
  update_health_status, check_timeout,
}

-- A node stands under its own address; it has a reason exactly if it is disabled, an opening time
-- exactly if its circuit is open, and a claimed transition exactly if its circuit is half-open.
pub record IsSound (addr : String) (n : Node) : Type 0 where
  pub addressed : n.addr ≡ addr
  pub reasoned : is_some n.disable_reason ≡ not n.enabled
  pub timed : is_some n.circuit_opened_at ≡ is_open n.circuit_state
  pub claimed : n.half_open_attempted ≡ is_half_open n.circuit_state

-- The node is in the map and enabled.
abbrev pub enabled_in : List (String × Node) → String → Bool
enabled_in nodes addr = elim (get str_dec addr nodes) [ none ↦ false | some n ↦ n.enabled ]

pub record IsValid {F : F64} (lb : LoadBalancer F) : Type 0 where
  pub distinct_nodes : Distinct str_dec (keys lb.nodes)
  pub distinct_enabled : Distinct str_dec lb.enabled_nodes
  pub agree : (a : String) → contains str_dec lb.enabled_nodes a ≡ enabled_in lb.nodes a
  pub sound : Every str_dec IsSound lb.nodes

-- The operations on one node keep it sound.
pub new-IsSound : (addr : String) → IsSound addr (Node.new addr)
unfolding Node.new
new-IsSound addr = ground arith

pub apply_status-IsSound :
    {F : F64} (c : Node.CircuitBreakerConfig F) (status : Node.HealthCheckStatus) (now : ℕ)
    (addr : String) (n : Node)
    → IsSound addr n
    → IsSound addr (apply_status c status now n)
unfolding apply_status
apply_status-IsSound c Node.healthy now addr n h = ground arith
apply_status-IsSound c (Node.unhealthy msg) now addr n h = ground arith

pub apply_status-enabled :
    {F : F64} (c : Node.CircuitBreakerConfig F) (status : Node.HealthCheckStatus) (now : ℕ)
    (n : Node)
    → (apply_status c status now n).enabled ≡ n.enabled
unfolding apply_status
apply_status-enabled c Node.healthy now n = ground arith
apply_status-enabled c (Node.unhealthy msg) now n = ground arith

pub check_timeout-IsSound :
    {F : F64} (c : Node.CircuitBreakerConfig F) (now : ℕ) (addr : String) (n : Node)
    → IsSound addr n
    → IsSound addr (check_timeout c now n).0
unfolding check_timeout try_transition_to_half_open
check_timeout-IsSound c now addr n h = ground arith

pub check_timeout-enabled :
    {F : F64} (c : Node.CircuitBreakerConfig F) (now : ℕ) (n : Node)
    → (check_timeout c now n).0.enabled ≡ n.enabled
unfolding check_timeout try_transition_to_half_open
check_timeout-enabled c now n = ground arith

-- Each change of the enabled list against the change of the map.
abbrev Agree : List (String × Node) → List String → Type 0
Agree m ys = (a : String) → contains str_dec ys a ≡ enabled_in m a

module _ (addr : String) (nodes : List (String × Node)) (xs : List String)
    (h : Agree nodes xs) where
  keep-Agree :
      (f : Node → Node)
      → ((n : Node) → (f n).enabled ≡ n.enabled)
      → Agree (alter str_dec addr f nodes) xs
  keep-Agree f keeps a = elim (Option-cases (get str_dec a nodes)) [
    | inl e ↦ ground (arith, get-alter str_dec a addr f nodes, h a)
    | inr (n, e) ↦ ground (arith, get-alter str_dec a addr f nodes, h a, keeps n)
  ]

  disable-Agree :
      (reason : DisableReason)
      → Agree (alter str_dec addr (set_disabled reason) nodes) (retain_ne str_dec addr xs)
  disable-Agree reason a = ground (
    arith,
    get-alter str_dec a addr (set_disabled reason) nodes,
    contains-retain_ne str_dec addr xs a,
    h a,
  )

  enable-Agree :
      (n : Node)
      → get str_dec addr nodes ≡ some n
      → Agree (alter str_dec addr set_enabled nodes) (push_absent addr xs)
  enable-Agree n e a = ground (
    arith,
    get-alter str_dec a addr set_enabled nodes,
    contains-append str_dec xs (addr ∷ []) a,
    h a,
    h addr,
  )

  add-Agree : Agree (insert str_dec addr (Node.new addr) nodes) (xs ++ addr ∷ [])
  unfolding Node.new
  add-Agree a = ground (
    arith,
    get-insert str_dec a addr (Node.new addr) nodes,
    contains-append str_dec xs (addr ∷ []) a,
    h a,
  )

  remove-Agree : Agree (remove str_dec addr nodes) (retain_ne str_dec addr xs)
  remove-Agree a =
      ground (arith, get-remove str_dec a addr nodes, contains-retain_ne str_dec addr xs a, h a)

push_absent-Distinct :
    (addr : String) (xs : List String)
    → Distinct str_dec xs
    → Distinct str_dec (push_absent addr xs)
push_absent-Distinct addr xs d = elim (Bool-cases (contains str_dec xs addr)) [
  | inl e ↦ rw e d
  | inr e ↦ rw e (append-Distinct str_dec xs addr d e)
]

-- A write to one node that keeps it enabled or disabled keeps the balancer valid.
pub alter-IsValid :
    {F : F64} (addr : String) (f : Node → Node) (lb : LoadBalancer F)
    → ((n : Node) → (f n).enabled ≡ n.enabled)
    → ((n : Node) → IsSound addr n → IsSound addr (f n))
    → IsValid lb
    → IsValid (record lb { nodes = alter str_dec addr f lb.nodes })
alter-IsValid addr f lb keeps sound v = record {
  distinct_nodes = rw (keys-alter str_dec addr f lb.nodes) v.distinct_nodes;
  distinct_enabled = v.distinct_enabled;
  agree = keep-Agree addr lb.nodes lb.enabled_nodes v.agree f keeps;
  sound = alter-Every str_dec IsSound addr f lb.nodes sound v.sound;
}

module _ {F : F64} (addr : String) (lb : LoadBalancer F) (v : IsValid lb) where
  disabled_as-IsValid : (reason : DisableReason) → IsValid (disabled_as addr lb reason)
  disabled_as-IsValid reason = record {
    distinct_nodes = rw (keys-alter str_dec addr (set_disabled reason) lb.nodes) v.distinct_nodes;
    distinct_enabled = retain_ne-Distinct str_dec addr lb.enabled_nodes v.distinct_enabled;
    agree = disable-Agree addr lb.nodes lb.enabled_nodes v.agree reason;
    sound =
        alter-Every str_dec IsSound addr (set_disabled reason) lb.nodes (λ n s. ground arith)
          v.sound;
  }

  enabled_again-IsValid :
      (n : Node) → get str_dec addr lb.nodes ≡ some n → IsValid (enabled_again addr lb)
  enabled_again-IsValid n e = record {
    distinct_nodes = rw (keys-alter str_dec addr set_enabled lb.nodes) v.distinct_nodes;
    distinct_enabled = push_absent-Distinct addr lb.enabled_nodes v.distinct_enabled;
    agree = enable-Agree addr lb.nodes lb.enabled_nodes v.agree n e;
    sound = alter-Every str_dec IsSound addr set_enabled lb.nodes (λ n s. ground arith) v.sound;
  }

  pub disable_node-IsValid : IsValid (disable_node addr lb).0
  unfolding disable_node
  disable_node-IsValid = elim (Option-cases (get str_dec addr lb.nodes)) [
    | inl e ↦ rw (e, disable_node) v
    | inr (n, e) ↦ rw (e, disable_node) (disabled_as-IsValid manual)
  ]

  pub enable_node-IsValid : IsValid (enable_node addr lb).0
  unfolding enable_node
  enable_node-IsValid = elim (Option-cases (get str_dec addr lb.nodes)) [
    | inl e ↦ rw (e, enable_node) v
    | inr (n, e) ↦ rw (e, enable_node) (enabled_again-IsValid n e)
  ]

  pub auto_disable_node-IsValid : IsValid (auto_disable_node addr lb).0
  unfolding auto_disable_node
  auto_disable_node-IsValid = elim (Option-cases (get str_dec addr lb.nodes)) [
    | inl e ↦ rw (e, auto_disable_node) v
    | inr (n, e) ↦
        rw (e, auto_disable_node)
          (elim (Bool-cases (is_manual n.disable_reason)) [
            | inl m ↦ rw m v
            | inr m ↦ rw m (disabled_as-IsValid health_check)
          ])
  ]

  pub auto_enable_node-IsValid : IsValid (auto_enable_node addr lb).0
  unfolding auto_enable_node
  auto_enable_node-IsValid = elim (Option-cases (get str_dec addr lb.nodes)) [
    | inl e ↦ rw (e, auto_enable_node) v
    | inr (n, e) ↦
        rw (e, auto_enable_node)
          (elim (Bool-cases (is_health_check n.disable_reason)) [
            | inl m ↦ rw m (enabled_again-IsValid n e)
            | inr m ↦ rw m v
          ])
  ]

  pub add_node-IsValid : IsValid (add_node addr lb)
  unfolding add_node
  add_node-IsValid = elim (Option-cases (get str_dec addr lb.nodes)) [
    | inl e ↦
        rw (e, add_node)
          (record {
            distinct_nodes = insert-Distinct str_dec addr (Node.new addr) lb.nodes v.distinct_nodes;
            distinct_enabled =
                append-Distinct str_dec lb.enabled_nodes addr v.distinct_enabled
                  (ground (arith, v.agree addr));
            agree = add-Agree addr lb.nodes lb.enabled_nodes v.agree;
            sound = insert-Every str_dec IsSound addr _ lb.nodes (new-IsSound addr) v.sound;
          })
    | inr (n, e) ↦ rw (e, add_node) v
  ]

  pub remove_node-IsValid : IsValid (remove_node addr lb)
  unfolding remove_node
  remove_node-IsValid = record {
    distinct_nodes = remove-Distinct str_dec addr lb.nodes v.distinct_nodes;
    distinct_enabled = retain_ne-Distinct str_dec addr lb.enabled_nodes v.distinct_enabled;
    agree = remove-Agree addr lb.nodes lb.enabled_nodes v.agree;
    sound = remove-Every str_dec IsSound addr lb.nodes v.sound;
  }

  pub update_health_status-IsValid :
      (status : Node.HealthCheckStatus) (now : ℕ)
      → IsValid (update_health_status addr lb status now)
  unfolding update_health_status
  update_health_status-IsValid status now =
      alter-IsValid addr _ lb (apply_status-enabled lb.circuit_config status now)
        (apply_status-IsSound lb.circuit_config status now addr) v
