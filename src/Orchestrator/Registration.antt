-- ===== src/Orchestrator/Registration.antt =====
-- What `register_node` leaves behind, on both of its branches.
use text.Mathlib.Text.{starts_with}
use madrpc.Prelude.{
  suc, ◌≡◌, ◌≢◌, refl, ap, ◌∙◌, inl, inr, ◌⊎◌, String, Bool, true, false, not, ◌||◌, none, some,
  List, [], ◌∷◌, arith, ite, length, contains, Bool-cases, Option-cases, ltb,
}
use madrpc.Prelude.Text.{str_dec}
use madrpc.Prelude.HashMap.{get, insert, alter, is_some, get-insert, get-alter}
use madrpc.Float.{F64}
use madrpc.Protocol.{invalid_request, Result, ok, err}
use madrpc.Node
use madrpc.Node.{Node}
use madrpc.LoadBalancer.{LoadBalancer, add_node, enable_node, set_enabled, node_count}
use madrpc.LoadBalancer.Invariant.{IsValid, enabled_in, add_node-IsValid, enable_node-IsValid}
use madrpc.Builtin.{NodeRegistrationResponse}
use madrpc.Orchestrator.{register_node}

-- The URL has a scheme that is accepted.
abbrev pub accepted : String → Bool
accepted node_url = starts_with node_url "http://" || starts_with node_url "https://"

-- The node as it was, or a new one, back in the rotation.
abbrev pub registered : {F : F64} → String → LoadBalancer F → Node
registered node_url lb = elim (get str_dec node_url lb.nodes) [
  | none ↦ set_enabled (Node.new node_url)
  | some n ↦ set_enabled n
]

pub record Registered {F : F64} (node_url : String) (lb : LoadBalancer F)
    (r : LoadBalancer F × Result NodeRegistrationResponse) : Type 0 where
  pub valid : IsValid r.0
  pub stored : get str_dec node_url r.0.nodes ≡ some (registered node_url lb)
  pub listed : contains str_dec r.0.enabled_nodes node_url ≡ true
  pub kept : (a : String) → a ≢ node_url → get str_dec a r.0.nodes ≡ get str_dec a lb.nodes
  pub answer :
      r.1
      ≡ ok (record {
        registered_url = node_url;
        is_new_registration = not (is_some (get str_dec node_url lb.nodes));
      })

length-insert :
    (k : String) (v : Node) (m : List (String × Node))
    → get str_dec k m ≡ none
    → length (insert str_dec k v m) ≡ suc (length m)
unfolding get insert
length-insert k v [] e = refl
length-insert k v ((j, w) ∷ m) e = ground (arith, length-insert k v m)

length-alter :
    (k : String) (f : Node → Node) (m : List (String × Node))
    → length (alter str_dec k f m) ≡ length m
unfolding alter
length-alter k f [] = refl
length-alter k f ((j, w) ∷ m) = ground (arith, length-alter k f m)

module _ {F : F64} (url : String) (lb : LoadBalancer F) where
  abbrev after : LoadBalancer F
  after = (enable_node url (add_node url lb)).0

  nodes-after :
      (base : List (String × Node))
      → (add_node url lb).nodes ≡ base
      → is_some (get str_dec url base) ≡ true
      → after.nodes ≡ alter str_dec url set_enabled base
  unfolding enable_node
  nodes-after base e h = ground arith

  added_new :
      get str_dec url lb.nodes ≡ none
      → (add_node url lb).nodes ≡ insert str_dec url (Node.new url) lb.nodes
  unfolding add_node
  added_new e = ground arith

  added_again : (n : Node) → get str_dec url lb.nodes ≡ some n → (add_node url lb).nodes ≡ lb.nodes
  unfolding add_node
  added_again n e = ground arith

  get-after :
      (a : String)
      → get str_dec a after.nodes
        ≡ ite (str_dec a url) (some (registered url lb)) (get str_dec a lb.nodes)
  get-after a = elim (Option-cases (get str_dec url lb.nodes)) [
    | inl e ↦
        let base = insert str_dec url (Node.new url) lb.nodes in
        let there : is_some (get str_dec url base) ≡ true =
          ground (arith, get-insert str_dec url url (Node.new url) lb.nodes) in
        rw (nodes-after base (added_new e) there) (
          ground (
            arith,
            get-alter str_dec a url set_enabled base,
            get-insert str_dec a url (Node.new url) lb.nodes,
          ))
    | inr (n, e) ↦
        rw (nodes-after lb.nodes (added_again n e) (ground arith))
          (ground (arith, get-alter str_dec a url set_enabled lb.nodes))
  ]

  length-after : ltb (node_count lb) (node_count after) ≡ not (is_some (get str_dec url lb.nodes))
  unfolding node_count
  length-after = elim (Option-cases (get str_dec url lb.nodes)) [
    | inl e ↦
        let base = insert str_dec url (Node.new url) lb.nodes in
        let there : is_some (get str_dec url base) ≡ true =
          ground (arith, get-insert str_dec url url (Node.new url) lb.nodes) in
        rw (nodes-after base (added_new e) there) (
          ground
            (arith, length-alter url set_enabled base, length-insert url (Node.new url) lb.nodes e))
    | inr (n, e) ↦
        rw (nodes-after lb.nodes (added_again n e) (ground arith))
          (ground (arith, length-alter url set_enabled lb.nodes))
  ]

  now_enabled : enabled_in after.nodes url ≡ true
  now_enabled = ground (arith, get-after url)

  registers :
      IsValid lb
      → Registered url lb (
        after,
        ok (record {
          registered_url = url;
          is_new_registration = ltb (node_count lb) (node_count after);
        }),
      )
  registers v =
      let valid = enable_node-IsValid url (add_node url lb) (add_node-IsValid url lb v) in
      record {
        valid = valid;
        stored = ground (arith, get-after url);
        listed = valid.agree url ∙ now_enabled;
        kept = λ a ne. ground (arith, get-after a);
        answer =
            ap (λ b. ok (record { registered_url = url; is_new_registration = b })) length-after;
      }

  -- A URL without an accepted scheme is refused and nothing changes. With one, a valid
  -- balancer stays valid, the node is in the map, enabled and with no reason, whatever it was
  -- disabled for, the enabled list holds it, every other node is unchanged, and the answer
  -- says whether the node was unknown before.
  pub register_node-Registered :
      IsValid lb
      → ((accepted url ≡ false)
          × (register_node url lb ≡ (
            lb,
            err (invalid_request "Invalid node URL: must start with http:// or https://"),
          )))
        ⊎ ((accepted url ≡ true) × Registered url lb (register_node url lb))
  unfolding register_node
  register_node-Registered v = elim (Bool-cases (starts_with url "http://")) [
    | inl p ↦ inr (rw p refl, rw p (registers v))
    | inr p ↦ elim (Bool-cases (starts_with url "https://")) [
      | inl q ↦ inr (rw (p, q) refl, rw (p, q) (registers v))
      | inr q ↦ inl (rw (p, q) refl, rw (p, q) refl)
    ]
  ]
