-- ===== src/LoadBalancer/Loop.antt =====
-- The loop of `next_node` under an invariant of the balancer.
use native.Mathlib.Nat.{mod-lt}
use madrpc.Prelude.{
  ℕ, zero, suc, ◌%◌, ◌<◌, ◌≡◌, refl, inl, inr, ◌⊎◌, String, Option, none, some, List, [], ◌∷◌,
  arith, length, get_elem?-total, Bool-cases,
}
use madrpc.Prelude.Text.{str_dec}
use madrpc.Prelude.HashMap.{alter}
use madrpc.Float.{F64}
use madrpc.LoadBalancer.{LoadBalancer, selectable, count_request, next_index, scan, next_node}

-- The result is no panic, and leaves a balancer with `P`.
abbrev pub Ends :
    {F : F64} → (LoadBalancer F → Type 0) → Option (Option String × LoadBalancer F) → Type 0
Ends {F} P r = (a : Option String) × (lb : LoadBalancer F) × (r ≡ some (a, lb)) × P lb

module _ {F : F64} (P : LoadBalancer F → Type 0) (now : ℕ)
    (moved : (lb : LoadBalancer F) (i : ℕ) → P lb → P (record lb { round_robin_index = i }))
    (counted : (lb : LoadBalancer F) (addr : String)
      → P lb
      → P (record lb { nodes = alter str_dec addr (count_request now) lb.nodes })) where
  scan_inv :
      (rounds : ℕ) (lb : LoadBalancer F)
      → (rounds ≡ 0) ⊎ (0 < length lb.enabled_nodes)
      → P lb
      → Ends P (scan rounds now lb)
  unfolding scan
  scan_inv zero lb some_ p = (none, lb, refl, p)
  scan_inv (suc rounds) lb some_ p =
      let pos : 0 < length lb.enabled_nodes = omega arith in
      let i = next_index lb.round_robin_index (length lb.enabled_nodes) in
      let lb' = record lb { round_robin_index = i } in
      let (addr, at) =
        get_elem?-total lb.enabled_nodes (lb.round_robin_index % length lb.enabled_nodes)
          (mod-lt _ pos) in
      let rest = scan_inv rounds lb' (inr pos) (moved lb i p) in
      rw (at, scan)
        (elim (Bool-cases (selectable lb.nodes addr)) [
          | inl fit ↦ rw fit (
            some addr,
            record lb' { nodes = alter str_dec addr (count_request now) lb.nodes },
            refl,
            counted lb' addr (moved lb i p),
          )
          | inr unfit ↦ rw unfit rest
        ])

  pub next_node_inv : (lb : LoadBalancer F) → P lb → Ends P (next_node now lb)
  unfolding next_node
  next_node_inv lb p = scan_inv (length lb.enabled_nodes) lb (nonempty_or_done lb.enabled_nodes) p
    where
      nonempty_or_done : (xs : List String) → (length xs ≡ 0) ⊎ (0 < length xs)
      nonempty_or_done [] = inl refl
      nonempty_or_done (x ∷ xs) = inr (omega arith)
