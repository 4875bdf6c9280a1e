-- ===== src/LoadBalancer/RoundRobin.antt =====
-- `next_node` called again and again while every enabled node can be selected.
use native.Mathlib.Nat.{mod-lt, mod-eq_of_lt, mod-add-mod, mod_self}
use mathlib.Core.Path.{ap₂}
use mathlib.Core.List.{map-append, map-map}
use madrpc.Prelude.{
  ℕ, zero, suc, ◌+◌, ◌-◌, ◌%◌, ◌^◌, ◌≤◌, ◌<◌, ◌≡◌, refl, sym, ap, ◌∙◌, String, true, Option, none,
  some, List, [], ◌∷◌, ◌++◌, map, arith, length, get_elem?, take, drop, get_elem?-total, contains,
  get_elem?-contains,
}
use madrpc.Prelude.Text.{str_dec}
use madrpc.Prelude.HashMap.{alter, get-alter}
use madrpc.Float.{F64}
use madrpc.Node.{Node}
use madrpc.LoadBalancer.{LoadBalancer, selectable, count_request, next_node}
use madrpc.LoadBalancer.Selection.{picked, next_node_first}

-- The answers of `calls` calls of `next_node`, the clock read at `now` in each.
pub answers : {F : F64} → ℕ → ℕ → LoadBalancer F → List (Option (Option String))
answers zero now lb = []
answers (suc calls) now lb = elim (next_node now lb) [
  | none ↦ none ∷ []
  | some (r, lb') ↦ some r ∷ answers calls now lb'
]

-- Every enabled address has a node whose circuit is not open.
abbrev pub AllSelectable : {F : F64} → LoadBalancer F → Type 0
AllSelectable lb =
    (a : String) → contains str_dec lb.enabled_nodes a ≡ true → selectable lb.nodes a ≡ true

-- Counting a request leaves the circuits alone.
pub selectable-count_request :
    (a addr : String) (now : ℕ) (nodes : List (String × Node))
    → selectable (alter str_dec addr (count_request now) nodes) a ≡ selectable nodes a
unfolding selectable
selectable-count_request a addr now nodes =
    ground (arith, get-alter str_dec a addr (count_request now) nodes)

-- The entries from `i` on, `r` of them, round the list and straight on.
cyclic : List String → ℕ → ℕ → List (Option String)
cyclic xs i zero = []
cyclic xs i (suc r) = get_elem? xs i ∷ cyclic xs ((i + 1) % length xs) r

straight : List String → ℕ → ℕ → List (Option String)
straight xs i zero = []
straight xs i (suc r) = get_elem? xs i ∷ straight xs (suc i) r

cyclic-straight : (xs : List String) (i r : ℕ) → i + r ≤ length xs → cyclic xs i r ≡ straight xs i r
unfolding cyclic straight
cyclic-straight xs i zero h = refl
cyclic-straight xs i (suc zero) h = refl
cyclic-straight xs i (suc (suc r)) h = ap (◌∷◌ (get_elem? xs i)) (
    ap (λ (k : ℕ). cyclic xs k (suc r)) (mod-eq_of_lt (omega arith) ∙ omega arith)
    ∙ cyclic-straight xs (suc i) (suc r) (omega arith))

cyclic-split :
    (xs : List String) (i a b : ℕ)
    → i < length xs
    → cyclic xs i (a + b) ≡ cyclic xs i a ++ cyclic xs ((i + a) % length xs) b
unfolding cyclic
cyclic-split xs i zero b h =
    ap (cyclic xs i) (omega arith)
    ∙ ap (λ (k : ℕ). cyclic xs k b)
        (sym (ap (λ (n : ℕ). n % length xs) (omega arith) ∙ mod-eq_of_lt h))
cyclic-split xs i (suc a) b h =
    ap (cyclic xs i) {y = suc (a + b)} (omega arith)
    ∙ ap (◌∷◌ (get_elem? xs i)) (
        cyclic-split xs ((i + 1) % length xs) a b (mod-lt _ (omega arith))
        ∙ ap (λ (k : ℕ). cyclic xs ((i + 1) % length xs) a ++ cyclic xs k b)
            (mod-add-mod (i + 1) (length xs) a ∙ ap (λ (n : ℕ). n % length xs) (omega arith)))

straight-cons :
    (x : String) (xs : List String) (i r : ℕ) → straight (x ∷ xs) (suc i) r ≡ straight xs i r
unfolding straight
straight-cons x xs i zero = refl
straight-cons x xs i (suc r) = ap (◌∷◌ (get_elem? xs i)) (straight-cons x xs (suc i) r)

straight-take : (xs : List String) (r : ℕ) → r ≤ length xs → straight xs 0 r ≡ map some (take r xs)
unfolding straight
straight-take xs zero h = refl
straight-take [] (suc r) h = absurd (omega arith)
straight-take (x ∷ xs) (suc r) h =
    ap (◌∷◌ (some x)) (straight-cons x xs 0 r ∙ straight-take xs r (omega arith))

take-length : (xs : List String) → take (length xs) xs ≡ xs
take-length [] = refl
take-length (x ∷ xs) = ap (◌∷◌ x) (take-length xs)

straight-drop :
    (xs : List String) (i : ℕ)
    → i ≤ length xs
    → straight xs i (length xs - i) ≡ map some (drop i xs)
unfolding straight
straight-drop xs zero h =
    ap (straight xs 0) (omega arith)
    ∙ straight-take xs (length xs) (omega arith)
    ∙ ap (map some) (take-length xs)
straight-drop [] (suc i) h = absurd (omega arith)
straight-drop (x ∷ xs) (suc i) h =
    ap (straight (x ∷ xs) (suc i)) (omega arith)
    ∙ straight-cons x xs i (length xs - i)
    ∙ straight-drop xs i (omega arith)

-- A full round from `i` is the list turned at `i`.
cyclic-turn :
    (xs : List String) (i : ℕ)
    → i < length xs
    → cyclic xs i (length xs) ≡ map some (drop i xs ++ take i xs)
cyclic-turn xs i h =
    ap (cyclic xs i) {y = (length xs - i) + i} (omega arith)
    ∙ cyclic-split xs i (length xs - i) i h
    ∙ ap₂ ◌++◌
        (cyclic-straight xs i (length xs - i) (omega arith) ∙ straight-drop xs i (omega arith))
        (ap (λ (k : ℕ). cyclic xs k i) back
          ∙ cyclic-straight xs 0 i (omega arith)
          ∙ straight-take xs i (omega arith))
    ∙ sym (map-append some (drop i xs) (take i xs))
  where
    back : (i + (length xs - i)) % length xs ≡ 0
    back = ap (λ (n : ℕ). n % length xs) (omega arith) ∙ mod_self (length xs)

module _ {F : F64} (now : ℕ) where
  picked-AllSelectable :
      (lb : LoadBalancer F) (addr : String) (i : ℕ)
      → AllSelectable lb
      → AllSelectable (picked lb addr i now)
  picked-AllSelectable lb addr i all a m = selectable-count_request a addr now lb.nodes ∙ all a m

  answers-cyclic :
      (calls : ℕ) (lb : LoadBalancer F)
      → length lb.enabled_nodes < 2 ^ 64
      → lb.round_robin_index < length lb.enabled_nodes
      → AllSelectable lb
      → answers calls now lb ≡ map some (cyclic lb.enabled_nodes lb.round_robin_index calls)
  unfolding answers cyclic
  answers-cyclic zero lb fits inside all = refl
  answers-cyclic (suc calls) lb fits inside all =
      let (addr, at) = get_elem?-total lb.enabled_nodes lb.round_robin_index inside in
      let fit =
        all addr (get_elem?-contains str_dec lb.enabled_nodes lb.round_robin_index addr at) in
      let i = (lb.round_robin_index + 1) % length lb.enabled_nodes in
      rw (next_node_first now lb addr fits inside at fit, answers)
        (rw at (
          ap (◌∷◌ (some (some addr))) (
            answers-cyclic calls (picked lb addr i now) fits (mod-lt _ (omega arith))
              (picked-AllSelectable lb addr i all))))

-- When every enabled address has a node whose circuit is not open, as many calls of `next_node`
-- as there are enabled addresses answer each of them once, in the order of the list from the
-- index to its end and then from its start. The index is in the list, and the list is shorter
-- than 2^64.
pub answers-turn :
    {F : F64} (now : ℕ) (lb : LoadBalancer F)
    → length lb.enabled_nodes < 2 ^ 64
    → lb.round_robin_index < length lb.enabled_nodes
    → AllSelectable lb
    → answers (length lb.enabled_nodes) now lb
      ≡ map
          (λ a. some (some a))
          (drop lb.round_robin_index lb.enabled_nodes ++ take lb.round_robin_index lb.enabled_nodes)
answers-turn now lb fits inside all =
    answers-cyclic now (length lb.enabled_nodes) lb fits inside all
    ∙ ap (map some) (cyclic-turn lb.enabled_nodes lb.round_robin_index inside)
    ∙ map-map some some
        (drop lb.round_robin_index lb.enabled_nodes ++ take lb.round_robin_index lb.enabled_nodes)
