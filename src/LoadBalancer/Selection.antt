-- ===== src/LoadBalancer/Selection.antt =====
-- `next_node`: which address it picks, when it picks none, and what it leaves of the balancer.
use native.Mathlib.Nat.{mod-add-mod, mod-lt, mod-eq_of_lt, add-mod_right}
use madrpc.Prelude.{
  ℕ, zero, suc, ◌+◌, ◌-◌, ◌%◌, ◌^◌, ◌<◌, ◌≡◌, refl, sym, ap, ◌∙◌, ◌⊎◌, inl, inr, String, true,
  false, Option, none, some, List, [], ◌∷◌, arith, dec_le, contains, contains-get_elem?, length,
  get_elem?, get_elem?-total, Bool-cases,
}
use madrpc.Prelude.Text.{str_dec}
use madrpc.Prelude.Word.{u64_of_lt}
use madrpc.Prelude.HashMap.{alter}
use madrpc.Float.{F64}
use madrpc.LoadBalancer.{LoadBalancer, selectable, count_request, next_index, scan, next_node}

-- The address `k` places after the index `i`, round the list.
abbrev pub place : List String → ℕ → ℕ → Option String
place xs i k = get_elem? xs ((i + k) % length xs)

-- None of the first `k` places after `i` can be selected.
abbrev pub AllSkipped : {F : F64} → LoadBalancer F → ℕ → ℕ → Type 0
AllSkipped lb i k =
    (j : ℕ) (b : String)
    → j < k
    → place lb.enabled_nodes i j ≡ some b
    → selectable lb.nodes b ≡ false

-- The balancer after `addr` is picked and the index stands at `i`.
abbrev pub picked : {F : F64} → LoadBalancer F → String → ℕ → ℕ → LoadBalancer F
picked lb addr i now = record lb {
  nodes = alter str_dec addr (count_request now) lb.nodes;
  round_robin_index = i;
}

-- A result of the loop: the first selectable address within the rounds, or none.
pub data Scanned {F : F64} (lb : LoadBalancer F) (rounds now : ℕ)
    (r : Option (Option String × LoadBalancer F)) : Type 0 where
  found :
      (k : ℕ) (addr : String)
      → k < rounds
      → place lb.enabled_nodes lb.round_robin_index k ≡ some addr
      → selectable lb.nodes addr ≡ true
      → AllSkipped lb lb.round_robin_index k
      → r
        ≡ some (
          some addr,
          picked lb addr ((lb.round_robin_index + suc k) % length lb.enabled_nodes) now,
        )
      → Scanned lb rounds now r
  exhausted :
      (i : ℕ)
      → i % length lb.enabled_nodes ≡ (lb.round_robin_index + rounds) % length lb.enabled_nodes
      → AllSkipped lb lb.round_robin_index rounds
      → r ≡ some (none, record lb { round_robin_index = i })
      → Scanned lb rounds now r

-- One step on, the places are those one further along.
next_place :
    (xs : List String) (i k : ℕ)
    → i + 1 < 2 ^ 64
    → place xs (next_index i (length xs)) k ≡ place xs i (suc k)
next_place xs i k h = ap (get_elem? xs) (
    rw (u64_of_lt (i + 1) h, mod-add-mod (i + 1) (length xs) k)
      (ap (λ (n : ℕ). n % length xs) (omega arith)))

place-zero : (xs : List String) (i : ℕ) → place xs i 0 ≡ get_elem? xs (i % length xs)
place-zero xs i = ap (λ (n : ℕ). get_elem? xs (n % length xs)) (omega arith)

abbrev advanced : {F : F64} → LoadBalancer F → LoadBalancer F
advanced lb = record lb {
  round_robin_index = next_index lb.round_robin_index (length lb.enabled_nodes);
}

module _ {F : F64} (lb : LoadBalancer F) (inside : lb.round_robin_index + 1 < 2 ^ 64)
    (addr : String)
    (at_first : get_elem? lb.enabled_nodes (lb.round_robin_index % length lb.enabled_nodes)
      ≡ some addr) where
  skip_first :
      (k : ℕ)
      → selectable lb.nodes addr ≡ false
      → AllSkipped (advanced lb) (advanced lb).round_robin_index k
      → AllSkipped lb lb.round_robin_index (suc k)
  skip_first k unfit skipped zero b h at =
      let same : addr ≡ b = cc (at_first, at, place-zero lb.enabled_nodes lb.round_robin_index) in
      rw (← same) unfit
  skip_first k unfit skipped (suc j) b h at =
      skipped j b (omega arith) (next_place lb.enabled_nodes lb.round_robin_index j inside ∙ at)

  later :
      (k : ℕ)
      → (next_index lb.round_robin_index (length lb.enabled_nodes) + k) % length lb.enabled_nodes
        ≡ (lb.round_robin_index + suc k) % length lb.enabled_nodes
  later k =
      rw
        (
          u64_of_lt (lb.round_robin_index + 1) inside,
          mod-add-mod (lb.round_robin_index + 1) (length lb.enabled_nodes) k,
        )
        (ap (λ (n : ℕ). n % length lb.enabled_nodes) (omega arith))

  scan_hit :
      (rounds now : ℕ)
      → selectable lb.nodes addr ≡ true
      → scan (suc rounds) now lb
        ≡ some (
          some addr,
          picked lb addr (next_index lb.round_robin_index (length lb.enabled_nodes)) now,
        )
  unfolding scan
  scan_hit rounds now fit = rw (at_first, scan) (rw fit)

  scan_miss :
      (rounds now : ℕ)
      → selectable lb.nodes addr ≡ false
      → scan (suc rounds) now lb ≡ scan rounds now (advanced lb)
  unfolding scan
  scan_miss rounds now unfit = rw (at_first, scan) (rw unfit)

  found_now :
      (rounds now : ℕ)
      → selectable lb.nodes addr ≡ true
      → Scanned lb (suc rounds) now (scan (suc rounds) now lb)
  found_now rounds now fit =
      found 0 addr (omega arith) (place-zero lb.enabled_nodes lb.round_robin_index ∙ at_first) fit
        (λ j b h at. absurd (omega arith))
        (scan_hit rounds now fit
          ∙ ap (λ (i : ℕ). some (some addr, picked lb addr (i % length lb.enabled_nodes) now))
              (u64_of_lt (lb.round_robin_index + 1) inside))

  found_later :
      (rounds now : ℕ)
      → selectable lb.nodes addr ≡ false
      → Scanned (advanced lb) rounds now (scan rounds now (advanced lb))
      → Scanned lb (suc rounds) now (scan (suc rounds) now lb)
  found_later rounds now unfit (found k b h at fit skipped e) =
      found (suc k) b (omega arith)
        (sym (next_place lb.enabled_nodes lb.round_robin_index k inside) ∙ at) fit
        (skip_first k unfit skipped)
        (scan_miss rounds now unfit
          ∙ e
          ∙ ap (λ (i : ℕ). some (some b, picked lb b i now)) (later (suc k)))
  found_later rounds now unfit (exhausted i m skipped e) =
      exhausted i (m ∙ later rounds) (skip_first rounds unfit skipped)
        (scan_miss rounds now unfit ∙ e)

-- Every run of the loop ends with the first selectable address, or with none.
pub scan-Scanned :
    {F : F64} (rounds now : ℕ) (lb : LoadBalancer F)
    → length lb.enabled_nodes < 2 ^ 64
    → lb.round_robin_index + 1 < 2 ^ 64
    → (rounds ≡ 0) ⊎ (0 < length lb.enabled_nodes)
    → Scanned lb rounds now (scan rounds now lb)
unfolding scan
scan-Scanned zero now lb fits inside some_ =
    exhausted lb.round_robin_index (ap (λ (n : ℕ). n % length lb.enabled_nodes) (omega arith))
      (λ j b h at. absurd (omega arith)) refl
scan-Scanned (suc rounds) now lb fits inside some_ =
    let pos : 0 < length lb.enabled_nodes = omega arith in
    let (addr, at) =
      get_elem?-total lb.enabled_nodes (lb.round_robin_index % length lb.enabled_nodes)
        (mod-lt _ pos) in
    let small : next_index lb.round_robin_index (length lb.enabled_nodes)
        < length lb.enabled_nodes =
      mod-lt _ pos in
    elim (Bool-cases (selectable lb.nodes addr)) [
      | inl fit ↦ found_now lb inside addr at rounds now fit
      | inr unfit ↦
          found_later lb inside addr at rounds now unfit
            (scan-Scanned rounds now (advanced lb) fits (omega arith) (inr pos))
    ]

module _ {F : F64} (now : ℕ) (lb : LoadBalancer F) (fits : length lb.enabled_nodes < 2 ^ 64)
    (inside : lb.round_robin_index + 1 < 2 ^ 64) where
  -- `next_node` never panics: it picks the first enabled address, counted round the list from
  -- the index, whose node exists with a circuit that is not open, counts the request on that
  -- node alone and leaves the index one past the address; or no enabled address has such a
  -- node, and it answers none and changes at most the index. The list is shorter than 2^64 and
  -- the index below 2^64 - 1.
  pub next_node-Scanned : Scanned lb (length lb.enabled_nodes) now (next_node now lb)
  unfolding next_node
  next_node-Scanned =
      scan-Scanned (length lb.enabled_nodes) now lb fits inside (nonempty_or_done lb.enabled_nodes)
    where
      nonempty_or_done : (xs : List String) → (length xs ≡ 0) ⊎ (0 < length xs)
      nonempty_or_done [] = inl refl
      nonempty_or_done (x ∷ xs) = inr (omega arith)

-- Every place of the list is met within one round from any index.
pub place-reaches :
    (xs : List String) (i p : ℕ)
    → p < length xs
    → (j : ℕ) × (j < length xs) × (place xs i j ≡ get_elem? xs p)
place-reaches xs i p h = elim (dec_le (i % length xs) p) [
  | yes le ↦ (
    p - i % length xs,
    omega arith,
    ap (get_elem? xs) (reaches (p - i % length xs) (omega arith)),
  )
  | no gt ↦ (
    p + length xs - i % length xs,
    grind (arith, mod-lt i {m = length xs}),
    ap (get_elem? xs) (
        wraps (p + length xs - i % length xs)
          (omega (arith, mod-lt i {m = length xs} (omega arith)))),
  )
]
  where
    reaches : (j : ℕ) → i % length xs + j ≡ p → (i + j) % length xs ≡ p
    reaches j e =
        sym (mod-add-mod i (length xs) j) ∙ ap (λ (n : ℕ). n % length xs) e ∙ mod-eq_of_lt h

    wraps : (j : ℕ) → i % length xs + j ≡ p + length xs → (i + j) % length xs ≡ p
    wraps j e =
        sym (mod-add-mod i (length xs) j)
        ∙ ap (λ (n : ℕ). n % length xs) e
        ∙ add-mod_right p (length xs)
        ∙ mod-eq_of_lt h

-- `next_node` answers none only if no enabled address has a node whose circuit is not open. The
-- list is shorter than 2^64 and the index below 2^64 - 1.
pub next_node-none :
    {F : F64} (now : ℕ) (lb : LoadBalancer F) {lb' : LoadBalancer F} (addr : String)
    → length lb.enabled_nodes < 2 ^ 64
    → lb.round_robin_index + 1 < 2 ^ 64
    → next_node now lb ≡ some (none, lb')
    → contains str_dec lb.enabled_nodes addr ≡ true
    → selectable lb.nodes addr ≡ false
next_node-none now lb {lb'} addr fits inside e m = from (next_node-Scanned now lb fits inside)
  where
    from :
        Scanned lb (length lb.enabled_nodes) now (next_node now lb)
        → selectable lb.nodes addr ≡ false
    from (found k b h at fit skipped e') = cc
    from (exhausted i q skipped e') =
        let (p, lt, at) = contains-get_elem? str_dec lb.enabled_nodes addr m in
        let (j, less, same) = place-reaches lb.enabled_nodes lb.round_robin_index p lt in
        skipped j addr less (same ∙ at)

-- With the index in the list, a node that can be selected is picked at once, and the index moves on.
pub next_node_first :
    {F : F64} (now : ℕ) (lb : LoadBalancer F) (addr : String)
    → length lb.enabled_nodes < 2 ^ 64
    → lb.round_robin_index < length lb.enabled_nodes
    → get_elem? lb.enabled_nodes lb.round_robin_index ≡ some addr
    → selectable lb.nodes addr ≡ true
    → next_node now lb
      ≡ some (some addr, picked lb addr ((lb.round_robin_index + 1) % length lb.enabled_nodes) now)
unfolding next_node
next_node_first now lb addr fits inside at fit =
    ap (λ (n : ℕ). scan n now lb) positive
    ∙ scan_hit lb small addr (ap (get_elem? lb.enabled_nodes) (mod-eq_of_lt inside) ∙ at)
        (length lb.enabled_nodes - 1) now fit
    ∙ ap (λ (i : ℕ). some (some addr, picked lb addr (i % length lb.enabled_nodes) now))
        (u64_of_lt (lb.round_robin_index + 1) small)
  where
    small : lb.round_robin_index + 1 < 2 ^ 64
    small = omega arith

    positive : length lb.enabled_nodes ≡ suc (length lb.enabled_nodes - 1)
    positive = omega arith
