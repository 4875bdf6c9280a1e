-- ===== src/Runtime/Jobs/Termination.antt =====
-- The loop ends where the async jobs complete: it returns, or panics.
use madrpc.Prelude.{
  ℕ, zero, suc, ◌+◌, ◌*◌, ◌≤◌, ◌<◌, ◌≡◌, refl, sym, ap, subst, ◌∙◌, ◌⊎◌, inl, inr, true, false,
  ◌&&◌, some, List, [], ◌∷◌, arith, Bool-cases, length,
}
use madrpc.Runtime.Jobs.{
  Task, TokioJobExecutor, has_pending_jobs, Progress, take_async, all_done, Run, panicked, returned,
  run_loop, run_jobs_async, is_empty,
}
use madrpc.Runtime.Jobs.Borrows.{spawned, zero_or_more}
use madrpc.Runtime.Jobs.Accounts.{
  sum, tasks_weight, pending, total, total-free_work, total-unweighed, total-take_async,
}
use madrpc.Runtime.Jobs.Counts.{count, free_work-count}
use madrpc.Runtime.Jobs.Ending.{
  Next, run_loop-ends, completion, worked, fault, run_loop-works, run_loop-panics, all_done-total,
  all_done-idle,
}

abbrev pub one_each : ℕ → ℕ
one_each n = 1

abbrev pub no_extra : Task → ℕ
no_extra t = 0

sum-count : (ns : List ℕ) → sum one_each ns ≡ length ns
sum-count [] = refl
sum-count (n ∷ ns) = omega (arith, sum-count ns)

-- The jobs that are still to run.
abbrev left : List Task → Progress → ℕ
left group p = tasks_weight one_each no_extra group + pending one_each no_extra p.queues

not_done :
    (group : List Task) (p : Progress)
    → all_done group p ≡ false
    → (0 < length group) ⊎ (0 < length p.queues.promise_jobs + length p.queues.generic_jobs)
unfolding all_done
not_done group p e = by_queues group p.queues.promise_jobs p.queues.generic_jobs e
  where
    by_queues :
        (ts us vs : List Task)
        → (is_empty ts && is_empty us && is_empty vs) ≡ false
        → (0 < length ts) ⊎ (0 < length us + length vs)
    by_queues (t ∷ ts) us vs e = inl (omega arith)
    by_queues [] (u ∷ us) vs e = inr (omega arith)
    by_queues [] [] (v ∷ vs) e = inr (omega arith)
    by_queues [] [] [] e = absurd cc

abbrev pub nameless : ℕ → ℕ
nameless n = 0

sum-nameless : (ns : List ℕ) → sum nameless ns ≡ 0
sum-nameless [] = refl
sum-nameless (n ∷ ns) = omega (arith, sum-nameless ns)

-- The generic jobs that generic jobs enqueue, among all that is still to run.
abbrev faults : List Task → Progress → ℕ
faults group p = tasks_weight nameless spawned group + pending nameless spawned p.queues

-- A round that runs no such job leaves as many.
faults-worked :
    (next : Next) (t : ℕ) (group : List Task) (p : Progress)
    → faults (worked next t group p).0 (worked next t group p).1 + fault next t group p
      ≡ faults group p
faults-worked next t group p =
    let a =
      total-free_work nameless spawned (completion next t group p) (take_async group p).0
        (take_async group p).1 in
    let b = total-take_async nameless spawned group p in
    let c = sum-nameless p.ran in
    let e = sum-nameless (worked next t group p).1.ran in omega (arith, a, b, c, e)

-- No such job is left where the loop ends.
faults-done :
    (group : List Task) (p : Progress)
    → all_done (take_async group p).0 (take_async group p).1 ≡ true
    → faults group p ≡ 0
faults-done group p e =
    let a = all_done-total nameless spawned group p e in
    let b = sum-nameless p.ran in
    let c = sum-nameless (take_async group p).1.ran in omega (arith, a, b, c)

-- What runs is taken from what is left.
left-count :
    (next : Next) (t : ℕ) (group : List Task) (p : Progress)
    → left (worked next t group p).0 (worked next t group p).1 + count (worked next t group p).1
      ≡ left group p + count p
left-count next t group p =
    let a =
      total-unweighed one_each no_extra (λ t. refl) (completion next t group p)
        (take_async group p).0 (take_async group p).1 in
    let b = total-take_async one_each no_extra group p in
    let c = sum-count p.ran in
    let e = sum-count (worked next t group p).1.ran in omega (arith, a, b, c, e)

ran-take_async : (group : List Task) (p : Progress) → count (take_async group p).1 ≡ count p
unfolding take_async
ran-take_async group p = refl

less_or_same : (a b : ℕ) → a ≤ b → (a < b) ⊎ (b ≡ a)
less_or_same a b h = ground (arith, h)

nearer : (l l' w w' d : ℕ) → l' < l → w' ≤ d → l' * suc d + w' < l * suc d + w
nearer l l' w w' d h k = grind arith

wait_cases : (n : ℕ) → (n ≡ 0) ⊎ ((k : ℕ) × (n ≡ suc k))
wait_cases zero = inl refl
wait_cases (suc k) = inr (k, refl)

-- What becomes of the loop, by whether a generic job enqueues another.
abbrev LoopOutcome : List Task → Progress → Run → Type 0
LoopOutcome group p run =
    ((faults group p ≡ 0)
      × (q : Progress) × (run ≡ returned q)
      × (has_pending_jobs q.queues ≡ false)
      × ((weight : ℕ → ℕ) → sum weight q.ran ≡ total weight no_extra group p))
    ⊎ ((0 < faults group p) × (run ≡ panicked))

outcome-earlier :
    (next : Next) (t : ℕ) (group : List Task) (p : Progress)
    → fault next t group p ≡ 0
    → (run : Run) → LoopOutcome (worked next t group p).0 (worked next t group p).1 run
    → LoopOutcome group p run
outcome-earlier next t group p f run (inl (a, q, b, c, s)) = inl (
  omega (arith, a, f, faults-worked next t group p),
  q,
  b,
  c,
  λ weight.
      (s weight
        ∙ total-unweighed weight no_extra (λ u. refl) (completion next t group p)
            (take_async group p).0 (take_async group p).1
        ∙ total-take_async weight no_extra group p),
)
outcome-earlier next t group p f run (inr (a, b)) =
    inr (omega (arith, a, faults-worked next t group p), b)

module _ (next : Next) (wait : ℕ → ℕ) (d : ℕ) (within : (t : ℕ) → wait t ≤ d)
    (later : (t k : ℕ) → wait t ≡ suc k → wait (suc t) ≡ k)
    (now : (t n : ℕ) → wait t ≡ 0 → 0 < n → (i : ℕ) × (next t n ≡ some i) × (i < n)) where
  -- A round that does not return leaves fewer jobs, or the next completion is a round nearer.
  round-nearer :
      (t : ℕ) (group : List Task) (p : Progress)
      → all_done (take_async group p).0 (take_async group p).1 ≡ false
      → (left (worked next t group p).0 (worked next t group p).1 < left group p)
        ⊎ ((left (worked next t group p).0 (worked next t group p).1 ≡ left group p)
            × (wait t ≡ suc (wait (suc t))))
  round-nearer t group p e =
      let (c, by_queue, by_answer) =
        free_work-count (completion next t group p) (take_async group p).0 (take_async group p).1 in
      let l = left-count next t group p in
      let r = ran-take_async group p in
      elim (not_done (take_async group p).0 (take_async group p).1 e) [
        | inr queued ↦ let more = by_queue queued in inl (omega (arith, more, l, r))
        | inl grouped ↦ elim (wait_cases (wait t)) [
          | inl z ↦
              let (i, a, b) = now t (length (take_async group p).0) z grouped in
              let more = by_answer i a b in inl (omega (arith, more, l, r))
          | inr (k, z) ↦ elim (less_or_same _ _ c) [
            | inl more ↦ inl (omega (arith, more, l, r))
            | inr same ↦ inr (omega (arith, same, l, r), z ∙ ap suc (sym (later t k z)))
          ]
        ]
      ]

  enough :
      (t : ℕ) (group : List Task) (p : Progress)
      → all_done (take_async group p).0 (take_async group p).1 ≡ false
      → (fuel : ℕ) → left group p * suc d + wait t < suc fuel
      → left (worked next t group p).0 (worked next t group p).1 * suc d + wait (suc t) < fuel
  enough t group p e fuel h = elim (round-nearer t group p e) [
    | inl less ↦
        let a = nearer (left group p) _ (wait t) (wait (suc t)) d less (within (suc t)) in
        omega (arith, a, h)
    | inr (same, w) ↦ rw (same) (omega (arith, w, h))
  ]

  -- The loop returns with all that there was run, or a generic job enqueues another.
  run_loop-outcome :
      (fuel t : ℕ) (group : List Task) (p : Progress)
      → left group p * suc d + wait t < fuel
      → LoopOutcome group p (run_loop next fuel t group p)
  run_loop-outcome zero t group p h = absurd (omega arith)
  run_loop-outcome (suc fuel) t group p h =
      elim (Bool-cases (all_done (take_async group p).0 (take_async group p).1)) [
        | inl e ↦ inl (
          faults-done group p e,
          (take_async group p).1,
          run_loop-ends next fuel t group p e,
          all_done-idle group p e,
          λ weight. all_done-total weight no_extra group p e,
        )
        | inr e ↦ elim (zero_or_more (fault next t group p)) [
          | inr f ↦ inr (
            omega (arith, faults-worked next t group p, f),
            run_loop-panics next fuel t group p e f,
          )
          | inl f ↦ subst (LoopOutcome group p) (sym (run_loop-works next fuel t group p e f)) (
              outcome-earlier next t group p f _ (
                run_loop-outcome fuel (suc t) (worked next t group p).0 (worked next t group p).1
                  (enough t group p e fuel h)))
        ]
      ]

  -- The loop over the jobs ends. Where no generic job, of those that are queued and of those
  -- that come of them, enqueues a generic job itself, it returns with every queue empty, and
  -- by then each job that was queued, and each that came of it, has run once: the weights of
  -- the names of the jobs that ran add up to those of the jobs that were there, whatever the
  -- weights, timeout jobs left out. Where one does, it panics. The group of futures completes
  -- one at least every `d + 1` rounds where it holds any; the rounds that are enough are as
  -- many as the jobs times `d + 1`, and those up to the first completion, and one.
  pub run_jobs_async-ends :
      (fuel : ℕ) (e : TokioJobExecutor)
      → pending one_each no_extra e * suc d + wait 0 < fuel
      → ((pending nameless spawned e ≡ 0)
          × (q : Progress) × (run_jobs_async next fuel e ≡ returned q)
          × (has_pending_jobs q.queues ≡ false)
          × ((weight : ℕ → ℕ) → sum weight q.ran ≡ pending weight no_extra e))
        ⊎ ((0 < pending nameless spawned e) × (run_jobs_async next fuel e ≡ panicked))
  unfolding run_jobs_async
  run_jobs_async-ends fuel e h =
      let start : Progress = record { queues = e; ran = [] } in
      elim (run_loop-outcome fuel 0 [] start (omega (arith, h))) [
        | inl (a, q, b, c, s) ↦
            inl
              (omega (arith, a), q, b, c, λ weight. (let total = s weight in omega (arith, total)))
        | inr (a, b) ↦ inr (omega (arith, a), b)
      ]
