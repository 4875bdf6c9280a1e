-- ===== src/Runtime/Jobs/Ending.antt =====
-- The end of the loop, and what has run by then.
use madrpc.Prelude.{
  ℕ, suc, ◌<◌, ◌≡◌, refl, ap, ◌∙◌, true, false, Option, List, [], ◌∷◌, arith, length,
}
use madrpc.Runtime.Jobs.{
  Task, has_pending_jobs, Progress, take_async, all_done, work, panicked, returned, run_on,
  run_loop, is_empty,
}
use madrpc.Runtime.Jobs.Borrows.{free_work, faulty, work-free, work-panics}
use madrpc.Runtime.Jobs.Accounts.{sum, tasks_weight, generics_weight, total, total-take_async}

abbrev pub Next : Type 0
Next = ℕ → ℕ → Option ℕ

pub run_loop-ends :
    (next : Next) (fuel round : ℕ) (group : List Task) (p : Progress)
    → all_done (take_async group p).0 (take_async group p).1 ≡ true
    → run_loop next (suc fuel) round group p ≡ returned (take_async group p).1
unfolding run_loop
run_loop-ends next fuel round group p e = rw (run_loop, e) refl

abbrev pub completion : Next → ℕ → List Task → Progress → Option ℕ
completion next round group p = next round (length (take_async group p).0)

-- What the round does, a panic included.
abbrev pub tried : Next → ℕ → List Task → Progress → Option (List Task × Progress)
tried next round group p =
    work (completion next round group p) (take_async group p).0 (take_async group p).1

-- The group and the progress after a round that does not panic.
abbrev pub worked : Next → ℕ → List Task → Progress → List Task × Progress
worked next round group p =
    free_work (completion next round group p) (take_async group p).0 (take_async group p).1

-- The generic jobs that the generic job of the round enqueues.
abbrev pub fault : Next → ℕ → List Task → Progress → ℕ
fault next round group p =
    faulty (completion next round group p) (take_async group p).0 (take_async group p).1

run_loop-goes_on :
    (next : Next) (fuel round : ℕ) (group : List Task) (p : Progress)
    → all_done (take_async group p).0 (take_async group p).1 ≡ false
    → run_loop next (suc fuel) round group p
      ≡ run_on (λ ts r. run_loop next fuel (suc round) ts r) (tried next round group p)
unfolding run_loop
run_loop-goes_on next fuel round group p e = rw (run_loop, e) refl

pub run_loop-works :
    (next : Next) (fuel round : ℕ) (group : List Task) (p : Progress)
    → all_done (take_async group p).0 (take_async group p).1 ≡ false
    → fault next round group p ≡ 0
    → run_loop next (suc fuel) round group p
      ≡ run_loop next fuel (suc round) (worked next round group p).0 (worked next round group p).1
run_loop-works next fuel round group p e h =
    run_loop-goes_on next fuel round group p e
    ∙ ap (run_on (λ ts r. run_loop next fuel (suc round) ts r))
        (work-free (completion next round group p) (take_async group p).0 (take_async group p).1 h)

pub run_loop-panics :
    (next : Next) (fuel round : ℕ) (group : List Task) (p : Progress)
    → all_done (take_async group p).0 (take_async group p).1 ≡ false
    → 0 < fault next round group p
    → run_loop next (suc fuel) round group p ≡ panicked
run_loop-panics next fuel round group p e h =
    run_loop-goes_on next fuel round group p e
    ∙ ap (run_on (λ ts r. run_loop next fuel (suc round) ts r)) (
        work-panics (completion next round group p) (take_async group p).0 (take_async group p).1 h)

empty_of : (ts : List Task) → is_empty ts ≡ true → ts ≡ []
empty_of [] e = refl
empty_of (t ∷ ts) e = absurd cc

all_done-parts :
    (group : List Task) (p : Progress)
    → all_done group p ≡ true
    → (group ≡ []) × (p.queues.promise_jobs ≡ []) × (p.queues.generic_jobs ≡ [])
unfolding all_done
all_done-parts group p e = (
  empty_of group (ground (arith, e)),
  empty_of p.queues.promise_jobs (ground (arith, e)),
  empty_of p.queues.generic_jobs (ground (arith, e)),
)

-- Nothing is queued, and nothing is in the group.
pub all_done-total :
    (weight : ℕ → ℕ) (extra : Task → ℕ) (group : List Task) (p : Progress)
    → all_done (take_async group p).0 (take_async group p).1 ≡ true
    → sum weight (take_async group p).1.ran ≡ total weight extra group p
unfolding take_async
all_done-total weight extra group p e =
    let (a, b, c) = all_done-parts (take_async group p).0 (take_async group p).1 e in
    let a' = ap (tasks_weight weight extra) a in
    let b' = ap (tasks_weight weight extra) b in
    let c' = ap (generics_weight weight extra) c in
    let t = total-take_async weight extra group p in omega (arith, a', b', c', t)

pub all_done-idle :
    (group : List Task) (p : Progress)
    → all_done (take_async group p).0 (take_async group p).1 ≡ true
    → has_pending_jobs (take_async group p).1.queues ≡ false
unfolding take_async all_done has_pending_jobs
all_done-idle group p e = ground (arith, e)
