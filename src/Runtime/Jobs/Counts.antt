-- ===== src/Runtime/Jobs/Counts.antt =====
-- A round of the loop runs a job, wherever one is queued or a future completes.
use madrpc.Prelude.{
  ℕ, zero, suc, ◌+◌, ◌≤◌, ◌<◌, ◌≡◌, refl, sym, ap, subst, inl, inr, Option, none, some, List, [],
  ◌∷◌, arith, length, length-append,
}
use madrpc.Runtime.Jobs.{
  Task, task, Job, promise_job, async_job, generic_job, timeout_job, Jobs, no_jobs, then_job,
  TokioJobExecutor, enqueue_job, enqueue_all, Progress, call, call_all, run_promises, behind,
  remove_at, complete, poll_once,
}
use madrpc.Runtime.Jobs.Borrows.{free_first, free_drain, free_work, zero_or_more}

abbrev promises : TokioJobExecutor → ℕ
promises e = length e.promise_jobs

abbrev generics : TokioJobExecutor → ℕ
generics e = length e.generic_jobs

-- Jobs are only added to the queues.
abbrev Grows : TokioJobExecutor → TokioJobExecutor → Type 0
Grows e f = (promises e ≤ promises f) × (generics e ≤ generics f)

enqueue_job-Grows : (j : Job) (e : TokioJobExecutor) → Grows e (enqueue_job j e)
unfolding enqueue_job
enqueue_job-Grows (promise_job t) e =
    (omega (arith, length-append e.promise_jobs (t ∷ [])), omega arith)
enqueue_job-Grows (async_job t) e = (omega arith, omega arith)
enqueue_job-Grows (generic_job t) e =
    (omega arith, omega (arith, length-append e.generic_jobs (t ∷ [])))
enqueue_job-Grows (timeout_job t) e = (omega arith, omega arith)

enqueue_all-Grows : (js : Jobs) (e : TokioJobExecutor) → Grows e (enqueue_all js e)
unfolding enqueue_all
enqueue_all-Grows no_jobs e = (omega arith, omega arith)
enqueue_all-Grows (then_job j js) e =
    let a = enqueue_job-Grows j e in
    let b = enqueue_all-Grows js (enqueue_job j e) in
    (omega (arith, a.0, b.0), omega (arith, a.1, b.1))

abbrev pub count : Progress → ℕ
count p = length p.ran

-- One job more has run, and the queues have only grown.
call-count :
    (t : Task) (p : Progress)
    → (count (call t p) ≡ suc (count p)) × Grows p.queues (call t p).queues
unfolding call
call-count (task n js) p =
    (omega (arith, length-append p.ran (n ∷ [])), enqueue_all-Grows js p.queues)

call_all-count : (ts : List Task) (p : Progress) → length ts + count p ≤ count (call_all ts p)
unfolding call_all
call_all-count [] p = omega arith
call_all-count (t ∷ ts) p = omega (arith, call_all-count ts (call t p), (call-count t p).0)

free_first-count :
    (queue : List Task) (p : Progress)
    → (count p ≤ count (free_first queue p))
      × (0 < length queue → count p < count (free_first queue p))
      × (promises p.queues ≤ promises (free_first queue p).queues)
free_first-count [] p = (omega arith, (λ h. absurd (omega arith)), omega arith)
free_first-count (t ∷ ts) p =
    let c = call-count t (record p { queues = record (p.queues) { generic_jobs = ts } }) in
    (omega (arith, c.0), (λ h. omega (arith, c.0)), c.1.0)

-- A drain runs a job where one is queued.
free_drain-count :
    (p : Progress)
    → (count p ≤ count (free_drain p))
      × (0 < promises p.queues + generics p.queues → count p < count (free_drain p))
unfolding run_promises
free_drain-count p =
    let (a, b, c) = free_first-count p.queues.generic_jobs p in
    let after = free_first p.queues.generic_jobs p in
    let d =
      call_all-count after.queues.promise_jobs
        (record after { queues = record (after.queues) { promise_jobs = [] } }) in
    (
      omega (arith, a, d),
      (λ h. elim (zero_or_more (generics p.queues)) [
        | inl e ↦ omega (arith, h, e, a, c, d)
        | inr g ↦ omega (arith, b g, d)
      ]),
    )

remove_at-total :
    (ts : List Task) (i : ℕ) → i < length ts → (x : Task × List Task) × (remove_at ts i ≡ some x)
remove_at-total [] i h = absurd (omega arith)
remove_at-total (t ∷ ts) zero h = ((t, ts), refl)
remove_at-total (t ∷ ts) (suc i) h =
    let (x, e) = remove_at-total ts i (omega (arith, h)) in ((x.0, t ∷ x.1), ap (behind t) e)

poll_once-count :
    (answer : Option ℕ) (group : List Task) (p : Progress)
    → (count p ≤ count (poll_once answer group p).1)
      × Grows p.queues (poll_once answer group p).1.queues
unfolding poll_once
poll_once-count none group p = (omega arith, (omega arith, omega arith))
poll_once-count (some i) group p = by_place (remove_at group i)
  where
    by_place :
        (o : Option (Task × List Task))
        → (count p ≤ count (complete o group p).1) × Grows p.queues (complete o group p).1.queues
    by_place none = (omega arith, (omega arith, omega arith))
    by_place (some (t, rest)) = let (a, b) = call-count t p in (omega (arith, a), b)

poll_once-answer :
    (i : ℕ) (group : List Task) (p : Progress)
    → i < length group
    → count p < count (poll_once (some i) group p).1
unfolding poll_once
poll_once-answer i group p h =
    let (x, e) = remove_at-total group i h in rw (e) (omega (arith, (call-count x.0 p).0))

-- A round runs a job where a promise job or a generic job is queued, or a future completes.
pub free_work-count :
    (answer : Option ℕ) (group : List Task) (p : Progress)
    → (count p ≤ count (free_work answer group p).1)
      × (0 < promises p.queues + generics p.queues → count p < count (free_work answer group p).1)
      × ((i : ℕ)
          → answer ≡ some i
          → i < length group
          → count p < count (free_work answer group p).1)
free_work-count answer group p =
    let polled = (poll_once answer group p).1 in
    let (a, b) = poll_once-count answer group p in
    let (c, d) = free_drain-count polled in
    (
      omega (arith, a, c),
      (λ h. let e = d (omega (arith, h, b.0, b.1)) in omega (arith, a, e)),
      (λ i z h.
          let e = poll_once-answer i group p h in
          let e' = subst (λ o. count p < count (poll_once o group p).1) (sym z) e in
          omega (arith, c, e')),
    )
