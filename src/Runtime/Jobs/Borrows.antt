-- ===== src/Runtime/Jobs/Borrows.antt =====
-- What the borrow of the queue of generic jobs changes: a round panics where the generic job that it runs
-- enqueues another one, and goes on as if nothing were borrowed where it does not.
use madrpc.Prelude.{
  ℕ, zero, suc, ◌+◌, ◌<◌, ◌≡◌, refl, ap, ◌⊎◌, inl, inr, Option, none, some, List, [], ◌∷◌, arith,
}
use madrpc.Runtime.Jobs.{
  Task, task, Job, promise_job, async_job, generic_job, timeout_job, Jobs, no_jobs, then_job,
  TokioJobExecutor, enqueue_all, enqueue_borrowed, enqueue_all_borrowed, called, call_borrowed,
  Progress, call, run_first, run_generic, run_promises, drain_jobs, after_generic, poll_once, held,
  work,
}

-- A round without the borrow.
abbrev pub free_first : List Task → Progress → Progress
free_first [] p = p
free_first (t ∷ ts) p = call t (record p { queues = record (p.queues) { generic_jobs = ts } })

abbrev pub free_drain : Progress → Progress
free_drain p = run_promises (free_first p.queues.generic_jobs p)

abbrev pub free_work : Option ℕ → List Task → Progress → List Task × Progress
free_work answer group p = ((poll_once answer group p).0, free_drain (poll_once answer group p).1)

-- The generic jobs that a job enqueues itself.
abbrev generic : Job → ℕ
generic (promise_job t) = 0
generic (async_job t) = 0
generic (generic_job t) = 1
generic (timeout_job t) = 0

abbrev generics : Jobs → ℕ
generics no_jobs = 0
generics (then_job j js) = generic j + generics js

abbrev pub spawned : Task → ℕ
spawned (task name js) = generics js

abbrev pub head : (Task → ℕ) → List Task → ℕ
head extra [] = 0
head extra (t ∷ ts) = extra t

pub zero_or_more : (n : ℕ) → (n ≡ 0) ⊎ (0 < n)
zero_or_more zero = inl refl
zero_or_more (suc n) = inr (omega arith)

enqueue_all-free :
    (js : Jobs) (e : TokioJobExecutor)
    → generics js ≡ 0
    → enqueue_all_borrowed js (some e) ≡ some (enqueue_all js e)
unfolding enqueue_all_borrowed enqueue_borrowed enqueue_all
enqueue_all-free no_jobs e h = refl
enqueue_all-free (then_job (promise_job t) js) e h = enqueue_all-free js _ (omega (arith, h))
enqueue_all-free (then_job (async_job t) js) e h = enqueue_all-free js _ (omega (arith, h))
enqueue_all-free (then_job (generic_job t) js) e h = absurd (omega (arith, h))
enqueue_all-free (then_job (timeout_job t) js) e h = enqueue_all-free js _ (omega (arith, h))

enqueue_all-none : (js : Jobs) → enqueue_all_borrowed js none ≡ none
unfolding enqueue_all_borrowed
enqueue_all-none no_jobs = refl
enqueue_all-none (then_job j js) = enqueue_all-none js

enqueue_all-panics :
    (js : Jobs) (e : TokioJobExecutor) → 0 < generics js → enqueue_all_borrowed js (some e) ≡ none
unfolding enqueue_all_borrowed enqueue_borrowed
enqueue_all-panics no_jobs e h = absurd (omega (arith, h))
enqueue_all-panics (then_job (promise_job t) js) e h = enqueue_all-panics js _ (omega (arith, h))
enqueue_all-panics (then_job (async_job t) js) e h = enqueue_all-panics js _ (omega (arith, h))
enqueue_all-panics (then_job (generic_job t) js) e h = enqueue_all-none js
enqueue_all-panics (then_job (timeout_job t) js) e h = enqueue_all-panics js _ (omega (arith, h))

run_first-free :
    (queue : List Task) (p : Progress)
    → head spawned queue ≡ 0
    → run_first queue p ≡ some (free_first queue p)
unfolding call_borrowed call
run_first-free [] p h = refl
run_first-free (task name js ∷ ts) p h =
    ap (called name p.ran)
      (enqueue_all-free js (record (p.queues) { generic_jobs = ts }) (omega (arith, h)))

run_first-panics :
    (queue : List Task) (p : Progress) → 0 < head spawned queue → run_first queue p ≡ none
unfolding call_borrowed
run_first-panics [] p h = absurd (omega (arith, h))
run_first-panics (task name js ∷ ts) p h =
    ap (called name p.ran)
      (enqueue_all-panics js (record (p.queues) { generic_jobs = ts }) (omega (arith, h)))

-- The generic jobs that the generic job of a round enqueues.
abbrev pub faulty : Option ℕ → List Task → Progress → ℕ
faulty answer group p = head spawned (poll_once answer group p).1.queues.generic_jobs

pub work-free :
    (answer : Option ℕ) (group : List Task) (p : Progress)
    → faulty answer group p ≡ 0
    → work answer group p ≡ some (free_work answer group p)
unfolding work drain_jobs run_generic
work-free answer group p h =
    let polled = (poll_once answer group p).1 in
    ap (λ o. held (poll_once answer group p).0 (after_generic o))
      (run_first-free polled.queues.generic_jobs polled h)

pub work-panics :
    (answer : Option ℕ) (group : List Task) (p : Progress)
    → 0 < faulty answer group p
    → work answer group p ≡ none
unfolding work drain_jobs run_generic
work-panics answer group p h =
    let polled = (poll_once answer group p).1 in
    ap (λ o. held (poll_once answer group p).0 (after_generic o))
      (run_first-panics polled.queues.generic_jobs polled h)
