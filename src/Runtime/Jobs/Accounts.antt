-- ===== src/Runtime/Jobs/Accounts.antt =====
-- What the jobs that have run and the jobs that are pending add up to.
use madrpc.Prelude.{
  ℕ, zero, suc, ◌+◌, ◌≡◌, refl, ◌∙◌, some_inj, ap, Option, none, some, List, [], ◌∷◌, ◌++◌, arith,
}
use madrpc.Runtime.Jobs.{
  Task, task, Job, promise_job, async_job, generic_job, timeout_job, Jobs, no_jobs, then_job,
  TokioJobExecutor, enqueue_job, enqueue_all, Progress, call, call_all, run_promises, behind,
  complete, remove_at, poll_once, take_async,
}
use madrpc.Runtime.Jobs.Borrows.{free_first, free_drain, free_work, head}

module _ (weight : ℕ → ℕ) where
  abbrev pub sum : List ℕ → ℕ
  sum [] = 0
  sum (n ∷ ns) = weight n + sum ns

-- The weights of a job and of all the jobs that come of it, those that are ignored left out; a generic
-- job weighs `extra` more.
module _ (weight : ℕ → ℕ) (extra : Task → ℕ) where
  unfoldable mutual
    pub task_weight : Task → ℕ
    task_weight (task name spawned) = weight name + jobs_weight spawned

    pub job_weight : Job → ℕ
    job_weight (promise_job t) = task_weight t
    job_weight (async_job t) = task_weight t
    job_weight (generic_job t) = extra t + task_weight t
    job_weight (timeout_job t) = 0

    pub jobs_weight : Jobs → ℕ
    jobs_weight no_jobs = 0
    jobs_weight (then_job j js) = job_weight j + jobs_weight js

  abbrev pub tasks_weight : List Task → ℕ
  tasks_weight [] = 0
  tasks_weight (t ∷ ts) = task_weight t + tasks_weight ts

  abbrev pub generics_weight : List Task → ℕ
  generics_weight [] = 0
  generics_weight (t ∷ ts) = extra t + task_weight t + generics_weight ts

  abbrev pub both : Task × List Task → ℕ
  both (t, ts) = task_weight t + tasks_weight ts

  abbrev pub pending : TokioJobExecutor → ℕ
  pending e =
      tasks_weight e.promise_jobs + tasks_weight e.async_jobs + generics_weight e.generic_jobs

  abbrev pub total : List Task → Progress → ℕ
  total group p = sum weight p.ran + (tasks_weight group + pending p.queues)

module _ (weight : ℕ → ℕ) (extra : Task → ℕ) where
  sum-append : (xs ys : List ℕ) → sum weight (xs ++ ys) ≡ sum weight xs + sum weight ys
  sum-append [] ys = omega arith
  sum-append (x ∷ xs) ys = omega (arith, sum-append xs ys)

  pub tasks-append :
      (ts us : List Task)
      → tasks_weight weight extra (ts ++ us)
        ≡ tasks_weight weight extra ts + tasks_weight weight extra us
  tasks-append [] us = omega arith
  tasks-append (t ∷ ts) us = omega (arith, tasks-append ts us)

  generics-append :
      (ts us : List Task)
      → generics_weight weight extra (ts ++ us)
        ≡ generics_weight weight extra ts + generics_weight weight extra us
  generics-append [] us = omega arith
  generics-append (t ∷ ts) us = omega (arith, generics-append ts us)

  pending-enqueue_job :
      (j : Job) (e : TokioJobExecutor)
      → pending weight extra (enqueue_job j e) ≡ job_weight weight extra j + pending weight extra e
  unfolding enqueue_job job_weight
  pending-enqueue_job (promise_job t) e = omega (arith, tasks-append e.promise_jobs (t ∷ []))
  pending-enqueue_job (async_job t) e = omega (arith, tasks-append e.async_jobs (t ∷ []))
  pending-enqueue_job (generic_job t) e = omega (arith, generics-append e.generic_jobs (t ∷ []))
  pending-enqueue_job (timeout_job t) e = omega arith

  pending-enqueue_all :
      (js : Jobs) (e : TokioJobExecutor)
      → pending weight extra (enqueue_all js e)
        ≡ jobs_weight weight extra js + pending weight extra e
  unfolding enqueue_all task_weight
  pending-enqueue_all no_jobs e = omega arith
  pending-enqueue_all (then_job j js) e =
      omega (arith, pending-enqueue_all js (enqueue_job j e), pending-enqueue_job j e)

  -- A job that runs moves its own weight to what has run, and its successors' to the queues.
  pub total-call :
      (t : Task) (group : List Task) (p : Progress)
      → total weight extra group (call t p)
        ≡ task_weight weight extra t + total weight extra group p
  unfolding call task_weight
  total-call (task name spawned) group p =
      omega (arith, sum-append p.ran (name ∷ []), pending-enqueue_all spawned p.queues)

  pub total-call_all :
      (ts group : List Task) (p : Progress)
      → total weight extra group (call_all ts p)
        ≡ tasks_weight weight extra ts + total weight extra group p
  unfolding call_all
  total-call_all [] group p = omega arith
  total-call_all (t ∷ ts) group p =
      omega (arith, total-call_all ts group (call t p), total-call t group p)

  -- The generic job that runs first loses what it weighs more.
  total-free_first :
      (queue group : List Task) (p : Progress)
      → generics_weight weight extra p.queues.generic_jobs ≡ generics_weight weight extra queue
      → total weight extra group (free_first queue p) + head extra queue
        ≡ total weight extra group p
  total-free_first [] group p e = omega arith
  total-free_first (t ∷ ts) group p e =
      omega (
        arith,
        e,
        total-call t group (record p { queues = record (p.queues) { generic_jobs = ts } }),
      )

  total-run_promises :
      (group : List Task) (p : Progress)
      → total weight extra group (run_promises p) ≡ total weight extra group p
  unfolding run_promises
  total-run_promises group p = omega (
    arith,
    total-call_all p.queues.promise_jobs group
        (record p { queues = record (p.queues) { promise_jobs = [] } }),
  )

  total-free_drain :
      (group : List Task) (p : Progress)
      → total weight extra group (free_drain p) + head extra p.queues.generic_jobs
        ≡ total weight extra group p
  total-free_drain group p = omega (
    arith,
    total-run_promises group (free_first p.queues.generic_jobs p),
    total-free_first p.queues.generic_jobs group p refl,
  )

  tasks-behind :
      (u : Task) (o : Option (Task × List Task)) (us : List Task)
      → ((y : Task × List Task) → o ≡ some y → tasks_weight weight extra us ≡ both weight extra y)
      → (x : Task × List Task) → behind u o ≡ some x
      → tasks_weight weight extra (u ∷ us) ≡ both weight extra x
  tasks-behind u none us h x e = absurd cc
  tasks-behind u (some (v, vs)) us h x e =
      let together : tasks_weight weight extra (u ∷ us) ≡ both weight extra (v, u ∷ vs) =
        omega (arith, h (v, vs) refl) in
      together ∙ ap (both weight extra) (some_inj e)

  tasks-remove_at :
      (ts : List Task) (i : ℕ) (x : Task × List Task)
      → remove_at ts i ≡ some x
      → tasks_weight weight extra ts ≡ both weight extra x
  tasks-remove_at [] i x e = absurd cc
  tasks-remove_at (u ∷ us) zero x e = ap (both weight extra) (some_inj e)
  tasks-remove_at (u ∷ us) (suc i) x e =
      tasks-behind u (remove_at us i) us (tasks-remove_at us i) x e

  pub total-poll_once :
      (answer : Option ℕ) (group : List Task) (p : Progress)
      → total weight extra (poll_once answer group p).0 (poll_once answer group p).1
        ≡ total weight extra group p
  unfolding poll_once
  total-poll_once none group p = refl
  total-poll_once (some i) group p = by_place (remove_at group i) refl
    where
      by_place :
          (o : Option (Task × List Task))
          → remove_at group i ≡ o
          → total weight extra (complete o group p).0 (complete o group p).1
            ≡ total weight extra group p
      by_place none e = refl
      by_place (some (t, rest)) e =
          omega (arith, total-call t rest p, tasks-remove_at group i (t, rest) e)

  pub total-free_work :
      (answer : Option ℕ) (group : List Task) (p : Progress)
      → total weight extra (free_work answer group p).0 (free_work answer group p).1
          + head extra (poll_once answer group p).1.queues.generic_jobs
        ≡ total weight extra group p
  total-free_work answer group p =
      total-free_drain (poll_once answer group p).0 (poll_once answer group p).1
      ∙ total-poll_once answer group p

  pub total-take_async :
      (group : List Task) (p : Progress)
      → total weight extra (take_async group p).0 (take_async group p).1
        ≡ total weight extra group p
  unfolding take_async
  total-take_async group p = omega (arith, tasks-append group p.queues.async_jobs)

  -- Nothing is lost where no generic job weighs more.
  pub total-unweighed :
      ((t : Task) → extra t ≡ 0)
      → (answer : Option ℕ) (group : List Task) (p : Progress)
      → total weight extra (free_work answer group p).0 (free_work answer group p).1
        ≡ total weight extra group p
  total-unweighed same answer group p =
      by_queue (poll_once answer group p).1.queues.generic_jobs (total-free_work answer group p)
    where
      by_queue : {m n : ℕ} (queue : List Task) → m + head extra queue ≡ n → m ≡ n
      by_queue [] h = omega (arith, h)
      by_queue (t ∷ ts) h = omega (arith, h, same t)
