-- ===== src/Runtime/Jobs.antt =====
-- crates/madrpc-server/src/runtime/job_executor.rs: the three queues of jobs and the loop that runs them.
-- A job is its name and the jobs that it enqueues when it runs; the future of an async job does so where
-- it completes. Which future of the group completes when the group is polled is an argument, `next`, by
-- the round of the loop and the size of the group. The names of the jobs that have run are kept beside
-- the queues. The call of an async job only makes its future. The queue of generic jobs is borrowed while a generic job runs, and `borrow_mut` panics
-- where a job that runs then enqueues another one.
pub mod Accounts
pub mod Borrows
pub mod Counts
pub mod Ending
pub mod Termination
pub mod Waiting
use madrpc.Prelude.{
  ℕ, zero, suc, ◌+◌, Bool, true, false, not, ◌&&◌, ◌||◌, Option, none, some, List, [], ◌∷◌, ◌++◌,
  if◌then◌else◌, length,
}

mutual
  pub data Task : Type 0 where
    task : ℕ → Jobs → Task

  pub data Job : Type 0 where
    promise_job : Task → Job
    async_job : Task → Job
    generic_job : Task → Job
    timeout_job : Task → Job

  pub data Jobs : Type 0 where
    no_jobs : Jobs
    then_job : Job → Jobs → Jobs

pub record TokioJobExecutor : Type 0 where
  pub promise_jobs : List Task
  pub async_jobs : List Task
  pub generic_jobs : List Task

unfoldable pub new_executor : TokioJobExecutor
new_executor = record { promise_jobs = []; async_jobs = []; generic_jobs = [] }

abbrev pub is_empty : List Task → Bool
is_empty [] = true
is_empty (t ∷ ts) = false

unfoldable pub has_pending_jobs : TokioJobExecutor → Bool
has_pending_jobs e =
    not (is_empty e.promise_jobs) || not (is_empty e.async_jobs) || not (is_empty e.generic_jobs)

unfoldable pub enqueue_job : Job → TokioJobExecutor → TokioJobExecutor
enqueue_job (promise_job t) e = record e { promise_jobs = e.promise_jobs ++ t ∷ [] }
enqueue_job (async_job t) e = record e { async_jobs = e.async_jobs ++ t ∷ [] }
enqueue_job (generic_job t) e = record e { generic_jobs = e.generic_jobs ++ t ∷ [] }
enqueue_job (timeout_job t) e = e

unfoldable pub enqueue_all : Jobs → TokioJobExecutor → TokioJobExecutor
unfolding enqueue_job
enqueue_all no_jobs e = e
enqueue_all (then_job j js) e = enqueue_all js (enqueue_job j e)

-- The queues, and the names of the jobs that have run, from the first.
pub record Progress : Type 0 where
  pub queues : TokioJobExecutor
  pub ran : List ℕ

unfoldable pub call : Task → Progress → Progress
call (task name spawned) p = record {
  queues = enqueue_all spawned p.queues;
  ran = p.ran ++ name ∷ [];
}

-- `for job in jobs`.
unfoldable pub call_all : List Task → Progress → Progress
call_all [] p = p
call_all (t ∷ ts) p = call_all ts (call t p)

-- `enqueue_job` while the queue of generic jobs is borrowed: `none` is the panic of `borrow_mut`.
unfoldable pub enqueue_borrowed : Job → TokioJobExecutor → Option TokioJobExecutor
enqueue_borrowed (promise_job t) e = some (enqueue_job (promise_job t) e)
enqueue_borrowed (async_job t) e = some (enqueue_job (async_job t) e)
enqueue_borrowed (generic_job t) e = none
enqueue_borrowed (timeout_job t) e = some (enqueue_job (timeout_job t) e)

abbrev pub enqueue_next : Job → Option TokioJobExecutor → Option TokioJobExecutor
enqueue_next j none = none
enqueue_next j (some e) = enqueue_borrowed j e

unfoldable pub enqueue_all_borrowed : Jobs → Option TokioJobExecutor → Option TokioJobExecutor
enqueue_all_borrowed no_jobs o = o
enqueue_all_borrowed (then_job j js) o = enqueue_all_borrowed js (enqueue_next j o)

abbrev pub called : ℕ → List ℕ → Option TokioJobExecutor → Option Progress
called name ran none = none
called name ran (some e) = some (record { queues = e; ran = ran ++ name ∷ [] })

-- `generic.call(context)` in the `if let`, whose borrow of the queue lasts as long as its body.
unfoldable pub call_borrowed : Task → Progress → Option Progress
call_borrowed (task name spawned) p =
    called name p.ran (enqueue_all_borrowed spawned (some p.queues))

abbrev pub run_first : List Task → Progress → Option Progress
run_first [] p = some p
run_first (t ∷ ts) p =
    call_borrowed t (record p { queues = record (p.queues) { generic_jobs = ts } })

unfoldable pub run_generic : Progress → Option Progress
run_generic p = run_first p.queues.generic_jobs p

unfoldable pub run_promises : Progress → Progress
run_promises p =
    call_all p.queues.promise_jobs (record p { queues = record (p.queues) { promise_jobs = [] } })

abbrev pub after_generic : Option Progress → Option Progress
after_generic none = none
after_generic (some p) = some (run_promises p)

unfoldable pub drain_jobs : Progress → Option Progress
drain_jobs p = after_generic (run_generic p)

abbrev pub behind : Task → Option (Task × List Task) → Option (Task × List Task)
behind t none = none
behind t (some (u, us)) = some (u, t ∷ us)

-- The future at a position of the group, and the others.
abbrev pub remove_at : List Task → ℕ → Option (Task × List Task)
remove_at [] i = none
remove_at (t ∷ ts) zero = some (t, ts)
remove_at (t ∷ ts) (suc i) = behind t (remove_at ts i)

abbrev pub complete : Option (Task × List Task) → List Task → Progress → List Task × Progress
complete none group p = (group, p)
complete (some (t, rest)) group p = (rest, call t p)

-- `future::poll_once(group.next())`: the group and the progress after it.
unfoldable pub poll_once : Option ℕ → List Task → Progress → List Task × Progress
poll_once none group p = (group, p)
poll_once (some i) group p = complete (remove_at group i) group p

-- The pending async jobs join the group.
unfoldable pub take_async : List Task → Progress → List Task × Progress
take_async group p =
    (group ++ p.queues.async_jobs, record p { queues = record (p.queues) { async_jobs = [] } })

unfoldable pub all_done : List Task → Progress → Bool
all_done group p =
    is_empty group && is_empty p.queues.promise_jobs && is_empty p.queues.generic_jobs

abbrev pub held : List Task → Option Progress → Option (List Task × Progress)
held group none = none
held group (some p) = some (group, p)

-- A round of the loop that does not return: `none` is a panic.
unfoldable pub work : Option ℕ → List Task → Progress → Option (List Task × Progress)
work answer group p = held (poll_once answer group p).0 (drain_jobs (poll_once answer group p).1)

-- What becomes of the loop: `out_of_fuel` is for a fuel that is too small.
pub data Run : Type 0 where
  out_of_fuel : Run
  panicked : Run
  returned : Progress → Run

abbrev pub run_on : (List Task → Progress → Run) → Option (List Task × Progress) → Run
run_on rest none = panicked
run_on rest (some (group, p)) = rest group p

unfoldable pub run_loop : (ℕ → ℕ → Option ℕ) → ℕ → ℕ → List Task → Progress → Run
run_loop next zero round group p = out_of_fuel
run_loop next (suc fuel) round group p =
    let (group', p') = take_async group p in
    elim (all_done group' p') [
      | true ↦ returned p'
      | false ↦
          run_on (λ ts r. run_loop next fuel (suc round) ts r)
            (work (next round (length group')) group' p')
    ]

unfoldable pub run_jobs_async : (ℕ → ℕ → Option ℕ) → ℕ → TokioJobExecutor → Run
run_jobs_async next fuel e = run_loop next fuel 0 [] (record { queues = e; ran = [] })
