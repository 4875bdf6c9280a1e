-- ===== src/Runtime/Jobs/Waiting.antt =====
-- A group none of whose futures completes.
use madrpc.Prelude.{
  ℕ, zero, suc, ◌+◌, ◌<◌, ◌≡◌, refl, sym, ap, subst, ◌⊎◌, inl, inr, false, ◌&&◌, Option, none, List,
  [], ◌∷◌, arith, length, length-append,
}
use madrpc.Runtime.Jobs.{
  Task, TokioJobExecutor, Progress, take_async, all_done, poll_once, Run, out_of_fuel, panicked,
  run_loop, run_jobs_async, is_empty,
}
use madrpc.Runtime.Jobs.Borrows.{free_work, zero_or_more}
use madrpc.Runtime.Jobs.Ending.{Next, worked, fault, run_loop-works, run_loop-panics}

free_work-none :
    (group : List Task) (p : Progress) (o : Option ℕ) → o ≡ none → (free_work o group p).0 ≡ group
unfolding poll_once
free_work-none group p o e = rw (e) refl

grouped :
    (ts us vs : List Task) → 0 < length ts → (is_empty ts && is_empty us && is_empty vs) ≡ false
grouped [] us vs h = absurd (omega arith)
grouped (t ∷ ts) us vs h = refl

taken :
    (group : List Task) (p : Progress)
    → 0 < length group + length p.queues.async_jobs
    → 0 < length (take_async group p).0
unfolding take_async
taken group p h = omega (arith, h, length-append group p.queues.async_jobs)

not_ended :
    (group : List Task) (p : Progress)
    → 0 < length group + length p.queues.async_jobs
    → all_done (take_async group p).0 (take_async group p).1 ≡ false
unfolding all_done
not_ended group p h = grouped (take_async group p).0 _ _ (taken group p h)

still_held :
    (next : Next) (t : ℕ) (group : List Task) (p : Progress)
    → ((t n : ℕ) → next t n ≡ none)
    → 0 < length group + length p.queues.async_jobs
    → 0 < length (worked next t group p).0 + length (worked next t group p).1.queues.async_jobs
still_held next t group p never h =
    let same =
      free_work-none (take_async group p).0 (take_async group p).1 _
        (never t (length (take_async group p).0)) in
    let e = ap length same in omega (arith, e, taken group p h)

-- The loop is still waiting, or has panicked.
abbrev Stuck : Run → Type 0
Stuck run = (run ≡ out_of_fuel) ⊎ (run ≡ panicked)

run_loop-waits :
    (next : Next) (fuel t : ℕ) (group : List Task) (p : Progress)
    → ((t n : ℕ) → next t n ≡ none)
    → 0 < length group + length p.queues.async_jobs
    → Stuck (run_loop next fuel t group p)
unfolding run_loop
run_loop-waits next zero t group p never h = inl refl
run_loop-waits next (suc fuel) t group p never h =
    let e = not_ended group p h in
    elim (zero_or_more (fault next t group p)) [
      | inr f ↦ inr (run_loop-panics next fuel t group p e f)
      | inl f ↦
          subst Stuck (sym (run_loop-works next fuel t group p e f))
            (run_loop-waits next fuel (suc t) _ _ never (still_held next t group p never h))
    ]

-- The loop does not return, with any fuel, where an async job is queued and no future completes, if it
-- does not panic: a call that waits for the jobs then waits longer than any limit of its own.
pub run_jobs_async-waits :
    (next : Next) (fuel : ℕ) (e : TokioJobExecutor)
    → ((t n : ℕ) → next t n ≡ none)
    → 0 < length e.async_jobs
    → Stuck (run_jobs_async next fuel e)
unfolding run_jobs_async
run_jobs_async-waits next fuel e never h = run_loop-waits next fuel 0 [] _ never (omega (arith, h))
