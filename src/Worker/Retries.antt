-- ===== src/Worker/Retries.antt =====
-- How often the worker (internal/worker/service.go) runs a job.
use ai_workflow.Base.{
  ◌≤◌, ◌<◌, ◌≡◌, refl, ap, ◌⊎◌, inl, inr, Bool, true, false, none, some, [], ◌∷◌, ◌++◌, arith, ltb,
  Bool-cases, Result, ok, err, is_blank,
}
use mathlib.Core.Path.{subst}
use ai_workflow.Base.{ite_rule}
use ai_workflow.Workflow.Service
use ai_workflow.Base.Dict.{lookup}
use ai_workflow.Executor.{Run, RunStatus-discrete, Env, failed, queued, dead_letter}
use ai_workflow.Executor.Jobs.{Job, MemoryQueue, dequeue, enqueue_after}
use ai_workflow.Executor.Repository.{update_run, get_run}
use ai_workflow.Executor.Repository.Laws.{lookup-insert_same}
use ai_workflow.Executor.Service.{Error, System, audit_run, workflow_error, error_text}
use ai_workflow.Executor.Service.Async.{
  fail_run, process_run, process_workflow, process_async_job, mark_async_retry, mark_dead_letter,
}
use ai_workflow.Worker.{
  process_next, dequeued, after_processing, retry_or_give_up, requeue, retry_job,
}

-- What happens to the run of a failed job: it is queued again, behind a timer and with the attempts
-- that the run has used and may use, while attempts are left, and given up otherwise.
abbrev pub RetriedOrDead : Job → Run → MemoryQueue → Result Error Bool × System → Type 0
RetriedOrDead job run q x =
    (x.0 ≡ ok true)
    × (r : Run) × (lookup run.id x.1.store.runs ≡ some r)
    × (r.attempt ≡ run.attempt)
    × ((run.attempt < run.max_attempts)
          × (r.status ≡ queued)
          × (x.1.jobs
              ≡ some (record q {
                delayed =
                    q.delayed
                    ++ record job { attempt = run.attempt; max_attempts = run.max_attempts } ∷ [];
              }))
        ⊎ (run.max_attempts ≤ run.attempt) × (r.status ≡ dead_letter))

module _ (env : Env) where
  retry_or_give_up_lem :
      (job : Job) (run : Run) (q : MemoryQueue) (s : System)
      → RetriedOrDead job run q (retry_or_give_up env none job run q s)
  unfolding retry_or_give_up retry_job requeue enqueue_after mark_async_retry mark_dead_letter
      audit_run update_run
  retry_or_give_up_lem job run q s = elim (Bool-cases (ltb run.attempt run.max_attempts)) [
    | inl left ↦
        simp left
          (refl, _, lookup-insert_same run.id _ s.store.runs, refl, inl (ground arith, refl, refl))
    | inr used ↦
        simp used
          (refl, _, lookup-insert_same run.id _ s.store.runs, refl, inr (ground arith, refl))
  ]

  after_processing_lem :
      (job : Job) (run : Run) (q : MemoryQueue) (x : Result Error Run × System)
      → x.0 ≡ ok run
      → run.status ≡ failed
      → RetriedOrDead job run q (after_processing env none job q x)
  unfolding after_processing
  after_processing_lem job run q (err e, s) h f = absurd (cc h)
  after_processing_lem job run q (ok r, s) h f =
      let same : run ≡ r = cc h in
      subst (λ y. RetriedOrDead job run q (after_processing env none job q (ok y, s))) same
        (ite_rule (RetriedOrDead job run q) (RunStatus-discrete run.status failed) _ _
          (λ e. retry_or_give_up_lem job run q s) (λ ne. absurd (ne f)))

-- When the processing of the oldest job fails, and the context goes on, its run is queued again,
-- and the job is put behind a timer with the numbers of attempts that the run has used and may use
-- and otherwise as it was, while the run has attempts left; otherwise the run is given up as a dead
-- letter.
pub process_next_lem :
    (env : Env) (job : Job) (run : Run) (q q' : MemoryQueue) (s : System)
    → dequeue q ≡ (some job, q')
    → (process_async_job env job (record s { jobs = some q' })).0 ≡ ok run
    → run.status ≡ failed
    → RetriedOrDead job run q' (process_next env none q s)
unfolding process_next dequeued
process_next_lem env job run q q' s e h f = rw e (
    after_processing_lem env job run q' (process_async_job env job (record s { jobs = some q' })) h
      f)

missing_workflow :
    (env : Env) (job : Job) (run : Run) (s : System) (e : Service.Error)
    → is_blank job.tenant_id ≡ false
    → get_run job.tenant_id job.run_id s.store ≡ ok run
    → run.status ≡ queued
    → Service.get job.tenant_id job.workflow_id s.workflows ≡ err e
    → process_async_job env job s
      ≡ (let (run', s') = fail_run env run (error_text (workflow_error e)) s in (ok run', s'))
unfolding process_async_job process_run process_workflow
missing_workflow env job run s e given found status missing =
    simp (given, found)
      (ite_rule
        (λ (x : Result Error Run × System).
          x
          ≡ (let (run', s') = fail_run env run (error_text (workflow_error e)) s in (ok run', s')))
        (RunStatus-discrete run.status queued) _ _ (λ same. simp missing refl)
        (λ ne. absurd (ne status)))

-- When the oldest job is of a queued run with attempts left, of a tenant that is not blank, whose
-- workflow is not found, the run uses up no attempt: it is stored as queued with the attempts it
-- had, and the job is queued again behind a timer with these attempts.
pub missing_workflow_retried :
    (env : Env) (job : Job) (run : Run) (q q' : MemoryQueue) (s : System) (e : Service.Error)
    → dequeue q ≡ (some job, q')
    → is_blank job.tenant_id ≡ false
    → get_run job.tenant_id job.run_id s.store ≡ ok run
    → run.status ≡ queued
    → Service.get job.tenant_id job.workflow_id s.workflows ≡ err e
    → run.attempt < run.max_attempts
    → (r : Run) × (lookup run.id (process_next env none q s).1.store.runs ≡ some r)
      × (r.status ≡ queued)
      × (r.attempt ≡ run.attempt)
      × ((process_next env none q s).1.jobs
          ≡ some (record q' { delayed = q'.delayed ++ retry_job job run ∷ [] }))
unfolding fail_run retry_job
missing_workflow_retried env job run q q' s e taken given found status missing left =
    let s0 = record s { jobs = some q' } in
    let (run', s1) = fail_run env run (error_text (workflow_error e)) s0 in
    let failing = missing_workflow env job run s0 e given found status missing in
    let (_, r, stored, attempt, fate) =
      process_next_lem env job run' q q' s taken (ap (λ x. x.0) failing) refl in
    elim fate [
      | inl (_, again, jobs) ↦ (r, stored, again, attempt, jobs)
      | inr (used, _) ↦ absurd (omega (arith, used, left))
    ]
