-- ===== src/Queue/Worker/Laws.antt =====
-- What the worker does with one access code.
use mathlib.Core.Option
use ziguijia_translate_ml.Common.{
  ℕ, String, ◌≡◌, ◌≢◌, ◌∙◌, true, false, none, some, ◌⊎◌, arith, if◌then◌else◌, str_eq, eq_iff, [],
  ◌∷◌,
}
use ziguijia_translate_ml.Sql.{select, update_key, rowcount_key}
use ziguijia_translate_ml.Sql.Laws.{select-update_key}
use ziguijia_translate_ml.Sql.Keys.{IsKeyed, rowcount_key_lem}
use ziguijia_translate_ml.Job.{JobStatus, pending, failed, Row, value, is_status}
use ziguijia_translate_ml.Job.Handlers.{Imported, run_func}
use ziguijia_translate_ml.Queue.{JobQueue}
use ziguijia_translate_ml.Queue.Frame.{frame, jobs-publish_job_status}
use ziguijia_translate_ml.Queue.Worker.{
  returned, Handler, handler_of, claimed, claim_row, claim_job, is_pending, completed_row,
  finish_job, run_job, try_mark_failed, mark_failed, failed_row, Failures, job_read, claim_update,
  completed_update, first_attempt, second_attempt,
}

pub is_pending_false : (s : JobStatus) → s ≢ pending → is_status s pending ≡ false
is_pending_false s h = ground arith

module _ (import_attr : String → String → Imported Handler) (fails : Failures) (now now' : ℕ)
    (code : String) (read : fails job_read ≡ none) (claims : fails claim_update ≡ none)
    (q : JobQueue) (keyed : IsKeyed q.jobs) (r : Row) (found : select code q.jobs ≡ some r)
    (handler : Handler) (loads : handler_of import_attr r.run_func_name ≡ run_func handler) where
  run_job-claim_job :
      run_job import_attr fails now now' code q ≡ claim_job handler fails now now' code r q
  unfolding run_job
  run_job-claim_job = rw read (rw found (rw loads))

  rowcount_not_pending : r.status ≢ pending → rowcount_key code is_pending q.jobs ≡ 0
  rowcount_not_pending h =
      rowcount_key_lem code is_pending q.jobs keyed ∙ rw found (rw (is_pending_false r.status h))

  rowcount_pending : r.status ≡ pending → rowcount_key code is_pending q.jobs ≡ 1
  rowcount_pending h = rowcount_key_lem code is_pending q.jobs keyed ∙ rw found (rw h)

  -- A code whose job is not pending is a stale queue entry: the handler is not called, and nothing
  -- changes.
  pub run_job_stale : r.status ≢ pending → run_job import_attr fails now now' code q ≡ (returned, q)
  unfolding claim_job
  run_job_stale h = rw run_job-claim_job (rw (claims, rowcount_not_pending h, claim_job))

  pub run_job_runs :
      r.status ≡ pending
      → run_job import_attr fails now now' code q
        ≡ finish_job fails now' code (handler code r (claimed now code r q))
  unfolding claim_job
  run_job_runs h = rw run_job-claim_job (rw (claims, rowcount_pending h, claim_job))

-- At the call of the handler, exactly the claimed job's row has changed: it is processing.
pub select-claimed :
    (now : ℕ) (code : String) (r : Row) (q : JobQueue)
    → select code q.jobs ≡ some r
    → r.status ≡ pending
    → (j : String)
    → select j (claimed now code r q).jobs
      ≡ (if str_eq code j then some (claim_row now r) else select j q.jobs)
unfolding claimed
select-claimed now code r q found h j =
    rw (jobs-publish_job_status, select-update_key) (ground (arith, eq_iff code j))

-- Where the handler has returned, its job is completed, whatever the row says by then.
pub select-finish_job :
    (fails : Failures) (now : ℕ) (code : String) (q : JobQueue) (j : String)
    → fails completed_update ≡ none
    → select j (finish_job fails now code (returned, q)).1.jobs ≡ (
        if str_eq code j then Option.map (completed_row now) (select j q.jobs) else select j q.jobs)
unfolding finish_job
select-finish_job fails now code q j writes = rw writes (simp (frame, select-update_key))

-- A job is marked as failed, whatever its row says by then, where the database can be written at
-- the first or the second attempt.
pub select-try_mark_failed :
    (fails : Failures) (now : ℕ) (code msg : String) (q : JobQueue) (j : String)
    → (fails first_attempt ≡ none) ⊎ (fails second_attempt ≡ none)
    → select j (try_mark_failed fails now code msg q).jobs ≡ (
        if str_eq code j
        then Option.map (failed_row now msg) (select j q.jobs)
        else select j q.jobs)
unfolding try_mark_failed mark_failed
select-try_mark_failed fails now code msg q j h = ground (
  arith,
  jobs-publish_job_status code (value failed) (("error", msg) ∷ [])
      (record q { jobs = update_key code (λ _. true) (failed_row now msg) q.jobs }),
  select-update_key code j (λ _. true) (failed_row now msg) q.jobs,
  eq_iff code j,
)
