-- ===== src/Queue/Loop/Laws.antt =====
-- What one turn of the worker's loop does with a job.
use mathlib.Core.Option
use ziguijia_translate_ml.Common.{
  ℕ, String, ◌≡◌, ◌≢◌, false, none, some, ◌⊎◌, if◌then◌else◌, str_eq,
}
use ziguijia_translate_ml.Sql.{select}
use ziguijia_translate_ml.Sql.Keys.{IsKeyed}
use ziguijia_translate_ml.Job.{pending, completed, failed, Row}
use ziguijia_translate_ml.Job.Handlers.{Imported, run_func}
use ziguijia_translate_ml.Queue.{JobQueue}
use ziguijia_translate_ml.Queue.Worker.{
  Outcome, returned, raises, Handler, handler_of, claimed, completed_row, failed_row, finish_job,
  Failures, job_read, claim_update, completed_update, first_attempt, second_attempt,
}
use ziguijia_translate_ml.Queue.Worker.Errors.{Exception, format_job_error}
use ziguijia_translate_ml.Queue.Worker.Laws.{
  run_job_stale, run_job_runs, select-finish_job, select-try_mark_failed,
}
use ziguijia_translate_ml.Queue.Loop.{after_job, process_code}

-- The queue at the start of `_process_job`.
abbrev pub taken : String → JobQueue → JobQueue
taken code q = record q { current = some code; cancel_event = false }

module _ (import_attr : String → String → Imported Handler) (fails : Failures) (now now' : ℕ)
    (code : String) where
  after_returned :
      (o : Outcome × JobQueue) (j : String)
      → o.0 ≡ returned
      → fails completed_update ≡ none
      → select j (after_job import_attr fails now now' code (finish_job fails now' code o)).jobs ≡ (
          if str_eq code j
          then Option.map (completed_row now') (select j o.1.jobs)
          else select j o.1.jobs)
  unfolding after_job finish_job
  after_returned (returned, q) j h writes =
      rw writes (rw (finish_job, writes) at (select-finish_job fails now' code q j writes))
  after_returned (raises e, q) j h writes = cc

  after_raises :
      (o : Outcome × JobQueue) (j : String) (e : Exception)
      → o.0 ≡ raises e
      → (fails first_attempt ≡ none) ⊎ (fails second_attempt ≡ none)
      → select j (after_job import_attr fails now now' code (finish_job fails now' code o)).jobs ≡ (
          if str_eq code j
          then Option.map (failed_row now' (format_job_error e)) (select j o.1.jobs)
          else select j o.1.jobs)
  unfolding after_job finish_job
  after_raises (returned, q) j e h w = cc
  after_raises (raises e', q) j e h w =
      let p : e ≡ e' = cc in
      rw p (select-try_mark_failed fails now' code (format_job_error e') q j w)

  module _ (read : fails job_read ≡ none) (claims : fails claim_update ≡ none) (q : JobQueue)
      (keyed : IsKeyed q.jobs) (r : Row) (found : select code q.jobs ≡ some r) (handler : Handler)
      (loads : handler_of import_attr r.run_func_name ≡ run_func handler) where
    -- A code whose job is not pending is a stale queue entry: where its handler can be loaded, and the
    -- job's row can be read and its claim tried, the handler is not called, and no row and no queue
    -- changes.
    pub process_code_stale :
        r.status ≢ pending
        → process_code import_attr fails now now' code q
          ≡ record q { current = none; cancel_event = false }
    unfolding process_code
    process_code_stale h = rw (
        run_job_stale import_attr fails now now' code read claims (taken code q) keyed r found
          handler loads h)

    -- How the handler of a pending job ends, and the queue that it leaves.
    abbrev pub handled : Outcome × JobQueue
    handled = handler code r (claimed now code r (taken code q))

    process_code_runs :
        r.status ≡ pending
        → process_code import_attr fails now now' code q
          ≡ record (after_job import_attr fails now now' code
              (finish_job fails now' code handled)) { current = none }
    unfolding process_code
    process_code_runs h = rw (
        run_job_runs import_attr fails now now' code read claims (taken code q) keyed r found
          handler loads h)

    -- A pending job that is read and claimed and whose handler returns is completed, with the time of
    -- that, whatever its row says by then, where the row can be written; its other columns and every
    -- other row are as the handler left them.
    pub process_code_returned :
        r.status ≡ pending
        → handled.0 ≡ returned
        → fails completed_update ≡ none
        → (j : String)
        → select j (process_code import_attr fails now now' code q).jobs ≡ (
            if str_eq code j
            then Option.map
                (λ (row : Row). record row {
                  status = completed;
                  status_changed_at = some now';
                  completed_at = some now';
                })
                (select j handled.1.jobs)
            else select j handled.1.jobs)
    process_code_returned h o writes j =
        rw (process_code_runs h) (after_returned handled j o writes)

    -- A pending job that is read and claimed and whose handler raises is failed with the exception's
    -- text and the time, whatever its row says by then, where one of two attempts can write the
    -- database; its other columns and every other row are as the handler left them.
    pub process_code_raises :
        r.status ≡ pending
        → (e : Exception) → handled.0 ≡ raises e
        → (fails first_attempt ≡ none) ⊎ (fails second_attempt ≡ none)
        → (j : String)
        → select j (process_code import_attr fails now now' code q).jobs ≡ (
            if str_eq code j
            then Option.map
                (λ (row : Row). record row {
                  status = failed;
                  error = some (format_job_error e);
                  failed_at = some now';
                  status_changed_at = some now';
                })
                (select j handled.1.jobs)
            else select j handled.1.jobs)
    process_code_raises h e o w j = rw (process_code_runs h) (after_raises handled j e o w)
