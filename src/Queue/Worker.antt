-- ===== src/Queue/Worker.antt =====
-- chatterbox-server/job_worker.py: one job in the worker thread. A handler is a function of the
-- job that also stands for whatever other threads do to the queue while it runs.
pub mod Errors
pub mod Laws
use Prim.Native.String.{◌++◌ as str_append}
use ziguijia_translate_ml.Common.{
  ℕ, zero, suc, String, Bool, true, not, Option, none, some, [], ◌∷◌, if◌then◌else◌, is_nonempty,
  is_some,
}
use ziguijia_translate_ml.Sql.{select, update_key, rowcount_key}
use ziguijia_translate_ml.Job.{pending, processing, completed, failed, Row, value, is_status}
use ziguijia_translate_ml.Job.Handlers.{
  Imported, RunFunc, run_func, no_run_func, raised, get_run_func,
}
use ziguijia_translate_ml.Queue.{JobQueue, prewarm, emit, publish_job_status}
use ziguijia_translate_ml.Queue.Worker.Errors.{Exception}
use ziguijia_translate_ml.Queue.Control.{is_active}

-- How a handler ends.
pub data Outcome : Type 0 where
  returned : Outcome
  raises : Exception → Outcome

abbrev pub Handler : Type 0
Handler = (access_code : String) → Row → JobQueue → Outcome × JobQueue

-- The statements of `_run_job` and `_try_mark_failed`, each with its commit. A `sqlite3.Error` of a
-- statement leaves the table as it is.
pub data Statement : Type 0 where
  job_read unloaded_update claim_update completed_update first_attempt second_attempt : Statement

abbrev pub Failures : Type 0
Failures = Statement → Option Exception

-- The statement's exception, or what follows it.
abbrev pub unless : Option Exception → JobQueue → Outcome × JobQueue → Outcome × JobQueue
unless none q o = o
unless (some e) q o = (raises e, q)

-- `check_job_valid`: the message of the `RuntimeError`, if it raises.
check_row : String → Option Row → Option String
check_row code none = some (str_append "Job " (str_append code " no longer exists in database"))
check_row code (some r) =
    if not (is_active r)
    then some (
        str_append "Job "
          (str_append code (str_append " is " (str_append (value r.status) ", aborting"))))
    else none

unfoldable pub check_job_valid : (access_code : String) → JobQueue → Option String
unfolding check_row
check_job_valid code q = check_row code (select code q.jobs)

-- The row that `_try_mark_failed` writes.
abbrev pub failed_row : ℕ → String → Row → Row
failed_row now msg r = record r {
  status = failed;
  error = some msg;
  failed_at = some now;
  status_changed_at = some now;
}

unfoldable pub mark_failed : ℕ → String → String → JobQueue → JobQueue
mark_failed now code msg q =
    publish_job_status code (value failed) (("error", msg) ∷ [])
      (record q { jobs = update_key code (λ _. true) (failed_row now msg) q.jobs })

-- The two attempts, each of which may meet a `sqlite3.Error`.
unfoldable pub try_mark_failed :
    (fails : Failures) → (now : ℕ) → (access_code error_msg : String) → JobQueue → JobQueue
unfolding mark_failed
try_mark_failed fails now code msg q =
    if is_some (fails first_attempt)
    then (if is_some (fails second_attempt) then q else mark_failed now code msg q)
    else mark_failed now code msg q

-- The row that a job gets whose handler cannot be had: no `failed_at`, and no message.
abbrev pub unloaded_row : ℕ → String → Row → Row
unloaded_row now msg r = record r {
  status = failed;
  error = some msg;
  status_changed_at = some now;
}

unfoldable pub unloaded : ℕ → String → String → JobQueue → JobQueue
unloaded now code msg q = record q {
  jobs = update_key code (λ _. true) (unloaded_row now msg) q.jobs;
}

-- The row that a claim writes.
abbrev pub claim_row : ℕ → Row → Row
claim_row now r = record r { status = processing; status_changed_at = some now }

abbrev pub is_pending : Row → Bool
is_pending r = is_status r.status pending

-- The row that a completed job gets.
abbrev pub completed_row : ℕ → Row → Row
completed_row now r = record r {
  status = completed;
  status_changed_at = some now;
  completed_at = some now;
}

-- What `_run_job` does behind `run_func(job)`: a raised exception passes through.
unfoldable pub finish_job : Failures → ℕ → String → Outcome × JobQueue → Outcome × JobQueue
finish_job fails now code (raises e, q) = (raises e, q)
finish_job fails now code (returned, q) = unless (fails completed_update) q (
  returned,
  publish_job_status code (value completed) []
      (record q { jobs = update_key code (λ _. true) (completed_row now) q.jobs }),
)

-- `_get_run_func(run_func_name) if run_func_name else None`
abbrev pub handler_of : (String → String → Imported Handler) → Option String → RunFunc Handler
handler_of import_attr none = no_run_func
handler_of import_attr (some name) =
    if is_nonempty name then get_run_func import_attr name else no_run_func

abbrev pub name_of : Option String → String
name_of none = ""
name_of (some name) = name

-- The queue as a handler finds it: its job is claimed, which is published, and the daemons that it
-- will use are being warmed.
unfoldable pub claimed : ℕ → String → Row → JobQueue → JobQueue
claimed now code r q = emit (prewarm (name_of r.run_func_name)) (
    publish_job_status code (value processing) []
      (record q { jobs = update_key code is_pending (claim_row now) q.jobs }))

-- The UPDATE that claims a pending job; where it touches no row, the job is skipped.
unfoldable pub claim_job : Handler → Failures → ℕ → ℕ → String → Row → JobQueue → Outcome × JobQueue
unfolding finish_job claimed
claim_job handler fails now now' code r q =
    let run = finish_job fails now' code (handler code r (claimed now code r q)) in
    unless (fails claim_update) q
      (elim (rowcount_key code is_pending q.jobs) [ zero ↦ (returned, q) | suc _ ↦ run ])

module _ (import_attr : String → String → Imported Handler) (fails : Failures) (now now' : ℕ)
    (code : String) where
  unfoldable pub with_handler : RunFunc Handler → Row → JobQueue → Outcome × JobQueue
  unfolding claim_job unloaded
  with_handler (raised e) r q =
      unless (fails unloaded_update) q
        (returned, unloaded now code (str_append "Handler import failed: " e) q)
  with_handler no_run_func r q =
      unless (fails unloaded_update) q (returned, unloaded now code "Job handler not found" q)
  with_handler (run_func handler) r q = claim_job handler fails now now' code r q

  run_row : Option Row → JobQueue → Outcome × JobQueue
  unfolding with_handler
  run_row none q = (returned, q)
  run_row (some r) q = with_handler (handler_of import_attr r.run_func_name) r q

  -- `now` is the time at the claim, and `now'` the time when the handler has returned.
  unfoldable pub run_job : JobQueue → Outcome × JobQueue
  unfolding run_row
  run_job q = unless (fails job_read) q (run_row (select code q.jobs) q)
