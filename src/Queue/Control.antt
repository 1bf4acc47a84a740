-- ===== src/Queue/Control.antt =====
-- jobqueue.py: `cancel_job`, `delete_job`, `update_job_progress` and `update_target_language`.
pub mod Laws
use Prim.Native.String.{◌++◌ as str_append}
use ziguijia_translate_ml.Common.{
  ℕ, String, Bool, true, false, not, Option, none, some, [], ◌∷◌, ◌||◌, if◌then◌else◌, str_eq,
  is_nonempty,
}
use ziguijia_translate_ml.Sql.{select, update_key}
use ziguijia_translate_ml.Job.{pending, processing, cancelled, deleted, Row, value, is_status}
use ziguijia_translate_ml.Queue.{
  JobQueue, terminate, Reply, success, failure, emit, publish_job_status,
}

-- `status in (PENDING, PROCESSING)`
abbrev pub is_active : Row → Bool
is_active r = is_status r.status pending || is_status r.status processing

-- `if output_dir:` and the loops over the processes that follow
unfoldable pub terminate_processes : Option String → JobQueue → JobQueue
terminate_processes none q = q
terminate_processes (some dir) q = if is_nonempty dir then emit (terminate dir) q else q

abbrev pub is_current : String → Option String → Bool
is_current code none = false
is_current code (some c) = str_eq code c

-- The `with self._cancel_lock` block.
unfoldable pub signal_worker : String → JobQueue → JobQueue
signal_worker code q = if is_current code q.current then record q { cancel_event = true } else q

-- The row that the UPDATE of `cancel_job` writes.
abbrev pub cancel_row : ℕ → Row → Row
cancel_row now r = record r {
  status = cancelled;
  error = some "Cancelled by user";
  cancelled_at = some now;
  status_changed_at = some now;
}

unfoldable pub cancel_update : ℕ → String → JobQueue → JobQueue
cancel_update now code q =
    publish_job_status code (value cancelled) []
      (record q { jobs = update_key code is_active (cancel_row now) q.jobs })

cancel_checked : (JobQueue → JobQueue) → ℕ → String → Option Row → JobQueue → Reply × JobQueue
unfolding terminate_processes signal_worker cancel_update
cancel_checked meanwhile now code none q = (failure "Job not found", q)
cancel_checked meanwhile now code (some r) q =
    if not (is_active r)
    then (failure (str_append "Job is already " (str_append (value r.status) ", cannot cancel")), q)
    else (
      success "Job cancelled",
      cancel_update now code (signal_worker code (meanwhile (terminate_processes r.output_dir q))),
    )

-- `meanwhile` is what other threads do between the SELECT and the UPDATE, where the code waits up
-- to three seconds for the processes to end.
unfoldable pub cancel_job :
    (meanwhile : JobQueue → JobQueue)
    → (now : ℕ) → (access_code : String) → JobQueue
    → Reply × JobQueue
unfolding cancel_checked
cancel_job meanwhile now code q = cancel_checked meanwhile now code (select code q.jobs) q

-- The row that the UPDATE of `delete_job` writes.
abbrev pub delete_row : ℕ → Row → Row
delete_row now r = record r {
  status = deleted;
  error = some "Deleted by user";
  deleted_at = some now;
  status_changed_at = some now;
}

delete_checked : ℕ → String → Option Row → JobQueue → Reply × JobQueue
delete_checked now code none q = (failure "Job not found", q)
delete_checked now code (some r) q =
    (success "Job hidden", record q { jobs = update_key code (λ _. true) (delete_row now) q.jobs })

unfoldable pub delete_job : (now : ℕ) → (access_code : String) → JobQueue → Reply × JobQueue
unfolding delete_checked
delete_job now code q = delete_checked now code (select code q.jobs) q

unfoldable pub update_job_progress : (access_code progress : String) → JobQueue → JobQueue
update_job_progress code progress q =
    publish_job_status code "progress" (("progress", progress) ∷ []) (record q {
      jobs = update_key code (λ _. true) (λ r. record r { progress = some progress }) q.jobs;
    })

unfoldable pub update_target_language : (access_code lang : String) → JobQueue → JobQueue
update_target_language code lang q = record q {
  jobs = update_key code (λ _. true) (λ r. record r { target_language = lang }) q.jobs;
}
