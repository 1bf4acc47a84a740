-- ===== src/Queue/Loop.antt =====
-- jobqueue.py: the worker's loop `_process_queue`, the start-up `_load_pending_jobs`, `shutdown`
-- and `stop`.
pub mod Laws
use ziguijia_translate_ml.Common.{
  ℕ, String, Bool, true, false, not, Option, none, some, List, [], ◌∷◌, ◌&&◌, if◌then◌else◌,
  is_nonempty, is_some, str_eq, ◌==◌,
}
use ziguijia_translate_ml.Sql.{select_where, update_where}
use ziguijia_translate_ml.Job.{pending, processing, Row, is_status}
use ziguijia_translate_ml.Job.Handlers.{Imported}
use ziguijia_translate_ml.Queue.{clean_orphans, join_worker, JobQueue, emit, queue_pop, enqueue}
use ziguijia_translate_ml.Queue.Control.{terminate_processes}
use ziguijia_translate_ml.Queue.Worker.{
  Outcome, returned, raises, Handler, Failures, run_job, try_mark_failed,
}
use ziguijia_translate_ml.Queue.Worker.Errors.{format_job_error}

-- What one turn of the loop came to: the loop ended, it slept or found nothing, or it ran a job.
pub data Turn : Type 0 where
  left : Turn
  idle : Turn
  ran : String → Turn

-- `self._running and self._worker_thread is threading.current_thread()`
abbrev pub goes_on : ℕ → JobQueue → Bool
goes_on me q = q.running && (elim q.worker_thread [ none ↦ false | some t ↦ t.ident == me ])

-- The in-memory queue is drained when the loop ends.
abbrev pub leave : JobQueue → Turn × JobQueue
leave q = (left, record q { memory = []; shutdown_done = true })

-- `self._queue.get(timeout=1)`
unfoldable pub memory_pop : JobQueue → Option String × JobQueue
memory_pop q = elim q.memory [
  | [] ↦ (none, q)
  | code ∷ rest ↦ (some code, record q { memory = rest })
]

unfoldable pub or_memory : Option String × JobQueue → Option String × JobQueue
unfolding memory_pop
or_memory (some code, q) = (some code, q)
or_memory (none, q) = memory_pop q

-- The shared queue first, and the in-memory one where that has nothing.
unfoldable pub next_code : JobQueue → Option String × JobQueue
unfolding queue_pop or_memory
next_code q = or_memory (queue_pop q)

module _ (import_attr : String → String → Imported Handler) (fails : Failures) (now now' : ℕ) where
  unfoldable pub after_job : String → Outcome × JobQueue → JobQueue
  after_job code (returned, q) = q
  after_job code (raises e, q) = try_mark_failed fails now' code (format_job_error e) q

  -- The `try` around `_process_job`, and its `finally`.
  unfoldable pub process_code : String → JobQueue → JobQueue
  unfolding after_job
  process_code code q =
      let q' = record q { current = some code; cancel_event = false } in
      record (after_job code (run_job import_attr fails now now' code q')) { current = none }

  unfoldable pub take_code : Option String × JobQueue → Turn × JobQueue
  unfolding process_code
  take_code (none, q) = (idle, q)
  take_code (some code, q) = (ran code, process_code code q)

  unfoldable pub serve : JobQueue → Turn × JobQueue
  unfolding take_code next_code
  serve q =
      if q.graceful_shutdown
      then (if is_some q.current then (idle, q) else leave q)
      else take_code (next_code q)

  -- One turn in the thread `me`; `orphans_due` says that the orphan check's interval has passed.
  unfoldable pub process_queue_turn : (me : ℕ) → (orphans_due : Bool) → JobQueue → Turn × JobQueue
  unfolding serve
  process_queue_turn me orphans_due q =
      if goes_on me q then serve (if orphans_due then emit clean_orphans q else q) else leave q

-- `_kill_processes_by_output_dir` for each row that was processing
unfoldable pub terminate_all : List (String × Row) → JobQueue → JobQueue
terminate_all [] q = q
terminate_all ((code, r) ∷ rows) q = terminate_all rows (terminate_processes r.output_dir q)

unfoldable pub enqueue_all : List (String × Row) → JobQueue → JobQueue
enqueue_all [] q = q
enqueue_all ((code, r) ∷ rows) q = enqueue_all rows (enqueue code q)

abbrev pub was_processing : String → Row → Bool
was_processing code r = is_status r.status processing

abbrev pub is_waiting : String → Row → Bool
is_waiting code r = is_status r.status pending

-- WHERE status = processing, and AND access_code != current where there is one.
abbrev pub is_reset : Option String → String → Row → Bool
is_reset none code r = is_status r.status processing
is_reset (some current) code r =
    is_status r.status processing && not (is_nonempty current && str_eq code current)

abbrev pub reset_row : ℕ → Row → Row
reset_row now r = record r { status = pending; status_changed_at = some now }

unfoldable pub reset_processing : ℕ → JobQueue → JobQueue
reset_processing now q = record q {
  jobs = update_where (is_reset q.current) (reset_row now) q.jobs;
}

-- `skip` is `_SKIP_QUEUE_INIT`.
unfoldable pub load_pending_jobs : (skip : Bool) → (now : ℕ) → JobQueue → JobQueue
unfolding enqueue_all terminate_all reset_processing
load_pending_jobs skip now q =
    let q' = emit clean_orphans q in
    let q'' = reset_processing now (terminate_all (select_where was_processing q'.jobs) q') in
    if skip then q else enqueue_all (select_where is_waiting q''.jobs) q''

-- `shutdown`, up to the wait for the worker thread.
unfoldable pub shutdown : JobQueue → JobQueue
shutdown q =
    let q' = record q { graceful_shutdown = true; running = false } in
    elim q.worker_thread [ none ↦ q' | some t ↦ emit (join_worker t.ident) q' ]

unfoldable pub stop : JobQueue → JobQueue
stop q = record q { running = false }
