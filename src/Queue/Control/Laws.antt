-- ===== src/Queue/Control/Laws.antt =====
-- What a cancellation and a deletion do to the table.
use mathlib.Core.Option
use ziguijia_translate_ml.Common.{
  ℕ, String, ◌≡◌, refl, true, Option, none, some, ◌⊎◌, arith, if◌then◌else◌, str_eq, eq_iff,
  Option-cases, inl, inr, ◌||◌,
}
use ziguijia_translate_ml.Sql.{select}
use ziguijia_translate_ml.Sql.Laws.{select-update_key}
use ziguijia_translate_ml.Job.{pending, processing, cancelled, Row, is_status}
use ziguijia_translate_ml.Queue.{JobQueue, success, failure}
use ziguijia_translate_ml.Queue.Submit.Laws.{Reply-cases}
use ziguijia_translate_ml.Queue.Frame.{frame}
use ziguijia_translate_ml.Queue.Control.{
  is_active, terminate_processes, signal_worker, cancel_job, delete_row, delete_job,
}

pub jobs-signal_worker : (code : String) (q : JobQueue) → (signal_worker code q).jobs ≡ q.jobs
unfolding signal_worker
jobs-signal_worker code q = ground arith

pub memory-signal_worker : (code : String) (q : JobQueue) → (signal_worker code q).memory ≡ q.memory
unfolding signal_worker
memory-signal_worker code q = ground arith

pub jobs-terminate_processes :
    (dir : Option String) (q : JobQueue) → (terminate_processes dir q).jobs ≡ q.jobs
unfolding terminate_processes
jobs-terminate_processes none q = refl
jobs-terminate_processes (some d) q = ground arith

pub memory-terminate_processes :
    (dir : Option String) (q : JobQueue) → (terminate_processes dir q).memory ≡ q.memory
unfolding terminate_processes
memory-terminate_processes none q = refl
memory-terminate_processes (some d) q = ground arith

module _ (meanwhile : JobQueue → JobQueue) (now : ℕ) (code : String) (q : JobQueue) where
  -- A cancellation that is refused changes nothing.
  pub cancel_job_refused :
      {e : String}
      → (cancel_job meanwhile now code q).0 ≡ failure e
      → (cancel_job meanwhile now code q).1 ≡ q
  unfolding cancel_job
  cancel_job_refused h = ground arith

  -- A cancellation is answered by success only for a job that was pending or processing.
  pub cancel_job_sound :
      {m : String}
      → (cancel_job meanwhile now code q).0 ≡ success m
      → (r : Row) × (select code q.jobs ≡ some r) × ((r.status ≡ pending) ⊎ (r.status ≡ processing))
  unfolding cancel_job
  cancel_job_sound h = elim (Option-cases (select code q.jobs)) [
    | inl missing ↦ ground arith
    | inr (r, found) ↦ (r, found, ground arith)
  ]

  -- The state of the queue when the UPDATE of a cancellation runs.
  abbrev pub before_update : Row → JobQueue
  before_update r = meanwhile (terminate_processes r.output_dir q)

  -- The UPDATE of a cancellation: it cancels the job if it is pending or processing, leaves it alone if
  -- it has ended, and touches no other.
  abbrev pub IsCancelled : (before : JobQueue) → JobQueue → Type 0
  IsCancelled before after =
      (j : String)
      → select j after.jobs ≡ (
          if str_eq code j
          then Option.map
              (λ (s : Row).
                if is_status s.status pending || is_status s.status processing
                then record s {
                  status = cancelled;
                  error = some "Cancelled by user";
                  cancelled_at = some now;
                  status_changed_at = some now;
                }
                else s)
              (select j before.jobs)
          else select j before.jobs)

  pub cancel_job_lem :
      (r : Row)
      → select code q.jobs ≡ some r
      → is_active r ≡ true
      → ((cancel_job meanwhile now code q).0 ≡ success "Job cancelled")
        × IsCancelled (before_update r) (cancel_job meanwhile now code q).1
  unfolding cancel_job
  cancel_job_lem r found active =
      rw found (rw active (refl, λ j. simp (frame, select-update_key, jobs-signal_worker)))

  refused_inactive :
      {e : String}
      → (cancel_job meanwhile now code q).0 ≡ failure e
      → (r : Row) → select code q.jobs ≡ some r
      → ¬ ((r.status ≡ pending) ⊎ (r.status ≡ processing))
  unfolding cancel_job
  refused_inactive h r found active = ground arith

  -- Every cancellation does one of two things. The job is there, pending or processing, and the answer
  -- is success: the UPDATE cancels it if it is still pending or processing after the wait for its
  -- processes, leaves it alone if it has ended meanwhile, and touches no other job. Or there is no such
  -- job; then the answer is a failure, and nothing changes.
  pub cancel_job_cases :
      ((r : Row) × (select code q.jobs ≡ some r)
        × ((r.status ≡ pending) ⊎ (r.status ≡ processing))
        × ((cancel_job meanwhile now code q).0 ≡ success "Job cancelled")
        × IsCancelled (before_update r) (cancel_job meanwhile now code q).1)
      ⊎ ((e : String) × ((cancel_job meanwhile now code q).0 ≡ failure e)
          × ((cancel_job meanwhile now code q).1 ≡ q)
          × (¬ (
              (r : Row) × (select code q.jobs ≡ some r)
              × ((r.status ≡ pending) ⊎ (r.status ≡ processing)))))
  cancel_job_cases = elim (Reply-cases (cancel_job meanwhile now code q).0) [
    | inl (m, answered) ↦
        let (r, found, active) = cancel_job_sound answered in
        let (answer, cancels) = cancel_job_lem r found (ground (arith, active)) in
        inl (r, found, active, answer, cancels)
    | inr (e, refused) ↦ inr (
      e,
      refused,
      cancel_job_refused refused,
      λ (r, found, active). refused_inactive refused r found active,
    )
  ]

module _ (now : ℕ) (code : String) (q : JobQueue) where
  -- A deletion marks the job's row as deleted, whatever its status, and touches no other row.
  pub delete_job_lem :
      (j : String)
      → select j (delete_job now code q).1.jobs
        ≡ (if str_eq code j then Option.map (delete_row now) (select j q.jobs) else select j q.jobs)
  unfolding delete_job
  delete_job_lem j =
      ground (arith, eq_iff code j, select-update_key code j (λ _. true) (delete_row now) q.jobs)
