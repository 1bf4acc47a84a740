-- ===== src/Queue/Submit/Laws.antt =====
-- What a submission and a resubmission do to the table and to the queue.

use ziguijia_translate_ml.Common.{
  ℕ, String, ◌≡◌, refl, true, Option, some, [], ◌∷◌, ◌++◌, ◌⊎◌, arith, str_eq, eq_iff, none, List,
  false, if◌then◌else◌, Option-cases, inl, inr, is_some,
}
use ziguijia_translate_ml.Sql.{select, update_key}
use ziguijia_translate_ml.Sql.Laws.{select-update_key, select-insert_or_replace}
use mathlib.Core.Option
use ziguijia_translate_ml.Job.{pending, failed, cancelled, completed, Row}
use ziguijia_translate_ml.Checkpoint.{done}
use ziguijia_translate_ml.Queue.{JobQueue, Reply, success, failure, enqueue, ensure_worker}
use ziguijia_translate_ml.Queue.Frame.{frame, running-ensure_worker}
use ziguijia_translate_ml.Queue.Submit.{
  JobData, previous_checkpoint, new_row, add_job, resubmit_row, resubmit_job,
}

-- What a submission leaves behind: the answer's code has a pending job, and that of every other code
-- is as it was; every job has the same steps done as before, an older one with the same code too; the
-- code is at the end of the in-memory queue, and a worker is running.
pub record Submitted (q : JobQueue) (out : String × JobQueue) : Type 0 where
  pub status : Option.map (λ (r : Row). r.status) (select out.0 out.1.jobs) ≡ some pending
  pub others : (k : String) → (str_eq out.0 k ≡ true) ⊎ (select k out.1.jobs ≡ select k q.jobs)
  pub steps :
      (valid_steps : Option (List String)) (k step : String)
      → done valid_steps k step out.1 ≡ done valid_steps k step q
  pub queued : out.1.memory ≡ q.memory ++ out.0 ∷ []
  pub worker : out.1.running ≡ true

module _ (fresh : String) (now : ℕ) (d : JobData) (f : String) (u : Option ℕ) (q : JobQueue) where
  abbrev submitted : String × JobQueue
  submitted = add_job fresh now d f u q

  pub select-add_job :
      (k : String)
      → select k submitted.1.jobs ≡ (
          if str_eq submitted.0 k
          then some (new_row d f u (previous_checkpoint (select submitted.0 q.jobs)) now)
          else select k q.jobs)
  unfolding add_job
  select-add_job k = simp (frame, select-insert_or_replace)

-- A job that may be resubmitted: failed, cancelled, or completed with a checkpoint edit.
abbrev pub Resubmittable : Option String → Row → Type 0
Resubmittable checkpoint r =
    (r.status ≡ failed)
    ⊎ (r.status ≡ cancelled)
    ⊎ ((r.status ≡ completed) × ((is_some checkpoint ≡ true) ⊎ (r.checkpoint_edited ≡ true)))

-- The job's row is pending again with no error and no edit mark, at the checkpoint that was given
-- or its old one; the other rows are as they were, the code is queued, and a worker is running.
pub record Resubmitted (now : ℕ) (code : String) (checkpoint : Option String) (r : Row)
    (q : JobQueue) (out : Reply × JobQueue) : Type 0 where
  pub answer : out.0 ≡ success "Job resubmitted"
  pub table :
      (j : String)
      → select j out.1.jobs ≡ (
          if str_eq code j
          then some (record r {
            status = pending;
            error = none;
            status_changed_at = some now;
            checkpoint = elim checkpoint [ none ↦ r.checkpoint | some c ↦ some c ];
            checkpoint_edited = false;
          })
          else select j q.jobs)
  pub queued : out.1.memory ≡ q.memory ++ code ∷ []
  pub worker : out.1.running ≡ true

pub Reply-cases :
    (reply : Reply) → ((m : String) × (reply ≡ success m)) ⊎ ((e : String) × (reply ≡ failure e))
Reply-cases (success m) = inl (m, refl)
Reply-cases (failure e) = inr (e, refl)

module _ (now : ℕ) (code : String) (checkpoint : Option String) (q : JobQueue) where
  -- A resubmission that is refused changes nothing at all.
  pub resubmit_job_refused :
      {e : String}
      → (resubmit_job now code checkpoint q).0 ≡ failure e
      → (resubmit_job now code checkpoint q).1 ≡ q
  unfolding resubmit_job
  resubmit_job_refused h = ground arith

  -- A resubmission succeeds only for a job that is there and may be resubmitted.
  pub resubmit_job_sound :
      {m : String}
      → (resubmit_job now code checkpoint q).0 ≡ success m
      → (r : Row) × (select code q.jobs ≡ some r) × Resubmittable checkpoint r
  unfolding resubmit_job
  resubmit_job_sound h = elim (Option-cases (select code q.jobs)) [
    | inl missing ↦ ground arith
    | inr (r, found) ↦ (r, found, ground arith)
  ]

  resubmit_job_runs :
      (r : Row)
      → select code q.jobs ≡ some r
      → Resubmittable checkpoint r
      → resubmit_job now code checkpoint q ≡ (
        success "Job resubmitted",
        ensure_worker (
            enqueue code (record q {
              jobs = update_key code (λ _. true) (resubmit_row now checkpoint) q.jobs;
            })),
      )
  unfolding resubmit_job
  resubmit_job_runs r found h = ground arith

  -- A job that is there and may be resubmitted is resubmitted, as `Resubmitted` says.
  pub resubmit_job_lem :
      (r : Row)
      → select code q.jobs ≡ some r
      → Resubmittable checkpoint r
      → Resubmitted now code checkpoint r q (resubmit_job now code checkpoint q)
  resubmit_job_lem r found h = rw (resubmit_job_runs r found h) (record {
    answer = refl;
    table = λ j. simp frame (
        ground (
          arith,
          eq_iff code j,
          select-update_key code j (λ _. true) (resubmit_row now checkpoint) q.jobs,
        ));
    queued = simp frame;
    worker = running-ensure_worker _;
  })
