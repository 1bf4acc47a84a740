-- ===== src/Examples/Queue.antt =====
-- Submissions, cancellations and deletions.

use ziguijia_translate_ml.Common.{String, ◌≡◌, ◌⊎◌, refl, false, none, some, [], ◌∷◌}
use ziguijia_translate_ml.Sql.{select, select_where, update_where}
use ziguijia_translate_ml.Job.{Row, pending, processing, completed}
use ziguijia_translate_ml.Queue.{JobQueue, success, failure, enqueue}
use ziguijia_translate_ml.Queue.Submit.{JobData, resubmit_job}
use ziguijia_translate_ml.Queue.Control.{cancel_job, terminate_processes}
use ziguijia_translate_ml.Queue.Control.Laws.{before_update, IsCancelled, cancel_job_cases}
use ziguijia_translate_ml.Queue.Loop.{load_pending_jobs}
use ziguijia_translate_ml.Queue.Valid.{IsValid}
use ziguijia_translate_ml.Queue.Valid.Startup.{load_pending_jobs-IsValid}
use ziguijia_translate_ml.Examples.Data.{sample_row, sample_jobs-IsKeyed, stored}

abbrev submitted : JobData
submitted = record {
  access_code = some "";
  srt_path = none;
  output_dir = some "/jobs/5";
  temperature = none;
  video_number = none;
  video_file = none;
  text = none;
  blur = none;
  target_language = none;
  cfg_weight = none;
  exaggeration = none;
  start_trim = none;
  end_trim = none;
  cached_path = none;
  filename = none;
  ocr_only = none;
}

stored-IsValid : IsValid (load_pending_jobs false 50 stored)
stored-IsValid = load_pending_jobs-IsValid 50 stored sample_jobs-IsKeyed

started_memory : (load_pending_jobs false 50 stored).memory ≡ "A1" ∷ "D4" ∷ []
unfolding load_pending_jobs select_where update_where terminate_processes enqueue
started_memory = refl

load_pending_jobs-IsValid_example : IsValid (load_pending_jobs false 50 stored)
load_pending_jobs-IsValid_example = load_pending_jobs-IsValid 50 stored sample_jobs-IsKeyed

resubmit_a1 :
    (resubmit_job 60 "A1" none stored).0
    ≡ failure "Job is pending, only failed, cancelled or checkpoint-edited jobs can be resubmitted"
unfolding resubmit_job select
resubmit_a1 = refl

resubmit_b2 : (resubmit_job 60 "B2" none stored).0 ≡ success "Job resubmitted"
unfolding resubmit_job select
resubmit_b2 = refl

-- The job ends while its cancellation waits.
abbrev ends_meanwhile : JobQueue → JobQueue
ends_meanwhile q = record q { jobs = ("A1", sample_row completed 10 none) ∷ [] }

cancel_b2 :
    (cancel_job ends_meanwhile 60 "B2" stored).0 ≡ failure "Job is already failed, cannot cancel"
unfolding cancel_job select
cancel_b2 = refl

cancel_a1 : (cancel_job ends_meanwhile 60 "A1" stored).0 ≡ success "Job cancelled"
unfolding cancel_job select
cancel_a1 = refl

cancel_job_example :
    ((r : Row) × (select "A1" stored.jobs ≡ some r)
      × ((r.status ≡ pending) ⊎ (r.status ≡ processing))
      × ((cancel_job ends_meanwhile 60 "A1" stored).0 ≡ success "Job cancelled")
      × IsCancelled ends_meanwhile 60 "A1" stored
          (before_update ends_meanwhile 60 "A1" stored r)
          (cancel_job ends_meanwhile 60 "A1" stored).1)
    ⊎ ((e : String) × ((cancel_job ends_meanwhile 60 "A1" stored).0 ≡ failure e)
        × ((cancel_job ends_meanwhile 60 "A1" stored).1 ≡ stored)
        × (¬ (
            (r : Row) × (select "A1" stored.jobs ≡ some r)
            × ((r.status ≡ pending) ⊎ (r.status ≡ processing)))))
cancel_job_example = cancel_job_cases ends_meanwhile 60 "A1" stored

abbrev crashed : JobQueue
crashed = record stored { worker_thread = some (record { ident = 0; is_alive = false }) }
