-- ===== src/Examples/Data.antt =====
-- The inputs of the tests: a table of four jobs, and the queue of a server that has just started.
use ziguijia_translate_ml.Common.{
  ℕ, String, ◌≡◌, refl, true, false, Option, none, some, List, [], ◌∷◌,
}
use ziguijia_translate_ml.Sql.{select}
use ziguijia_translate_ml.Sql.Keys.{IsKeyed}
use ziguijia_translate_ml.Job.{JobStatus, pending, processing, failed, deleted, Row}
use ziguijia_translate_ml.Queue.{JobQueue}

abbrev pub sample_row : JobStatus → ℕ → Option String → Row
sample_row s created ckpt = record {
  srt_path = none;
  output_dir = some "/jobs/1";
  temperature = some 700;
  status = s;
  error = none;
  run_func_name = some "_run_video_ning_ocr_job";
  video_number = some "77";
  created_at = created;
  video_file = none;
  user_id = some 1;
  text = none;
  blur = "yes";
  target_language = "en";
  cfg_weight = 250;
  exaggeration = 300;
  completed_at = none;
  failed_at = none;
  cancelled_at = none;
  status_changed_at = none;
  deleted_at = none;
  checkpoint = ckpt;
  checkpoint_edited = false;
  edited_srt_files = none;
  start_trim = none;
  end_trim = none;
  cached_path = none;
  filename = none;
  ocr_only = none;
  progress = none;
}

abbrev pub sample_jobs : List (String × Row)
sample_jobs =
    ("A1", sample_row pending 10 none)
    ∷ ("B2", sample_row failed 20 (some "ocr,translate,audio"))
    ∷ ("C3", sample_row deleted 30 none)
    ∷ ("D4", sample_row processing 40 (some "download"))
    ∷ []

pub sample_jobs-IsKeyed : IsKeyed sample_jobs
unfolding select
sample_jobs-IsKeyed = (refl, (refl, (refl, (refl, tt))))

-- The queue before and after the start of the server.
abbrev pub stored : JobQueue
stored = record {
  jobs = sample_jobs;
  memory = [];
  valkey = some ("A1" ∷ []);
  current = none;
  cancel_event = false;
  worker_thread = some (record { ident = 0; is_alive = true });
  next_ident = 1;
  running = true;
  graceful_shutdown = false;
  shutdown_done = false;
  effects = [];
}

pub found_a1 : select "A1" stored.jobs ≡ some (sample_row pending 10 none)
unfolding select
found_a1 = refl

pub found_b2 : select "B2" stored.jobs ≡ some (sample_row failed 20 (some "ocr,translate,audio"))
unfolding select
found_b2 = refl

pub found_d4 : select "D4" stored.jobs ≡ some (sample_row processing 40 (some "download"))
unfolding select
found_d4 = refl
