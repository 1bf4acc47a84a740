-- ===== src/Examples/Reached.antt =====
-- A state that the server reaches by a submission and a turn of its worker.
use mathlib.Core.Path.{subst}
use ziguijia_translate_ml.Common.{String, ◌≡◌, ◌≢◌, refl, true, false, none, some, elem}
use ziguijia_translate_ml.Sql.{
  select, insert_or_replace, select_where, update_where, update_key, rowcount_key,
}
use ziguijia_translate_ml.Job.{Row}
use ziguijia_translate_ml.Job.Handlers.{Imported, attribute, get_run_func}
use ziguijia_translate_ml.Queue.{JobQueue, enqueue, ensure_worker, publish_job_status}
use ziguijia_translate_ml.Queue.Submit.{JobData, add_job, new_row}
use ziguijia_translate_ml.Queue.Control.{terminate_processes}
use ziguijia_translate_ml.Queue.Worker.{Handler, Failures, returned, run_job}
use ziguijia_translate_ml.Queue.Loop.{left, ran, load_pending_jobs, process_queue_turn}
use ziguijia_translate_ml.Queue.Valid.Reachable.{
  Requests, unchanged, submit, Reachable, started, requested, turned, Reachable-elem,
}
use ziguijia_translate_ml.Examples.Data.{sample_jobs-IsKeyed, stored}

abbrev idle_handler : Handler
idle_handler code r q = (returned, q)

abbrev imports : String → String → Imported Handler
imports module_name attr_name = attribute idle_handler

abbrev never : Failures
never s = none

imports-Requests :
    (m a : String) (h : Handler)
    → imports m a ≡ attribute h
    → (code : String) (r : Row) (q : JobQueue) → Requests q (h code r q).1
imports-Requests m a h e code r q =
    let same : idle_handler ≡ h = cc in
    subst (λ (g : Handler). Requests q (g code r q).1) same unchanged

abbrev submitted : JobData
submitted = record {
  access_code = none;
  srt_path = none;
  output_dir = none;
  temperature = none;
  video_number = none;
  video_file = none;
  text = none;
  blur = none;
  target_language = none;
  cfg_weight = none;
  exaggeration = none;
  start_trim = none;
  end_trim = none;
  cached_path = none;
  filename = none;
  ocr_only = none;
}

abbrev loaded : JobQueue
loaded = load_pending_jobs false 50 stored

abbrev grown : JobQueue
grown = (add_job "F6" 60 submitted "_run_tts_job" (some 2) loaded).1

abbrev served : JobQueue
served = (process_queue_turn imports never 70 80 0 false grown).1

serves : (process_queue_turn imports never 70 80 0 false grown).0 ≡ ran "A1"
unfolding process_queue_turn load_pending_jobs select_where update_where terminate_processes enqueue
    add_job ensure_worker
serves = refl

goes_on_then : (process_queue_turn imports never 70 80 0 false grown).0 ≢ left
goes_on_then e = ran-left (rw serves at e)
  where
    ran-left : ran "A1" ≢ left
    ran-left e = cc

served-Reachable : Reachable imports served
served-Reachable =
    turned never 70 80 0 false grown refl
      (requested loaded grown (started 50 stored sample_jobs-IsKeyed)
        (submit "F6" 60 submitted "_run_tts_job" (some 2) loaded unchanged))
      goes_on_then

abbrev f6_row : Row
f6_row = new_row submitted "_run_tts_job" (some 2) (some "") 60

f6_waits : select "F6" served.jobs ≡ some f6_row
unfolding process_queue_turn load_pending_jobs select_where update_where terminate_processes enqueue
    add_job ensure_worker select run_job insert_or_replace get_run_func rowcount_key
    publish_job_status update_key
f6_waits = refl

Reachable-elem_example : elem "F6" served.memory ≡ true
Reachable-elem_example =
    Reachable-elem imports imports-Requests served "F6" f6_row served-Reachable f6_waits refl
