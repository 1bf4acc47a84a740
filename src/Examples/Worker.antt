-- ===== src/Examples/Worker.antt =====
-- The worker on the sample table, with a handler that does nothing and one that raises.
use mathlib.Core.Option
use mathlib.Core.Path.{subst}
use ziguijia_translate_ml.Common.{
  String, ◌≡◌, ◌≢◌, refl, true, false, none, some, [], ◌∷◌, inl, if◌then◌else◌, str_eq,
}
use ziguijia_translate_ml.Sql.{select, select_where, update_where}
use ziguijia_translate_ml.Job.{Row, pending, completed, failed}
use ziguijia_translate_ml.Job.Handlers.{Imported, attribute, run_func, get_run_func}
use ziguijia_translate_ml.Queue.{JobQueue, enqueue}
use ziguijia_translate_ml.Queue.Control.{terminate_processes}
use ziguijia_translate_ml.Queue.Worker.{
  Handler, Failures, claim_update, first_attempt, second_attempt, run_job, try_mark_failed,
  returned, raises, handler_of,
}
use ziguijia_translate_ml.Queue.Worker.Errors.{
  other_exception, called_process_error, format_job_error,
}
use ziguijia_translate_ml.Queue.Loop.{
  left, ran, process_code, process_queue_turn, load_pending_jobs,
}
use ziguijia_translate_ml.Queue.Loop.Laws.{
  handled, process_code_stale, process_code_returned, process_code_raises,
}
use ziguijia_translate_ml.Queue.Valid.{IsValid, IsValid-same}
use ziguijia_translate_ml.Queue.Valid.Startup.{load_pending_jobs-IsValid}
use ziguijia_translate_ml.Queue.Valid.Taken.{Keeps}
use ziguijia_translate_ml.Queue.Valid.Serve.{process_queue_turn-IsValid}
use ziguijia_translate_ml.Examples.Data.{
  sample_row, sample_jobs-IsKeyed, stored, found_a1, found_b2,
}

abbrev quiet : Handler
quiet code r q = (returned, record q { cancel_event = true })

abbrev raising : Handler
raising code r q = (raises (other_exception "boom"), q)

abbrev imports : Handler → String → String → Imported Handler
imports h module_name attr_name = attribute h

abbrev never : Failures
never s = none

loads : (h : Handler) → handler_of (imports h) (some "_run_video_ning_ocr_job") ≡ run_func h
unfolding get_run_func
loads h = refl

quiet-Keeps : Keeps quiet
unfolding Keeps
quiet-Keeps code r q v = IsValid-same refl refl v

imports-Keeps : (m a : String) (h : Handler) → imports quiet m a ≡ attribute h → Keeps h
imports-Keeps m a h e = let same : quiet ≡ h = cc in subst Keeps same quiet-Keeps

abbrev started : JobQueue
started = load_pending_jobs false 50 stored

turn_runs : (process_queue_turn (imports quiet) never 60 70 0 false started).0 ≡ ran "A1"
unfolding process_queue_turn load_pending_jobs select_where update_where terminate_processes enqueue
turn_runs = refl

turn_stays : (process_queue_turn (imports quiet) never 60 70 0 false started).0 ≢ left
turn_stays e = ran-left (rw turn_runs at e)
  where
    ran-left : ran "A1" ≢ left
    ran-left e = cc

process_queue_turn-IsValid_example :
    IsValid (process_queue_turn (imports quiet) never 60 70 0 false started).1
process_queue_turn-IsValid_example =
    process_queue_turn-IsValid (imports quiet) never 60 70 refl imports-Keeps 0 false started
      (load_pending_jobs-IsValid 50 stored sample_jobs-IsKeyed) turn_stays

failed_differs : failed ≢ pending
failed_differs e = cc

process_code_stale_example :
    process_code (imports quiet) never 60 70 "B2" stored
    ≡ record stored { current = none; cancel_event = false }
process_code_stale_example =
    process_code_stale (imports quiet) never 60 70 "B2" refl refl stored sample_jobs-IsKeyed
      (sample_row failed 20 (some "ocr,translate,audio")) found_b2 quiet (loads quiet)
      failed_differs

process_code_returned_example :
    select "A1" (process_code (imports quiet) never 60 70 "A1" stored).jobs ≡ (
      if str_eq "A1" "A1"
      then Option.map
          (λ (row : Row). record row {
            status = completed;
            status_changed_at = some 70;
            completed_at = some 70;
          })
          (select "A1"
            (handled
              (imports quiet)
              never
              60
              70
              "A1"
              refl
              refl
              stored
              sample_jobs-IsKeyed
              (sample_row pending 10 none)
              found_a1
              quiet
              (loads quiet)).1.jobs)
      else select "A1"
          (handled
            (imports quiet)
            never
            60
            70
            "A1"
            refl
            refl
            stored
            sample_jobs-IsKeyed
            (sample_row pending 10 none)
            found_a1
            quiet
            (loads quiet)).1.jobs)
process_code_returned_example =
    process_code_returned (imports quiet) never 60 70 "A1" refl refl stored sample_jobs-IsKeyed
      (sample_row pending 10 none) found_a1 quiet (loads quiet) refl refl refl "A1"

process_code_raises_example :
    select "A1" (process_code (imports raising) never 60 70 "A1" stored).jobs ≡ (
      if str_eq "A1" "A1"
      then Option.map
          (λ (row : Row). record row {
            status = failed;
            error = some "boom";
            failed_at = some 70;
            status_changed_at = some 70;
          })
          (select "A1"
            (handled
              (imports raising)
              never
              60
              70
              "A1"
              refl
              refl
              stored
              sample_jobs-IsKeyed
              (sample_row pending 10 none)
              found_a1
              raising
              (loads raising)).1.jobs)
      else select "A1"
          (handled
            (imports raising)
            never
            60
            70
            "A1"
            refl
            refl
            stored
            sample_jobs-IsKeyed
            (sample_row pending 10 none)
            found_a1
            raising
            (loads raising)).1.jobs)
unfolding format_job_error
process_code_raises_example =
    process_code_raises (imports raising) never 60 70 "A1" refl refl stored sample_jobs-IsKeyed
      (sample_row pending 10 none) found_a1 raising (loads raising) refl (other_exception "boom")
      refl (inl refl) "A1"

formatted :
    format_job_error (called_process_error ("a" ∷ "b" ∷ "c" ∷ "d" ∷ []) "ffmpeg" "1") ≡ "b; c; d"
unfolding format_job_error
formatted = refl

-- The claim fails, and so do both attempts to mark the job.
abbrev broken : Failures
broken claim_update = some (other_exception "database is locked")
broken first_attempt = some (other_exception "database is locked")
broken second_attempt = some (other_exception "database is locked")
broken _ = none

-- A job that waits alone in the in-memory queue.
abbrev waiting : JobQueue
waiting = record stored { memory = "A1" ∷ []; valkey = none }

-- Such a turn loses the job: it is still pending, and in no queue.
lost :
    (select "A1" (process_queue_turn (imports quiet) broken 60 70 0 false waiting).1.jobs
      ≡ some (sample_row pending 10 none))
    × ((process_queue_turn (imports quiet) broken 60 70 0 false waiting).1.memory ≡ [])
unfolding process_queue_turn process_code select get_run_func run_job try_mark_failed
lost = (refl, refl)
