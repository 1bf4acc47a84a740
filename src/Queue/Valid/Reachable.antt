-- ===== src/Queue/Valid/Reachable.antt =====
-- The states that the server reaches: any requests of other threads and any turns of the worker, in
-- any order, with requests also while a handler runs and while a cancellation waits.
use ziguijia_translate_ml.Common.{ℕ, String, ◌≡◌, ◌≢◌, true, false, Bool, Option, some, elem}
use ziguijia_translate_ml.Sql.{select}
use ziguijia_translate_ml.Sql.Keys.{IsKeyed}
use ziguijia_translate_ml.Job.{pending, Row}
use ziguijia_translate_ml.Job.Handlers.{Imported, attribute}
use ziguijia_translate_ml.Queue.{JobQueue}
use ziguijia_translate_ml.Queue.Submit.{JobData, add_job, resubmit_job}
use ziguijia_translate_ml.Queue.Control.{
  cancel_job, delete_job, update_job_progress, update_target_language,
}
use ziguijia_translate_ml.Queue.Worker.{Handler, Failures}
use ziguijia_translate_ml.Queue.Loop.{left, process_queue_turn, load_pending_jobs}
use ziguijia_translate_ml.Checkpoint.{set_checkpoint, set_checkpoint_edited}
use ziguijia_translate_ml.Checkpoint.Edited.{
  set_edited_srt_file, clear_edited_srt_files, write_edited,
}
use ziguijia_translate_ml.Queue.Valid.{IsValid}
use ziguijia_translate_ml.Queue.Valid.Requests.{
  add_job-IsValid, resubmit_job-IsValid, cancel_job-IsValid, delete_job-IsValid, updated-IsValid,
  update_job_progress-IsValid, update_target_language-IsValid,
}
use ziguijia_translate_ml.Queue.Valid.Taken.{Keeps, loses}
use ziguijia_translate_ml.Queue.Valid.Serve.{process_queue_turn-IsValid}
use ziguijia_translate_ml.Queue.Valid.Startup.{load_pending_jobs-IsValid}

-- Requests, one after another, lead from the first state to the second.
pub data Requests (start : JobQueue) : JobQueue → Type 0 where
  unchanged : Requests start start
  submit :
      (fresh : String) (now : ℕ) (d : JobData) (run_func_name : String) (user_id : Option ℕ)
      (q : JobQueue)
      → Requests start q
      → Requests start (add_job fresh now d run_func_name user_id q).1
  resubmission :
      (now : ℕ) (code : String) (ckpt : Option String) (q : JobQueue)
      → Requests start q
      → Requests start (resubmit_job now code ckpt q).1
  cancel :
      (now : ℕ) (code : String) (q : JobQueue)
      → Requests start q
      → Requests start (cancel_job (λ s. s) now code q).1
  delete :
      (now : ℕ) (code : String) (q : JobQueue)
      → Requests start q
      → Requests start (delete_job now code q).1
  progress :
      (code text : String) (q : JobQueue)
      → Requests start q
      → Requests start (update_job_progress code text q)
  language :
      (code lang : String) (q : JobQueue)
      → Requests start q
      → Requests start (update_target_language code lang q)
  checkpoint :
      (code ckpt : String) (q : JobQueue)
      → Requests start q
      → Requests start (set_checkpoint code ckpt q)
  edited :
      (code : String) (b : Bool) (q : JobQueue)
      → Requests start q
      → Requests start (set_checkpoint_edited code b q)
  edited_file :
      (code filename : String) (q : JobQueue)
      → Requests start q
      → Requests start (set_edited_srt_file code filename q)
  edited_cleared :
      (code : String) (q : JobQueue)
      → Requests start q
      → Requests start (clear_edited_srt_files code q)

set_checkpoint-IsValid :
    (code ckpt : String) (q : JobQueue) → IsValid q → IsValid (set_checkpoint code ckpt q)
unfolding set_checkpoint
set_checkpoint-IsValid code ckpt q v = updated-IsValid code _ _ q (λ r w. w) v

set_checkpoint_edited-IsValid :
    (code : String) (b : Bool) (q : JobQueue) → IsValid q → IsValid (set_checkpoint_edited code b q)
unfolding set_checkpoint_edited
set_checkpoint_edited-IsValid code b q v = updated-IsValid code _ _ q (λ r w. w) v

write_edited-IsValid :
    (code column : String) (q : JobQueue) → IsValid q → IsValid (write_edited code column q)
unfolding write_edited
write_edited-IsValid code column q v = updated-IsValid code _ _ q (λ r w. w) v

Requests-IsValid : {start q : JobQueue} → Requests start q → IsValid start → IsValid q
unfolding set_edited_srt_file clear_edited_srt_files
Requests-IsValid unchanged v = v
Requests-IsValid (submit fresh now d f u q rs) v =
    add_job-IsValid fresh now d f u q (Requests-IsValid rs v)
Requests-IsValid (resubmission now code c q rs) v =
    resubmit_job-IsValid now code c q (Requests-IsValid rs v)
Requests-IsValid (cancel now code q rs) v =
    cancel_job-IsValid (λ s. s) now code q (λ s h. h) (Requests-IsValid rs v)
Requests-IsValid (delete now code q rs) v = delete_job-IsValid now code q (Requests-IsValid rs v)
Requests-IsValid (progress code text q rs) v =
    update_job_progress-IsValid code text q (Requests-IsValid rs v)
Requests-IsValid (language code lang q rs) v =
    update_target_language-IsValid code lang q (Requests-IsValid rs v)
Requests-IsValid (checkpoint code ckpt q rs) v =
    set_checkpoint-IsValid code ckpt q (Requests-IsValid rs v)
Requests-IsValid (edited code b q rs) v =
    set_checkpoint_edited-IsValid code b q (Requests-IsValid rs v)
Requests-IsValid (edited_file code filename q rs) v =
    write_edited-IsValid code _ q (Requests-IsValid rs v)
Requests-IsValid (edited_cleared code q rs) v =
    write_edited-IsValid code "" q (Requests-IsValid rs v)

module _ (import_attr : String → String → Imported Handler) where
  -- The states from the start of the server on, as long as the worker's loop goes on: where it ends, it
  -- empties the in-memory queue. A turn may meet failing statements of the database, but not one
  -- before the handler together with both attempts to mark the job as failed.
  pub data Reachable : JobQueue → Type 0 where
    started : (now : ℕ) (q : JobQueue) → IsKeyed q.jobs → Reachable (load_pending_jobs false now q)
    requested : (q q' : JobQueue) → Reachable q → Requests q q' → Reachable q'
    interrupted :
        (meanwhile : JobQueue → JobQueue) (now : ℕ) (code : String) (q : JobQueue)
        → ((s : JobQueue) → Requests s (meanwhile s))
        → Reachable q
        → Reachable (cancel_job meanwhile now code q).1
    turned :
        (fails : Failures) (now now' me : ℕ) (orphans_due : Bool) (q : JobQueue)
        → loses fails ≡ false
        → Reachable q
        → (process_queue_turn import_attr fails now now' me orphans_due q).0 ≢ left
        → Reachable (process_queue_turn import_attr fails now now' me orphans_due q).1

  module _
      (handlers_request : (m a : String) (h : Handler)
        → import_attr m a ≡ attribute h
        → (code : String) (r : Row) (q : JobQueue) → Requests q (h code r q).1) where
    handlers_keep : (m a : String) (h : Handler) → import_attr m a ≡ attribute h → Keeps h
    unfolding Keeps
    handlers_keep m a h e code r q v = Requests-IsValid (handlers_request m a h e code r q) v

    Reachable-IsValid : {q : JobQueue} → Reachable q → IsValid q
    Reachable-IsValid (started now q keyed) = load_pending_jobs-IsValid now q keyed
    Reachable-IsValid (requested q q' before rs) = Requests-IsValid rs (Reachable-IsValid before)
    Reachable-IsValid (interrupted meanwhile now code q between before) =
        cancel_job-IsValid meanwhile now code q (λ s v. Requests-IsValid (between s) v)
          (Reachable-IsValid before)
    Reachable-IsValid (turned fails now now' me due q safe before stays) =
        process_queue_turn-IsValid import_attr fails now now' safe handlers_keep me due q
          (Reachable-IsValid before) stays

    -- No job is lost while the worker's loop goes on: in every state that the server reaches, by any
    -- requests and any turns of the worker that do not end its loop, in any order, a pending job stands
    -- in the in-memory queue. The handlers, with what other threads do while they run, change the queue
    -- by requests, and no turn has a failing statement before the handler and two failing attempts to
    -- mark its job as failed.
    pub Reachable-elem :
        (q : JobQueue) (code : String) (r : Row)
        → Reachable q
        → select code q.jobs ≡ some r
        → r.status ≡ pending
        → elem code q.memory ≡ true
    Reachable-elem q code r reached found waits =
        (Reachable-IsValid reached).queued code r found waits
