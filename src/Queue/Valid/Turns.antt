-- ===== src/Queue/Valid/Turns.antt =====
-- The worker's handling of one job and the invariant of the job queue.
use ziguijia_translate_ml.Common.{
  ℕ, String, ◌≡◌, ◌≢◌, refl, true, false, Option, none, some, arith, Option-cases, Bool-cases,
  ℕ-cases, inl, inr, is_nonempty,
}
use ziguijia_translate_ml.Sql.{select, rowcount_key}
use ziguijia_translate_ml.Sql.Laws.{rowcount_key_zero}
use ziguijia_translate_ml.Job.{pending, Row}
use ziguijia_translate_ml.Job.Handlers.{
  Imported, attribute, RunFunc, run_func, no_run_func, raised, get_run_func-import,
}
use ziguijia_translate_ml.Queue.{JobQueue}
use ziguijia_translate_ml.Queue.Worker.{
  Outcome, returned, raises, Handler, handler_of, is_pending, claimed, claim_job, unloaded_row,
  unloaded, with_handler, run_job, Failures, job_read, unloaded_update, claim_update,
}
use ziguijia_translate_ml.Queue.Worker.Errors.{format_job_error}
use ziguijia_translate_ml.Queue.Loop.{after_job, process_code}
use ziguijia_translate_ml.Queue.Loop.Laws.{taken}
use ziguijia_translate_ml.Queue.Valid.{IsValid, IsValid-same}
use ziguijia_translate_ml.Queue.Valid.Taken.{
  IsValidBut, settled, updated, loaded, Keeps, loses, Ends, Ends-of_IsValid, Ends-unless,
  finish_job-IsValid, try_mark_failed-IsValid,
}

module _ (import_attr : String → String → Imported Handler) (fails : Failures) (now now' : ℕ)
    (safe : loses fails ≡ false)
    (handlers_keep : (m a : String) (h : Handler) → import_attr m a ≡ attribute h → Keeps h) where
  handler_of-Keeps :
      (name : Option String) (h : Handler) → handler_of import_attr name ≡ run_func h → Keeps h
  handler_of-Keeps none h e = cc
  handler_of-Keeps (some name) h e = elim (Bool-cases (is_nonempty name)) [
    | inl full ↦
        let (m, a, is_h) = get_run_func-import import_attr name h (rw full at e) in
        handlers_keep m a h is_h
    | inr empty ↦ absurd (no_run_func-run_func h (rw empty at e))
  ]
    where
      no_run_func-run_func : (h : Handler) → no_run_func ≢ run_func h
      no_run_func-run_func h e = cc

  claim_job-Ends :
      (code : String) (q : JobQueue) (r : Row) (h : Handler)
      → IsValidBut code q
      → select code q.jobs ≡ some r
      → Keeps h
      → Ends fails code (claim_job h fails now now' code r q)
  unfolding claim_job Keeps
  claim_job-Ends code q r h v found keeps =
      Ends-unless fails code claim_update q _ (λ e. ground arith) v
        (elim (ℕ-cases (rowcount_key code is_pending q.jobs)) [
          | inl zero_rows ↦ rw (zero_rows) (
              Ends-of_IsValid fails code (returned, q)
                (settled code q v (λ s at w.
                  not_pending r s (rowcount_key_zero code is_pending r q.jobs zero_rows found) found
                    at w)))
          | inr (n, some_rows) ↦ rw (some_rows) (
              Ends-of_IsValid fails code _ (
                finish_job-IsValid fails now' code (h code r (claimed now code r q))
                  (keeps code r (claimed now code r q) (loaded code q v now r))))
        ])
    where
      not_pending :
          (r s : Row)
          → is_pending r ≡ false
          → select code q.jobs ≡ some r
          → select code q.jobs ≡ some s
          → s.status ≢ pending
      not_pending r s b e e' w = ground arith

  run_job-Ends :
      (code : String) (q : JobQueue)
      → IsValidBut code q
      → Ends fails code (run_job import_attr fails now now' code q)
  unfolding run_job with_handler unloaded
  run_job-Ends code q v =
      Ends-unless fails code job_read q _ (λ e. ground arith) v
        (elim (Option-cases (select code q.jobs)) [
          | inl missing ↦ rw missing (
              Ends-of_IsValid fails code (returned, q)
                (settled code q v (λ r found w. gone r missing found)))
          | inr (r, found) ↦
              rw found (with_row r found (handler_of import_attr r.run_func_name) refl)
        ])
    where
      gone : (r : Row) → select code q.jobs ≡ none → select code q.jobs ≢ some r
      gone r e e' = cc

      with_row :
          (r : Row)
          → select code q.jobs ≡ some r
          → (f : RunFunc Handler) → handler_of import_attr r.run_func_name ≡ f
          → Ends fails code (with_handler import_attr fails now now' code f r q)
      with_row r found (run_func h) e =
          claim_job-Ends code q r h v found (handler_of-Keeps r.run_func_name h e)
      with_row r found no_run_func e =
          Ends-unless fails code unloaded_update q _ (λ e. ground arith) v
            (Ends-of_IsValid fails code (returned, _)
              (updated code q v (λ _. true) (unloaded_row now _) (λ r w. cc)))
      with_row r found (raised m) e =
          Ends-unless fails code unloaded_update q _ (λ e. ground arith) v
            (Ends-of_IsValid fails code (returned, _)
              (updated code q v (λ _. true) (unloaded_row now _) (λ r w. cc)))

  after_job-IsValid :
      (code : String) (o : Outcome × JobQueue)
      → Ends fails code o
      → IsValid (after_job import_attr fails now now' code o)
  unfolding after_job Ends
  after_job-IsValid code (returned, q) v = v
  after_job-IsValid code (raises e, q) v =
      try_mark_failed-IsValid fails now' code (format_job_error e) q v

  pub process_code-IsValid :
      (code : String) (q : JobQueue)
      → IsValidBut code q
      → IsValid (process_code import_attr fails now now' code q)
  unfolding process_code
  process_code-IsValid code q v =
      IsValid-same
        {q = after_job import_attr fails now now' code
          (run_job import_attr fails now now' code (taken code q))}
        refl refl
        (after_job-IsValid code _
          (run_job-Ends code (taken code q) (record { keyed = v.keyed; queued = v.queued })))
