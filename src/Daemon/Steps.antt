-- ===== src/Daemon/Steps.antt =====
-- The threads of the translation daemon, interleaved in any order.
use ziguijia_translate_ml.Common.{ℕ, ◌≡◌, Bool, true, false, some, ◌||◌, find_by}
use ziguijia_translate_ml.Thermal.{Reading, poll}
use ziguijia_translate_ml.Daemon.{
  Config, State, Job, Running, Response, translate, ensure_model, main, has_thread, job_conn,
  running_conn,
}
use ziguijia_translate_ml.Daemon.Requests.{Input, handle}
use ziguijia_translate_ml.Daemon.Jobs.{
  Translated, Loading, start_job, run_translate, run_ensure_model, calls_translate, moved, respond,
  finish,
}

module _ (c : Config) where
  pub data Step (s : State) : State → Type 0 where
    -- a thread of the connection pool handles the next connection
    handled : (accepts : Bool) (input : Input) → Step s (handle c accepts input s)
    -- a worker thread, which runs no other job, takes a job of its pool
    started :
        (tid now conn : ℕ) (job : Job)
        → find_by job_conn conn s.queued ≡ some job
        → has_thread tid s ≡ false
        → Step s (start_job tid now job s)
    -- a worker thread has loaded the model
    loaded : Step s (record s { model_loaded = true })
    translated :
        (outcome : Translated) (conn : ℕ) (r : Running) (resp : Response)
        → find_by running_conn conn s.running ≡ some r
        → r.0.req.cmd ≡ translate
        → run_translate outcome r.0.req s ≡ some resp
        → Step s (respond r resp s)
    -- `translate_srt_file` raises SystemExit, which `except Exception` lets through: no response is sent
    exited :
        (conn : ℕ) (r : Running)
        → c.stop_requested ≡ true
        → find_by running_conn conn s.running ≡ some r
        → r.0.req.cmd ≡ translate
        → calls_translate r.0.req s ≡ true
        → Step s (moved r s)
    model_ensured :
        (outcome : Loading) (now conn : ℕ) (r : Running)
        → find_by running_conn conn s.running ≡ some r
        → r.0.req.cmd ≡ ensure_model
        → Step s (
            respond r
              (run_ensure_model c.limits now outcome s).0
              (run_ensure_model c.limits now outcome s).1)
    finished :
        (now conn : ℕ) (r : Running)
        → find_by running_conn conn s.ending ≡ some r
        → Step s (finish c.limits now r s)
    -- the monitor's poll, whose answer is the quit flag
    polled :
        (r : Reading)
        → Step s (record s {
          gate = (poll c.limits r s.gate).1;
          quit = s.quit || (poll c.limits r s.gate).0;
        })
    -- a signal, or the hang watchdog
    quit_requested : Step s (record s { quit = true })

  -- Steps, one after another, lead from the first state to the second.
  pub data Steps (s : State) : State → Type 0 where
    none_yet : Steps s s
    and_step : {t u : State} → Steps s t → Step t u → Steps s u

  abbrev pub Reachable : State → Type 0
  Reachable = Steps (main c)
