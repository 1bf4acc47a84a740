-- ===== src/Speech/Jobs.antt =====
-- gen_audio/gen_audio_daemon.py: the two functions `run_job` of the worker threads, in parts between
-- which other threads may come in, and the steps of all threads.
use ziguijia_translate_ml.Common.{
  ℕ, suc, String, Bool, true, Option, none, some, ◌∷◌, ◌-◌, ◌≡◌, ◌||◌, find_by, without,
  if◌then◌else◌,
}
use ziguijia_translate_ml.Thermal.{
  Limits, ThermalGate, Reading, poll, arm_grace, disarm_grace, arm_idle_timeout,
  disarm_idle_timeout,
}
use ziguijia_translate_ml.Thermal.Hang
use ziguijia_translate_ml.Speech.{
  Command, Config, Input, Job, Request, Response, Running, State, ensure_model, failed, handle,
  model_ready, release_slot, send_response, spoken, tts,
}

abbrev pub job_conn : Job → ℕ
job_conn j = j.conn

abbrev pub running_conn : Running → ℕ
running_conn r = r.0.conn

-- The start of both functions; that of a `tts` job disarms the deadlines of the gate.
abbrev pub disarm_gate : Command → ThermalGate → ThermalGate
disarm_gate tts g = disarm_idle_timeout (disarm_grace g)
disarm_gate _ g = g

unfoldable pub start_job : (tid now : ℕ) → Job → State → State
unfolding disarm_grace disarm_idle_timeout
start_job tid now job s = record s {
  queued = without job_conn job.conn s.queued;
  running = (job, tid) ∷ s.running;
  active = suc s.active;
  job_start = Hang.arm tid now s.job_start;
  gate = disarm_gate job.req.cmd s.gate;
}

-- What loading the model, generating the speech and writing the file do behind the thermal gate.
pub data Spoken : Type 0 where
  returned : (duration : ℕ) → Spoken
  raised : String → Spoken

abbrev pub spoken_of : Spoken → Response
spoken_of (returned duration) = spoken duration
spoken_of (raised e) = failed e

-- A turn of the `tts` job behind its start: a response, or a sleep while the gate is closed.
unfoldable pub run_tts : Spoken → Request → State → Option Response
run_tts outcome req s = elim req.params [
  | some e ↦ some (failed e)
  | none ↦ elim req.output_path [
    | none ↦ some (failed "KeyError: 'output_path'")
    | some path ↦
        if s.gate.blocked
        then (if s.quit then some (failed "RuntimeError: daemon shutting down") else none)
        else some (spoken_of outcome)
  ]
]

-- The `ensure_model` job behind its start: the grace is armed where the model is there.
pub data Loading : Type 0 where
  loaded_on : (device : String) → Loading
  load_raised : String → Loading

unfoldable pub run_ensure_model : Limits → (now : ℕ) → Loading → State → Response × State
unfolding arm_grace
run_ensure_model l now (loaded_on device) s =
    (model_ready device, record s { gate = arm_grace l now s.gate; model_loaded = true })
run_ensure_model l now (load_raised e) s = (failed e, s)

-- The response is sent.
unfoldable pub respond : Running → Response → State → State
unfolding send_response
respond r resp s =
    send_response r.0.conn resp
      (record s { running = without running_conn r.0.conn s.running; ending = r ∷ s.ending })

-- The `finally`; that of a `tts` job arms the deadlines of the gate.
abbrev pub arm_gate : Limits → (now : ℕ) → Command → ThermalGate → ThermalGate
arm_gate l now tts g = arm_idle_timeout l now (arm_grace l now g)
arm_gate l now _ g = g

unfoldable pub finish : Config → (now : ℕ) → Running → State → State
unfolding arm_grace arm_idle_timeout release_slot
finish c now r s = release_slot c (record s {
  ending = without running_conn r.0.conn s.ending;
  active = s.active - 1;
  job_start = Hang.disarm r.1 s.job_start;
  gate = arm_gate c.limits now r.0.req.cmd s.gate;
})

module _ (c : Config) where
  -- One thread goes on.
  pub data Step (s : State) : State → Type 0 where
    handled : (accepts : Bool) (input : Input) → Step s (handle c accepts input s)
    started :
        (tid now conn : ℕ) (job : Job)
        → find_by job_conn conn s.queued ≡ some job
        → Step s (start_job tid now job s)
    model_set : Step s (record s { model_loaded = true })
    tts_run :
        (outcome : Spoken) (conn : ℕ) (r : Running) (resp : Response)
        → find_by running_conn conn s.running ≡ some r
        → r.0.req.cmd ≡ tts
        → run_tts outcome r.0.req s ≡ some resp
        → Step s (respond r resp s)
    model_ensured :
        (outcome : Loading) (now conn : ℕ) (r : Running)
        → find_by running_conn conn s.running ≡ some r
        → r.0.req.cmd ≡ ensure_model
        → Step s (
            respond r
              (run_ensure_model c.limits now outcome s).0
              (run_ensure_model c.limits now outcome s).1)
    finished :
        (now conn : ℕ) (r : Running)
        → find_by running_conn conn s.ending ≡ some r
        → Step s (finish c now r s)
    -- the monitor's poll, whose answer is the quit flag
    polled :
        (r : Reading)
        → Step s (record s {
          gate = (poll c.limits r s.gate).1;
          quit = s.quit || (poll c.limits r s.gate).0;
        })
    -- a signal, or the hang watchdog
    quit_requested : Step s (record s { quit = true })

  pub data Steps (s : State) : State → Type 0 where
    none_yet : Steps s s
    and_step : {t u : State} → Steps s t → Step t u → Steps s u
