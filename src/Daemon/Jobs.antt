-- ===== src/Daemon/Jobs.antt =====
-- translate/translate_daemon.py: the functions of a worker thread, `_run_translate` and
-- `_run_ensure_model`, in parts between which other threads may come in.
use ziguijia_translate_ml.Common.{
  ℕ, suc, String, Bool, true, not, ◌&&◌, is_some, Option, none, some, ◌∷◌, ◌-◌, without,
  if◌then◌else◌,
}
use ziguijia_translate_ml.Thermal.{
  Limits, ThermalGate, arm_grace, disarm_grace, arm_idle_timeout, disarm_idle_timeout,
}
use ziguijia_translate_ml.Thermal.Hang.{JobStart}
use ziguijia_translate_ml.Thermal.Hang
use ziguijia_translate_ml.Daemon.{
  Command, Job, Request, Response, Running, State, failed, job_conn, loaded_on, running_conn,
  translate, written_to,
}
use ziguijia_translate_ml.Daemon.Requests.{release_slot, send_response}

-- The start of `_run_translate` and of `_run_ensure_model`, on a worker thread: the job is counted,
-- and the hang guard armed on the GPU; a translation disarms the deadlines of the gate.
abbrev pub disarm_gate : Command → ThermalGate → ThermalGate
disarm_gate translate g = disarm_idle_timeout (disarm_grace g)
disarm_gate _ g = g

unfoldable pub start_job : (tid now : ℕ) → Job → State → State
unfolding disarm_grace disarm_idle_timeout
start_job tid now job s = record s {
  queued = without job_conn job.conn s.queued;
  running = (job, tid) ∷ s.running;
  active = suc s.active;
  job_start = if job.npu then s.job_start else Hang.arm tid now s.job_start;
  gate = disarm_gate job.req.cmd s.gate;
}

-- What `translate_srt_file` does: it returns, or raises an `Exception`.
pub data Translated : Type 0 where
  returned : Translated
  raised : String → Translated

-- A turn of `_run_translate` behind its start: a response, or a sleep while the gate is closed.
unfoldable pub run_translate : Translated → Request → State → Option Response
run_translate outcome req s = elim req.input_path [
  | none ↦ some (failed "KeyError: 'input_path'")
  | some input ↦ elim req.output_path [
    | none ↦ some (failed "KeyError: 'output_path'")
    | some output ↦
        if s.gate.blocked
        then (if s.quit then some (failed "RuntimeError: daemon shutting down") else none)
        else some (response_of output outcome)
  ]
]
  where
    response_of : String → Translated → Response
    response_of output returned = written_to output
    response_of output (raised e) = failed e

-- `translate_srt_file` is called in this turn.
abbrev pub calls_translate : Request → State → Bool
calls_translate req s = not s.gate.blocked && (is_some req.input_path && is_some req.output_path)

-- What the NPU client and the loading of the model answer.
pub data Loading : Type 0 where
  engine_ready : String → Loading
  model_ready : String → Loading
  load_raised : String → Loading

-- `_run_ensure_model` behind its start. The grace is armed where a model is ready; the model of the
-- process is loaded where the engine is not used.
unfoldable pub run_ensure_model : Limits → (now : ℕ) → Loading → State → Response × State
unfolding arm_grace
run_ensure_model l now (engine_ready device) s =
    (loaded_on device, record s { gate = arm_grace l now s.gate })
run_ensure_model l now (model_ready device) s =
    (loaded_on device, record s { gate = arm_grace l now s.gate; model_loaded = true })
run_ensure_model l now (load_raised e) s = (failed e, s)

-- The job's response is sent.
unfoldable pub moved : Running → State → State
moved r s = record s { running = without running_conn r.0.conn s.running; ending = r ∷ s.ending }

unfoldable pub respond : Running → Response → State → State
unfolding send_response moved
respond r resp s = send_response r.0.conn resp (moved r s)

abbrev pub arm_gate : Limits → (now : ℕ) → Command → ThermalGate → ThermalGate
arm_gate l now translate g = arm_idle_timeout l now g
arm_gate l now _ g = g

-- The `finally` of both functions, up to the release of the slot.
unfoldable pub unwound : Limits → (now : ℕ) → Running → State → State
unfolding arm_idle_timeout
unwound l now r s = record s {
  ending = without running_conn r.0.conn s.ending;
  active = s.active - 1;
  job_start = if r.0.npu then s.job_start else Hang.disarm r.1 s.job_start;
  gate = arm_gate l now r.0.req.cmd s.gate;
}

unfoldable pub finish : Limits → (now : ℕ) → Running → State → State
unfolding unwound release_slot
finish l now r s = release_slot r.0.npu (unwound l now r s)
