-- ===== src/Speech.antt =====
-- gen_audio/gen_audio_daemon.py: the state of the warm speech daemon and the functions of its
-- connection threads. A connection is a number, handed out in order; the speech model and the sockets
-- are arguments.
pub mod Jobs
pub mod Balance
pub mod Loads
pub mod Voice
use ziguijia_translate_ml.Common.{
  ℕ, suc, String, Bool, true, false, Option, none, some, List, [], ◌∷◌, ◌++◌, ◌-◌, ltb,
  if◌then◌else◌,
}
use ziguijia_translate_ml.Thermal.{Limits, ThermalGate, new_gate}
use ziguijia_translate_ml.Thermal.Hang.{JobStart}
use ziguijia_translate_ml.Daemon.{has}

-- `MAX_JOBS` is at least one, whatever the environment says.
pub record Config : Type 0 where
  pub gen_audio_max_jobs : ℕ
  pub limits : Limits

unfoldable pub max_jobs : Config → ℕ
max_jobs c = if ltb 1 c.gen_audio_max_jobs then c.gen_audio_max_jobs else 1

pub data Command : Type 0 where
  ping : Command
  bad : Command
  shut_down : Command
  ensure_model : Command
  tts : Command
  unknown : Command

-- A request. `params` is what reading the three numbers raises, if it raises; `output_path` is the
-- key that a job cannot do without.
pub record Request : Type 0 where
  pub cmd : Command
  pub params : Option String
  pub output_path : Option String

pub data Response : Type 0 where
  pong : (max_jobs active : ℕ) → Response
  fine : Response
  model_ready : (device : String) → Response
  spoken : (duration : ℕ) → Response
  busy : Response
  failed : String → Response

pub record Job : Type 0 where
  pub conn : ℕ
  pub req : Request

-- A job and the thread that runs it.
abbrev pub Running : Type 0
Running = Job × ℕ

-- `job_slots` is how many permits `JOB_SLOTS` has left. The jobs wait in the pool, run, or have sent
-- their response and stand before their `finally`. `over_released`: a release went beyond the bound.
pub record State : Type 0 where
  pub job_slots : ℕ
  pub queued : List Job
  pub running : List Running
  pub ending : List Running
  pub active : ℕ
  pub job_start : JobStart
  pub gate : ThermalGate
  pub model_loaded : Bool
  pub quit : Bool
  pub over_released : Bool
  pub next_conn : ℕ
  pub closed : List ℕ
  pub responses : List (ℕ × Response)

-- The state behind the start of `main`.
unfoldable pub main : Config → State
unfolding max_jobs
main c = record {
  job_slots = max_jobs c;
  queued = [];
  running = [];
  ending = [];
  active = 0;
  job_start = [];
  gate = new_gate;
  model_loaded = false;
  quit = false;
  over_released = false;
  next_conn = 0;
  closed = [];
  responses = [];
}

-- `_send_response`: a connection that is closed takes nothing; in any case it is closed then.
unfoldable pub send_response : ℕ → Response → State → State
send_response conn resp s =
    if has conn s.closed
    then s
    else record s { responses = (conn, resp) ∷ s.responses; closed = conn ∷ s.closed }

-- `JOB_SLOTS.release()`, which raises ValueError beyond the bound
unfoldable pub release_slot : Config → State → State
unfolding max_jobs
release_slot c s =
    if ltb s.job_slots (max_jobs c)
    then record s { job_slots = suc s.job_slots }
    else record s { over_released = true }

-- `TTS_POOL.submit`, which an executor that was shut down refuses, in `_submit_ensure_model` and
-- `_submit_tts`
unfoldable pub submit_job : Config → (accepts : Bool) → ℕ → Request → State → State
unfolding release_slot send_response
submit_job c true conn req s = record s {
  queued = s.queued ++ record { conn = conn; req = req } ∷ [];
}
submit_job c false conn req s =
    send_response conn (failed "daemon shutting down") (release_slot c s)

-- `if not JOB_SLOTS.acquire(blocking=False)`
unfoldable pub admit : Config → (accepts : Bool) → ℕ → Request → State → State
unfolding submit_job send_response
admit c accepts conn req s =
    if ltb 0 s.job_slots
    then submit_job c accepts conn req (record s { job_slots = s.job_slots - 1 })
    else send_response conn busy s

-- What `_read_request` reads: nothing in 60 seconds or up to the end of the stream, an error of the
-- socket, a line that is no JSON, JSON that is no object, or a request.
pub data Input : Type 0 where
  nothing : Input
  socket_error : Input
  malformed : Input
  not_object : Input
  parsed : Request → Input

-- JSON that is no object raises AttributeError, also out of `_handle`.
unfoldable pub read_request : ℕ → Input → State → Option Request × State
read_request conn nothing s = (none, record s { closed = conn ∷ s.closed })
read_request conn socket_error s = (none, s)
read_request conn malformed s = (
  some (record { cmd = bad; params = none; output_path = none }),
  record s { closed = conn ∷ s.closed },
)
read_request conn not_object s = (none, s)
read_request conn (parsed req) s = (some req, s)

abbrev pub handle_command : Config → (accepts : Bool) → ℕ → Request → Command → State → State
handle_command c accepts conn req ping s = send_response conn (pong (max_jobs c) s.active) s
handle_command c accepts conn req bad s = send_response conn (failed "malformed request") s
handle_command c accepts conn req shut_down s = record (send_response conn fine s) { quit = true }
handle_command c accepts conn req ensure_model s = admit c accepts conn req s
handle_command c accepts conn req tts s = admit c accepts conn req s
handle_command c accepts conn req unknown s = send_response conn (failed "unknown cmd") s

abbrev pub handle_read : Config → (accepts : Bool) → ℕ → Option Request × State → State
handle_read c accepts conn (none, s) = s
handle_read c accepts conn (some req, s) = handle_command c accepts conn req req.cmd s

-- `_handle`, on the connection that was accepted last; the command "debug" is left out
unfoldable pub handle : Config → (accepts : Bool) → Input → State → State
unfolding admit read_request send_response
handle c accepts input s =
    handle_read c accepts s.next_conn
      (read_request s.next_conn input (record s { next_conn = suc s.next_conn }))
