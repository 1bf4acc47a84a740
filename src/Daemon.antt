-- ===== src/Daemon.antt =====
-- translate/translate_daemon.py: the state of the warm translation daemon and the functions of its
-- threads. What other programs do (the model, the NPU engine, the translation of a file) is an
-- argument; a connection is a number, handed out in order.
pub mod Requests
pub mod Jobs
pub mod Steps
pub mod Slots
pub mod Balance
pub mod Work
pub mod Safety
pub mod Capacity
pub mod Answers
pub mod Fair
pub mod Once
pub mod Dispatch
pub mod Prewarm
pub mod Guard
pub mod Pool
pub mod Refinement
use ziguijia_translate_ml.Common.{
  ℕ, String, Bool, true, false, Option, none, some, List, [], ◌∷◌, ◌-◌, ◌||◌, ltb, ◌==◌,
  if◌then◌else◌,
}
use ziguijia_translate_ml.Thermal.{Limits, ThermalGate, new_gate}
use ziguijia_translate_ml.Thermal.Hang.{JobStart}
use ziguijia_translate_ml.Thermal.Hang

-- `TRANSLATE_MAX_JOBS`, as it is read, and `TRANSLATE_NPU_SLOT`
pub record Config : Type 0 where
  pub translate_max_jobs : ℕ
  pub npu_slot : Bool
  pub limits : Limits
  -- `_STOP_REQUESTED` of translate/translate_srt.py: a signal came in between the import of that
  -- module, which installs its own handlers, and those of `main`; it stays as it is from there on.
  pub stop_requested : Bool

unfoldable pub max_jobs : Config → ℕ
max_jobs c = if ltb 1 c.translate_max_jobs then c.translate_max_jobs else 1

unfoldable pub n_gpu_workers : Config → ℕ
unfolding max_jobs
n_gpu_workers c = if c.npu_slot then max_jobs c - 1 else max_jobs c

pub data Command : Type 0 where
  ping : Command
  bad : Command
  shut_down : Command
  ensure_model : Command
  translate : Command
  unknown : Command

abbrev pub is_ensure_model : Command → Bool
is_ensure_model ensure_model = true
is_ensure_model _ = false

-- A request, with the two keys that a translation cannot do without.
pub record Request : Type 0 where
  pub cmd : Command
  pub input_path : Option String
  pub output_path : Option String

pub data Response : Type 0 where
  pong : (max_jobs active : ℕ) → Response
  fine : Response
  loaded_on : String → Response
  written_to : String → Response
  busy : Response
  failed : String → Response

-- A job of one of the pools.
pub record Job : Type 0 where
  pub conn : ℕ
  pub req : Request
  pub npu : Bool

-- A job and the thread that runs it.
abbrev pub Running : Type 0
Running = Job × ℕ

-- `threading.BoundedSemaphore`
pub record Semaphore : Type 0 where
  pub permits : ℕ
  pub bound : ℕ

-- The jobs that wait in a pool, those whose function runs, and those whose response is sent but
-- whose `finally` has not run. `over_released` is the ValueError of a release beyond the bound.
pub record State : Type 0 where
  pub npu_slot_sem : Option Semaphore
  pub gpu_slot_sem : Option Semaphore
  pub queued : List Job
  pub running : List Running
  pub ending : List Running
  pub active : ℕ
  pub job_start : JobStart
  pub gate : ThermalGate
  pub model_loaded : Bool
  pub quit : Bool
  pub over_released : Bool
  pub next_conn : ℕ
  pub closed : List ℕ
  pub responses : List (ℕ × Response)

abbrev pub sem_of : ℕ → Option Semaphore
sem_of n = if ltb 0 n then some (record { permits = n; bound = n }) else none

-- The state behind the start of `main`.
unfoldable pub main : Config → State
unfolding n_gpu_workers
main c = record {
  npu_slot_sem = if c.npu_slot then some (record { permits = 1; bound = 1 }) else none;
  gpu_slot_sem = sem_of (n_gpu_workers c);
  queued = [];
  running = [];
  ending = [];
  active = 0;
  job_start = [];
  gate = new_gate;
  model_loaded = false;
  quit = false;
  over_released = false;
  next_conn = 0;
  closed = [];
  responses = [];
}

abbrev pub has : ℕ → List ℕ → Bool
has c [] = false
has c (d ∷ ds) = (c == d) || has c ds

abbrev pub job_conn : Job → ℕ
job_conn j = j.conn

abbrev pub running_conn : Running → ℕ
running_conn r = r.0.conn

-- A thread runs a job.
abbrev pub runs : ℕ → List Running → Bool
runs tid [] = false
runs tid (r ∷ rs) = (r.1 == tid) || runs tid rs

abbrev pub has_thread : ℕ → State → Bool
has_thread tid s = runs tid s.running || runs tid s.ending
