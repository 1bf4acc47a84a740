-- ===== src/Daemon/Capacity.antt =====
-- How many jobs the translation daemon holds at once.
use mathlib.Core.Path.{ap}
use ziguijia_translate_ml.Common.{
  ℕ, suc, ◌≡◌, refl, ◌∙◌, Bool, true, false, Option, none, some, List, [], ◌∷◌, ◌+◌, ◌≤◌, arith,
  count, length,
}
use ziguijia_translate_ml.Daemon.{
  Config, State, Semaphore, Job, Running, Request, Response, Command, main, max_jobs, n_gpu_workers,
  Command, ping, bad, shut_down, ensure_model, translate, unknown, busy, fine,
}
use ziguijia_translate_ml.Daemon.Requests.{
  Input, Input, nothing, socket_error, malformed, not_object, parsed, acquire, release,
  release_slot, send_response, submit_job, dispatch, dispatch_gpu, dispatch_npu, handle_command,
  handle,
}
use ziguijia_translate_ml.Daemon.Jobs.{
  start_job, moved, respond, unwound, finish, run_ensure_model, engine_ready, model_ready,
  load_raised, Loading,
}
use ziguijia_translate_ml.Daemon.Slots.{Accounts, is_on, of_running, IsBalanced}
use ziguijia_translate_ml.Daemon.Steps.{
  Step, Steps, handled, started, loaded, translated, exited, model_ensured, finished, polled,
  quit_requested, none_yet, and_step, Reachable,
}
use ziguijia_translate_ml.Daemon.Safety.{Reachable-IsBalanced}

abbrev pub bound_of : Option Semaphore → ℕ
bound_of none = 0
bound_of (some s) = s.bound

-- The bounds of the NPU's and of the GPU's semaphore.
abbrev pub bounds : State → ℕ × ℕ
bounds s = (bound_of s.npu_slot_sem, bound_of s.gpu_slot_sem)

bounds-send_response :
    (conn : ℕ) (resp : Response) (s : State) → bounds (send_response conn resp s) ≡ bounds s
unfolding send_response
bounds-send_response conn resp s = ground arith

bounds-release_slot : (npu : Bool) (s : State) → bounds (release_slot npu s) ≡ bounds s
unfolding release_slot release
bounds-release_slot npu s = ground arith

bounds-submit_job :
    (accepts : Bool) (conn : ℕ) (req : Request) (npu : Bool) (s : State)
    → bounds (submit_job accepts conn req npu s) ≡ bounds s
unfolding submit_job
bounds-submit_job true conn req npu s = refl
bounds-submit_job false conn req npu s =
    bounds-send_response conn _ (release_slot npu s) ∙ bounds-release_slot npu s

bound_of-acquire :
    (sem sem' : Option Semaphore) → acquire sem ≡ some sem' → bound_of sem' ≡ bound_of sem
unfolding acquire
bound_of-acquire none sem' taken = absurd (ground arith)
bound_of-acquire (some s) sem' taken = ground arith

module _ (accepts : Bool) (conn : ℕ) (req : Request) (s : State) where
  bounds-dispatch_gpu :
      (o : Option (Option Semaphore))
      → acquire s.gpu_slot_sem ≡ o
      → bounds (dispatch_gpu accepts conn req o s) ≡ bounds s
  bounds-dispatch_gpu none full = bounds-send_response conn busy s
  bounds-dispatch_gpu (some sem) taken = ground (
    arith,
    bounds-submit_job accepts conn req false (record s { gpu_slot_sem = sem }),
    bound_of-acquire s.gpu_slot_sem sem taken,
  )

  bounds-dispatch_npu :
      (o : Option (Option Semaphore))
      → acquire s.npu_slot_sem ≡ o
      → bounds (dispatch_npu accepts conn req o s) ≡ bounds s
  bounds-dispatch_npu none full =
      ground
        (arith, bounds-send_response conn busy s, bounds-dispatch_gpu (acquire s.gpu_slot_sem) refl)
  bounds-dispatch_npu (some sem) taken = ground (
    arith,
    bounds-submit_job accepts conn req true (record s { npu_slot_sem = sem }),
    bound_of-acquire s.npu_slot_sem sem taken,
  )

bounds-handle_command :
    (c : Config) (accepts : Bool) (conn : ℕ) (req : Request) (cmd : Command) (s : State)
    → bounds (handle_command c accepts conn req cmd s) ≡ bounds s
unfolding dispatch
bounds-handle_command c accepts conn req ping s = bounds-send_response conn _ s
bounds-handle_command c accepts conn req bad s = bounds-send_response conn _ s
bounds-handle_command c accepts conn req shut_down s = bounds-send_response conn fine s
bounds-handle_command c accepts conn req ensure_model s =
    bounds-dispatch_npu accepts conn req s (acquire s.npu_slot_sem) refl
bounds-handle_command c accepts conn req translate s =
    bounds-dispatch_npu accepts conn req s (acquire s.npu_slot_sem) refl
bounds-handle_command c accepts conn req unknown s = bounds-send_response conn _ s

bounds-handle :
    (c : Config) (accepts : Bool) (input : Input) (s : State)
    → bounds (handle c accepts input s) ≡ bounds s
unfolding handle
bounds-handle c accepts nothing s = refl
bounds-handle c accepts socket_error s = refl
bounds-handle c accepts not_object s = refl
bounds-handle c accepts malformed s =
    bounds-send_response s.next_conn _
      (record s { next_conn = suc s.next_conn; closed = s.next_conn ∷ s.closed })
bounds-handle c accepts (parsed req) s =
    bounds-handle_command c accepts s.next_conn req req.cmd
      (record s { next_conn = suc s.next_conn })

module _ (c : Config) where
  bounds-run_ensure_model :
      (now : ℕ) (outcome : Loading) (s : State)
      → bounds (run_ensure_model c.limits now outcome s).1 ≡ bounds s
  unfolding run_ensure_model
  bounds-run_ensure_model now (engine_ready d) s = refl
  bounds-run_ensure_model now (model_ready d) s = refl
  bounds-run_ensure_model now (load_raised e) s = refl

  bounds-Step : {s t : State} → Step c s t → bounds t ≡ bounds s
  unfolding respond moved finish unwound start_job
  bounds-Step {s = s} (handled accepts input) = bounds-handle c accepts input s
  bounds-Step (started tid now conn job found free) = refl
  bounds-Step loaded = refl
  bounds-Step {s = s} (translated outcome conn r resp _ _ _) =
      bounds-send_response r.0.conn resp (moved r s)
  bounds-Step (exited conn r _ _ _ _) = refl
  bounds-Step {s = s} (model_ensured outcome now conn r _ _) =
      bounds-send_response r.0.conn (run_ensure_model c.limits now outcome s).0
        (moved r (run_ensure_model c.limits now outcome s).1)
      ∙ bounds-run_ensure_model now outcome s
  bounds-Step {s = s} (finished now conn r _) =
      bounds-release_slot r.0.npu (unwound c.limits now r s)
  bounds-Step (polled r) = refl
  bounds-Step quit_requested = refl

  pub bounds-Steps : {s t : State} → Steps c s t → bounds t ≡ bounds s
  bounds-Steps none_yet = refl
  bounds-Steps (and_step steps step) = bounds-Step step ∙ bounds-Steps steps

-- All jobs that wait, run or end.
abbrev pub jobs_held : State → ℕ
jobs_held s = length s.queued + (length s.running + length s.ending)

count-is_on : (js : List Job) → count (is_on true) js + count (is_on false) js ≡ length js
count-is_on [] = refl
count-is_on (j ∷ js) = ground (arith, count-is_on js)

count-runs_on :
    (rs : List Running)
    → count (of_running (is_on true)) rs + count (of_running (is_on false)) rs ≡ length rs
count-runs_on [] = refl
count-runs_on (r ∷ rs) = ground (arith, count-runs_on rs)

held-le-bound_of : (sem : Option Semaphore) (n : ℕ) → Accounts sem n → n ≤ bound_of sem
held-le-bound_of none n h = omega (arith, h)
held-le-bound_of (some s) n h = omega (arith, h)

bounds-main :
    (c : Config) → bound_of (main c).npu_slot_sem + bound_of (main c).gpu_slot_sem ≡ max_jobs c
unfolding main n_gpu_workers max_jobs
bounds-main c = ground arith

-- The daemon holds no more jobs at once, waiting, running or ending, than `TRANSLATE_MAX_JOBS`
-- allows, in every state that it reaches.
pub jobs_held-le : (c : Config) (s : State) → Reachable c s → jobs_held s ≤ max_jobs c
unfolding IsBalanced
jobs_held-le c s reached =
    let v = Reachable-IsBalanced c s reached in
    let same = bounds-Steps c reached in
    omega (
      arith,
      held-le-bound_of s.npu_slot_sem _ v.npu,
      held-le-bound_of s.gpu_slot_sem _ v.gpu,
      ap (λ b. b.0) same,
      ap (λ b. b.1) same,
      bounds-main c,
      count-is_on s.queued,
      count-runs_on s.running,
      count-runs_on s.ending,
    )
