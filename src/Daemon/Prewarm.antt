-- ===== src/Daemon/Prewarm.antt =====
-- The prewarming of the translation daemon.
use mathlib.Core.Path.{ap}
use ziguijia_translate_ml.Common.{
  ℕ, suc, ◌≡◌, refl, ◌∙◌, Bool, true, false, not, Option, none, some, [], ◌∷◌, ◌≤◌, ◌&&◌, arith,
  find_by, count-append, Bool-cases, inl, inr, is_some,
}
use ziguijia_translate_ml.Thermal.{arm_grace}
use ziguijia_translate_ml.Daemon.{
  Config, State, Semaphore, Job, Running, Request, Response, Command, main, Command, ping, bad,
  shut_down, running_conn, busy, fine, ensure_model, translate, unknown, is_ensure_model,
}
use ziguijia_translate_ml.Daemon.Requests.{
  Input, Input, nothing, socket_error, malformed, not_object, parsed, acquire, submit_job,
  release_slot, send_response, dispatch, dispatch_gpu, dispatch_npu, handle_command, handle,
}
use ziguijia_translate_ml.Daemon.Jobs.{
  moved, respond, unwound, finish, run_ensure_model, engine_ready, model_ready, load_raised,
  Loading,
}
use ziguijia_translate_ml.Daemon.Slots.{total}
use ziguijia_translate_ml.Daemon.Work.{total-start_job, total-respond, total-finish}
use ziguijia_translate_ml.Daemon.Steps.{
  Step, handled, started, loaded, translated, exited, model_ensured, finished, polled,
  quit_requested, none_yet, and_step, Reachable,
}
use ziguijia_translate_ml.Daemon.Capacity.{bound_of, bounds-Steps}

-- A prewarming on the GPU.
abbrev pub prewarms_gpu : Job → Bool
prewarms_gpu j = is_ensure_model j.req.cmd && not j.npu

pub total-send_response :
    (p : Job → Bool) (conn : ℕ) (resp : Response) (s : State)
    → total p (send_response conn resp s) ≡ total p s
unfolding send_response
total-send_response p conn resp s = ground arith

pub total-release_slot :
    (p : Job → Bool) (npu : Bool) (s : State) → total p (release_slot npu s) ≡ total p s
unfolding release_slot
total-release_slot p true s = refl
total-release_slot p false s = refl

total-submit_job :
    (p : Job → Bool) (accepts : Bool) (conn : ℕ) (req : Request) (npu : Bool) (s : State)
    → p (record { conn = conn; req = req; npu = npu }) ≡ false
    → total p (submit_job accepts conn req npu s) ≡ total p s
unfolding submit_job
total-submit_job p true conn req npu s fails =
    ground (arith, count-append p s.queued (record { conn = conn; req = req; npu = npu } ∷ []))
total-submit_job p false conn req npu s fails =
    total-send_response p conn _ (release_slot npu s) ∙ total-release_slot p npu s

module _ (accepts : Bool) (conn : ℕ) (req : Request) (s : State) where
  total-dispatch_gpu :
      (o : Option (Option Semaphore))
      → is_ensure_model req.cmd ≡ false
      → total prewarms_gpu (dispatch_gpu accepts conn req o s) ≡ total prewarms_gpu s
  total-dispatch_gpu none translates = total-send_response prewarms_gpu conn busy s
  total-dispatch_gpu (some sem) translates =
      total-submit_job prewarms_gpu accepts conn req false (record s { gpu_slot_sem = sem })
        (rw translates refl)

  total-dispatch_npu :
      (o : Option (Option Semaphore))
      → is_some s.npu_slot_sem ≡ true
      → total prewarms_gpu (dispatch_npu accepts conn req o s) ≡ total prewarms_gpu s
  total-dispatch_npu (some sem) exists =
      total-submit_job prewarms_gpu accepts conn req true (record s { npu_slot_sem = sem })
        (ground arith)
  total-dispatch_npu none exists = elim (Bool-cases (is_ensure_model req.cmd)) [
    | inl prewarms ↦ rw (prewarms, exists) (total-send_response prewarms_gpu conn busy s)
    | inr translates ↦ rw translates (total-dispatch_gpu (acquire s.gpu_slot_sem) translates)
  ]

total-handle_command :
    (c : Config) (accepts : Bool) (conn : ℕ) (req : Request) (cmd : Command) (s : State)
    → is_some s.npu_slot_sem ≡ true
    → total prewarms_gpu (handle_command c accepts conn req cmd s) ≡ total prewarms_gpu s
unfolding dispatch
total-handle_command c accepts conn req ping s exists = total-send_response _ conn _ s
total-handle_command c accepts conn req bad s exists = total-send_response _ conn _ s
total-handle_command c accepts conn req shut_down s exists = total-send_response _ conn fine s
total-handle_command c accepts conn req ensure_model s exists =
    total-dispatch_npu accepts conn req s (acquire s.npu_slot_sem) exists
total-handle_command c accepts conn req translate s exists =
    total-dispatch_npu accepts conn req s (acquire s.npu_slot_sem) exists
total-handle_command c accepts conn req unknown s exists = total-send_response _ conn _ s

total-handle :
    (c : Config) (accepts : Bool) (input : Input) (s : State)
    → is_some s.npu_slot_sem ≡ true
    → total prewarms_gpu (handle c accepts input s) ≡ total prewarms_gpu s
unfolding handle
total-handle c accepts nothing s exists = refl
total-handle c accepts socket_error s exists = refl
total-handle c accepts not_object s exists = refl
total-handle c accepts malformed s exists =
    total-send_response prewarms_gpu s.next_conn _
      (record s { next_conn = suc s.next_conn; closed = s.next_conn ∷ s.closed })
total-handle c accepts (parsed req) s exists =
    total-handle_command c accepts s.next_conn req req.cmd
      (record s { next_conn = suc s.next_conn }) exists

module _ (c : Config) (npu_slot : c.npu_slot ≡ true) where
  is_some-npu_slot_sem : (s : State) → Reachable c s → is_some s.npu_slot_sem ≡ true
  unfolding main
  is_some-npu_slot_sem s reached =
      of_bound s.npu_slot_sem (ap (λ b. b.0) (bounds-Steps c reached) ∙ rw npu_slot refl)
    where
      of_bound : (sem : Option Semaphore) → bound_of sem ≡ 1 → is_some sem ≡ true
      of_bound none h = absurd (omega (arith, h))
      of_bound (some sem) h = refl

  total-answered :
      (conn : ℕ) (r : Running) (resp : Response) (s : State)
      → find_by running_conn conn s.running ≡ some r
      → total prewarms_gpu (respond r resp s) ≡ total prewarms_gpu s
  unfolding respond
  total-answered conn r resp s found = omega (
    arith,
    total-respond prewarms_gpu conn r resp s found,
    total-send_response prewarms_gpu r.0.conn resp (moved r s),
  )

  total-model_ensured :
      (now : ℕ) (outcome : Loading) (conn : ℕ) (r : Running) (s : State)
      → find_by running_conn conn s.running ≡ some r
      → total prewarms_gpu (
          respond r
            (run_ensure_model c.limits now outcome s).0
            (run_ensure_model c.limits now outcome s).1)
        ≡ total prewarms_gpu s
  unfolding run_ensure_model
  total-model_ensured now (engine_ready d) conn r s found =
      total-answered conn r _ (record s { gate = arm_grace c.limits now s.gate }) found
  total-model_ensured now (model_ready d) conn r s found =
      total-answered conn r _
        (record s { gate = arm_grace c.limits now s.gate; model_loaded = true }) found
  total-model_ensured now (load_raised e) conn r s found = total-answered conn r _ s found

  total-Step :
      {s t : State}
      → is_some s.npu_slot_sem ≡ true
      → Step c s t
      → total prewarms_gpu t ≤ total prewarms_gpu s
  unfolding finish
  total-Step {s = s} exists (handled accepts input) =
      omega (arith, total-handle c accepts input s exists)
  total-Step {s = s} exists (started tid now conn job found free) =
      omega (arith, total-start_job prewarms_gpu tid now conn job s found)
  total-Step exists loaded = omega arith
  total-Step {s = s} exists (translated outcome conn r resp found _ _) =
      omega (arith, total-answered conn r resp s found)
  total-Step {s = s} exists (exited conn r _ found _ _) =
      omega (arith, total-respond prewarms_gpu conn r busy s found)
  total-Step {s = s} exists (model_ensured outcome now conn r found _) =
      omega (arith, total-model_ensured now outcome conn r s found)
  total-Step {s = s} exists (finished now conn r found) = omega (
    arith,
    total-finish prewarms_gpu c.limits now conn r s found,
    total-release_slot prewarms_gpu r.0.npu (unwound c.limits now r s),
  )
  total-Step exists (polled r) = omega arith
  total-Step exists quit_requested = omega arith

  -- The GPU's model is never prewarmed where there is an NPU slot: in no state that the daemon reaches
  -- does a prewarming wait, run or end on the GPU.
  pub total-prewarms_gpu : (s : State) → Reachable c s → total prewarms_gpu s ≡ 0
  unfolding main
  total-prewarms_gpu s none_yet = refl
  total-prewarms_gpu s (and_step steps step) =
      omega (arith, total-prewarms_gpu _ steps, total-Step (is_some-npu_slot_sem _ steps) step)
