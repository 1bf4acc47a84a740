-- ===== src/Daemon/Refinement.antt =====
-- The steps of the translation daemon are moves of the abstract pool.
mod Requests
use ziguijia_translate_ml.Common.{
  ℕ, suc, ◌≡◌, refl, ◌∙◌, Bool, true, false, some, ◌∷◌, ◌+◌, arith, weight, find_by, if◌then◌else◌,
}
use mathlib.Core.Path.{subst, sym}
use ziguijia_translate_ml.Thermal.{arm_grace, Limits}
use ziguijia_translate_ml.Daemon.{
  Config, State, Running, Response, main, running_conn, failed, busy, n_gpu_workers,
}
use ziguijia_translate_ml.Daemon.Requests.{
  Input, nothing, socket_error, malformed, not_object, parsed, release_slot, handle,
}
use ziguijia_translate_ml.Daemon.Jobs.{
  moved, respond, unwound, finish, run_ensure_model, engine_ready, model_ready, load_raised,
  Loading,
}
use ziguijia_translate_ml.Daemon.Slots.{held, is_on, of_running, IsBalanced}
use ziguijia_translate_ml.Daemon.Work.{total-start_job, total-respond, total-finish}
use ziguijia_translate_ml.Daemon.Steps.{
  Step, handled, started, loaded, translated, exited, model_ensured, finished, polled,
  quit_requested, Reachable,
}
use ziguijia_translate_ml.Daemon.Safety.{Reachable-IsBalanced}
use ziguijia_translate_ml.Daemon.Capacity.{bounds, bounds-Steps}
use ziguijia_translate_ml.Daemon.Prewarm.{total-send_response, total-release_slot}
use ziguijia_translate_ml.Daemon.Pool.{Move, stay, give_npu, give_gpu, view, Moves, same-Moves}
use ziguijia_translate_ml.Daemon.Refinement.Requests.{handle_command-Moves}

finish-Moves :
    (l : Limits) (now conn : ℕ) (r : Running) (s : State)
    → find_by running_conn conn s.ending ≡ some r
    → Moves s (finish l now r s)
unfolding finish
finish-Moves l now conn r s found = released r.0.npu refl
  where
    left :
        (b : Bool)
        → held b s ≡ weight running_conn (of_running (is_on b)) r + held b (unwound l now r s)
    left b = total-finish (is_on b) l now conn r s found

    released : (npu : Bool) → r.0.npu ≡ npu → Moves s (release_slot npu (unwound l now r s))
    released true on =
        give_npu
          (ground (arith, left true, total-release_slot (is_on true) true (unwound l now r s)))
          (ground (arith, left false, total-release_slot (is_on false) true (unwound l now r s)))
    released false on =
        give_gpu
          (ground (arith, left true, total-release_slot (is_on true) false (unwound l now r s)))
          (ground (arith, left false, total-release_slot (is_on false) false (unwound l now r s)))

respond-held :
    (b : Bool) (conn : ℕ) (r : Running) (resp : Response) (s : State)
    → find_by running_conn conn s.running ≡ some r
    → held b (respond r resp s) ≡ held b s
unfolding respond
respond-held b conn r resp s found =
    total-send_response (is_on b) r.0.conn resp (moved r s)
    ∙ sym (total-respond (is_on b) conn r resp s found)

run_ensure_model-held :
    (l : Limits) (now : ℕ) (outcome : Loading) (b : Bool) (conn : ℕ) (r : Running) (s : State)
    → find_by running_conn conn s.running ≡ some r
    → held b (respond r (run_ensure_model l now outcome s).0 (run_ensure_model l now outcome s).1)
      ≡ held b s
unfolding run_ensure_model
run_ensure_model-held l now (engine_ready d) b conn r s found =
    respond-held b conn r _ (record s { gate = arm_grace l now s.gate }) found
run_ensure_model-held l now (model_ready d) b conn r s found =
    respond-held b conn r _ (record s { gate = arm_grace l now s.gate; model_loaded = true }) found
run_ensure_model-held l now (load_raised e) b conn r s found = respond-held b conn r _ s found

module _ (c : Config) where
  handle-Moves :
      (accepts : Bool) (input : Input) (s : State)
      → IsBalanced s
      → Moves s (handle c accepts input s)
  unfolding handle IsBalanced
  handle-Moves accepts nothing s v = stay refl refl
  handle-Moves accepts socket_error s v = stay refl refl
  handle-Moves accepts not_object s v = stay refl refl
  handle-Moves accepts malformed s v = same-Moves s (handle c accepts malformed s) (λ b.
      total-send_response (is_on b) s.next_conn (failed "malformed request")
        (record s { next_conn = suc s.next_conn; closed = s.next_conn ∷ s.closed }))
  handle-Moves accepts (parsed req) s v =
      handle_command-Moves s.next_conn req (record s { next_conn = suc s.next_conn })
        (record {
          npu = v.npu;
          gpu = v.gpu;
          counted = v.counted;
          in_bounds = v.in_bounds;
          guarded = v.guarded;
        })
        c accepts req.cmd

  Step-Moves : {s t : State} → IsBalanced s → Step c s t → Moves s t
  Step-Moves {s} v (handled accepts input) = handle-Moves accepts input s v
  Step-Moves {s} {t} v (started tid now conn job found free) =
      same-Moves s t (λ b. sym (total-start_job (is_on b) tid now conn job s found))
  Step-Moves v loaded = stay refl refl
  Step-Moves {s} {t} v (translated outcome conn r resp found _ _) =
      same-Moves s t (λ b. respond-held b conn r resp s found)
  Step-Moves {s} {t} v (exited conn r _ found _ _) =
      same-Moves s t (λ b. sym (total-respond (is_on b) conn r busy s found))
  Step-Moves {s} {t} v (model_ensured outcome now conn r found _) =
      same-Moves s t (λ b. run_ensure_model-held c.limits now outcome b conn r s found)
  Step-Moves {s} v (finished now conn r found) = finish-Moves c.limits now conn r s found
  Step-Moves v (polled r) = stay refl refl
  Step-Moves v quit_requested = stay refl refl

  abbrev pub npu_slots : ℕ
  npu_slots = if c.npu_slot then 1 else 0

  bounds-main : bounds (main c) ≡ (npu_slots, n_gpu_workers c)
  unfolding main
  bounds-main = ground arith

  -- The daemon is a pool of `TRANSLATE_MAX_JOBS` slots that takes the NPU first: in every state that
  -- it reaches, each step of any thread leaves the numbers of used slots, takes one free slot, that
  -- of the NPU or, only when that is in use or missing, one of the GPU, or gives one back.
  pub Step-Move :
      (s t : State)
      → Reachable c s
      → Step c s t
      → Move npu_slots (n_gpu_workers c) (view s) (view t)
  Step-Move s t reached step =
      let same = bounds-Steps c reached ∙ bounds-main in
      subst (λ b. Move b.0 b.1 (view s) (view t)) same
        (Step-Moves (Reachable-IsBalanced c s reached) step)
