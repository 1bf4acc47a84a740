-- ===== src/Daemon/Balance.antt =====
-- The steps of the translation daemon and its worker slots.
use ziguijia_translate_ml.Common.{
  ℕ, suc, Bool, true, false, not, ◌∷◌, ◌||◌, arith, Bool-cases, inl, inr, is_some,
}
use ziguijia_translate_ml.Daemon.{
  Config, State, Request, Command, ping, bad, shut_down, ensure_model, translate, unknown, failed,
  busy, fine, is_ensure_model,
}
use ziguijia_translate_ml.Daemon.Requests.{
  Input, nothing, socket_error, malformed, not_object, parsed, acquire, dispatch, dispatch_gpu,
  handle_command, handle,
}
use ziguijia_translate_ml.Daemon.Slots.{
  held, IsBalanced, recount, occupied, taken, acquire-Acquired, IsBalancedBut-send_response,
  submit_job-IsBalanced,
}

dispatch_gpu-IsBalanced :
    (accepts : Bool) (conn : ℕ) (req : Request) (s : State)
    → IsBalanced s
    → IsBalanced (dispatch_gpu accepts conn req (acquire s.gpu_slot_sem) s)
unfolding IsBalanced
dispatch_gpu-IsBalanced accepts conn req s v =
    elim (acquire-Acquired s.gpu_slot_sem (held false s) (recount _ (omega arith) v.gpu)) [
      | occupied full ↦ rw full (IsBalancedBut-send_response 0 0 conn busy s v)
      | taken sem e h ↦ rw e (
          submit_job-IsBalanced accepts conn req false (record s { gpu_slot_sem = sem })
            (record {
              npu = v.npu;
              gpu = recount _ (omega arith) h;
              counted = v.counted;
              in_bounds = v.in_bounds;
              guarded = v.guarded;
            }))
    ]

dispatch-IsBalanced :
    (accepts : Bool) (conn : ℕ) (req : Request) (s : State)
    → IsBalanced s
    → IsBalanced (dispatch accepts conn req s)
unfolding IsBalanced dispatch
dispatch-IsBalanced accepts conn req s v =
    elim (acquire-Acquired s.npu_slot_sem (held true s) (recount _ (omega arith) v.npu)) [
      | occupied full ↦
          rw full
            (elim (Bool-cases (not (is_ensure_model req.cmd) || not (is_some s.npu_slot_sem))) [
              | inl falls ↦ rw falls (dispatch_gpu-IsBalanced accepts conn req s v)
              | inr stays ↦ rw stays (IsBalancedBut-send_response 0 0 conn busy s v)
            ])
      | taken sem e h ↦ rw e (
          submit_job-IsBalanced accepts conn req true (record s { npu_slot_sem = sem })
            (record {
              npu = recount _ (omega arith) h;
              gpu = v.gpu;
              counted = v.counted;
              in_bounds = v.in_bounds;
              guarded = v.guarded;
            }))
    ]

handle_command-IsBalanced :
    (c : Config) (accepts : Bool) (conn : ℕ) (req : Request) (cmd : Command) (s : State)
    → IsBalanced s
    → IsBalanced (handle_command c accepts conn req cmd s)
unfolding IsBalanced
handle_command-IsBalanced c accepts conn req ping s v = IsBalancedBut-send_response 0 0 conn _ s v
handle_command-IsBalanced c accepts conn req bad s v = IsBalancedBut-send_response 0 0 conn _ s v
handle_command-IsBalanced c accepts conn req shut_down s v =
    let w = IsBalancedBut-send_response 0 0 conn fine s v in
    record {
      npu = w.npu;
      gpu = w.gpu;
      counted = w.counted;
      in_bounds = w.in_bounds;
      guarded = w.guarded;
    }
handle_command-IsBalanced c accepts conn req ensure_model s v =
    dispatch-IsBalanced accepts conn req s v
handle_command-IsBalanced c accepts conn req translate s v =
    dispatch-IsBalanced accepts conn req s v
handle_command-IsBalanced c accepts conn req unknown s v =
    IsBalancedBut-send_response 0 0 conn _ s v

pub handle-IsBalanced :
    (c : Config) (accepts : Bool) (input : Input) (s : State)
    → IsBalanced s
    → IsBalanced (handle c accepts input s)
unfolding IsBalanced handle
handle-IsBalanced c accepts nothing s v = record {
  npu = v.npu;
  gpu = v.gpu;
  counted = v.counted;
  in_bounds = v.in_bounds;
  guarded = v.guarded;
}
handle-IsBalanced c accepts socket_error s v = record {
  npu = v.npu;
  gpu = v.gpu;
  counted = v.counted;
  in_bounds = v.in_bounds;
  guarded = v.guarded;
}
handle-IsBalanced c accepts not_object s v = record {
  npu = v.npu;
  gpu = v.gpu;
  counted = v.counted;
  in_bounds = v.in_bounds;
  guarded = v.guarded;
}
handle-IsBalanced c accepts malformed s v =
    IsBalancedBut-send_response 0 0 s.next_conn (failed "malformed request")
      (record s { next_conn = suc s.next_conn; closed = s.next_conn ∷ s.closed })
      (record {
        npu = v.npu;
        gpu = v.gpu;
        counted = v.counted;
        in_bounds = v.in_bounds;
        guarded = v.guarded;
      })
handle-IsBalanced c accepts (parsed req) s v =
    handle_command-IsBalanced c accepts s.next_conn req req.cmd
      (record s { next_conn = suc s.next_conn })
      (record {
        npu = v.npu;
        gpu = v.gpu;
        counted = v.counted;
        in_bounds = v.in_bounds;
        guarded = v.guarded;
      })
