-- ===== src/Daemon/Refinement/Requests.antt =====
-- What the dispatch of a request does to the abstract pool.
use ziguijia_translate_ml.Common.{
  ℕ, ◌≡◌, refl, ◌∙◌, Bool, true, false, not, Option, none, some, [], ◌∷◌, ◌+◌, ◌<◌, ◌||◌, arith,
  count-append, weight, Bool-cases, inl, inr, is_some,
}
use ziguijia_translate_ml.Daemon.{
  Config, State, Semaphore, Request, Response, Command, ping, bad, shut_down, job_conn, busy, fine,
  failed, ensure_model, translate, unknown, is_ensure_model,
}
use ziguijia_translate_ml.Daemon.Requests.{
  acquire, submit_job, release_slot, send_response, dispatch, dispatch_gpu, dispatch_npu,
  handle_command,
}
use ziguijia_translate_ml.Daemon.Slots.{held, is_on, Accounts, IsBalanced, recount}
use ziguijia_translate_ml.Daemon.Capacity.{bound_of}
use ziguijia_translate_ml.Daemon.Prewarm.{total-send_response, total-release_slot}
use ziguijia_translate_ml.Daemon.Pool.{take_npu, take_gpu, Moves, same-Moves}

-- What acquiring tells of the slots in use.
acquire-none :
    (sem : Option Semaphore) (n : ℕ) → Accounts sem n → acquire sem ≡ none → n ≡ bound_of sem
unfolding acquire
acquire-none none n h full = h
acquire-none (some s) n h full = ground (arith, h)

acquire-some :
    (sem sem' : Option Semaphore) (n : ℕ)
    → Accounts sem n
    → acquire sem ≡ some sem'
    → n < bound_of sem
unfolding acquire
acquire-some none sem' n h free = absurd (ground arith)
acquire-some (some s) sem' n h free = ground (arith, h)

held-refused :
    (b : Bool) (conn : ℕ) (npu : Bool) (s : State) (resp : Response)
    → held b (send_response conn resp (release_slot npu s)) ≡ held b s
held-refused b conn npu s resp =
    total-send_response (is_on b) conn resp (release_slot npu s)
    ∙ total-release_slot (is_on b) npu s

held-accepted :
    (b : Bool) (conn : ℕ) (req : Request) (npu : Bool) (s : State)
    → held b (submit_job true conn req npu s)
      ≡ held b s + weight job_conn (is_on b) (record { conn = conn; req = req; npu = npu })
unfolding submit_job
held-accepted b conn req npu s =
    ground
      (arith, count-append (is_on b) s.queued (record { conn = conn; req = req; npu = npu } ∷ []))

module _ (conn : ℕ) (req : Request) (s : State) (v : IsBalanced s) where
  npu-Accounts : Accounts s.npu_slot_sem (held true s)
  unfolding IsBalanced
  npu-Accounts = recount _ (omega arith) v.npu

  gpu-Accounts : Accounts s.gpu_slot_sem (held false s)
  unfolding IsBalanced
  gpu-Accounts = recount _ (omega arith) v.gpu

  taken_npu-Moves :
      (accepts : Bool) (sem : Option Semaphore)
      → acquire s.npu_slot_sem ≡ some sem
      → Moves s (submit_job accepts conn req true (record s { npu_slot_sem = sem }))
  unfolding submit_job
  taken_npu-Moves false sem free =
      same-Moves s (submit_job false conn req true (record s { npu_slot_sem = sem })) (λ b.
        held-refused b conn true (record s { npu_slot_sem = sem }) (failed "daemon shutting down"))
  taken_npu-Moves true sem free =
      take_npu (acquire-some s.npu_slot_sem sem (held true s) npu-Accounts free)
        (omega (arith, held-accepted true conn req true (record s { npu_slot_sem = sem })))
        (omega (arith, held-accepted false conn req true (record s { npu_slot_sem = sem })))

  taken_gpu-Moves :
      (accepts : Bool) (sem : Option Semaphore)
      → acquire s.npu_slot_sem ≡ none
      → acquire s.gpu_slot_sem ≡ some sem
      → Moves s (submit_job accepts conn req false (record s { gpu_slot_sem = sem }))
  unfolding submit_job
  taken_gpu-Moves false sem full free =
      same-Moves s (submit_job false conn req false (record s { gpu_slot_sem = sem })) (λ b.
        held-refused b conn false (record s { gpu_slot_sem = sem }) (failed "daemon shutting down"))
  taken_gpu-Moves true sem full free =
      take_gpu (acquire-none s.npu_slot_sem (held true s) npu-Accounts full)
        (acquire-some s.gpu_slot_sem sem (held false s) gpu-Accounts free)
        (omega (arith, held-accepted true conn req false (record s { gpu_slot_sem = sem })))
        (omega (arith, held-accepted false conn req false (record s { gpu_slot_sem = sem })))

  sent-Moves : (resp : Response) → Moves s (send_response conn resp s)
  sent-Moves resp =
      same-Moves s (send_response conn resp s) (λ b. total-send_response (is_on b) conn resp s)

  dispatch_gpu-Moves :
      (accepts : Bool) (o : Option (Option Semaphore))
      → acquire s.npu_slot_sem ≡ none
      → acquire s.gpu_slot_sem ≡ o
      → Moves s (dispatch_gpu accepts conn req o s)
  dispatch_gpu-Moves accepts none full e = sent-Moves busy
  dispatch_gpu-Moves accepts (some sem) full e = taken_gpu-Moves accepts sem full e

  dispatch_npu-Moves :
      (accepts : Bool) (o : Option (Option Semaphore))
      → acquire s.npu_slot_sem ≡ o
      → Moves s (dispatch_npu accepts conn req o s)
  dispatch_npu-Moves accepts (some sem) e = taken_npu-Moves accepts sem e
  dispatch_npu-Moves accepts none e =
      elim (Bool-cases (not (is_ensure_model req.cmd) || not (is_some s.npu_slot_sem))) [
        | inl falls ↦ rw falls (dispatch_gpu-Moves accepts (acquire s.gpu_slot_sem) e refl)
        | inr stays ↦ rw stays (sent-Moves busy)
      ]

  pub handle_command-Moves :
      (c : Config) (accepts : Bool) (cmd : Command)
      → Moves s (handle_command c accepts conn req cmd s)
  unfolding dispatch
  handle_command-Moves c accepts ping = sent-Moves _
  handle_command-Moves c accepts bad = sent-Moves _
  handle_command-Moves c accepts shut_down =
      same-Moves s (record (send_response conn fine s) { quit = true })
        (λ b. total-send_response (is_on b) conn fine s)
  handle_command-Moves c accepts ensure_model =
      dispatch_npu-Moves accepts (acquire s.npu_slot_sem) refl
  handle_command-Moves c accepts translate =
      dispatch_npu-Moves accepts (acquire s.npu_slot_sem) refl
  handle_command-Moves c accepts unknown = sent-Moves _
