-- ===== src/Daemon/Dispatch.antt =====
-- Where the translation daemon runs its jobs.
use mathlib.Core.Path.{sym}
use mathlib.Core.List.{append-nil}
use ziguijia_translate_ml.Common.{
  ℕ, ◌≡◌, refl, Bool, true, false, Option, none, some, List, [], ◌∷◌, ◌++◌, ◌-◌, ◌&&◌, arith, ltb,
  if◌then◌else◌, Bool-cases, inl, inr, is_some,
}
use ziguijia_translate_ml.Daemon.{
  State, Semaphore, Job, Request, Response, has, busy, is_ensure_model,
}
use ziguijia_translate_ml.Daemon.Requests.{
  acquire, submit_job, send_response, dispatch, dispatch_gpu,
}

abbrev has_free : Option Semaphore → Bool
has_free none = false
has_free (some s) = ltb 0 s.permits

-- The slot for a request: the NPU's if it is free; else a free one of the GPU, but not for a
-- prewarming where there is an NPU slot.
abbrev pub slot_for : Request → State → Option Bool
slot_for req s =
    if has_free s.npu_slot_sem
    then some true
    else (if is_ensure_model req.cmd && is_some s.npu_slot_sem
        then none
        else (if has_free s.gpu_slot_sem then some false else none))

abbrev pub job_of : ℕ → Request → Option Bool → List Job
job_of conn req none = []
job_of conn req (some npu) = record { conn = conn; req = req; npu = npu } ∷ []

abbrev pub busy_of : ℕ → Option Bool → List (ℕ × Response)
busy_of conn none = (conn, busy) ∷ []
busy_of conn (some npu) = []

acquire_free :
    (sem : Option Semaphore)
    → has_free sem ≡ true
    → (sem' : Option Semaphore) × (acquire sem ≡ some sem')
unfolding acquire
acquire_free none free = absurd (ground arith)
acquire_free (some s) free = (some (record s { permits = s.permits - 1 }), rw free refl)

acquire_full : (sem : Option Semaphore) → has_free sem ≡ false → acquire sem ≡ none
unfolding acquire
acquire_full none full = refl
acquire_full (some s) full = rw full refl

module _ (conn : ℕ) (req : Request) (s : State) (listening : has conn s.closed ≡ false) where
  -- Where the request goes, and what is answered.
  abbrev IsPlaced : State → Option Bool → Type 0
  IsPlaced t slot =
      (t.queued ≡ s.queued ++ job_of conn req slot)
      × (t.responses ≡ busy_of conn slot ++ s.responses)

  busy-IsPlaced : IsPlaced (send_response conn busy s) none
  unfolding send_response
  busy-IsPlaced = rw listening (sym (append-nil s.queued), refl)

  dispatch_gpu-IsPlaced :
      IsPlaced
        (dispatch_gpu true conn req (acquire s.gpu_slot_sem) s)
        (if has_free s.gpu_slot_sem then some false else none)
  unfolding submit_job
  dispatch_gpu-IsPlaced = elim (Bool-cases (has_free s.gpu_slot_sem)) [
    | inl free ↦ rw (free, (acquire_free s.gpu_slot_sem free).1) (refl, refl)
    | inr full ↦ rw (full, acquire_full s.gpu_slot_sem full) busy-IsPlaced
  ]

  -- A request on an open connection goes to the NPU's slot if that is free, else to a free slot of
  -- the GPU, but not a prewarming where there is an NPU slot, and it is answered "busy" if there is
  -- no such slot, and only then. The executors of the pools are up.
  pub dispatch_lem :
      ((dispatch true conn req s).queued ≡ s.queued ++ job_of conn req (slot_for req s))
      × ((dispatch true conn req s).responses ≡ busy_of conn (slot_for req s) ++ s.responses)
  unfolding dispatch submit_job
  dispatch_lem = elim (Bool-cases (has_free s.npu_slot_sem)) [
    | inl free ↦ rw (free, (acquire_free s.npu_slot_sem free).1) (refl, refl)
    | inr full ↦
        rw (full, acquire_full s.npu_slot_sem full)
          (elim (Bool-cases (is_ensure_model req.cmd)) [
            | inr other ↦ rw other dispatch_gpu-IsPlaced
            | inl prewarms ↦ rw prewarms (elim (Bool-cases (is_some s.npu_slot_sem)) [
              | inl exists ↦ rw exists busy-IsPlaced
              | inr missing ↦ rw missing dispatch_gpu-IsPlaced
            ])
          ])
  ]
