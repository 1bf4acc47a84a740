-- ===== src/Speech/Balance.antt =====
-- The worker slots of the speech daemon, in every interleaving of its threads.
use ziguijia_translate_ml.Common.{
  ℕ, suc, ◌≡◌, Bool, true, false, some, ◌+◌, [], ◌∷◌, arith, length, length-append, length-without,
  find_by, find_by-key, without, Bool-cases, inl, inr, ltb,
}
use ziguijia_translate_ml.Thermal.{arm_grace}
use ziguijia_translate_ml.Speech.{
  model_ready, Running, Job, Config, State, Request, Response, Command, Input, nothing,
  socket_error, malformed, not_object, parsed, ping, bad, shut_down, ensure_model, tts, unknown,
  failed, busy, fine, max_jobs, main, send_response, release_slot, submit_job, admit,
  handle_command, handle,
}
use ziguijia_translate_ml.Speech.Jobs.{
  job_conn, running_conn, Loading, loaded_on, load_raised, start_job, run_ensure_model, respond,
  finish, Step, handled, started, model_set, tts_run, model_ensured, finished, polled,
  quit_requested, Steps, none_yet, and_step,
}

abbrev pub jobs_in_flight : State → ℕ
jobs_in_flight s = length s.queued + length s.running + length s.ending

-- Every slot is free or held by one job, the jobs that a thread has begun are counted, and no slot
-- was released twice.
pub record IsBalanced (c : Config) (s : State) : Type 0 where
  pub slots : s.job_slots + jobs_in_flight s ≡ max_jobs c
  pub counted : s.active ≡ length s.running + length s.ending
  pub once : s.over_released ≡ false

-- The same, but for `k` slots that are taken for no job.
record IsBalancedBut (c : Config) (k : ℕ) (s : State) : Type 0 where
  slots : s.job_slots + jobs_in_flight s + k ≡ max_jobs c
  counted : s.active ≡ length s.running + length s.ending
  once : s.over_released ≡ false

module _ (c : Config) where
  send_response-IsBalancedBut :
      (k conn : ℕ) (resp : Response) (s : State)
      → IsBalancedBut c k s
      → IsBalancedBut c k (send_response conn resp s)
  unfolding send_response
  send_response-IsBalancedBut k conn resp s v = ground arith

  release_slot-IsBalancedBut :
      (s : State) → IsBalancedBut c 1 s → IsBalancedBut c 0 (release_slot c s)
  unfolding release_slot
  release_slot-IsBalancedBut s v = ground arith

  submit_job-IsBalancedBut :
      (accepts : Bool) (conn : ℕ) (req : Request) (s : State)
      → IsBalancedBut c 1 s
      → IsBalancedBut c 0 (submit_job c accepts conn req s)
  unfolding submit_job
  submit_job-IsBalancedBut true conn req s v =
      ground (arith, length-append s.queued (record { conn = conn; req = req } ∷ []))
  submit_job-IsBalancedBut false conn req s v =
      send_response-IsBalancedBut 0 conn _ _ (release_slot-IsBalancedBut s v)

  admit-IsBalancedBut :
      (accepts : Bool) (conn : ℕ) (req : Request) (s : State)
      → IsBalancedBut c 0 s
      → IsBalancedBut c 0 (admit c accepts conn req s)
  unfolding admit
  admit-IsBalancedBut accepts conn req s v = elim (Bool-cases (ltb 0 s.job_slots)) [
    | inl free ↦ rw free (submit_job-IsBalancedBut accepts conn req _ (ground arith))
    | inr full ↦ rw full (send_response-IsBalancedBut 0 conn busy s v)
  ]

  handle_command-IsBalancedBut :
      (accepts : Bool) (conn : ℕ) (req : Request) (cmd : Command) (s : State)
      → IsBalancedBut c 0 s
      → IsBalancedBut c 0 (handle_command c accepts conn req cmd s)
  handle_command-IsBalancedBut accepts conn req ping s v = send_response-IsBalancedBut 0 conn _ s v
  handle_command-IsBalancedBut accepts conn req bad s v = send_response-IsBalancedBut 0 conn _ s v
  handle_command-IsBalancedBut accepts conn req shut_down s v =
      let w = send_response-IsBalancedBut 0 conn fine s v in ground arith
  handle_command-IsBalancedBut accepts conn req ensure_model s v =
      admit-IsBalancedBut accepts conn req s v
  handle_command-IsBalancedBut accepts conn req tts s v = admit-IsBalancedBut accepts conn req s v
  handle_command-IsBalancedBut accepts conn req unknown s v =
      send_response-IsBalancedBut 0 conn _ s v

  handle-IsBalancedBut :
      (accepts : Bool) (input : Input) (s : State)
      → IsBalancedBut c 0 s
      → IsBalancedBut c 0 (handle c accepts input s)
  unfolding handle
  handle-IsBalancedBut accepts nothing s v = ground arith
  handle-IsBalancedBut accepts socket_error s v = ground arith
  handle-IsBalancedBut accepts not_object s v = ground arith
  handle-IsBalancedBut accepts malformed s v =
      send_response-IsBalancedBut 0 s.next_conn (failed "malformed request")
        (record s { next_conn = suc s.next_conn; closed = s.next_conn ∷ s.closed }) (ground arith)
  handle-IsBalancedBut accepts (parsed req) s v =
      handle_command-IsBalancedBut accepts s.next_conn req req.cmd
        (record s { next_conn = suc s.next_conn }) (ground arith)

  start_job-IsBalancedBut :
      (tid now conn : ℕ) (job : Job) (s : State)
      → find_by job_conn conn s.queued ≡ some job
      → IsBalancedBut c 0 s
      → IsBalancedBut c 0 (start_job tid now job s)
  unfolding start_job
  start_job-IsBalancedBut tid now conn job s found v =
      let e =
        length-without job_conn job.conn s.queued job
          (find_by-key job_conn conn s.queued job found) in
      ground arith

  respond-IsBalancedBut :
      (conn : ℕ) (r : Running) (resp : Response) (s : State)
      → find_by running_conn conn s.running ≡ some r
      → IsBalancedBut c 0 s
      → IsBalancedBut c 0 (respond r resp s)
  unfolding respond
  respond-IsBalancedBut conn r resp s found v =
      let e =
        length-without running_conn r.0.conn s.running r
          (find_by-key running_conn conn s.running r found) in
      send_response-IsBalancedBut 0 r.0.conn resp
        (record s { running = without running_conn r.0.conn s.running; ending = r ∷ s.ending })
        (ground arith)

  model_ensured-IsBalancedBut :
      (outcome : Loading) (now conn : ℕ) (r : Running) (s : State)
      → find_by running_conn conn s.running ≡ some r
      → IsBalancedBut c 0 s
      → IsBalancedBut c 0 (
          respond r
            (run_ensure_model c.limits now outcome s).0
            (run_ensure_model c.limits now outcome s).1)
  unfolding run_ensure_model
  model_ensured-IsBalancedBut (loaded_on device) now conn r s found v =
      respond-IsBalancedBut conn r (model_ready device)
        (record s { gate = arm_grace c.limits now s.gate; model_loaded = true }) found
        (ground arith)
  model_ensured-IsBalancedBut (load_raised e) now conn r s found v =
      respond-IsBalancedBut conn r (failed e) s found v

  finish-IsBalancedBut :
      (now conn : ℕ) (r : Running) (s : State)
      → find_by running_conn conn s.ending ≡ some r
      → IsBalancedBut c 0 s
      → IsBalancedBut c 0 (finish c now r s)
  unfolding finish
  finish-IsBalancedBut now conn r s found v =
      let e =
        length-without running_conn r.0.conn s.ending r
          (find_by-key running_conn conn s.ending r found) in
      release_slot-IsBalancedBut _ (ground arith)

  Step-IsBalancedBut : {s t : State} → Step c s t → IsBalancedBut c 0 s → IsBalancedBut c 0 t
  Step-IsBalancedBut {s} (handled accepts input) v = handle-IsBalancedBut accepts input s v
  Step-IsBalancedBut {s} (started tid now conn job found) v =
      start_job-IsBalancedBut tid now conn job s found v
  Step-IsBalancedBut model_set v = ground arith
  Step-IsBalancedBut {s} (tts_run outcome conn r resp found is e) v =
      respond-IsBalancedBut conn r resp s found v
  Step-IsBalancedBut {s} (model_ensured outcome now conn r found is) v =
      model_ensured-IsBalancedBut outcome now conn r s found v
  Step-IsBalancedBut {s} (finished now conn r found) v = finish-IsBalancedBut now conn r s found v
  Step-IsBalancedBut (polled r) v = ground arith
  Step-IsBalancedBut quit_requested v = ground arith

  begin_IsBalancedBut : IsBalancedBut c 0 (main c)
  unfolding main
  begin_IsBalancedBut = ground arith

  Steps-IsBalancedBut : {s : State} → Steps c (main c) s → IsBalancedBut c 0 s
  Steps-IsBalancedBut none_yet = begin_IsBalancedBut
  Steps-IsBalancedBut (and_step r st) = Step-IsBalancedBut st (Steps-IsBalancedBut r)

  -- In every interleaving of the daemon's threads each worker slot is free or held by exactly one job
  -- in flight, the count of active jobs is the number of those that a thread has begun, and no slot is
  -- released twice.
  pub Steps-IsBalanced : {s : State} → Steps c (main c) s → IsBalanced c s
  Steps-IsBalanced run = let v = Steps-IsBalancedBut run in ground arith
