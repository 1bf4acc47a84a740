-- ===== src/Daemon/Answers.antt =====
-- How the translation daemon answers its connections: what one operation does to the responses.
use ziguijia_translate_ml.Common.{
  ℕ, ◌≡◌, refl, ◌∙◌, Bool, true, false, not, Option, none, some, [], ◌∷◌, ◌+◌, ◌||◌, arith, ◌==◌,
  count, count-append, if◌then◌else◌, Bool-cases, inl, inr, is_some,
}
use ziguijia_translate_ml.Daemon.{
  Config, State, Semaphore, Request, Response, Command, Command, ping, bad, shut_down, has,
  job_conn, running_conn, busy, fine, ensure_model, translate, unknown, is_ensure_model,
}
use ziguijia_translate_ml.Daemon.Requests.{
  acquire, release_slot, send_response, submit_job, dispatch, dispatch_gpu, dispatch_npu,
  handle_command,
}

-- The responses of a connection, and its jobs that are not answered.
abbrev pub answered : ℕ → State → ℕ
answered c s = count (λ (e : ℕ × Response). e.0 == c) s.responses

abbrev pub waiting : ℕ → State → ℕ
waiting c s = count (λ j. job_conn j == c) s.queued + count (λ r. running_conn r == c) s.running

abbrev pub one_at : ℕ → ℕ → ℕ
one_at conn c = if conn == c then 1 else 0

-- What an operation does with a connection that is open: it leaves its job to a pool, sends it a
-- response, or closes it without one.
pub data Handled (conn : ℕ) (s t : State) : Type 0 where
  placed :
      ((c : ℕ) → answered c t ≡ answered c s)
      → ((c : ℕ) → waiting c t ≡ waiting c s + one_at conn c)
      → ((c : ℕ) → has c t.closed ≡ has c s.closed)
      → t.next_conn ≡ s.next_conn
      → Handled conn s t
  replied :
      ((c : ℕ) → answered c t ≡ answered c s + one_at conn c)
      → ((c : ℕ) → waiting c t ≡ waiting c s)
      → ((c : ℕ) → has c t.closed ≡ ((c == conn) || has c s.closed))
      → t.next_conn ≡ s.next_conn
      → Handled conn s t

-- Two states with the same connections.
pub record SameConns (s t : State) : Type 0 where
  pub responses : t.responses ≡ s.responses
  pub queued : t.queued ≡ s.queued
  pub running : t.running ≡ s.running
  pub closed : t.closed ≡ s.closed
  pub next_conn : t.next_conn ≡ s.next_conn

send_response-Handled :
    (conn : ℕ) (resp : Response) (s : State)
    → has conn s.closed ≡ false
    → Handled conn s (send_response conn resp s)
unfolding send_response
send_response-Handled conn resp s listening =
    rw listening (replied (λ c. ground arith) (λ c. refl) (λ c. refl) refl)

release_slot-SameConns : (npu : Bool) (s : State) → SameConns s (release_slot npu s)
unfolding release_slot
release_slot-SameConns true s = record {
  responses = refl;
  queued = refl;
  running = refl;
  closed = refl;
  next_conn = refl;
}
release_slot-SameConns false s = record {
  responses = refl;
  queued = refl;
  running = refl;
  closed = refl;
  next_conn = refl;
}

send_released :
    (conn : ℕ) (resp : Response) (s t : State)
    → SameConns s t
    → has conn s.closed ≡ false
    → Handled conn s (send_response conn resp t)
unfolding send_response
send_released conn resp s t same listening =
    let shut : has conn t.closed ≡ false = ground (arith, same.closed) in
    rw shut (
      replied (λ c. ground (arith, same.responses)) (λ c. ground (arith, same.queued, same.running))
        (λ c. ground (arith, same.closed)) same.next_conn)

submit_job-Handled :
    (accepts : Bool) (conn : ℕ) (req : Request) (npu : Bool) (s : State)
    → has conn s.closed ≡ false
    → Handled conn s (submit_job accepts conn req npu s)
unfolding submit_job
submit_job-Handled true conn req npu s listening =
    placed (λ c. refl)
      (λ c. ground (
        arith,
        count-append (λ j. job_conn j == c) s.queued
            (record { conn = conn; req = req; npu = npu } ∷ []),
      ))
      (λ c. refl) refl
submit_job-Handled false conn req npu s listening =
    send_released conn _ s (release_slot npu s) (release_slot-SameConns npu s) listening

Handled-from : (conn : ℕ) (s s' t : State) → SameConns s s' → Handled conn s' t → Handled conn s t
Handled-from conn s s' t same (placed a w h n) =
    placed (λ c. ground (arith, a c, same.responses))
      (λ c. ground (arith, w c, same.queued, same.running)) (λ c. ground (arith, h c, same.closed))
      (n ∙ same.next_conn)
Handled-from conn s s' t same (replied a w h n) =
    replied (λ c. ground (arith, a c, same.responses))
      (λ c. ground (arith, w c, same.queued, same.running)) (λ c. ground (arith, h c, same.closed))
      (n ∙ same.next_conn)

module _ (accepts : Bool) (conn : ℕ) (req : Request) (s : State)
    (listening : has conn s.closed ≡ false) where
  dispatch_gpu-Handled :
      (o : Option (Option Semaphore)) → Handled conn s (dispatch_gpu accepts conn req o s)
  dispatch_gpu-Handled none = send_response-Handled conn busy s listening
  dispatch_gpu-Handled (some sem) =
      Handled-from conn s (record s { gpu_slot_sem = sem }) _
        (record {
          responses = refl;
          queued = refl;
          running = refl;
          closed = refl;
          next_conn = refl;
        })
        (submit_job-Handled accepts conn req false (record s { gpu_slot_sem = sem }) listening)

  dispatch_npu-Handled :
      (o : Option (Option Semaphore)) → Handled conn s (dispatch_npu accepts conn req o s)
  dispatch_npu-Handled none =
      elim (Bool-cases (not (is_ensure_model req.cmd) || not (is_some s.npu_slot_sem))) [
        | inl falls ↦ rw falls (dispatch_gpu-Handled (acquire s.gpu_slot_sem))
        | inr stays ↦ rw stays (send_response-Handled conn busy s listening)
      ]
  dispatch_npu-Handled (some sem) =
      Handled-from conn s (record s { npu_slot_sem = sem }) _
        (record {
          responses = refl;
          queued = refl;
          running = refl;
          closed = refl;
          next_conn = refl;
        })
        (submit_job-Handled accepts conn req true (record s { npu_slot_sem = sem }) listening)

-- A command on an open connection is answered at once, or leaves one job.
pub handle_command-Handled :
    (c : Config) (accepts : Bool) (conn : ℕ) (req : Request) (cmd : Command) (s : State)
    → has conn s.closed ≡ false
    → Handled conn s (handle_command c accepts conn req cmd s)
unfolding dispatch
handle_command-Handled c accepts conn req ping s listening =
    send_response-Handled conn _ s listening
handle_command-Handled c accepts conn req bad s listening = send_response-Handled conn _ s listening
handle_command-Handled c accepts conn req shut_down s listening =
    elim (send_response-Handled conn fine s listening) [
      | placed a w h n ↦ placed a w h n
      | replied a w h n ↦ replied a w h n
    ]
handle_command-Handled c accepts conn req ensure_model s listening =
    dispatch_npu-Handled accepts conn req s listening (acquire s.npu_slot_sem)
handle_command-Handled c accepts conn req translate s listening =
    dispatch_npu-Handled accepts conn req s listening (acquire s.npu_slot_sem)
handle_command-Handled c accepts conn req unknown s listening =
    send_response-Handled conn _ s listening
