-- ===== src/Daemon/Requests.antt =====
-- translate/translate_daemon.py: the functions of a connection thread, from `_read_request` to
-- `_dispatch`.
use ziguijia_translate_ml.Common.{
  ℕ, suc, Bool, true, false, not, Option, none, some, [], ◌∷◌, ◌++◌, ◌-◌, ◌||◌, ltb, is_some,
  if◌then◌else◌,
}
use ziguijia_translate_ml.Daemon.{
  Command, Config, Request, Response, Semaphore, State, bad, busy, ensure_model, failed, fine, has,
  is_ensure_model, max_jobs, ping, pong, shut_down, translate, unknown,
}

-- `_send_response`: a connection that is closed takes nothing; in any case it is closed then.
unfoldable pub send_response : ℕ → Response → State → State
send_response conn resp s =
    if has conn s.closed
    then s
    else record s { responses = (conn, resp) ∷ s.responses; closed = conn ∷ s.closed }

-- `sem.acquire(blocking=False)`, where the semaphore exists
unfoldable pub acquire : Option Semaphore → Option (Option Semaphore)
acquire none = none
acquire (some s) =
    if ltb 0 s.permits then some (some (record s { permits = s.permits - 1 })) else none

unfoldable pub release : Option Semaphore → Option Semaphore
release none = none
release (some s) =
    if ltb s.permits s.bound then some (record s { permits = suc s.permits }) else some s

-- A release that raises ValueError.
unfoldable pub is_over : Option Semaphore → Bool
is_over none = false
is_over (some s) = not (ltb s.permits s.bound)

unfoldable pub release_slot : Bool → State → State
release_slot true s = record s {
  npu_slot_sem = release s.npu_slot_sem;
  over_released = s.over_released || is_over s.npu_slot_sem;
}
release_slot false s = record s {
  gpu_slot_sem = release s.gpu_slot_sem;
  over_released = s.over_released || is_over s.gpu_slot_sem;
}

-- `pool.submit`, which an executor that was shut down refuses
unfoldable pub submit_job : (accepts : Bool) → ℕ → Request → (npu : Bool) → State → State
unfolding release_slot send_response
submit_job true conn req npu s = record s {
  queued = s.queued ++ record { conn = conn; req = req; npu = npu } ∷ [];
}
submit_job false conn req npu s =
    send_response conn (failed "daemon shutting down") (release_slot npu s)

-- `_dispatch`. Both attempts to acquire a slot, and the submission, are one step: what other threads do
-- to the semaphores between the two is not modelled.
abbrev pub dispatch_gpu : (accepts : Bool) → ℕ → Request → Option (Option Semaphore) → State → State
dispatch_gpu accepts conn req none s = send_response conn busy s
dispatch_gpu accepts conn req (some sem) s =
    submit_job accepts conn req false (record s { gpu_slot_sem = sem })

abbrev pub dispatch_npu : (accepts : Bool) → ℕ → Request → Option (Option Semaphore) → State → State
dispatch_npu accepts conn req (some sem) s =
    submit_job accepts conn req true (record s { npu_slot_sem = sem })
dispatch_npu accepts conn req none s =
    if not (is_ensure_model req.cmd) || not (is_some s.npu_slot_sem)
    then dispatch_gpu accepts conn req (acquire s.gpu_slot_sem) s
    else send_response conn busy s

unfoldable pub dispatch : (accepts : Bool) → ℕ → Request → State → State
unfolding acquire submit_job
dispatch accepts conn req s = dispatch_npu accepts conn req (acquire s.npu_slot_sem) s

-- What `_read_request` reads: nothing in 60 seconds or up to the end of the stream, an error of the
-- socket, a line that is no JSON, JSON that is no object, or a request. A path stands for its
-- resolved form.
pub data Input : Type 0 where
  nothing : Input
  socket_error : Input
  malformed : Input
  not_object : Input
  parsed : Request → Input

-- JSON that is no object raises AttributeError, also out of `_handle`.
unfoldable pub read_request : ℕ → Input → State → Option Request × State
read_request conn nothing s = (none, record s { closed = conn ∷ s.closed })
read_request conn socket_error s = (none, s)
read_request conn malformed s = (
  some (record { cmd = bad; input_path = none; output_path = none }),
  record s { closed = conn ∷ s.closed },
)
read_request conn not_object s = (none, s)
read_request conn (parsed req) s = (some req, s)

abbrev pub handle_command : Config → (accepts : Bool) → ℕ → Request → Command → State → State
handle_command c accepts conn req ping s = send_response conn (pong (max_jobs c) s.active) s
handle_command c accepts conn req bad s = send_response conn (failed "malformed request") s
handle_command c accepts conn req shut_down s = record (send_response conn fine s) { quit = true }
handle_command c accepts conn req ensure_model s = dispatch accepts conn req s
handle_command c accepts conn req translate s = dispatch accepts conn req s
handle_command c accepts conn req unknown s = send_response conn (failed "unknown cmd") s

abbrev pub handle_read : Config → (accepts : Bool) → ℕ → Option Request × State → State
handle_read c accepts conn (none, s) = s
handle_read c accepts conn (some req, s) = handle_command c accepts conn req req.cmd s

-- `_handle`, on the connection that was accepted last
unfoldable pub handle : Config → (accepts : Bool) → Input → State → State
unfolding dispatch read_request send_response
handle c accepts input s =
    handle_read c accepts s.next_conn
      (read_request s.next_conn input (record s { next_conn = suc s.next_conn }))
