-- ===== src/Thermal/Hang.antt =====
-- gpu_thermal.py: `HangGuard`. The dictionary of start times is a list, with the threads' identities
-- as keys.
use ziguijia_translate_ml.Common.{
  ℕ, Bool, true, false, List, [], ◌∷◌, ◌+◌, ◌-◌, ltb, ◌==◌, keep, map, if◌then◌else◌,
}

abbrev pub JobStart : Type 0
JobStart = List (ℕ × ℕ)

-- `self._job_start[tid] = now`
unfoldable pub arm : (tid now : ℕ) → JobStart → JobStart
arm tid now [] = (tid, now) ∷ []
arm tid now ((t, s) ∷ d) =
    let rest = arm tid now d in if t == tid then (t, now) ∷ d else (t, s) ∷ rest

-- `self._job_start.pop(tid, None)`
unfoldable pub disarm : (tid : ℕ) → JobStart → JobStart
disarm tid [] = []
disarm tid ((t, s) ∷ d) = let rest = disarm tid d in if t == tid then d else (t, s) ∷ rest

-- The jobs past the timeout, with the time that they have run. The clock never goes back.
unfoldable pub stuck : (hang_timeout_secs now : ℕ) → JobStart → List (ℕ × ℕ)
stuck timeout now d =
    map (λ (e : ℕ × ℕ). (e.0, now - e.1)) (keep (λ (e : ℕ × ℕ). ltb timeout (now - e.1)) d)

-- One turn of the loop of `watch`: the loop retires, goes on, or asks for the quit, sends SIGTERM,
-- and sends SIGKILL when the clock reaches the deadline.
pub data Watched : Type 0 where
  retired : Watched
  watching : Watched
  killed : (deadline : ℕ) → Watched

-- No job is stuck.
abbrev none_stuck : List (ℕ × ℕ) → Bool
none_stuck [] = true
none_stuck (e ∷ es) = false

-- `now` is read by `stuck`, `now'` behind the SIGTERM.
unfoldable pub watch_turn :
    (hang_timeout_secs grace_secs : ℕ) → (is_quit : Bool) → (now now' : ℕ) → JobStart → Watched
unfolding stuck
watch_turn timeout grace quit now now' d =
    if quit
    then retired
    else (if none_stuck (stuck timeout now d) then watching else killed (now' + grace))
