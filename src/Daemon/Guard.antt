-- ===== src/Daemon/Guard.antt =====
-- The hang guard of the translation daemon, and the end of a waiting translation.
use ziguijia_translate_ml.Common.{
  ℕ, ◌≡◌, not, [], ◌∷◌, ◌+◌, ◌-◌, ◌<◌, ◌&&◌, arith, ltb, count, All, Bool-cases, inl, inr, is_some,
}
use ziguijia_translate_ml.Thermal.Hang.{JobStart, stuck}
use ziguijia_translate_ml.Daemon.{Config, State, Request}
use ziguijia_translate_ml.Daemon.Jobs.{Translated, run_translate}
use ziguijia_translate_ml.Daemon.Slots.{watched, is_gpu_on, IsBalanced}
use ziguijia_translate_ml.Daemon.Steps.{Reachable}
use ziguijia_translate_ml.Daemon.Safety.{Reachable-IsBalanced}

-- A job that has all its paths is put off only while the gate is closed and the daemon stays; it is
-- answered in one turn otherwise. So no translation waits for a cooler GPU once the daemon quits.
pub run_translate_waits :
    (outcome : Translated) (req : Request) (s : State)
    → is_some (run_translate outcome req s)
      ≡ not (s.gate.blocked && (not s.quit && (is_some req.input_path && is_some req.output_path)))
unfolding run_translate
run_translate_waits outcome req s = ground arith

module _ (P : ℕ → Type 0) where
  All-stuck :
      (timeout now : ℕ) (d : JobStart) → All (λ e. P e.0) d → All (λ e. P e.0) (stuck timeout now d)
  unfolding stuck
  All-stuck timeout now [] h = tt
  All-stuck timeout now ((t, start_time) ∷ d) h =
      elim (Bool-cases (ltb timeout (now - start_time))) [
        | inl late ↦ rw late (h.0, All-stuck timeout now d h.1)
        | inr early ↦ rw early (All-stuck timeout now d h.1)
      ]

  All-watched : (d : JobStart) → ((t : ℕ) → 0 < watched t d → P t) → All (λ e. P e.0) d
  All-watched [] h = tt
  All-watched (e ∷ d) h =
      (h e.0 (ground arith), All-watched d (λ t some_start. h t (ground (arith, some_start))))

-- The hang guard takes the daemon down only for the GPU: in every state that the daemon reaches, a
-- thread that the guard finds stuck runs a job of a GPU slot.
pub stuck-Reachable :
    (c : Config) (s : State) (timeout now : ℕ)
    → Reachable c s
    → All
        (λ e. 0 < count (is_gpu_on e.0) s.running + count (is_gpu_on e.0) s.ending)
        (stuck timeout now s.job_start)
unfolding IsBalanced
stuck-Reachable c s timeout now reached =
    All-stuck (λ tid. 0 < count (is_gpu_on tid) s.running + count (is_gpu_on tid) s.ending) timeout
      now s.job_start
      (All-watched (λ tid. 0 < count (is_gpu_on tid) s.running + count (is_gpu_on tid) s.ending)
        s.job_start
        (λ tid watched_thread.
          omega (arith, watched_thread, (Reachable-IsBalanced c s reached).guarded tid)))
