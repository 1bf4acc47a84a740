-- ===== src/Examples/Daemons.antt =====
-- The translation daemon with one NPU and one GPU slot, from its start to a busy answer.
use ziguijia_translate_ml.Common.{◌≡◌, refl, true, false, none, some, [], ◌∷◌, find_by}
use ziguijia_translate_ml.Daemon.{
  Config, State, Request, busy, ensure_model, translate, main, n_gpu_workers, has,
}
use ziguijia_translate_ml.Daemon.Requests.{handle, parsed}
use ziguijia_translate_ml.Daemon.Jobs.{start_job}
use ziguijia_translate_ml.Daemon.Slots.{IsBalanced}
use ziguijia_translate_ml.Daemon.Steps.{Reachable, none_yet, and_step, handled, started}
use ziguijia_translate_ml.Daemon.Safety.{Reachable-IsBalanced}
use ziguijia_translate_ml.Daemon.Once.{owed-handle}
use ziguijia_translate_ml.Daemon.Fair.{owed}
use ziguijia_translate_ml.Daemon.Dispatch.{slot_for}
use ziguijia_translate_ml.Daemon.Pool.{Move, view}
use ziguijia_translate_ml.Daemon.Refinement.{npu_slots, Step-Move}
use ziguijia_translate_ml.Examples.Gates.{defaults}

abbrev config : Config
config = record {
  translate_max_jobs = 2;
  npu_slot = true;
  limits = defaults;
  stop_requested = false;
}

abbrev subtitles : Request
subtitles = record { cmd = translate; input_path = some "a.srt"; output_path = some "b.srt" }

abbrev prewarming : Request
prewarming = record { cmd = ensure_model; input_path = none; output_path = none }

-- Two translations wait: the first for the NPU, the second for the GPU.
abbrev two_waiting : State
two_waiting =
    handle config true (parsed subtitles) (handle config true (parsed subtitles) (main config))

two_waiting-Reachable : Reachable config two_waiting
two_waiting-Reachable =
    and_step (and_step none_yet (handled true (parsed subtitles))) (handled true (parsed subtitles))

abbrev gpu_runs : State
gpu_runs = start_job 11 50 (record { conn = 1; req = subtitles; npu = false }) two_waiting

gpu_runs-Reachable : Reachable config gpu_runs
unfolding handle main start_job find_by
gpu_runs-Reachable =
    and_step two_waiting-Reachable
      (started 11 50 1 (record { conn = 1; req = subtitles; npu = false }) refl refl)

third_is_busy : (handle config true (parsed subtitles) two_waiting).responses ≡ (2, busy) ∷ []
unfolding handle main
third_is_busy = refl

Reachable-IsBalanced_example : IsBalanced gpu_runs
Reachable-IsBalanced_example = Reachable-IsBalanced config gpu_runs gpu_runs-Reachable

owed-handle_example : owed (gpu_runs.next_conn) (handle config true (parsed subtitles) gpu_runs) ≡ 1
owed-handle_example =
    owed-handle config refl true subtitles gpu_runs (handle config true (parsed subtitles) gpu_runs)
      gpu_runs-Reachable none_yet

prewarm_waits : slot_for prewarming two_waiting ≡ none
unfolding handle main
prewarm_waits = refl

listening : has 2 two_waiting.closed ≡ false
unfolding handle main
listening = refl

Step-Move_example :
    Move
      (npu_slots config)
      (n_gpu_workers config)
      (view gpu_runs)
      (view (handle config true (parsed subtitles) gpu_runs))
Step-Move_example =
    Step-Move config gpu_runs (handle config true (parsed subtitles) gpu_runs) gpu_runs-Reachable
      (handled true (parsed subtitles))
