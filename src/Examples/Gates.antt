-- ===== src/Examples/Gates.antt =====
-- The gate with the translation daemon's parameters, and the daemon with one NPU and one GPU slot.
use ziguijia_translate_ml.Common.{◌≡◌, refl, true, false, none, some, List, [], ◌∷◌, map, arith, ℕ}
use ziguijia_translate_ml.Thermal.{
  Limits, new_gate, hotter, Reading, Event, polled, grace_disarmed, monitor,
}
use ziguijia_translate_ml.Thermal.Laws.{or_else, last_signal, blocked-monitor}
use ziguijia_translate_ml.Thermal.Shutdown.{monitor_hot}
use ziguijia_translate_ml.Thermal.Hang.{watch_turn, killed}

abbrev pub defaults : Limits
defaults = record {
  temp_limit = 90000;
  cooldown_target = 70000;
  idle_temperature = 76000;
  idle_critical_temp = 98000;
  idle_grace_secs = 600;
  idle_timeout_secs = 300;
  idle_hot_polls = 2;
}

abbrev reading : (gpu active now : ℕ) → Reading
reading gpu active now = record {
  gpu = some gpu;
  cpu = none;
  active = active;
  loaded = true;
  now = now;
  active_later = active;
  loaded_later = true;
  later = now;
}

abbrev heats_and_cools : List (Event defaults)
heats_and_cools =
    polled (reading 91000 1 10)
    ∷ grace_disarmed
    ∷ polled (reading 80000 1 20)
    ∷ polled (reading 69000 1 30)
    ∷ polled (reading 85000 1 40)
    ∷ []

still_runs : (monitor defaults heats_and_cools new_gate).0 ≡ false
unfolding monitor
still_runs = refl

resumed : (monitor defaults heats_and_cools new_gate).1.blocked ≡ false
unfolding monitor
resumed = refl

blocked-monitor_example :
    (monitor defaults heats_and_cools new_gate).1.blocked
    ≡ or_else (last_signal defaults heats_and_cools) false
blocked-monitor_example = blocked-monitor defaults heats_and_cools new_gate (omega arith) still_runs

monitor_hot_example :
    (monitor defaults (map polled (reading 77000 0 10 ∷ reading 78000 0 20 ∷ [])) new_gate).0 ≡ true
unfolding hotter
monitor_hot_example =
    monitor_hot defaults (reading 77000 0 10 ∷ reading 78000 0 20 ∷ []) new_gate (refl, (refl, tt))
      (omega arith) (omega arith)

-- Two hot polls with a busy one between them.
not_consecutive :
    (monitor defaults
      (polled (reading 77000 0 10) ∷ polled (reading 77000 1 20) ∷ polled (reading 77000 0 30) ∷ [])
      new_gate).0
    ≡ true
unfolding monitor
not_consecutive = refl

watchdog : watch_turn 60 90 false 100 101 ((7, 20) ∷ (8, 50) ∷ []) ≡ killed 191
unfolding watch_turn
watchdog = refl
