-- ===== src/Examples/Speeches.antt =====
-- Runs of the speech daemon, and of its theorems.
use ziguijia_translate_ml.Common.{
  ℕ, ◌≡◌, ◌<◌, refl, true, Option, none, some, [], ◌∷◌, ◌==◌, if◌then◌else◌, arith,
}
use ziguijia_translate_ml.Speech.{Config, Request, State, tts, parsed, main, handle, busy}
use ziguijia_translate_ml.Speech.Jobs.{none_yet, and_step, handled}
use ziguijia_translate_ml.Speech.Balance.{IsBalanced, Steps-IsBalanced}
use ziguijia_translate_ml.Speech.Loads.{
  Threads, begin, announce, break_out, Overlaps, LoneSteps, loads_under_way, announced, broke_out,
}
use ziguijia_translate_ml.Speech.Loads
use ziguijia_translate_ml.Speech.Loads.Apart.{not-Overlaps, Overlaps-begin}
use ziguijia_translate_ml.Speech.Voice.{
  generate_anchored, generate_with_retry, Call, not_finite, speech, wav,
}
use ziguijia_translate_ml.Speech.Voice.Closest.{IsTaken, generate_anchored-IsTaken}

abbrev daemon : Config
daemon = record {
  gen_audio_max_jobs = 1;
  limits = record {
    temp_limit = 90;
    cooldown_target = 70;
    idle_temperature = 76;
    idle_critical_temp = 98;
    idle_grace_secs = 100;
    idle_timeout_secs = 300;
    idle_hot_polls = 3;
  };
}

abbrev job : Request
job = record { cmd = tts; params = none; output_path = some "/tmp/a.wav" }

abbrev one : State
one = handle daemon true (parsed job) (main daemon)

-- With one worker the second request is answered as busy, while the first one waits.
second_busy : (handle daemon true (parsed job) one).responses ≡ (1, busy) ∷ []
unfolding handle main
second_busy = refl

Steps-IsBalanced_example : IsBalanced daemon one
Steps-IsBalanced_example = Steps-IsBalanced daemon (and_step none_yet (handled true (parsed job)))

idle_worker : 0 < (begin 2).idle
unfolding begin
idle_worker = omega arith

all_idle : loads_under_way (begin 2) ≡ 0
unfolding begin
all_idle = refl

abbrev lone_run : LoneSteps (begin 2) (announce (begin 2))
lone_run = Loads.LoneSteps.and_step Loads.LoneSteps.none_yet (announced idle_worker) all_idle

not-Overlaps_example : ¬ Overlaps (announce (begin 2))
not-Overlaps_example = not-Overlaps 2 lone_run

Overlaps-begin_example : (t : Threads) × Loads.Steps (begin 2) t × Overlaps t
Overlaps-begin_example = Overlaps-begin 2 (omega arith)

-- Two answers that are not finite, and speech.
abbrev third_try : ℕ → Call
third_try n = if n == 2 then speech 9000 else not_finite

third_taken : generate_with_retry third_try ≡ wav 9000 2
unfolding generate_with_retry
third_taken = refl

-- Ten characters of English are expected to last some 1.8 seconds; 6, 5 and 7 seconds are too long.
abbrev long_tries : ℕ → Option ℕ
long_tries n = if n == 0 then some 144000 else if n == 1 then some 120000 else some 168000

closest_taken : generate_anchored 24000 13 10 long_tries ≡ some 120000
unfolding generate_anchored
closest_taken = refl

generate_anchored-IsTaken_example :
    (w : ℕ) × (generate_anchored 24000 13 10 long_tries ≡ some w)
    × IsTaken 24000 13 10 144000 120000 168000 w
generate_anchored-IsTaken_example =
    generate_anchored-IsTaken 24000 13 10 long_tries 144000 120000 168000 refl refl refl
