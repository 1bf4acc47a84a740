-- ===== src/Daemon/Once.antt =====
-- Every request that the translation daemon reads is answered once.
use ziguijia_translate_ml.Common.{
  ℕ, ◌≡◌, ◌≢◌, refl, sym, ◌∙◌, Bool, true, false, some, ◌≤◌, ◌<◌, arith, find_by,
}
use ziguijia_translate_ml.Daemon.{Config, State, Running, Request, main, has, running_conn}
use ziguijia_translate_ml.Daemon.Requests.{malformed, parsed, handle}
use ziguijia_translate_ml.Daemon.Jobs.{
  respond, run_ensure_model, engine_ready, model_ready, load_raised, Loading,
}
use ziguijia_translate_ml.Daemon.Steps.{
  Step, Steps, handled, started, loaded, translated, exited, model_ensured, finished, polled,
  quit_requested, none_yet, and_step, Reachable,
}
use ziguijia_translate_ml.Daemon.Fair.{
  owed, IsFair, Owes, and_then, dropped, handle_malformed, handle_parsed, handle-IsFair,
  Same-IsFair, start_job-IsFair, respond-IsFair, finish-IsFair,
}

module _ (c : Config) (unstopped : c.stop_requested ≡ false) where
  model_ensured-IsFair :
      (now : ℕ) (outcome : Loading) (conn : ℕ) (r : Running) (s : State)
      → find_by running_conn conn s.running ≡ some r
      → IsFair s
      → IsFair (
          respond r
            (run_ensure_model c.limits now outcome s).0
            (run_ensure_model c.limits now outcome s).1)
        × Owes s (
            respond r
              (run_ensure_model c.limits now outcome s).0
              (run_ensure_model c.limits now outcome s).1)
  unfolding run_ensure_model
  model_ensured-IsFair now (engine_ready d) conn r s found v =
      and_then (Same-IsFair s _ (λ c. refl) (λ c. refl) (λ c. refl) refl v)
        (respond-IsFair conn r _ _ found)
  model_ensured-IsFair now (model_ready d) conn r s found v =
      and_then (Same-IsFair s _ (λ c. refl) (λ c. refl) (λ c. refl) refl v)
        (respond-IsFair conn r _ _ found)
  model_ensured-IsFair now (load_raised e) conn r s found v = respond-IsFair conn r _ s found v

  true-false : true ≢ false
  true-false h = cc

  Step-IsFair : {s t : State} → Step c s t → IsFair s → IsFair t × Owes s t
  Step-IsFair {s = s} (handled accepts input) v = handle-IsFair c accepts input s v
  Step-IsFair {s = s} (started tid now conn job found free) v =
      start_job-IsFair tid now conn job s found v
  Step-IsFair {s = s} loaded v = Same-IsFair s _ (λ c. refl) (λ c. refl) (λ c. refl) refl v
  Step-IsFair {s = s} (translated outcome conn r resp found _ _) v =
      respond-IsFair conn r resp s found v
  Step-IsFair (exited conn r stopped _ _ _) v = absurd (true-false (sym stopped ∙ unstopped))
  Step-IsFair {s = s} (model_ensured outcome now conn r found _) v =
      model_ensured-IsFair now outcome conn r s found v
  Step-IsFair {s = s} (finished now conn r found) v = finish-IsFair c.limits now r s v
  Step-IsFair {s = s} (polled r) v = Same-IsFair s _ (λ c. refl) (λ c. refl) (λ c. refl) refl v
  Step-IsFair {s = s} quit_requested v = Same-IsFair s _ (λ c. refl) (λ c. refl) (λ c. refl) refl v

  Steps-IsFair : {s t : State} → Steps c s t → IsFair s → IsFair t × Owes s t
  Steps-IsFair none_yet v = (v, record { later = omega arith; same = λ c' old. refl })
  Steps-IsFair (and_step steps step) v = and_then (Steps-IsFair steps v) (Step-IsFair step)

  main-IsFair : IsFair (main c)
  unfolding main
  main-IsFair = record {
    unused = λ c' le. refl;
    unclosed = λ c' le. refl;
    listening = λ c' some_job. absurd (omega (arith, some_job));
    once = λ c'. omega arith;
  }

  -- In every state that the daemon reaches without SystemExit, no connection has more than one response, nor one besides
  -- a job that is still to be answered.
  pub owed-le : (s : State) (conn : ℕ) → Reachable c s → owed conn s ≤ 1
  owed-le s conn reached = (Steps-IsFair reached main-IsFair).0.once conn

  -- No request is lost: a request that the daemon reads has, from then on and in every state that
  -- follows, exactly one response or one job that is still to be answered, whether its slot was
  -- free, its command known, its pool open or its work failed with an `Exception`; where no signal has
  -- made `translate_srt_file` raise SystemExit.
  pub owed-handle :
      (accepts : Bool) (req : Request) (s t : State)
      → Reachable c s
      → Steps c (handle c accepts (parsed req) s) t
      → owed s.next_conn t ≡ 1
  owed-handle accepts req s t reached after =
      let (fair, (owes, due)) =
        handle_parsed c accepts req s (Steps-IsFair reached main-IsFair).0 in
      let accepted : s.next_conn < (handle c accepts (parsed req) s).next_conn =
        ground (arith, fair.unused s.next_conn) in
      (Steps-IsFair after fair).1.same s.next_conn accepted ∙ due

  -- A line that is no JSON gets no response: its connection is closed before the response
  -- "malformed request" is sent.
  pub answered-malformed :
      (accepts : Bool) (s : State)
      → (handle c accepts malformed s).responses ≡ s.responses
        × (has s.next_conn (handle c accepts malformed s).closed ≡ true)
  unfolding dropped
  answered-malformed accepts s = rw (handle_malformed c accepts s) (refl, ground arith)
