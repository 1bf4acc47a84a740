-- ===== src/Daemon/Safety.antt =====
-- What holds in every state that the translation daemon reaches.
use ziguijia_translate_ml.Common.{
  ℕ, ◌≡◌, refl, Bool, true, false, none, some, ◌+◌, arith, ltb, find_by, if◌then◌else◌, Bool-cases,
  inl, inr,
}
use ziguijia_translate_ml.Daemon.{
  Config, State, Running, main, sem_of, n_gpu_workers, running_conn, busy,
}
use ziguijia_translate_ml.Daemon.Jobs.{
  run_ensure_model, engine_ready, model_ready, load_raised, Loading, respond,
}
use ziguijia_translate_ml.Daemon.Slots.{Accounts, IsBalanced}
use ziguijia_translate_ml.Daemon.Balance.{handle-IsBalanced}
use ziguijia_translate_ml.Daemon.Work.{
  start_job-IsBalanced, moved-IsBalanced, respond-IsBalanced, finish-IsBalanced,
}
use ziguijia_translate_ml.Daemon.Steps.{
  Step, handled, started, loaded, translated, exited, model_ensured, finished, polled,
  quit_requested, none_yet, and_step, Reachable,
}

main-IsBalanced : (c : Config) → IsBalanced (main c)
unfolding IsBalanced main
main-IsBalanced c = record {
  npu = npu_slot c.npu_slot;
  gpu = gpu_slots (n_gpu_workers c);
  counted = refl;
  in_bounds = refl;
  guarded = λ t. refl;
}
  where
    npu_slot :
        (b : Bool) → Accounts (if b then some (record { permits = 1; bound = 1 }) else none) (0 + 0)
    npu_slot true = refl
    npu_slot false = refl

    gpu_slots : (n : ℕ) → Accounts (sem_of n) (0 + 0)
    gpu_slots n = elim (Bool-cases (ltb 0 n)) [
      | inl some_worker ↦ rw some_worker (omega arith)
      | inr no_worker ↦ rw no_worker refl
    ]

module _ (c : Config) where
  run_ensure_model-IsBalanced :
      (now : ℕ) (outcome : Loading) (conn : ℕ) (r : Running) (s : State)
      → find_by running_conn conn s.running ≡ some r
      → IsBalanced s
      → IsBalanced (
          respond r
            (run_ensure_model c.limits now outcome s).0
            (run_ensure_model c.limits now outcome s).1)
  unfolding run_ensure_model IsBalanced
  run_ensure_model-IsBalanced now (engine_ready d) conn r s found v =
      respond-IsBalanced conn r _ _ found (record {
        npu = v.npu;
        gpu = v.gpu;
        counted = v.counted;
        in_bounds = v.in_bounds;
        guarded = v.guarded;
      })
  run_ensure_model-IsBalanced now (model_ready d) conn r s found v =
      respond-IsBalanced conn r _ _ found (record {
        npu = v.npu;
        gpu = v.gpu;
        counted = v.counted;
        in_bounds = v.in_bounds;
        guarded = v.guarded;
      })
  run_ensure_model-IsBalanced now (load_raised e) conn r s found v =
      respond-IsBalanced conn r _ s found v

  Step-IsBalanced : {s t : State} → Step c s t → IsBalanced s → IsBalanced t
  unfolding IsBalanced
  Step-IsBalanced {s = s} (handled accepts input) v = handle-IsBalanced c accepts input s v
  Step-IsBalanced {s = s} (started tid now conn job found free) v =
      start_job-IsBalanced tid now conn job s found free v
  Step-IsBalanced loaded v = record {
    npu = v.npu;
    gpu = v.gpu;
    counted = v.counted;
    in_bounds = v.in_bounds;
    guarded = v.guarded;
  }
  Step-IsBalanced {s = s} (translated outcome conn r resp found _ _) v =
      respond-IsBalanced conn r resp s found v
  Step-IsBalanced {s = s} (exited conn r _ found _ _) v = moved-IsBalanced conn r busy s found v
  Step-IsBalanced {s = s} (model_ensured outcome now conn r found _) v =
      run_ensure_model-IsBalanced now outcome conn r s found v
  Step-IsBalanced {s = s} (finished now conn r found) v =
      finish-IsBalanced c.limits now conn r s found v
  Step-IsBalanced (polled r) v = record {
    npu = v.npu;
    gpu = v.gpu;
    counted = v.counted;
    in_bounds = v.in_bounds;
    guarded = v.guarded;
  }
  Step-IsBalanced quit_requested v = record {
    npu = v.npu;
    gpu = v.gpu;
    counted = v.counted;
    in_bounds = v.in_bounds;
    guarded = v.guarded;
  }

  -- No worker slot is lost or given twice: in every state that the daemon reaches, whatever its
  -- threads do in whatever order, the free slots and those of the jobs that wait, run or end make up
  -- each semaphore's bound, no release raised ValueError, the jobs that run or end are counted as
  -- active, and the hang guard watches exactly the threads of those on the GPU.
  pub Reachable-IsBalanced : (s : State) → Reachable c s → IsBalanced s
  Reachable-IsBalanced s none_yet = main-IsBalanced c
  Reachable-IsBalanced s (and_step steps step) = Step-IsBalanced step (Reachable-IsBalanced _ steps)
