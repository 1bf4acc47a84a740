-- ===== src/Speech/Loads.antt =====
-- gen_audio/gen_audio_daemon.py: `_GenerationGuard` and `_ensure_thread_model`, by which the worker
-- threads keep the loading of a model apart from the generation of speech. The threads differ only by
-- where they stand, so the state counts the threads at each place.
pub mod Apart
use ziguijia_translate_ml.Common.{ℕ, suc, Bool, true, false, ◌+◌, ◌-◌, ◌<◌, ◌≡◌}

-- Where the threads stand. `waiting`: behind `_LOAD_ACTIVE = True`, in the loop until no generation is
-- in flight; `past`: behind that loop, before `with _LOAD_MUTEX`; `loading`: within it; `leaving`:
-- behind it, before the `finally`; `generating`: within the guard; `idle`: anywhere else.
pub record Threads : Type 0 where
  pub idle : ℕ
  pub waiting : ℕ
  pub past : ℕ
  pub loading : ℕ
  pub leaving : ℕ
  pub generating : ℕ
  pub gens_active : ℕ
  pub load_active : Bool
  pub load_mutex : Bool

unfoldable pub begin : (max_jobs : ℕ) → Threads
begin max_jobs = record {
  idle = max_jobs;
  waiting = 0;
  past = 0;
  loading = 0;
  leaving = 0;
  generating = 0;
  gens_active = 0;
  load_active = false;
  load_mutex = false;
}

-- `_LOAD_ACTIVE = True`, under the condition's lock
unfoldable pub announce : Threads → Threads
announce s = record s { idle = s.idle - 1; waiting = suc s.waiting; load_active = true }

-- `if _GENS_ACTIVE == 0: break`
unfoldable pub break_out : Threads → Threads
break_out s = record s { waiting = s.waiting - 1; past = suc s.past }

-- `with _LOAD_MUTEX`, in and out; the load may as well have raised
unfoldable pub take_mutex : Threads → Threads
take_mutex s = record s { past = s.past - 1; loading = suc s.loading; load_mutex = true }

unfoldable pub give_mutex : Threads → Threads
give_mutex s = record s { loading = s.loading - 1; leaving = suc s.leaving; load_mutex = false }

-- The `finally`.
unfoldable pub leave : Threads → Threads
leave s = record s { leaving = s.leaving - 1; idle = suc s.idle; load_active = false }

-- `__enter__` behind its loop, and `__exit__`
unfoldable pub enter : Threads → Threads
enter s = record s {
  idle = s.idle - 1;
  generating = suc s.generating;
  gens_active = suc s.gens_active;
}

unfoldable pub exit : Threads → Threads
exit s = record s {
  generating = s.generating - 1;
  idle = suc s.idle;
  gens_active = s.gens_active - 1;
}

-- One thread goes on, where its conditions hold.
pub data Step (s : Threads) : Threads → Type 0 where
  announced : 0 < s.idle → Step s (announce s)
  broke_out : 0 < s.waiting → s.gens_active ≡ 0 → Step s (break_out s)
  took_mutex : 0 < s.past → s.load_mutex ≡ false → Step s (take_mutex s)
  gave_mutex : 0 < s.loading → Step s (give_mutex s)
  left : 0 < s.leaving → Step s (leave s)
  entered : 0 < s.idle → s.load_active ≡ false → Step s (enter s)
  exited : 0 < s.generating → Step s (exit s)

pub data Steps (s : Threads) : Threads → Type 0 where
  none_yet : Steps s s
  and_step : {t u : Threads} → Steps s t → Step t u → Steps s u

-- A load runs while a generation does.
abbrev pub Overlaps : Threads → Type 0
Overlaps s = (0 < s.loading) × (0 < s.generating)

-- How many threads have announced a load and not left it.
abbrev pub loads_under_way : Threads → ℕ
loads_under_way s = s.waiting + s.past + s.loading + s.leaving

-- The runs in which a load is announced only while no other one is under way.
abbrev pub IsAlone : {s t : Threads} → Step s t → Type 0
IsAlone {s} (announced h) = loads_under_way s ≡ 0
IsAlone _ = Unit

pub data LoneSteps (s : Threads) : Threads → Type 0 where
  none_yet : LoneSteps s s
  and_step : {t u : Threads} → LoneSteps s t → (st : Step t u) → IsAlone st → LoneSteps s u
