-- ===== src/Thermal.antt =====
-- gpu_thermal.py: `ThermalGate`, as a record that its methods pass on. Temperatures are thousandths
-- of a degree, as the sensor files hold them, and not below zero; times are in any unit.
pub mod Hang
pub mod Laws
pub mod Shutdown
use ziguijia_translate_ml.Common.{
  ℕ, suc, Bool, true, false, not, Option, none, some, List, [], ◌∷◌, ◌+◌, ◌&&◌, ◌||◌, ltb, leb,
  ◌==◌, if◌then◌else◌,
}

-- The parameters of `__init__`.
pub record Limits : Type 0 where
  pub temp_limit : ℕ
  pub cooldown_target : ℕ
  pub idle_temperature : ℕ
  pub idle_critical_temp : ℕ
  pub idle_grace_secs : ℕ
  pub idle_timeout_secs : ℕ
  pub idle_hot_polls : ℕ

-- What changes. No deadline stands for `float("inf")`.
pub record ThermalGate : Type 0 where
  pub blocked : Bool
  pub prewarm_until : ℕ
  pub hot_polls : ℕ
  pub idle_kill_at : Option ℕ

abbrev pub new_gate : ThermalGate
new_gate = record { blocked = false; prewarm_until = 0; hot_polls = 0; idle_kill_at = none }

-- What a call of `poll` reads: the sensors, and what `active()`, `model_loaded()` and the clock
-- answer in its first and in its second condition.
pub record Reading : Type 0 where
  pub gpu : Option ℕ
  pub cpu : Option ℕ
  pub active : ℕ
  pub loaded : Bool
  pub now : ℕ
  pub active_later : ℕ
  pub loaded_later : Bool
  pub later : ℕ

abbrev pub max : ℕ → ℕ → ℕ
max a b = if ltb a b then b else a

-- `hot`: the hotter sensor of those that answer
unfoldable pub hotter : Option ℕ → Option ℕ → Option ℕ
hotter none none = none
hotter none (some c) = some c
hotter (some g) none = some g
hotter (some g) (some c) = some (max g c)

-- `now >= deadline`
unfoldable pub is_past : Option ℕ → ℕ → Bool
is_past none now = false
is_past (some deadline) now = leb deadline now

unfoldable pub disarm_grace : ThermalGate → ThermalGate
disarm_grace g = record g { prewarm_until = 0 }

unfoldable pub disarm_idle_timeout : ThermalGate → ThermalGate
disarm_idle_timeout g = record g { idle_kill_at = none }

module _ (l : Limits) where
  unfoldable pub arm_grace : (now : ℕ) → ThermalGate → ThermalGate
  arm_grace now g = record g { prewarm_until = now + l.idle_grace_secs }

  unfoldable pub arm_idle_timeout : (now : ℕ) → ThermalGate → ThermalGate
  arm_idle_timeout now g = record g { idle_kill_at = some (now + l.idle_timeout_secs) }

  -- The pause: set at the limit, cleared at the cooldown target.
  unfoldable pub next_blocked : Option ℕ → Bool → Bool
  next_blocked none b = b
  next_blocked (some t) b =
      if leb l.temp_limit t && not b
      then true
      else (if leb t l.cooldown_target && b then false else b)

  -- Idle with a model, at a temperature that asks for a shutdown.
  abbrev pub is_hot : Reading → (hot : ℕ) → ThermalGate → Bool
  is_hot r hot g =
      leb l.idle_critical_temp hot || (leb l.idle_temperature hot && leb g.prewarm_until r.now)

  -- The count of hot polls, and whether it asks for a shutdown.
  unfoldable pub count_hot : Reading → Option ℕ → ThermalGate → Bool × ThermalGate
  count_hot r none g = (false, g)
  count_hot r (some hot) g =
      if r.active == 0 && r.loaded
      then (if is_hot r hot g
          then (leb l.idle_hot_polls (suc g.hot_polls), record g { hot_polls = suc g.hot_polls })
          else (false, record g { hot_polls = 0 }))
      else (false, g)

  unfoldable pub is_timed_out : Reading → ThermalGate → Bool
  unfolding is_past
  is_timed_out r g =
      not (leb l.idle_timeout_secs 0)
      && (r.active_later == 0 && (r.loaded_later && is_past g.idle_kill_at r.later))

  -- `poll`: whether the daemon should shut down
  unfoldable pub poll : Reading → ThermalGate → Bool × ThermalGate
  unfolding next_blocked count_hot hotter is_timed_out
  poll r g =
      let (stop, g') =
        count_hot r (hotter r.gpu r.cpu) (record g { blocked = next_blocked r.gpu g.blocked }) in
      (stop || is_timed_out r g', g')

  -- What the threads of a daemon do with its gate.
  pub data Event : Type 0 where
    polled : Reading → Event
    grace_armed : ℕ → Event
    grace_disarmed : Event
    timeout_armed : ℕ → Event
    timeout_disarmed : Event

  -- Events in order, until a poll asks for a shutdown.
  unfoldable pub monitor : List Event → ThermalGate → Bool × ThermalGate
  unfolding poll arm_grace disarm_grace arm_idle_timeout disarm_idle_timeout
  monitor [] g = (false, g)
  monitor (polled r ∷ es) g =
      let (stop, g') = poll r g in let rest = monitor es g' in if stop then (true, g') else rest
  monitor (grace_armed now ∷ es) g = monitor es (arm_grace now g)
  monitor (grace_disarmed ∷ es) g = monitor es (disarm_grace g)
  monitor (timeout_armed now ∷ es) g = monitor es (arm_idle_timeout now g)
  monitor (timeout_disarmed ∷ es) g = monitor es (disarm_idle_timeout g)
