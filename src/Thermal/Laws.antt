-- ===== src/Thermal/Laws.antt =====
-- What sequences of polls and other events do to the gate.
use ziguijia_translate_ml.Common.{
  ℕ, ◌≡◌, refl, Bool, true, false, Option, none, some, List, [], ◌∷◌, ◌<◌, arith, leb,
  if◌then◌else◌,
}
use ziguijia_translate_ml.Thermal.{
  Limits, ThermalGate, Reading, Event, polled, grace_armed, grace_disarmed, timeout_armed,
  timeout_disarmed, hotter, disarm_grace, disarm_idle_timeout, arm_grace, arm_idle_timeout,
  next_blocked, count_hot, poll, monitor,
}

abbrev pub or_else : Option Bool → Bool → Bool
or_else none b = b
or_else (some b) c = b

module _ (l : Limits) where
  -- What a temperature says of the pause: on, off, or nothing between the two thresholds.
  abbrev pub signal : Option ℕ → Option Bool
  signal none = none
  signal (some t) =
      if leb l.temp_limit t
      then some true
      else (if leb t l.cooldown_target then some false else none)

  abbrev signal_of : Event l → Option Bool
  signal_of (polled r) = signal r.gpu
  signal_of (grace_armed now) = none
  signal_of grace_disarmed = none
  signal_of (timeout_armed now) = none
  signal_of timeout_disarmed = none

  -- The last temperature that said something.
  unfoldable pub last_signal : List (Event l) → Option Bool
  last_signal [] = none
  last_signal (e ∷ es) = elim (last_signal es) [ none ↦ signal_of e | some b ↦ some b ]

  next_blocked-signal :
      (t : Option ℕ) (b : Bool)
      → l.cooldown_target < l.temp_limit
      → next_blocked l t b ≡ or_else (signal t) b
  unfolding next_blocked
  next_blocked-signal none b lt = refl
  next_blocked-signal (some t) b lt = ground arith

  blocked-count_hot :
      (r : Reading) (h : Option ℕ) (g : ThermalGate) → (count_hot l r h g).1.blocked ≡ g.blocked
  unfolding count_hot
  blocked-count_hot r none g = refl
  blocked-count_hot r (some h) g = ground arith

  blocked-poll :
      (r : Reading) (g : ThermalGate) → (poll l r g).1.blocked ≡ next_blocked l r.gpu g.blocked
  unfolding poll
  blocked-poll r g = blocked-count_hot r (hotter r.gpu r.cpu) _

  -- The workers are paused as the last temperature outside the band between the cooldown target and
  -- the limit said, and as before if there was none, as long as no poll asked for a shutdown. The
  -- cooldown target is below the limit.
  pub blocked-monitor :
      (es : List (Event l)) (g : ThermalGate)
      → l.cooldown_target < l.temp_limit
      → (monitor l es g).0 ≡ false
      → (monitor l es g).1.blocked ≡ or_else (last_signal es) g.blocked
  unfolding monitor last_signal arm_grace disarm_grace arm_idle_timeout disarm_idle_timeout
  blocked-monitor [] g lt runs = refl
  blocked-monitor (polled r ∷ es) g lt runs = ground (
    arith,
    blocked-monitor es (poll l r g).1,
    blocked-poll r g,
    next_blocked-signal r.gpu g.blocked,
  )
  blocked-monitor (grace_armed now ∷ es) g lt runs =
      ground (arith, blocked-monitor es (arm_grace l now g))
  blocked-monitor (grace_disarmed ∷ es) g lt runs =
      ground (arith, blocked-monitor es (disarm_grace g))
  blocked-monitor (timeout_armed now ∷ es) g lt runs =
      ground (arith, blocked-monitor es (arm_idle_timeout l now g))
  blocked-monitor (timeout_disarmed ∷ es) g lt runs =
      ground (arith, blocked-monitor es (disarm_idle_timeout g))
