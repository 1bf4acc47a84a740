-- ===== src/Thermal/Shutdown.antt =====
-- When the gate asks a daemon to shut down.
use mathlib.Core.Path.{subst⁻¹}
use ziguijia_translate_ml.Common.{
  ℕ, suc, ◌≡◌, refl, Bool, true, false, not, Option, none, some, List, [], ◌∷◌, ◌++◌, ◌+◌, ◌≤◌, ◌<◌,
  ◌&&◌, ◌||◌, arith, All, length, map, leb, ◌==◌, Bool-cases, inl, inr,
}
use ziguijia_translate_ml.Thermal.{
  Limits, ThermalGate, Reading, Event, polled, grace_armed, grace_disarmed, timeout_armed,
  timeout_disarmed, hotter, is_past, arm_idle_timeout, next_blocked, count_hot, is_timed_out, poll,
  monitor,
}

module _ (l : Limits) where
  -- Jobs run, or no model is loaded, whenever the poll looks.
  abbrev pub is_busy : Reading → Bool
  is_busy r = not (r.active == 0 && r.loaded) && not (r.active_later == 0 && r.loaded_later)

  poll_busy :
      (r : Reading) (g : ThermalGate)
      → is_busy r ≡ true
      → ((poll l r g).0 ≡ false) × ((poll l r g).1.hot_polls ≡ g.hot_polls)
  unfolding poll count_hot is_timed_out
  poll_busy r g busy = elim (Bool-cases (r.active == 0 && r.loaded)) [
    | inl idle ↦ ground arith
    | inr runs ↦ elim_hot (hotter r.gpu r.cpu) runs
  ]
    where
      elim_hot :
          (h : Option ℕ)
          → (r.active == 0 && r.loaded) ≡ false
          → ((count_hot l r h (record g { blocked = next_blocked l r.gpu g.blocked })).0
                || is_timed_out l r
                    (count_hot l r h (record g { blocked = next_blocked l r.gpu g.blocked })).1)
              ≡ false
            × ((count_hot l r h (record g { blocked = next_blocked l r.gpu g.blocked })).1.hot_polls
                ≡ g.hot_polls)
      elim_hot none runs = (ground arith, refl)
      elim_hot (some h) runs = (ground arith, ground arith)

  -- While jobs run or no model is loaded, no number of polls asks for a shutdown. They leave the
  -- count of hot polls as it was, so that hot polls before and after them count together.
  pub monitor_busy :
      (rs : List Reading) (g : ThermalGate)
      → All (λ r. is_busy r ≡ true) rs
      → ((monitor l (map polled rs) g).0 ≡ false)
        × ((monitor l (map polled rs) g).1.hot_polls ≡ g.hot_polls)
  unfolding monitor
  monitor_busy [] g busy = (refl, refl)
  monitor_busy (r ∷ rs) g busy = (
    ground (arith, poll_busy r g busy.0, monitor_busy rs (poll l r g).1 busy.1),
    ground (arith, poll_busy r g busy.0, monitor_busy rs (poll l r g).1 busy.1),
  )

  -- Idle with a model, and so hot that a shutdown is due once the grace is over.
  abbrev pub hot_enough : (prewarm_until now : ℕ) → Option ℕ → Bool
  hot_enough until now none = false
  hot_enough until now (some t) =
      leb l.idle_critical_temp t || (leb l.idle_temperature t && leb until now)

  abbrev pub is_hot_idle : (prewarm_until : ℕ) → Reading → Bool
  is_hot_idle until r = r.active == 0 && (r.loaded && hot_enough until r.now (hotter r.gpu r.cpu))

  count_hot_idle :
      (r : Reading) (h : Option ℕ) (g : ThermalGate)
      → r.active ≡ 0
      → r.loaded ≡ true
      → hot_enough g.prewarm_until r.now h ≡ true
      → count_hot l r h g
        ≡ (leb l.idle_hot_polls (suc g.hot_polls), record g { hot_polls = suc g.hot_polls })
  unfolding count_hot
  count_hot_idle r none g idle loaded hot = cc
  count_hot_idle r (some h) g idle loaded hot = simp (idle, loaded, hot)

  poll_hot :
      (r : Reading) (g : ThermalGate)
      → is_hot_idle g.prewarm_until r ≡ true
      → ((poll l r g).0 ≡ false → suc g.hot_polls < l.idle_hot_polls)
        × (((poll l r g).1.hot_polls ≡ suc g.hot_polls)
            × ((poll l r g).1.prewarm_until ≡ g.prewarm_until))
  unfolding poll
  poll_hot r g hot =
      let idle : r.active ≡ 0 = ground arith in
      let loaded : r.loaded ≡ true = ground arith in
      let enough : hot_enough g.prewarm_until r.now (hotter r.gpu r.cpu) ≡ true = ground arith in
      rw
        (count_hot_idle r (hotter r.gpu r.cpu)
          (record g { blocked = next_blocked l r.gpu g.blocked }) idle loaded enough)
        (λ runs. ground arith, (refl, refl))

  -- A daemon that stays idle with a loaded model and hot shuts down: as many polls in a row as
  -- `idle_hot_polls` says, each at the critical temperature, or at the idle temperature when the
  -- grace is over, ask for it, whatever the gate counted before.
  pub monitor_hot :
      (rs : List Reading) (g : ThermalGate)
      → All (λ r. is_hot_idle g.prewarm_until r ≡ true) rs
      → 0 < length rs
      → l.idle_hot_polls ≤ g.hot_polls + length rs
      → (monitor l (map polled rs) g).0 ≡ true
  unfolding monitor
  monitor_hot [] g hot some_poll enough = absurd (omega arith)
  monitor_hot (r ∷ rs) g hot some_poll enough =
      let (due, (counted, kept)) = poll_hot r g hot.0 in
      elim (Bool-cases (poll l r g).0) [
        | inl stops ↦ rw stops refl
        | inr runs ↦ rw runs (
            monitor_hot rs (poll l r g).1
              (subst⁻¹ (λ until. All (λ r'. is_hot_idle until r' ≡ true) rs) kept hot.1)
              (omega (arith, due runs, enough)) (omega (arith, counted, enough)))
      ]

  -- Neither a disarming nor a new arming of the timeout.
  abbrev pub keeps_timeout : Event l → Bool
  keeps_timeout (timeout_armed now) = false
  keeps_timeout timeout_disarmed = false
  keeps_timeout e = true

  idle_kill_at-poll : (r : Reading) (g : ThermalGate) → (poll l r g).1.idle_kill_at ≡ g.idle_kill_at
  unfolding poll count_hot
  idle_kill_at-poll r g = kept (hotter r.gpu r.cpu)
    where
      kept :
          (h : Option ℕ)
          → (count_hot l r h (record g { blocked = next_blocked l r.gpu g.blocked })).1.idle_kill_at
            ≡ g.idle_kill_at
      kept none = refl
      kept (some h) = ground arith

  poll_timed_out :
      (r : Reading) (g : ThermalGate) (t : ℕ)
      → g.idle_kill_at ≡ some t
      → 0 < l.idle_timeout_secs
      → r.active_later ≡ 0
      → r.loaded_later ≡ true
      → t ≤ r.later
      → (poll l r g).0 ≡ true
  unfolding poll is_timed_out is_past
  poll_timed_out r g t armed enabled idle loaded passed =
      let later = idle_kill_at-poll r g in ground (arith, later)

  pending_timeout :
      (es : List (Event l)) (r : Reading) (g : ThermalGate) (t : ℕ)
      → g.idle_kill_at ≡ some t
      → All (λ e. keeps_timeout e ≡ true) es
      → 0 < l.idle_timeout_secs
      → r.active_later ≡ 0
      → r.loaded_later ≡ true
      → t ≤ r.later
      → (monitor l (es ++ polled r ∷ []) g).0 ≡ true
  unfolding monitor
  pending_timeout [] r g t armed keeps enabled idle loaded passed =
      ground (arith, poll_timed_out r g t)
  pending_timeout (polled r' ∷ es) r g t armed keeps enabled idle loaded passed =
      ground (arith, pending_timeout es r (poll l r' g).1 t, idle_kill_at-poll r' g, keeps.1)
  pending_timeout (grace_armed now ∷ es) r g t armed keeps enabled idle loaded passed =
      pending_timeout es r _ t armed keeps.1 enabled idle loaded passed
  pending_timeout (grace_disarmed ∷ es) r g t armed keeps enabled idle loaded passed =
      pending_timeout es r _ t armed keeps.1 enabled idle loaded passed
  pending_timeout (timeout_armed now ∷ es) r g t armed keeps enabled idle loaded passed =
      absurd (ground (arith, keeps.0))
  pending_timeout (timeout_disarmed ∷ es) r g t armed keeps enabled idle loaded passed =
      absurd (ground (arith, keeps.0))

  -- An idle daemon shuts down however cool it is: once the timeout was armed, and whatever happens
  -- but that it is disarmed or armed again, a poll at its deadline or later, while no job runs and a
  -- model is loaded, asks for a shutdown, if none did before. The timeout is not switched off.
  pub monitor_idle :
      (armed : ℕ) (es : List (Event l)) (r : Reading) (g : ThermalGate)
      → All (λ e. keeps_timeout e ≡ true) es
      → 0 < l.idle_timeout_secs
      → r.active_later ≡ 0
      → r.loaded_later ≡ true
      → armed + l.idle_timeout_secs ≤ r.later
      → (monitor l (timeout_armed armed ∷ es ++ polled r ∷ []) g).0 ≡ true
  unfolding monitor arm_idle_timeout
  monitor_idle armed es r g keeps enabled idle loaded passed =
      pending_timeout es r _ (armed + l.idle_timeout_secs) refl keeps enabled idle loaded passed
