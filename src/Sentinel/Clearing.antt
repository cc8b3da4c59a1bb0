-- ===== src/Sentinel/Clearing.antt =====
-- What becomes of `LastClearedAt`.
use mini_world.Sentinel.{healthy, watch, warning, critical}
use mini_world.Base.Maps.{Key, put, Meets, get, All-put, get-Meets}
use mini_world.Sentinel.{
  AlertState, note_alert, level_severity, Alerts, CheckResult, detect_one, detect_loop,
  detect_alerts, Level, set_baselines, detect_known, Alert, baseline, same_level, cooldown_cycles,
}
use mini_world.Base.{ℕ, ◌+◌, ◌≡◌, refl, Option, none, some, List, [], ◌∷◌, ltb, leb, All, if_both}

abbrev pub IsUncleared : AlertState → Type 0
IsUncleared s = s.last_cleared_at ≡ 0

note_alert-IsUncleared :
    (cycle : ℕ) (status : Level) (prev : AlertState)
    → IsUncleared prev
    → IsUncleared (note_alert cycle status prev)
unfolding note_alert level_severity
note_alert-IsUncleared cycle healthy prev h = h
note_alert-IsUncleared cycle watch prev h = h
note_alert-IsUncleared cycle warning prev h = h
note_alert-IsUncleared cycle critical prev h = h

abbrev pub AreUncleared : {Name : Type 0} → Alerts Name → Type 0
AreUncleared st = All (λ e. IsUncleared e.1) st

module _ {Name : Type 0} ⦃k : Key Name⦄ where
  set_baselines-AreUncleared :
      (cycle : ℕ) (cs : List (CheckResult Name)) (st : Alerts Name)
      → AreUncleared st
      → AreUncleared (set_baselines cycle cs st)
  set_baselines-AreUncleared cycle [] st h = h
  set_baselines-AreUncleared cycle (c ∷ cs) st h =
      set_baselines-AreUncleared cycle cs (put c.name (baseline cycle c.status) st)
        (All-put IsUncleared c.name (baseline cycle c.status) st refl h)

  detect_one-AreUncleared :
      (cycle : ℕ) (c : CheckResult Name) (found : Option AlertState) (st : Alerts Name)
      (alerts : List (Alert Name))
      → Meets IsUncleared found
      → AreUncleared st
      → AreUncleared (detect_one cycle c found (st, alerts)).0
  unfolding detect_one detect_known
  detect_one-AreUncleared cycle c none st alerts h hs =
      All-put IsUncleared c.name (baseline cycle c.status) st refl hs
  detect_one-AreUncleared cycle c (some prev) st alerts h hs =
      let P = λ (s : Alerts Name × List (Alert Name)). AreUncleared s.0 in
      if_both P (same_level c.status prev.last_level) (λ _. hs)
        (λ _.
          if_both P (ltb cycle (prev.last_alert_at + cooldown_cycles)) (λ _. hs)
            (λ _.
              All-put IsUncleared c.name (note_alert cycle c.status prev) st
                (note_alert-IsUncleared cycle c.status prev h) hs))

  detect_loop-AreUncleared :
      (cycle : ℕ) (cs : List (CheckResult Name)) (st : Alerts Name) (alerts : List (Alert Name))
      → AreUncleared st
      → AreUncleared (detect_loop cycle cs (st, alerts)).0
  unfolding detect_loop
  detect_loop-AreUncleared cycle [] st alerts h = h
  detect_loop-AreUncleared cycle (c ∷ cs) st alerts h =
      let next = detect_one cycle c (get c.name st) (st, alerts) in
      detect_loop-AreUncleared cycle cs next.0 next.1 (
        detect_one-AreUncleared cycle c (get c.name st) st alerts
          (get-Meets IsUncleared c.name st h) h)

  -- Whatever the checks say and in whatever cycle, where LastClearedAt is 0 in every alert state
  -- it is 0 afterwards, also when a level has improved.
  pub detect_alerts-AreUncleared :
      (checks : List (CheckResult Name)) (cycle : ℕ) (st : Alerts Name)
      → AreUncleared st
      → AreUncleared (detect_alerts checks cycle st).0
  unfolding detect_alerts
  detect_alerts-AreUncleared checks cycle st h =
      let P = λ (s : Alerts Name × List (Alert Name)). AreUncleared s.0 in
      if_both P (leb cycle 1) (λ _. set_baselines-AreUncleared cycle checks st h)
        (λ _. detect_loop-AreUncleared cycle checks st [] h)
