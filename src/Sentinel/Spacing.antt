-- ===== src/Sentinel/Spacing.antt =====
-- When an alert is raised, and how far apart two alerts on one check are.
use mini_world.Sentinel.{healthy, watch, warning, critical}
use mini_world.Base.Maps.{Key, get, put, get-put, Meets, same_self}
use mini_world.Sentinel.{
  note_alert, level_severity, Alerts, AlertState, detect_one, detect_loop, detect_alerts,
  CheckResult, Level, Alert, detect_known, same_level, baseline, cooldown_cycles,
}
use mini_world.Base.{
  ℕ, ◌+◌, ◌≤◌, ◌≡◌, refl, sym, ap, subst, ◌∙◌, ◌⊎◌, inl, inr, false, Option, none, some, List, [],
  ◌∷◌, arith, ltb, leb, tests, Bool-cases, All, All-map, if_both, All-append,
}

note_alert-at :
    (cycle : ℕ) (status : Level) (prev : AlertState)
    → (note_alert cycle status prev).last_alert_at ≡ cycle
unfolding note_alert level_severity
note_alert-at cycle healthy prev = refl
note_alert-at cycle watch prev = refl
note_alert-at cycle warning prev = refl
note_alert-at cycle critical prev = refl

module _ {Name : Type 0} ⦃k : Key Name⦄ where
  -- The alert is a change of level of a check that was known before, and the last alert on it is at
  -- least the cooldown ago.
  abbrev pub IsJustified : ℕ → Alerts Name → Alert Name → Type 0
  IsJustified cycle before a =
      (prev : AlertState) × (get a.check before ≡ some prev)
      × (a.from ≡ prev.last_level)
      × (same_level a.to a.from ≡ false)
      × (prev.last_alert_at + cooldown_cycles ≤ cycle)

  -- The check's last alert was in this cycle.
  abbrev pub IsRecent : ℕ → Alerts Name → Name → Type 0
  IsRecent cycle st n = (now : AlertState) × (get n st ≡ some now) × (now.last_alert_at ≡ cycle)

  -- Every check is as it was before, or its last alert was in this cycle.
  abbrev Tracks : ℕ → Alerts Name → Alerts Name → Type 0
  Tracks cycle before st = (n : Name) → (get n st ≡ get n before) ⊎ IsRecent cycle st n

  abbrev pub IsNoted : ℕ → Alerts Name → List (Alert Name) → Type 0
  IsNoted cycle st alerts = All (λ (a : Alert Name). IsRecent cycle st a.check) alerts

  IsRecent-put :
      (cycle : ℕ) (n m : Name) (s : AlertState) (st : Alerts Name)
      → s.last_alert_at ≡ cycle
      → (k.same m n ≡ false → IsRecent cycle st n)
      → IsRecent cycle (put m s st) n
  IsRecent-put cycle n m s st h kept = elim (Bool-cases (k.same m n)) [
    | inl e ↦ (s, rw (get-put m n s st, e), h)
    | inr e ↦ let (now, g, r) = kept e in (now, rw (get-put m n s st, e) g, r)
  ]

  Tracks-put :
      (cycle : ℕ) (before st : Alerts Name) (m : Name) (s : AlertState)
      → s.last_alert_at ≡ cycle
      → Tracks cycle before st
      → Tracks cycle before (put m s st)
  Tracks-put cycle before st m s h t n = elim (Bool-cases (k.same m n)) [
    | inl e ↦ inr (IsRecent-put cycle n m s st h (λ e'. cc))
    | inr e ↦ elim (t n) [
      | inl same ↦ inl (rw (get-put m n s st, e) same)
      | inr r ↦ inr (IsRecent-put cycle n m s st h (λ _. r))
    ]
  ]

  -- What a round keeps: where the states come from, that the alerts so far are justified, and that
  -- the states record them.
  record Spaced (cycle : ℕ) (before st : Alerts Name) (alerts : List (Alert Name)) : Type 0 where
    tracks : Tracks cycle before st
    justified : All (IsJustified cycle before) alerts
    noted : IsNoted cycle st alerts

  IsNoted-put :
      (cycle : ℕ) (m : Name) (s : AlertState) (st : Alerts Name) (alerts : List (Alert Name))
      → s.last_alert_at ≡ cycle
      → IsNoted cycle st alerts
      → IsNoted cycle (put m s st) alerts
  IsNoted-put cycle m s st alerts h hs =
      All-map {P = λ (a : Alert Name). IsRecent cycle st a.check}
        {Q = λ (a : Alert Name). IsRecent cycle (put m s st) a.check}
        (λ a r. IsRecent-put cycle a.check m s st h (λ _. r)) alerts hs

  detect_one-Spaced :
      (cycle : ℕ) (before : Alerts Name) (c : CheckResult Name) (found : Option AlertState)
      (st : Alerts Name) (alerts : List (Alert Name))
      → get c.name st ≡ found
      → Spaced cycle before st alerts
      → let after = detect_one cycle c found (st, alerts) in Spaced cycle before after.0 after.1
  unfolding detect_one detect_known
  detect_one-Spaced cycle before c none st alerts e h =
      let s = baseline cycle c.status in
      record {
        tracks = Tracks-put cycle before st c.name s refl h.tracks;
        justified = h.justified;
        noted = IsNoted-put cycle c.name s st alerts refl h.noted;
      }
  detect_one-Spaced cycle before c (some prev) st alerts e h =
      let P = λ (s : Alerts Name × List (Alert Name)). Spaced cycle before s.0 s.1 in
      if_both P (same_level c.status prev.last_level) (λ _. h)
        (λ changed.
          if_both P (ltb cycle (prev.last_alert_at + cooldown_cycles)) (λ _. h)
            (λ cooled.
              let s = note_alert cycle c.status prev in
              let at = note_alert-at cycle c.status prev in
              let alert : Alert Name = record {
                check = c.name;
                from = prev.last_level;
                to = c.status;
                message = c.detail;
              } in
              let was : get c.name before ≡ some prev = elim (h.tracks c.name) [
                | inl same ↦ sym same ∙ e
                | inr (now, g, r) ↦ absurd (
                    omega
                      (tests, cooled, subst (Meets (λ s. s.last_alert_at ≡ cycle)) (sym g ∙ e) r))
              ] in
              record {
                tracks = Tracks-put cycle before st c.name s at h.tracks;
                justified =
                    All-append (IsJustified cycle before) alerts (alert ∷ []) h.justified
                      ((prev, was, refl, changed, omega (tests, cooled)), tt);
                noted =
                    All-append (λ (a : Alert Name). IsRecent cycle (put c.name s st) a.check) alerts
                      (alert ∷ []) (IsNoted-put cycle c.name s st alerts at h.noted)
                      (
                        IsRecent-put cycle c.name c.name s st at
                            (λ e'. let known = same_self c.name in cc),
                        tt,
                      );
              }))

  detect_loop-Spaced :
      (cycle : ℕ) (before : Alerts Name) (cs : List (CheckResult Name)) (st : Alerts Name)
      (alerts : List (Alert Name))
      → Spaced cycle before st alerts
      → let after = detect_loop cycle cs (st, alerts) in Spaced cycle before after.0 after.1
  unfolding detect_loop
  detect_loop-Spaced cycle before [] st alerts h = h
  detect_loop-Spaced cycle before (c ∷ cs) st alerts h =
      let next = detect_one cycle c (get c.name st) (st, alerts) in
      detect_loop-Spaced cycle before cs next.0 next.1
        (detect_one-Spaced cycle before c (get c.name st) st alerts refl h)

  detect_alerts-both :
      (checks : List (CheckResult Name)) (cycle : ℕ) (st : Alerts Name)
      → let after = detect_alerts checks cycle st in
        All (IsJustified cycle st) after.1 × IsNoted cycle after.0 after.1
  unfolding detect_alerts
  detect_alerts-both checks cycle st =
      let P = λ (s : Alerts Name × List (Alert Name)).
        All (IsJustified cycle st) s.1 × IsNoted cycle s.0 s.1 in
      if_both P (leb cycle 1) (λ _. (tt, tt))
        (λ _.
          let h =
            detect_loop-Spaced cycle st checks st []
              (record { tracks = λ n. inl refl; justified = tt; noted = tt }) in
          (h.justified, h.noted))

  -- Every alert of a cycle is a change of level of a check that was known before, whose last
  -- alert is at least three cycles ago.
  pub detect_alerts-IsJustified :
      (checks : List (CheckResult Name)) (cycle : ℕ) (st : Alerts Name)
      → All (IsJustified cycle st) (detect_alerts checks cycle st).1
  detect_alerts-IsJustified checks cycle st = (detect_alerts-both checks cycle st).0

  -- Two alerts on one check in two consecutive runs of DetectAlerts are at least three cycles
  -- apart.
  pub detect_alerts-spacing :
      (checks checks' : List (CheckResult Name)) (cycle cycle' : ℕ) (st : Alerts Name)
      → let first = detect_alerts checks cycle st in
        let second = detect_alerts checks' cycle' first.0 in
        All
          (λ (b : Alert Name).
            All (λ (a : Alert Name). a.check ≡ b.check → cycle + cooldown_cycles ≤ cycle') first.1)
          second.1
  detect_alerts-spacing checks checks' cycle cycle' st =
      let first = detect_alerts checks cycle st in
      let second = detect_alerts checks' cycle' first.0 in
      All-map {P = IsJustified cycle' first.0}
        {Q = λ (b : Alert Name).
          All (λ (a : Alert Name). a.check ≡ b.check → cycle + cooldown_cycles ≤ cycle') first.1}
        (λ b (prev, g, _, _, late).
          All-map {P = λ (a : Alert Name). IsRecent cycle first.0 a.check}
            {Q = λ (a : Alert Name). a.check ≡ b.check → cycle + cooldown_cycles ≤ cycle'}
            (λ a (now, g', at) same. omega (
              arith,
              late,
              subst (Meets (λ s. s.last_alert_at ≡ cycle))
                  (sym g' ∙ ap (λ n. get n first.0) same ∙ g) at,
            ))
            first.1 (detect_alerts-both checks cycle st).1)
        second.1 (detect_alerts-both checks' cycle' first.0).0
