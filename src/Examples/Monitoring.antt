-- ===== src/Examples/Monitoring.antt =====
-- Two cycles of the health monitor, with numbers for the names of the checks, and a memory.
use mini_world.Base.Maps.{Key-ℕ}
use mini_world.Sentinel.Spacing.{IsJustified, detect_alerts-IsJustified, detect_alerts-spacing}
use mini_world.Sentinel.Clearing.{AreUncleared, detect_alerts-AreUncleared}
use mini_world.Base.{ℕ, ◌+◌, ◌≤◌, ◌≡◌, refl, [], ◌∷◌, All}
use mini_world.Sentinel.{
  healthy, warning, critical, Level, Alerts, detect_alerts, CheckResult, Alert, cooldown_cycles,
}

abbrev check_of : Level → CheckResult ℕ
check_of level = record { name = 1; status = level; detail = "work rate" }

abbrev known : Alerts ℕ
known = (1, record { last_level = warning; last_alert_at = 2; last_cleared_at = 0 }) ∷ []

detect_alerts-AreUncleared_example : AreUncleared (detect_alerts (check_of healthy ∷ []) 9 known).0
detect_alerts-AreUncleared_example =
    detect_alerts-AreUncleared (check_of healthy ∷ []) 9 known (refl, tt)

detect_alerts-IsJustified_example :
    All (IsJustified 9 known) (detect_alerts (check_of healthy ∷ []) 9 known).1
detect_alerts-IsJustified_example = detect_alerts-IsJustified (check_of healthy ∷ []) 9 known

detect_alerts-spacing_example :
    let first = detect_alerts (check_of healthy ∷ []) 9 known in
    let second = detect_alerts (check_of critical ∷ []) 13 first.0 in
    All
      (λ (b : Alert ℕ). All (λ (a : Alert ℕ). a.check ≡ b.check → 9 + cooldown_cycles ≤ 13) first.1)
      second.1
detect_alerts-spacing_example =
    detect_alerts-spacing (check_of healthy ∷ []) (check_of critical ∷ []) 9 13 known
