-- ===== src/Sentinel.antt =====
-- internal/sentinel/alerts.go, and of state.go the trimming of the snapshots: what the health monitor
-- remembers from one cycle to the next, and when it raises an alert.
pub mod Spacing
pub mod Clearing
use mini_world.Base.Maps.{Key, put, get}
use Prim.Native.String.{String}
use mini_world.Base.{
  ℕ, zero, suc, ◌+◌, ◌-◌, ◌*◌, ◌≤◌, ◌<◌, ◌^◌, ◌≡◌, refl, sym, ap, subst, ◌∙◌, ◌≢◌, ◌⊎◌, inl, inr,
  Bool, true, false, not, ◌&&◌, ◌||◌, Option, none, some, List, [], ◌∷◌, ◌++◌, arith, ltb, leb,
  ◌==◌, if◌then◌else◌, tests, Bool-cases, Option-cases, length, get_elem?, modify, All, Any, total,
  drop,
}

-- checks.go; the texts stand for themselves.
pub data Level : Type 0 where
  healthy watch warning critical : Level

unfoldable pub level_severity : Level → ℕ
level_severity critical = 3
level_severity warning = 2
level_severity watch = 1
level_severity healthy = 0

abbrev pub same_level : Level → Level → Bool
unfolding level_severity
same_level a b = level_severity a == level_severity b

pub record CheckResult (Name : Type 0) : Type 0 where
  pub name : Name
  pub status : Level
  pub detail : String

pub record AlertState : Type 0 where
  pub last_level : Level
  pub last_alert_at : ℕ
  pub last_cleared_at : ℕ

pub record Alert (Name : Type 0) : Type 0 where
  pub check : Name
  pub from : Level
  pub to : Level
  pub message : String

abbrev pub cooldown_cycles : ℕ
cooldown_cycles = 3

abbrev pub max_snapshots : ℕ
max_snapshots = 20

abbrev pub baseline : ℕ → Level → AlertState
baseline cycle status = record { last_level = status; last_alert_at = cycle; last_cleared_at = 0 }

-- The end of a round of `DetectAlerts`: the writes to `prev`, in their order.
unfoldable pub note_alert : ℕ → Level → AlertState → AlertState
note_alert cycle status prev =
    let updated = record prev { last_level = status; last_alert_at = cycle } in
    if ltb (level_severity status) (level_severity updated.last_level)
    then record updated { last_cleared_at = cycle }
    else updated

-- `SentinelState.Alerts`
abbrev pub Alerts : Type 0 → Type 0
Alerts Name = List (Name × AlertState)

module _ {Name : Type 0} ⦃k : Key Name⦄ where
  abbrev pub set_baselines : ℕ → List (CheckResult Name) → Alerts Name → Alerts Name
  set_baselines cycle [] st = st
  set_baselines cycle (c ∷ cs) st = set_baselines cycle cs (put c.name (baseline cycle c.status) st)

  -- A check that was known before: an alert, where its level has changed and the cooldown is over.
  unfoldable pub detect_known :
      ℕ
      → CheckResult Name
      → AlertState
      → Alerts Name × List (Alert Name)
      → Alerts Name × List (Alert Name)
  detect_known cycle c prev (st, alerts) =
      let alert : Alert Name = record {
        check = c.name;
        from = prev.last_level;
        to = c.status;
        message = c.detail;
      } in
      if same_level c.status prev.last_level
      then (st, alerts)
      else if ltb cycle (prev.last_alert_at + cooldown_cycles)
      then (st, alerts)
      else (put c.name (note_alert cycle c.status prev) st, alerts ++ alert ∷ [])

  -- One round of the second loop.
  unfoldable pub detect_one :
      ℕ
      → CheckResult Name
      → Option AlertState
      → Alerts Name × List (Alert Name)
      → Alerts Name × List (Alert Name)
  detect_one cycle c none (st, alerts) = (put c.name (baseline cycle c.status) st, alerts)
  detect_one cycle c (some prev) (st, alerts) = detect_known cycle c prev (st, alerts)

  unfoldable pub detect_loop :
      ℕ
      → List (CheckResult Name)
      → Alerts Name × List (Alert Name)
      → Alerts Name × List (Alert Name)
  detect_loop cycle [] s = s
  detect_loop cycle (c ∷ cs) (st, alerts) =
      detect_loop cycle cs (detect_one cycle c (get c.name st) (st, alerts))

  -- `DetectAlerts`, on the alert states and the cycle number.
  unfoldable pub detect_alerts :
      List (CheckResult Name) → ℕ → Alerts Name → Alerts Name × List (Alert Name)
  detect_alerts checks cycle st =
      let first = set_baselines cycle checks st in
      let later = detect_loop cycle checks (st, []) in if leb cycle 1 then (first, []) else later

-- `AddSnapshot`
unfoldable pub add_snapshot : {S : Type 0} → S → List S → List S
add_snapshot snap snapshots =
    let all = snapshots ++ snap ∷ [] in
    if ltb max_snapshots (length all) then drop (length all - max_snapshots) all else all
