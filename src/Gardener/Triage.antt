-- ===== src/Gardener/Triage.antt =====
-- Triage of internal/gardener/triage.go: the health of the world from a snapshot of it.
pub mod Severity
use mini_world.Interventions.{of_ℤ}
use mini_world.Gardener.{CrisisLevel, critical, warning, watch, healthy}
use mini_world.Base.Float.{Float, one, nought, totality, being}
use mini_world.Base.Int.{ℤ, ltb_ℤ, ◌-ℤ◌, pos}
use mini_world.Base.{
  ℕ, zero, suc, ◌+◌, ◌-◌, ◌*◌, ◌≤◌, ◌<◌, ◌^◌, ◌≡◌, refl, sym, ap, subst, ◌∙◌, ◌≢◌, ◌⊎◌, inl, inr,
  Bool, true, false, not, ◌&&◌, ◌||◌, Option, none, some, List, [], ◌∷◌, ◌++◌, arith, ltb, leb,
  ◌==◌, if◌then◌else◌, tests, Bool-cases, Option-cases, length, get_elem?, modify, All, Any, total,
}

-- `StatsHistoryRow`
pub record HistoryRow (F : Type 0) : Type 0 where
  pub population : ℤ
  pub births : ℤ
  pub deaths : ℤ
  pub avg_satisfaction : F
  pub avg_alignment : F

-- What Triage reads of a `WorldSnapshot`: the status, the trade volume, the populations of the
-- settlements, and the history with the newest row first.
pub record Snapshot (F : Type 0) : Type 0 where
  pub population : ℤ
  pub avg_satisfaction : F
  pub avg_alignment : F
  pub trade_volume : ℕ
  pub sizes : List ℕ
  pub history : List (HistoryRow F)

-- `WorldHealth`
pub record WorldHealth (F : Type 0) : Type 0 where
  pub death_birth_ratio : F
  pub birth_trend : List ℤ
  pub death_trend : List ℤ
  pub avg_satisfaction : F
  pub avg_alignment : F
  pub small_settlements : ℕ
  pub tiny_settlements : ℕ
  pub total_settlements : ℕ
  pub trade_per_capita : F
  pub crisis_level : CrisisLevel

-- How many are smaller than a bound.
abbrev pub count_below : ℕ → List ℕ → ℕ
count_below bound = total (λ n. if ltb n bound then 1 else 0)

module _ {F : Type 0} where
  -- The trends go from the oldest row to the newest.
  abbrev pub births_trend : List (HistoryRow F) → List ℤ
  births_trend [] = []
  births_trend (row ∷ rows) = births_trend rows ++ row.births ∷ []

  abbrev pub deaths_trend : List (HistoryRow F) → List ℤ
  deaths_trend [] = []
  deaths_trend (row ∷ rows) = deaths_trend rows ++ row.deaths ∷ []

  -- The counters went backwards between two rows.
  abbrev pub is_reset : HistoryRow F → HistoryRow F → Bool
  is_reset newer older = ltb_ℤ newer.births older.births || ltb_ℤ newer.deaths older.deaths

  -- The oldest row.
  abbrev pub last_row : HistoryRow F → List (HistoryRow F) → HistoryRow F
  last_row row [] = row
  last_row row (older ∷ rows) = last_row older rows

module _ {F : Type 0} ⦃d : Float F⦄ where
  -- math.Inf(1), as 1 / 0
  abbrev pub infinity : F
  infinity = d.div one nought

  unfoldable pub ratio_between : HistoryRow F → HistoryRow F → F
  ratio_between newer older =
      let births = newer.births -ℤ older.births in
      let deaths = newer.deaths -ℤ older.deaths in
      if ltb_ℤ (pos 0) births
      then d.div (of_ℤ deaths) (of_ℤ births)
      else if ltb_ℤ (pos 0) deaths
      then infinity
      else one

  -- The loop over consecutive pairs, which stops at the first one without a reset.
  unfoldable pub find_ratio : HistoryRow F → List (HistoryRow F) → Option F
  find_ratio newer [] = none
  find_ratio newer (older ∷ rows) =
      let rest = find_ratio older rows in
      if is_reset newer older then rest else some (ratio_between newer older)

  -- Where every pair spans a restart.
  unfoldable pub ratio_of_decline : HistoryRow F → HistoryRow F → F
  ratio_of_decline newest oldest =
      let decline =
        d.div (of_ℤ (oldest.population -ℤ newest.population)) (of_ℤ oldest.population) in
      if ltb_ℤ newest.population oldest.population
      then (if d.lt (d.lit 1 1) decline then d.add totality one else being)
      else one

  abbrev pub or_decline : Option F → HistoryRow F → HistoryRow F → F
  or_decline none newest oldest = ratio_of_decline newest oldest
  or_decline (some ratio) newest oldest = ratio

  -- The ratio stays 0 with fewer than two rows.
  unfoldable pub death_birth_ratio_of : List (HistoryRow F) → F
  unfolding find_ratio ratio_of_decline
  death_birth_ratio_of [] = nought
  death_birth_ratio_of (newest ∷ []) = nought
  death_birth_ratio_of (newest ∷ older ∷ rows) =
      or_decline (find_ratio newest (older ∷ rows)) newest (last_row older rows)

  abbrev pub if_positive : F → F → F
  if_positive x y = if d.lt nought x then x else y

  -- The averages of the newest of at least two rows, where they are positive.
  abbrev pub satisfaction_of : Snapshot F → List (HistoryRow F) → F
  satisfaction_of snap (newest ∷ older ∷ rows) =
      if_positive newest.avg_satisfaction snap.avg_satisfaction
  satisfaction_of snap _ = snap.avg_satisfaction

  abbrev pub alignment_of : Snapshot F → List (HistoryRow F) → F
  alignment_of snap (newest ∷ older ∷ rows) = if_positive newest.avg_alignment snap.avg_alignment
  alignment_of snap _ = snap.avg_alignment

  abbrev pub trend_of : (List (HistoryRow F) → List ℤ) → List (HistoryRow F) → List ℤ
  trend_of trend [] = []
  trend_of trend (row ∷ []) = []
  trend_of trend (row ∷ older ∷ rows) = trend (row ∷ older ∷ rows)

  unfoldable pub trade_per_capita_of : ℕ → ℤ → F
  trade_per_capita_of volume population =
      if ltb_ℤ (pos 0) population then d.div (d.of_ℕ volume) (of_ℤ population) else nought

  unfoldable pub tiny_fraction_of : ℕ → ℕ → F
  tiny_fraction_of tiny all = if ltb 0 all then d.div (d.of_ℕ tiny) (d.of_ℕ all) else nought

  -- The switch over the thresholds.
  unfoldable pub crisis_of : F → F → ℤ → F → CrisisLevel
  crisis_of ratio trade population tiny =
      if d.lt totality ratio
      then critical
      else if d.lt trade (d.lit 1 2) && ltb_ℤ (pos 100) population
      then critical
      else if d.lt (d.lit 4 1) tiny
      then critical
      else if d.lt being ratio
      then warning
      else if d.lt one ratio
      then watch
      else healthy

  -- `Triage`
  unfoldable pub triage : Snapshot F → WorldHealth F
  unfolding death_birth_ratio_of
  triage snap =
      let ratio = death_birth_ratio_of snap.history in
      let tiny = count_below 25 snap.sizes in
      let all = length snap.sizes in
      let trade = trade_per_capita_of snap.trade_volume snap.population in
      record {
        death_birth_ratio = ratio;
        birth_trend = trend_of births_trend snap.history;
        death_trend = trend_of deaths_trend snap.history;
        avg_satisfaction = satisfaction_of snap snap.history;
        avg_alignment = alignment_of snap snap.history;
        small_settlements = count_below 50 snap.sizes;
        tiny_settlements = tiny;
        total_settlements = all;
        trade_per_capita = trade;
        crisis_level = crisis_of ratio trade snap.population (tiny_fraction_of tiny all);
      }
