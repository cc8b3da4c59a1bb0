-- ===== src/Clock/Time.antt =====
-- What `SimTime` of internal/engine/tick.go shows.
use mini_world.Clock.{sim_time, SimTime}
use mini_world.Base.{ℕ, ◌+◌, ◌≤◌, ◌<◌, ◌≡◌, ap, arith, ◌/◌, ◌%◌}

-- The season index is below 4, so that the array of names is never read out of range; the day is
-- from 1 to 63, the hour below 24, the minute below 60 and the year at least 1.
pub sim_time-IsTime :
    (t : ℕ)
    → ((sim_time t).season < 4)
      × (1 ≤ (sim_time t).day_in_season)
      × ((sim_time t).day_in_season ≤ 63)
      × ((sim_time t).hours < 24)
      × ((sim_time t).minutes < 60)
      × (1 ≤ (sim_time t).years)
unfolding sim_time
sim_time-IsTime t = (omega arith, omega arith, omega arith, omega arith, omega arith, omega arith)

-- Two ticks with the same season, day, hour, minute and year are the same tick: the printed time
-- tells all ticks apart.
pub sim_time-injective : (s t : ℕ) → sim_time s ≡ sim_time t → s ≡ t
unfolding sim_time
sim_time-injective s t h =
    let a = ap SimTime.season h in
    let b = ap SimTime.day_in_season h in
    let c = ap SimTime.hours h in
    let d = ap SimTime.minutes h in let e = ap SimTime.years h in omega arith

-- Where the next tick is a midnight in a second or fourth season, the hour goes from 23 to 0 and
-- the printed day stays the same.
pub sim_time-midnight :
    (t : ℕ)
    → ((t + 1) / 90000) % 2 ≡ 1
    → (t + 1) % 1440 ≡ 0
    → ((sim_time t).hours ≡ 23)
      × ((sim_time (t + 1)).hours ≡ 0)
      × ((sim_time (t + 1)).day_in_season ≡ (sim_time t).day_in_season)
unfolding sim_time
sim_time-midnight t odd midnight = (omega arith, omega arith, omega arith)
