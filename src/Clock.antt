-- ===== src/Clock.antt =====
-- internal/engine/tick.go: the schedule of the layers of a tick, and the parts of SimTime. Sleeping, the
-- speed and the queue of loop tasks are not modelled: a tick runs alone, on the loop's own goroutine.
pub mod Layers
pub mod Time
use mini_world.Base.Word.{add64}
use mini_world.Base.{ℕ, zero, suc, ◌+◌, ◌/◌, ◌%◌, Bool, Option, none, some, ◌==◌, if◌then◌else◌}

abbrev pub ticks_per_sim_hour : ℕ
ticks_per_sim_hour = 60

abbrev pub ticks_per_sim_day : ℕ
ticks_per_sim_day = 1440

abbrev pub ticks_per_sim_week : ℕ
ticks_per_sim_week = 10080

abbrev pub ticks_per_sim_season : ℕ
ticks_per_sim_season = 90000

-- The callbacks; a nil one is `none`. What they work on is a parameter.
pub record Engine (W : Type 0) : Type 0 where
  pub tick : ℕ
  pub on_tick : Option (ℕ → W → W)
  pub on_hour : Option (ℕ → W → W)
  pub on_day : Option (ℕ → W → W)
  pub on_week : Option (ℕ → W → W)
  pub on_season : Option (ℕ → W → W)

module _ {W : Type 0} where
  unfoldable pub call : Option (ℕ → W → W) → ℕ → W → W
  call none t w = w
  call (some f) t w = f t w

  unfoldable pub layer : ℕ → Option (ℕ → W → W) → ℕ → W → W
  layer period f t w = if t % period == 0 then call f t w else w

  -- `step`
  unfoldable pub step : Engine W × W → Engine W × W
  step (e, w) =
      let t = add64 e.tick 1 in
      let ticked = call e.on_tick t w in
      let after_hour = layer ticks_per_sim_hour e.on_hour t ticked in
      let after_day = layer ticks_per_sim_day e.on_day t after_hour in
      let after_week = layer ticks_per_sim_week e.on_week t after_day in
      (record e { tick = t }, layer ticks_per_sim_season e.on_season t after_week)

  -- The loop of `Run`, for a number of ticks.
  unfoldable pub run : ℕ → Engine W × W → Engine W × W
  run zero s = s
  run (suc n) s = step (run n s)

-- The numbers that `SimTime` prints.
pub record SimTime : Type 0 where
  pub season : ℕ
  pub day_in_season : ℕ
  pub hours : ℕ
  pub minutes : ℕ
  pub years : ℕ

unfoldable pub sim_time : ℕ → SimTime
sim_time t = record {
  season = (t / ticks_per_sim_season) % 4;
  day_in_season = (t % ticks_per_sim_season) / ticks_per_sim_day + 1;
  hours = (t / 60) % 24;
  minutes = t % 60;
  years = (t / ticks_per_sim_season) / 4 + 1;
}
