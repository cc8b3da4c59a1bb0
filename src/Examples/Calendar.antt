-- ===== src/Examples/Calendar.antt =====
-- A hundred ticks that count the hours and the days, and a midnight of the second season.
use mini_world.Clock.{run, Engine, sim_time, call}
use mini_world.Clock.Layers.{run-counts, Weights, AllAdd, Adds}
use mini_world.Clock.Time.{sim_time-midnight}
use mini_world.Base.{ℕ, ◌+◌, ◌≡◌, refl, none, some, arith}

abbrev strike : ℕ → ℕ → ℕ
strike t n = n + 1

abbrev engine : Engine ℕ
engine = record {
  tick = 1400;
  on_tick = none;
  on_hour = some strike;
  on_day = some strike;
  on_week = none;
  on_season = none;
}

abbrev weights : Weights
weights = record { each = 0; hour = 1; day = 1; week = 0; season = 0 }

abbrev hours_struck : ℕ → ℕ
hours_struck n = n

engine-AllAdd : AllAdd hours_struck weights engine
unfolding AllAdd Adds call
engine-AllAdd =
    ((λ t w. omega arith), (λ t w. refl), (λ t w. refl), (λ t w. omega arith), (λ t w. omega arith))

run-counts_example : (run 100 (engine, 5)).1 ≡ 8
run-counts_example = run-counts hours_struck weights 100 engine 5 engine-AllAdd (omega arith)

sim_time-midnight_example :
    ((sim_time 90719).hours ≡ 23)
    × ((sim_time 90720).hours ≡ 0)
    × ((sim_time 90720).day_in_season ≡ (sim_time 90719).day_in_season)
sim_time-midnight_example = sim_time-midnight 90719 refl refl
