-- ===== src/Examples/Requests.antt =====
-- Requests from two addresses, and a cleanup, within a window of 100.
use mini_world.RateLimiter.Windows.{count_allowed-window}
use mini_world.Base.Int.{pos, pos_part, ◌-ℤ◌}
use mini_world.RateLimiter.{Limits, Event, count_allowed, request, sweep}
use mini_world.Base.{ℕ, suc, ◌≤◌, refl, List, [], ◌∷◌, arith}
use mini_world.Base.Maps.{Key-ℕ}

abbrev limits : Limits
limits = record { max_rate = pos 2; window = 100 }

abbrev busy : List (Event ℕ)
busy = request 1 1010 ∷ request 2 1020 ∷ sweep 1030 ∷ request 1 1040 ∷ []

count_allowed-window_example :
    count_allowed limits 1 (request 1 1000 ∷ busy) [] ≤ suc (pos_part (pos 2 -ℤ pos 1))
count_allowed-window_example =
    count_allowed-window limits 1 1000 busy [] refl
      (omega arith, (omega arith, (omega arith, (omega arith, tt))))
