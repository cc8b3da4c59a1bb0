-- ===== src/Examples/Roads.antt =====
-- A road between the settlements 7 and 9, keyed by their IDs as one number.
use mini_world.Routes.Weeks.{week, legendary_in_four_weeks}
use mini_world.Routes.{TradeRoute, level_of}
use Prim.Native.String.{String}
use mini_world.Base.{ℕ, ◌≡◌, refl, [], List, ◌∷◌, if◌then◌else◌, ◌==◌}
use mini_world.Base.Maps.{Key-ℕ, get}
use mini_world.Examples.Fixed.{fixed}

abbrev road_name : ℕ → String
road_name key = if key == 811 then "Elmsworth-Millhaven Road" else "Oakford-Millhaven Road"

abbrev road : TradeRoute ℕ
road = record {
  level = 2;
  name = "Elmsworth-Millhaven Road";
  sustained_weeks = 4;
  dormant_weeks = 0;
  weekly_trade = 9000;
}

-- The routes before, with one of another pair
abbrev roads : List (ℕ × TradeRoute ℕ)
roads = (811, road) ∷ []

legendary_in_four_weeks_example :
    level_of ⦃d = fixed⦄ (
      get 709 (
        week ⦃d = fixed⦄ road_name 709 16000 (
          week ⦃d = fixed⦄ road_name 709 8000
            (week ⦃d = fixed⦄ road_name 709 4000 (week ⦃d = fixed⦄ road_name 709 4000 roads)))))
    ≡ 3
legendary_in_four_weeks_example =
    legendary_in_four_weeks ⦃d = fixed⦄ road_name 709 roads 4000 4000 8000 16000 (refl, tt) refl
      refl refl refl refl refl refl
