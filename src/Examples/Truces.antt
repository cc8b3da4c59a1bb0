-- ===== src/Examples/Truces.antt =====
-- Two settlements that raid each other until they make peace.
use mini_world.Base.Int.{pos}
use mini_world.Relations.Peace.{Peace}
use mini_world.Relations.{Pair}
use mini_world.Base.{ℕ, refl, List, [], ◌∷◌}
use mini_world.Examples.Fixed.{fixed}
use mini_world.Relations.Peace.Duration.{weeks, HasWeeks, weeks-HasWeeks, weeks-new_peace}

abbrev pair : Pair
pair = record { low = 1; high = 2 }

abbrev at_war : Peace ℕ
at_war = record {
  raid_counts = (pair, pos 4) ∷ [];
  treaties = [];
  sentiments = (pair, 1000600) ∷ [];
  events = [];
}

abbrev at_peace : Peace ℕ
at_peace = record at_war {
  treaties =
      (pair, record { remaining_weeks = pos 2; raid_count = pos 4; formed_at_tick = 0 }) ∷ [];
}

abbrev calm : List (ℕ × List (ℕ × ℕ))
calm = (20160, (3, 1) ∷ []) ∷ (30240, []) ∷ []

weeks-HasWeeks_example : HasWeeks ⦃d = fixed⦄ 0 pair (weeks ⦃d = fixed⦄ calm at_peace)
weeks-HasWeeks_example =
    weeks-HasWeeks ⦃d = fixed⦄ pair calm 0 at_peace (refl, tt)
      (record { remaining_weeks = pos 2; raid_count = pos 4; formed_at_tick = 0 }, refl, refl)

weeks-new_peace_example :
    HasWeeks ⦃d = fixed⦄ 5 pair (weeks ⦃d = fixed⦄ ((10080, []) ∷ calm) at_war)
weeks-new_peace_example =
    weeks-new_peace ⦃d = fixed⦄ pair 10080 [] calm 5 at_war tt refl refl refl refl
