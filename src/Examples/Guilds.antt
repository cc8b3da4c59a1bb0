-- ===== src/Examples/Guilds.antt =====
-- The people of the town pay dues to the Merchant's Compact, which supports its members.
use mini_world.Base.Word.{add64, sub64}
use mini_world.Ledger.Loops.{each}
use mini_world.Base.Float.{agnosis, being}
use mini_world.Ledger.{Faction, World, crowns, Conserves, credit, debit, balance}
use mini_world.Factions.{
  patronage_budget, distribute_faction_patronage, collect_faction_dues, faction_members, dues_one,
  dues_of, patronage_weight, faction_at, dues_part,
}
use mini_world.Base.{ℕ, none, List, [], ◌∷◌, arith, ◌<◌, ◌^◌}
use mini_world.Examples.Fixed.{fixed}
use mini_world.Examples.Town.{town}
use mini_world.Factions.Crowns.{
  BudgetFits, distribute_faction_patronage-collect_faction_dues, FactionsFit, WeekFits,
}

fixed-BudgetFits : BudgetFits ℕ fixed
unfolding patronage_budget agnosis
fixed-BudgetFits n = omega arith

abbrev compact : Faction ℕ
compact = record { id = 2; treasury = 5000; influence = λ id. none }

abbrev guilds : World ℕ
guilds = record town { factions = compact ∷ [] }

abbrev people : List ℕ
people = 0 ∷ 1 ∷ 2 ∷ 3 ∷ 4 ∷ 5 ∷ []

guilds-few : crowns guilds < 2 ^ 63
unfolding crowns
guilds-few = omega arith

guilds-WeekFits : WeekFits ⦃d = fixed⦄ people guilds
unfolding FactionsFit faction_members collect_faction_dues each dues_one dues_part dues_of
    patronage_budget patronage_weight agnosis being credit debit balance add64 sub64 faction_at
guilds-WeekFits = (
  λ pays.
      (omega arith, (omega arith, (omega arith, (omega arith, (omega arith, (omega arith, tt)))))),
  tt,
)

distribute_faction_patronage-collect_faction_dues_example : Conserves guilds (
    distribute_faction_patronage ⦃d = fixed⦄ people
      (collect_faction_dues ⦃d = fixed⦄ people guilds))
distribute_faction_patronage-collect_faction_dues_example =
    distribute_faction_patronage-collect_faction_dues ⦃d = fixed⦄ fixed-BudgetFits people guilds
      guilds-WeekFits
      (omega arith, (omega arith, (omega arith, (omega arith, (omega arith, (omega arith, tt))))))
      guilds-few
