-- ===== src/Examples/Politics.antt =====
-- A town in crisis, with two factions over 40.
use mini_world.Governance.Revolution.Choice.{first_over, dominant_from-first_over}
use mini_world.Examples.Town.{town, home, residents}
use mini_world.Governance.Revolution.{dominant_from, check_revolution}
use mini_world.Governance.Revolution.Crowns.{PartFits, check_revolution-Conserves}
use mini_world.Ledger.{Faction, World, crowns, Conserves}
use mini_world.Base.{ℕ, ◌<◌, ◌^◌, ◌≡◌, Option, none, some, [], ◌∷◌, arith}
use mini_world.Examples.Fixed.{fixed, fixed-IsOrdered}

abbrev strong : ℕ → ℕ → Faction ℕ
strong id inf = record { id = id; treasury = 5; influence = λ sett. some inf }

abbrev torn_town : World ℕ
torn_town = record town {
  settlements = record home { governance_score = 100 } ∷ [];
  factions = strong 2 41000 ∷ strong 4 90000 ∷ [];
}

torn_town-few : crowns torn_town < 2 ^ 62
unfolding crowns
torn_town-few = omega arith

fixed-PartFits : PartFits ℕ fixed
fixed-PartFits n = omega arith

abbrev agent_index : ℕ → Option ℕ
agent_index id = some id

check_revolution-Conserves_example :
    Conserves torn_town (check_revolution ⦃d = fixed⦄ agent_index 0 residents torn_town)
check_revolution-Conserves_example =
    check_revolution-Conserves ⦃d = fixed⦄ fixed-PartFits agent_index 0 residents torn_town
      (omega arith) (omega (arith, torn_town-few))

dominant_from-first_over_example :
    dominant_from ⦃d = fixed⦄ 7 (strong 2 41000 ∷ strong 4 90000 ∷ []) 0 none
    ≡ first_over ⦃d = fixed⦄ 7 (strong 2 41000 ∷ strong 4 90000 ∷ []) 0
dominant_from-first_over_example =
    dominant_from-first_over ⦃d = fixed⦄ fixed-IsOrdered 7 (strong 2 41000 ∷ strong 4 90000 ∷ []) 0
