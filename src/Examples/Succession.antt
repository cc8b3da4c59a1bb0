-- ===== src/Examples/Succession.antt =====
-- The farmer of the town dies, and the crafter is the first of the residents to inherit.
use mini_world.Lifecycle.{inherit_wealth}
use mini_world.Ledger.{balance, purse}
use mini_world.Treasury.Decay.{home_of}
use mini_world.Model.Agents.{Agent, farmer}
use mini_world.Base.{ℕ, ◌<◌, ◌≡◌, refl, some, arith}
use mini_world.Examples.Fixed.{fixed}
use mini_world.Examples.Town.{town, person, sett_agents, sett_index, town-few}
use mini_world.Lifecycle.Inheritance.{inherit_wealth-crowns, IsPassedOn}

abbrev late : Agent ℕ
late = person 0 farmer 12 400

home_there : (at : ℕ) → home_of sett_index late ≡ some at → at < 1
home_there at e = let same : 0 ≡ at = cc in omega arith

inherit_wealth-crowns_example :
    (balance (purse 0) (inherit_wealth ⦃d = fixed⦄ sett_index sett_agents 0 town) ≡ 0)
    × IsPassedOn sett_agents 0 late
        (some 0)
        town
        (inherit_wealth ⦃d = fixed⦄ sett_index sett_agents 0 town)
inherit_wealth-crowns_example =
    inherit_wealth-crowns ⦃d = fixed⦄ sett_index sett_agents 0 town late refl home_there
      (omega (arith, town-few))
