-- ===== src/Examples/Town.antt =====
-- A town with a farmer, a crafter, a soldier and two merchants, and its market.
use mini_world.Market.Prices.{new_market}
use mini_world.Base.Int.{pos, negsuc}
use mini_world.Treasury.Decay.Crowns.{AreHomed, HasHome}
use mini_world.Ledger.Loops.{AreAgents}
use mini_world.Ledger.{World, crowns}
use mini_world.Model.Settlements.{Settlement, commune}
use mini_world.World.Hex.{HexCoord}
use mini_world.Model.Goods.{GoodInventory, same_good, grain}
use mini_world.Model.Agents.{
  devotionalist, NeedsState, Occupation, Agent, commoner, farmer, tier2, crafter,
}
use mini_world.Base.{
  ℕ, ◌<◌, ◌^◌, refl, true, Option, none, some, List, [], ◌∷◌, arith, ◌==◌, if◌then◌else◌,
}
use mini_world.Examples.Fixed.{fixed}

abbrev pub needs : ℕ → NeedsState ℕ
needs n = record { survival = n; safety = n; belonging = n; esteem = n; purpose = n }

abbrev pub stock : ℕ → GoodInventory
stock n g = if same_good g grain then pos n else pos 0

abbrev pub person : ℕ → Occupation → ℕ → ℕ → Agent ℕ
person id occupation grains wealth = record {
  id = id;
  age = 30;
  position = record { q = pos 0; r = pos 0 };
  home_sett_id = some 7;
  faction_id = some 2;
  occupation = occupation;
  inventory = stock grains;
  wealth = wealth;
  combat = 100;
  trade = 100;
  role = commoner;
  tier = tier2;
  satisfaction = 500;
  citta_coherence = 500;
  soul_class = devotionalist;
  needs = needs 300;
  trade_dest_sett = none;
  trade_cargo = stock 0;
  travel_ticks_left = 0;
  consignment_debt = 0;
  trade_preferred_dest = none;
  memories = [];
  born_tick = 0;
  alive = true;
}

abbrev pub pioneer : Agent ℕ
pioneer = record (person 5 farmer 0 500) { home_sett_id = none }

abbrev pub here : HexCoord
here = record { q = pos 0; r = pos 0 }

abbrev pub there : HexCoord
there = record { q = pos 2; r = negsuc 0 }

abbrev pub home : Settlement ℕ
home = record {
  id = 7;
  name = "Oakford";
  position = here;
  population = 300;
  governance = commune;
  leader_id = none;
  tax_rate = 100;
  treasury = 90;
  culture_tradition = 0;
  culture_openness = 0;
  culture_militarism = 0;
  wall_level = 0;
  road_level = 0;
  market_level = 0;
  governance_score = 500;
  market = some (new_market ⦃d = fixed⦄);
}

abbrev pub town : World ℕ
town = record {
  agents =
      person 0 farmer 12 400
      ∷ person 1 crafter 0 60
      ∷ person 2 Occupation.soldier 1 10
      ∷ record (person 3 Occupation.merchant 3 2) { trade_cargo = stock 4 }
      ∷ person 4 Occupation.merchant 1 80
      ∷ pioneer
      ∷ [];
  settlements = home ∷ [];
  factions = [];
  sat_bumps = [];
}

abbrev pub residents : List ℕ
residents = 0 ∷ 1 ∷ 2 ∷ 3 ∷ 4 ∷ []

abbrev pub sett_agents : ℕ → List ℕ
sett_agents id = residents

abbrev pub sett_index : ℕ → Option ℕ
sett_index id = if id == 7 then some 0 else none

pub residents-AreAgents : AreAgents town residents
residents-AreAgents = (omega arith, (omega arith, (omega arith, (omega arith, (omega arith, tt)))))

pub residents-AreHomed : AreHomed sett_index town residents
residents-AreHomed =
    let at_home : HasHome sett_index 1 (some (person 0 farmer 12 400)) = (0, refl, omega arith) in
    (at_home, (at_home, (at_home, (at_home, (at_home, tt)))))

pub town-few : crowns town < 2 ^ 62
unfolding crowns
town-few = omega arith
