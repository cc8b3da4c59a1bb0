-- ===== src/Examples/Caravans.antt =====
-- An hour of trade of the town's merchants, with a neighbour that is known and has no market.
use mini_world.World.Hex.{plains}
use mini_world.Examples.Town.{sett_agents, sett_index, town, residents-AreAgents, town-few}
use mini_world.Merchant.Turn.Crowns.{NoMint}
use mini_world.Merchant.Round.Crowns.{IsSound, resolve_merchant_trade-NoMint}
use mini_world.Base.Maps.{Meets}
use mini_world.Merchant.Seek.{Outlook}
use mini_world.Merchant.Round.{Nearby, resolve_merchant_trade}
use mini_world.Base.{ℕ, ◌<◌, some, [], ◌∷◌, arith, ◌==◌, if_both}
use mini_world.Relations.{Key-Pair}
use mini_world.Examples.Fixed.{fixed, fixed-FeeFits}

abbrev near : Nearby
near = record {
  sett_agents = sett_agents;
  trade_neighbors = λ id. 0 ∷ [];
  wide_neighbors = λ id. 0 ∷ [];
  sett_index = sett_index;
}

abbrev outlook : Outlook ℕ
outlook = record { world_map = λ h. some plains; sentiments = []; routes = [] }

sett_index-there : (id : ℕ) → Meets (λ at. at < 1) (sett_index id)
sett_index-there id = if_both (Meets (λ at. at < 1)) (id == 7) (λ _. omega arith) (λ _. tt)

near-IsSound : IsSound ⦃d = fixed⦄ fixed-FeeFits near outlook 60 town
near-IsSound = record { agents_there = λ id. residents-AreAgents; index_there = sett_index-there }

resolve_merchant_trade-NoMint_example :
    NoMint town (resolve_merchant_trade ⦃d = fixed⦄ near outlook 60 (0 ∷ []) (town, [])).0
resolve_merchant_trade-NoMint_example =
    resolve_merchant_trade-NoMint ⦃d = fixed⦄ fixed-FeeFits near outlook 60 (0 ∷ []) town []
      near-IsSound (omega arith, tt) (omega (arith, town-few))

abbrev oakford : ℕ
oakford = 7

abbrev millhaven : ℕ
millhaven = 3
