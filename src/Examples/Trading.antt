-- ===== src/Examples/Trading.antt =====
-- The journeys of the town's merchants.
use mini_world.Model.Agents.{Occupation}
use mini_world.Merchant.Sale.Crowns.{sell_merchant_cargo-Conserves}
use mini_world.Market.Prices.{new_market}
use mini_world.Merchant.Purchase.Crowns.{debts, crowns-buy_units}
use mini_world.Merchant.Sale.{sell_merchant_cargo}
use mini_world.Merchant.Purchase.{buy_units}
use mini_world.Ledger.{Conserves, World, crowns}
use mini_world.Base.{ℕ, ◌+◌, ◌≡◌, [], ◌∷◌, arith}
use mini_world.Examples.Town.{town, residents, person, residents-AreAgents, town-few}
use mini_world.Examples.Fixed.{fixed, fixed-FeeFits}

sell_merchant_cargo-Conserves_example :
    Conserves town (sell_merchant_cargo ⦃d = fixed⦄ 3 0 residents (new_market ⦃d = fixed⦄) town)
sell_merchant_cargo-Conserves_example =
    sell_merchant_cargo-Conserves ⦃d = fixed⦄ fixed-FeeFits 3 0 residents (new_market ⦃d = fixed⦄)
      town (omega arith) residents-AreAgents (omega arith) (omega (arith, town-few))

crowns-buy_units_example :
    let after = (buy_units 3 0 10 5 (town, 0)).0 in
    crowns after + debts after ≡ crowns town + debts town
crowns-buy_units_example =
    crowns-buy_units 3 0 10 5 town 0 (omega arith) (omega arith) (omega (arith, town-few))

abbrev debtor_town : World ℕ
debtor_town = record town {
  agents = record (person 0 Occupation.merchant 0 30) { consignment_debt = 40 } ∷ [];
}
