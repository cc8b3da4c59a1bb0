-- ===== src/Examples/Economy.antt =====
-- A day in the town's economy.
use mini_world.Treasury.Taxes.Range.{TaxesFit, SharesFit}
use mini_world.Base.Word.{add64, sub64}
use mini_world.Treasury.Poverty.{poverty_line, total_weight, share}
use mini_world.Market.Resolve.Stock.{resolve_markets-KeepsStock}
use mini_world.Model.Goods.{grain}
use mini_world.Market.Matching.Stock.{KeepsStock}
use mini_world.Market.Demand.Recipes.{crafter_recipe_demand-best}
use mini_world.Base.Int.{◌≤ℤ◌}
use mini_world.Market.Resolve.Crowns.{resolve_markets-Conserves}
use mini_world.Treasury.Decay.Crowns.{decay_wealth-Conserves, decay_one-loses, IsLost}
use mini_world.Treasury.Decay.{decay_wealth, decay_one, decay_of, decay_rate}
use mini_world.Treasury.Taxes.Crowns.{collect_taxes-Conserves, collect_taxes-Conserves}
use mini_world.Market.Resolve.{resolve_markets}
use mini_world.Market.Prices.{winter, price_ceiling, price_floor, new_market, resolve_price}
use mini_world.Market.Prices.Bounds.{IsWithin, resolve_price-IsWithin}
use mini_world.Base.Float.{agnosis, totality}
use mini_world.Model.Settlements.{MarketEntry}
use mini_world.Market.Demand.{
  Recipe, recipes, demanded_goods, score, crafter_recipe_demand, lacking,
}
use mini_world.Market.Demand.Sides.{IsNonneg, HasNoSurplus, demanded_goods-HasNoSurplus}
use mini_world.Model.Agents.{Agent, crafter}
use mini_world.Treasury.Taxes.{collect_taxes, tax_agents, tax_on, works_budget}
use mini_world.Ledger.{Conserves, agents_at, credit, debit, balance}
use mini_world.Base.{ℕ, ◌≡◌, refl, false, some, [], ◌∷◌, ◌++◌, arith, ltb, All, Any}
use mini_world.Examples.Town.{
  town, residents, sett_agents, sett_index, person, stock, residents-AreAgents, town-few,
  residents-AreHomed, pioneer,
}
use mini_world.Examples.Fixed.{fixed, fixed-IsOrdered, fixed-RateFits}

resolve_markets-Conserves_example :
    Conserves town (resolve_markets ⦃d = fixed⦄ winter sett_agents (0 ∷ []) town)
resolve_markets-Conserves_example =
    resolve_markets-Conserves ⦃d = fixed⦄ winter sett_agents (0 ∷ []) town
      (λ id. residents-AreAgents) (omega (arith, town-few))

town-TaxesFit : TaxesFit ⦃d = fixed⦄ sett_agents (0 ∷ []) town
unfolding TaxesFit SharesFit tax_agents tax_on works_budget poverty_line total_weight agents_at
    share agnosis credit debit balance add64 sub64
town-TaxesFit = (λ _. (omega arith, (omega arith, tt)), tt)

collect_taxes-Conserves_example :
    Conserves town (collect_taxes ⦃d = fixed⦄ sett_agents (0 ∷ []) town)
collect_taxes-Conserves_example =
    collect_taxes-Conserves ⦃d = fixed⦄ sett_agents (0 ∷ []) town town-TaxesFit
      (λ id. residents-AreAgents) (omega arith, tt) (omega (arith, town-few))

decay_wealth-Conserves_example : Conserves town (decay_wealth ⦃d = fixed⦄ sett_index residents town)
decay_wealth-Conserves_example =
    decay_wealth-Conserves ⦃d = fixed⦄ fixed-RateFits sett_index residents town residents-AreAgents
      residents-AreHomed (omega (arith, town-few))

decay_one-loses_example :
    IsLost 5
      (decay_of ⦃d = fixed⦄ (decay_rate ⦃d = fixed⦄ 500) 500)
      town
      (decay_one ⦃d = fixed⦄ sett_index 5 town)
decay_one-loses_example =
    decay_one-loses ⦃d = fixed⦄ fixed-RateFits sett_index 5 town pioneer refl refl refl
      (omega arith) (omega (arith, town-few))

hungry : Agent ℕ
hungry = person 6 crafter 0 60

stock-IsNonneg : (n : ℕ) → IsNonneg (stock n)
stock-IsNonneg n g = ground arith

demanded_goods-HasNoSurplus_example :
    All
      (HasNoSurplus crafter (stock 0))
      (demanded_goods ⦃d = fixed⦄ (person 6 crafter 0 60) (some (new_market ⦃d = fixed⦄)))
demanded_goods-HasNoSurplus_example =
    demanded_goods-HasNoSurplus ⦃d = fixed⦄ (person 6 crafter 0 60) (some (new_market ⦃d = fixed⦄))
      (stock-IsNonneg 0)

crafter_recipe_demand-best_example :
    (r : Recipe) × Any (λ x. x ≡ r) recipes
    × All (λ x. score (stock 0) x ≤ℤ score (stock 0) r) recipes
    × (crafter_recipe_demand (stock 0)
        ≡ lacking (stock 0) r.mat1 r.need1 ++ lacking (stock 0) r.mat2 r.need2)
crafter_recipe_demand-best_example = crafter_recipe_demand-best (stock 0) (stock-IsNonneg 0)

abbrev bread : MarketEntry ℕ
bread = record { supply = 1000; demand = 900000; price = 2000; base_price = 2000 }

bread_bounds : ltb (price_ceiling ⦃d = fixed⦄ bread) (price_floor ⦃d = fixed⦄ bread) ≡ false
unfolding agnosis totality
bread_bounds = refl

resolve_price-IsWithin_example :
    IsWithin ⦃d = fixed⦄ fixed-IsOrdered
      (price_floor ⦃d = fixed⦄ bread)
      (price_ceiling ⦃d = fixed⦄ bread)
      (resolve_price ⦃d = fixed⦄ bread 1500 1000)
resolve_price-IsWithin_example =
    resolve_price-IsWithin ⦃d = fixed⦄ fixed-IsOrdered bread 1500 1000 bread_bounds

resolve_markets-KeepsStock_example :
    KeepsStock grain town (resolve_markets ⦃d = fixed⦄ winter sett_agents (0 ∷ []) town)
resolve_markets-KeepsStock_example =
    resolve_markets-KeepsStock ⦃d = fixed⦄ grain winter sett_agents (0 ∷ []) town
      (λ id. residents-AreAgents)
