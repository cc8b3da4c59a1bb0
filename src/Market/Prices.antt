-- ===== src/Market/Prices.antt =====
-- Prices: `MarketEntry.ResolvePrice` and `NewMarket` of internal/economy/goods.go,
-- `SeasonalMarketMod` of internal/engine/seasons.go, and the price updates of internal/engine/market.go.
pub mod Bounds
use mini_world.Model.Settlements.{MarketEntry, Market}
use mini_world.Model.Goods.{
  GoodType, grain, fish, timber, iron_ore, stone, coal, herbs, furs, gems, exotics, tools, weapons,
  clothing, medicine, luxuries,
}
use mini_world.Base.{
  ℕ, zero, suc, ◌+◌, ◌-◌, ◌*◌, ◌≤◌, ◌<◌, ◌^◌, ◌≡◌, refl, sym, ap, subst, ◌∙◌, ◌≢◌, ◌⊎◌, inl, inr,
  Bool, true, false, not, ◌&&◌, ◌||◌, Option, none, some, List, [], ◌∷◌, ◌++◌, arith, ltb, leb,
  ◌==◌, if◌then◌else◌, tests, Bool-cases, Option-cases, length, get_elem?, modify, All, Any, total,
  map,
}
use mini_world.Base.Float.{Float, agnosis, totality, being, nought, one}

pub data Season : Type 0 where
  spring summer autumn winter : Season

module _ {F : Type 0} ⦃d : Float F⦄ where
  unfoldable pub seasonal_market_mod : Season → GoodType → F
  seasonal_market_mod winter grain = d.lit 15 1
  seasonal_market_mod winter fish = d.lit 15 1
  seasonal_market_mod winter furs = d.lit 18 1
  seasonal_market_mod winter herbs = d.lit 14 1
  seasonal_market_mod winter _ = d.lit 11 1
  seasonal_market_mod spring grain = d.lit 12 1
  seasonal_market_mod spring fish = d.lit 12 1
  seasonal_market_mod spring herbs = d.lit 8 1
  seasonal_market_mod spring _ = d.lit 10 1
  seasonal_market_mod summer herbs = d.lit 7 1
  seasonal_market_mod summer furs = d.lit 7 1
  seasonal_market_mod summer _ = d.lit 9 1
  seasonal_market_mod autumn grain = d.lit 7 1
  seasonal_market_mod autumn fish = d.lit 8 1
  seasonal_market_mod autumn herbs = d.lit 9 1
  seasonal_market_mod autumn _ = d.lit 10 1

  abbrev pub price_floor : MarketEntry F → F
  price_floor e = d.mul e.base_price agnosis

  abbrev pub price_ceiling : MarketEntry F → F
  price_ceiling e = d.mul e.base_price totality

  -- `if p < floor { p = floor }; if p > ceiling { p = ceiling }`
  unfoldable pub clamp : F → F → F → F
  clamp low high p =
      let raised = if d.lt p low then low else p in if d.lt high raised then high else raised

  -- `ResolvePrice`
  unfoldable pub resolve_price : MarketEntry F → F → F → F
  unfolding clamp
  resolve_price e seasonal regional =
      let supply = if d.lt e.supply agnosis then agnosis else e.supply in
      let price = d.mul (d.mul (d.mul e.base_price (d.div e.demand supply)) seasonal) regional in
      clamp (price_floor e) (price_ceiling e) price

  -- The price after trades: 70% of the old price and 30% of the average clearing price.
  unfoldable pub blend_price : MarketEntry F → ℕ → F → MarketEntry F
  unfolding clamp
  blend_price e traded revenue =
      let average = d.div revenue (d.of_ℕ traded) in
      let blended = d.add (d.mul e.price (d.lit 7 1)) (d.mul average (d.lit 3 1)) in
      record e { price = clamp (price_floor e) (price_ceiling e) blended }

  -- The decay of the price under a surplus, towards the floor.
  unfoldable pub decay_price : F → MarketEntry F → MarketEntry F
  decay_price pop_threshold e =
      let floor = price_floor e in
      let lower = d.sub e.price (d.mul (d.mul e.price agnosis) (d.lit 1 2)) in
      if d.lt pop_threshold e.supply && d.lt (d.lit 100 0) e.supply
      then if d.lt floor e.price
        then record e { price = if d.lt lower floor then floor else lower }
        else e
      else e

-- The base prices of `NewMarket`.
abbrev pub base_prices : List (GoodType × ℕ)
base_prices =
    (grain, 2)
    ∷ (fish, 2)
    ∷ (timber, 3)
    ∷ (iron_ore, 4)
    ∷ (stone, 3)
    ∷ (coal, 4)
    ∷ (herbs, 5)
    ∷ (furs, 6)
    ∷ (gems, 15)
    ∷ (exotics, 20)
    ∷ (tools, 10)
    ∷ (weapons, 15)
    ∷ (clothing, 8)
    ∷ (medicine, 12)
    ∷ (luxuries, 25)
    ∷ []

module _ {F : Type 0} ⦃d : Float F⦄ where
  abbrev pub new_entry : GoodType × ℕ → GoodType × MarketEntry F
  new_entry (good, base) =
      (good, record { supply = one; demand = one; price = d.lit base 0; base_price = d.lit base 0 })

  unfoldable pub new_market : Market F
  new_market = record {
    entries = map new_entry base_prices;
    trade_count = 0;
    most_traded_good = grain;
  }
