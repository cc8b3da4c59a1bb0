-- ===== src/Merchant/MarketSell.antt =====
-- `tier2MarketSell` of internal/engine/market.go: a Tier 2 agent sells its best surplus to the treasury.
pub mod Crowns
use mini_world.Merchant.Sale.{unit_price}
use mini_world.Market.Demand.{surplus}
use mini_world.Base.Int.{pos_part, negsuc}
use mini_world.Treasury.Food.{market_of}
use mini_world.Ledger.{World, update_agent, credit, purse, debit, treasury, balance}
use mini_world.Model.Settlements.{MarketEntry, Entries, Market, entry_of}
use mini_world.Model.Agents.{Agent}
use mini_world.Model.Goods.{GoodType, add_good, all_goods, grain}
use mini_world.Base.{
  ℕ, zero, suc, ◌+◌, ◌-◌, ◌*◌, ◌≤◌, ◌<◌, ◌^◌, ◌≡◌, refl, sym, ap, subst, ◌∙◌, ◌≢◌, ◌⊎◌, inl, inr,
  Bool, true, false, not, ◌&&◌, ◌||◌, Option, none, some, List, [], ◌∷◌, ◌++◌, arith, ltb, leb,
  ◌==◌, if◌then◌else◌, tests, Bool-cases, Option-cases, length, get_elem?, modify, All, Any, total,
}
use mini_world.Base.Float.{
  Float, one, agnosis, nought, add32, being, lit32, lit32, lit32, lit32, lit32, lit32, lit32, lit32,
  lit32, lit32, lit32, lit32, lit32, lit32, lit32, lit32, lit32, lit32, lit32, lit32, lit32, lit32,
  lit32, lit32, lit32, lit32, lit32, lit32, lit32, lit32, lit32, lit32, lit32, lit32, lit32, lit32,
  lit32, lit32, lit32, lit32, lit32, lit32, lit32, lit32, lit32, lit32, lit32, lit32, lit32, lit32,
  lit32, lit32, lit32, lit32, lit32, lit32, lit32, lit32, lit32, lit32,
}

-- The best good so far, with its value and the surplus of it.
pub record Offer (F : Type 0) : Type 0 where
  pub value : F
  pub good : GoodType
  pub quantity : ℕ

module _ {F : Type 0} ⦃d : Float F⦄ where
  abbrev pub better : GoodType → ℕ → Option (MarketEntry F) → Offer F → Offer F
  better g n none best = best
  better g n (some e) best =
      let value = d.mul (d.of_ℕ n) e.price in
      if d.lt best.value value then record { value = value; good = g; quantity = n } else best

  -- The loop over the inventory.
  unfoldable pub best_offer : Agent F → Entries F → List GoodType → Offer F → Offer F
  best_offer a es [] best = best
  best_offer a es (g ∷ gs) best =
      let n = pos_part (surplus a.occupation a.inventory g) in
      best_offer a es gs (if ltb 0 n then better g n (entry_of g es) best else best)

  abbrev pub skill_bonus : F → F
  skill_bonus trade =
      let bonus = d.add one (d.mul trade agnosis) in if d.lt being bonus then being else bonus

  abbrev pub price_of : Option (MarketEntry F) → F
  price_of none = nought
  price_of (some e) = e.price

  abbrev pub give : GoodType → Agent F → Agent F
  give g a = record a { inventory = add_good g (negsuc 0) a.inventory }

  -- The loop over the units.
  unfoldable pub sell_surplus : ℕ → ℕ → GoodType → ℕ → ℕ → World F → World F
  sell_surplus p at g price zero w = w
  sell_surplus p at g price (suc n) w =
      let rest =
        sell_surplus p at g price n
          (update_agent p (give g) (credit (purse p) price (debit (treasury at) price w))) in
      if ltb (balance (treasury at) w) price then w else rest

  abbrev pub practise : Agent F → Agent F
  practise a = record a { trade = add32 a.trade (lit32 5 3) }

  abbrev pub sell_best : ℕ → ℕ → Agent F → Entries F → World F → World F
  sell_best p at a es w =
      let best =
        best_offer a es all_goods (record { value = nought; good = grain; quantity = 0 }) in
      let price = unit_price (d.mul (price_of (entry_of best.good es)) (skill_bonus a.trade)) in
      let sold = update_agent p practise (sell_surplus p at best.good price best.quantity w) in
      if best.quantity == 0 then w else sold

  abbrev pub sell_on : ℕ → ℕ → Option (Agent F) → Option (Market F) → World F → World F
  sell_on p at none m w = w
  sell_on p at (some a) none w = w
  sell_on p at (some a) (some m) w = sell_best p at a m.entries w

  -- `tier2MarketSell`
  unfoldable pub tier2_market_sell : ℕ → ℕ → World F → World F
  tier2_market_sell p at w =
      sell_on p at (get_elem? w.agents p) (market_of (get_elem? w.settlements at)) w
