-- ===== src/Treasury/Food.antt =====
-- `resolveBuyFood` of internal/engine/market.go: an agent buys a unit of food, or forages.
pub mod Crowns
use mini_world.Ledger.{World, update_agent, balance, purse, credit, treasury, debit}
use mini_world.Model.Settlements.{Market, Settlement, MarketEntry, entry_of}
use mini_world.Model.Goods.{GoodType, add_good, fish, grain}
use mini_world.Model.Agents.{Agent}
use mini_world.Base.{
  ℕ, zero, suc, ◌+◌, ◌-◌, ◌*◌, ◌≤◌, ◌<◌, ◌^◌, ◌≡◌, refl, sym, ap, subst, ◌∙◌, ◌≢◌, ◌⊎◌, inl, inr,
  Bool, true, false, not, ◌&&◌, ◌||◌, Option, none, some, List, [], ◌∷◌, ◌++◌, arith, ltb, leb,
  ◌==◌, if◌then◌else◌, tests, Bool-cases, Option-cases, length, get_elem?, modify, All, Any, total,
}
use mini_world.Base.Float.{Float, add32, nought, rounded, lit32}
use mini_world.Base.Int.{pos}

module _ {F : Type 0} ⦃d : Float F⦄ where
  abbrev pub forage : Agent F → Agent F
  forage a = record a {
    inventory = add_good grain (pos 1) a.inventory;
    needs = record (a.needs) { survival = add32 a.needs.survival (lit32 5 2) };
  }

  -- Foraging for want of money, which also counts as taking part.
  abbrev pub forage_poor : Agent F → Agent F
  forage_poor a = record a {
    inventory = add_good grain (pos 1) a.inventory;
    needs = record (a.needs) {
      survival = add32 a.needs.survival (lit32 5 2);
      belonging = add32 a.needs.belonging (lit32 1 3);
    };
  }

  abbrev pub fed : GoodType → Agent F → Agent F
  fed good a = record a {
    inventory = add_good good (pos 1) a.inventory;
    needs = record (a.needs) {
      survival = add32 a.needs.survival (lit32 2 2);
      safety = add32 a.needs.safety (lit32 3 3);
      belonging = add32 a.needs.belonging (lit32 1 3);
      purpose = add32 a.needs.purpose (lit32 1 3);
    };
  }

  -- The cheapest food on the market so far, with its price.
  abbrev pub cheaper : GoodType → Option (MarketEntry F) → GoodType × F → GoodType × F
  cheaper g none best = best
  cheaper g (some e) (good, price) =
      if not (d.lt price nought || d.lt nought price) || d.lt e.price price
      then (g, e.price)
      else (good, price)

  unfoldable pub cheapest_food : Market F → GoodType × F
  cheapest_food m =
      cheaper fish (entry_of fish m.entries)
        (cheaper grain (entry_of grain m.entries) (grain, nought))

  unfoldable pub food_cost : F → ℕ
  food_cost price = let cost = rounded price in if ltb cost 1 then 1 else cost

  abbrev pub buy_at : ℕ → ℕ → Option (Market F) → World F → World F
  buy_at p at none w = update_agent p forage w
  buy_at p at (some m) w =
      let (good, price) = cheapest_food m in
      let cost = food_cost price in
      if leb cost (balance (purse p) w)
      then update_agent p (fed good) (credit (treasury at) cost (debit (purse p) cost w))
      else update_agent p forage_poor w

  abbrev pub market_of : Option (Settlement F) → Option (Market F)
  market_of none = none
  market_of (some s) = s.market

  -- `resolveBuyFood`, for the agent at `p`; `home` is where its settlement stands, if it has one.
  unfoldable pub resolve_buy_food : ℕ → Option ℕ → World F → World F
  resolve_buy_food p none w = update_agent p forage w
  resolve_buy_food p (some at) w = buy_at p at (market_of (get_elem? w.settlements at)) w
