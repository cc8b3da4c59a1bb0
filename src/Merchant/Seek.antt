-- ===== src/Merchant/Seek.antt =====
-- Of `resolveMerchantTrade` in internal/engine/market.go: which good a merchant takes where.
use mini_world.Merchant.MarketSell.{price_of}
use mini_world.Merchant.Purchase.{road_adjusted_cost}
use mini_world.Clock.{ticks_per_sim_hour}
use mini_world.Ledger.{World}
use mini_world.Base.Maps.{get}
use mini_world.Model.Agents.{Agent}
use mini_world.Model.Settlements.{Settlement, Market, MarketEntry, Entries, entry_of}
use mini_world.Routes.{get_route_bonus, TradeRoute}
use mini_world.World.Route.{WorldMap, route_cost}
use mini_world.Model.Goods.{GoodType}
use mini_world.Base.{
  ℕ, ◌+◌, Bool, false, not, ◌&&◌, Option, none, some, List, [], ◌∷◌, ltb, ◌==◌, if◌then◌else◌,
  get_elem?, ◌/◌,
}
use mini_world.Relations.{Key-Pair, Pair, is_embargoed, sett_rel_key}
use mini_world.Base.Float.{Float, one, add32, being, psyche, agnosis}

-- The best opportunity so far: the effective margin, the good and the place of the destination.
pub record Chance (F : Type 0) : Type 0 where
  pub profit : F
  pub good : GoodType
  pub dest : Option ℕ

-- What a merchant looks at beyond its settlement: the map, the sentiments and the trade routes.
pub record Outlook (F : Type 0) : Type 0 where
  pub world_map : WorldMap
  pub sentiments : List (Pair × F)
  pub routes : List (Pair × TradeRoute F)

abbrev pub is_preferred : Option ℕ → ℕ → Bool
is_preferred none id = false
is_preferred (some p) id = id == p

-- `routeCost` always returns a cost.
abbrev pub returned : Option ℕ → ℕ
returned none = 0
returned (some cost) = cost

module _ {F : Type 0} ⦃d : Float F⦄ where
  abbrev pub bonus_between : Outlook F → ℕ → ℕ → F × F
  bonus_between o a b = get_route_bonus (get (sett_rel_key a b) o.routes)

  -- `1.0 + float64(sett.CultureOpenness+neighbor.CultureOpenness)*0.5*phi.Agnosis*0.2`
  abbrev pub openness_mod : Settlement F → Settlement F → F
  openness_mod s n = d.add one (
      d.mul (d.mul (d.mul (add32 s.culture_openness n.culture_openness) (d.lit 5 1)) agnosis)
        (d.lit 2 1))

  unfoldable pub effective_margin :
      Outlook F → Agent F → Settlement F → Settlement F → MarketEntry F → MarketEntry F → F
  effective_margin o a s n here there =
      let margin = d.div (d.sub there.price here.price) here.price in
      let open_margin = d.mul (d.mul margin being) (openness_mod s n) in
      let routed = d.mul open_margin (d.add one (bonus_between o s.id n.id).1) in
      if is_preferred a.trade_preferred_dest n.id then d.mul routed being else routed

  -- One good of the home market at one neighbour, whose place is `at`.
  abbrev pub weigh :
      Outlook F
      → Agent F
      → Settlement F
      → ℕ
      → Settlement F
      → GoodType
      → MarketEntry F
      → Option (MarketEntry F)
      → Chance F
      → Chance F
  weigh o a s at n good here none best = best
  weigh o a s at n good here (some there) best =
      let margin = effective_margin o a s n here there in
      if d.lt here.price one
      then best
      else if d.lt psyche margin && d.lt best.profit margin
      then record { profit = margin; good = good; dest = some at }
      else best

  unfoldable pub weigh_goods :
      Outlook F
      → Agent F
      → Settlement F
      → ℕ
      → Settlement F
      → Entries F
      → Entries F
      → Chance F
      → Chance F
  weigh_goods o a s at n there [] best = best
  weigh_goods o a s at n there ((good, here) ∷ es) best =
      weigh_goods o a s at n there es (weigh o a s at n good here (entry_of good there) best)

  abbrev pub entries_of : Option (Market F) → Entries F
  entries_of none = []
  entries_of (some m) = m.entries

  abbrev pub visit :
      Outlook F → Agent F → Settlement F → ℕ → Option (Settlement F) → Chance F → Chance F
  visit o a s at none best = best
  visit o a s at (some n) best =
      let weighed = weigh_goods o a s at n (entries_of n.market) (entries_of s.market) best in
      if is_embargoed o.sentiments s.id n.id then best else weighed

  -- The loop over the neighbours, each with a market.
  unfoldable pub best_chance :
      Outlook F → Agent F → Settlement F → World F → List ℕ → Chance F → Chance F
  best_chance o a s w [] best = best
  best_chance o a s w (at ∷ rest) best =
      best_chance o a s w rest (visit o a s at (get_elem? w.settlements at) best)

  -- The travel cost over roads and an established route, at least 6.
  unfoldable pub travel_cost : Outlook F → Settlement F → Settlement F → ℕ
  travel_cost o s n =
      let base =
        road_adjusted_cost d (returned (route_cost s.position n.position o.world_map))
          s.road_level in
      let cost = d.trunc (d.mul (d.of_ℕ base) (bonus_between o s.id n.id).0) in
      if ltb cost 6 then 6 else cost

  -- `grossProfit > foodCost`
  unfoldable pub pays_off : Outlook F → Settlement F → Settlement F → GoodType → Bool
  pays_off o s n good =
      let food = d.mul (d.of_ℕ (travel_cost o s n / ticks_per_sim_hour + 2)) (d.lit 2 0) in
      let home_price = price_of (entry_of good (entries_of s.market)) in
      let dest_price = price_of (entry_of good (entries_of n.market)) in
      not (d.le (d.mul (d.sub dest_price home_price) (d.lit 5 0)) food)
