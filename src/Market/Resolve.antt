-- ===== src/Market/Resolve.antt =====
-- `resolveSettlementMarket` and `resolveMarkets` of internal/engine/market.go: supply and demand are
-- counted, reference prices are set, orders are collected and matched good by good.
pub mod Crowns
pub mod Stock
pub mod Orders
use mini_world.Market.Demand.{surplus, demanded_goods}
use mini_world.Market.Matching.{Order, Matching, match_good, orders_for}
use mini_world.Ledger.{World, update_settlement, agents_at, id_at}
use mini_world.Market.Prices.{Season, resolve_price, blend_price, seasonal_market_mod, decay_price}
use mini_world.Model.Agents.{Agent}
use mini_world.Model.Settlements.{MarketEntry, Entries, Market, Settlement}
use mini_world.Model.Goods.{GoodType, same_good, all_goods}
use mini_world.Base.{
  ℕ, zero, suc, ◌+◌, ◌-◌, ◌*◌, ◌≤◌, ◌<◌, ◌^◌, ◌≡◌, refl, sym, ap, subst, ◌∙◌, ◌≢◌, ◌⊎◌, inl, inr,
  Bool, true, false, not, ◌&&◌, ◌||◌, Option, none, some, List, [], ◌∷◌, ◌++◌, arith, ltb, leb,
  ◌==◌, if◌then◌else◌, tests, Bool-cases, Option-cases, length, get_elem?, modify, All, Any, total,
  ◌/◌, map,
}
use mini_world.Base.Float.{Float, agnosis, matter, being, nought, one}
use mini_world.Base.Int.{pos, negsuc, pos_part}

module _ {F : Type 0} where
  -- A write through `market.Entries[good]`.
  unfoldable pub update_entry : GoodType → (MarketEntry F → MarketEntry F) → Entries F → Entries F
  update_entry g f [] = []
  update_entry g f ((k, e) ∷ es) =
      if same_good k g then (k, f e) ∷ es else (k, e) ∷ update_entry g f es

  abbrev pub map_entries : (MarketEntry F → MarketEntry F) → Entries F → Entries F
  map_entries f = map (λ (kv : GoodType × MarketEntry F). (kv.0, f kv.1))

  abbrev pub goods_of : Entries F → List GoodType
  goods_of = map (λ (kv : GoodType × MarketEntry F). kv.0)

  unfoldable pub ref_of : GoodType → List (GoodType × F) → Option F
  ref_of g [] = none
  ref_of g ((k, x) ∷ xs) = if same_good k g then some x else ref_of g xs

module _ {F : Type 0} ⦃d : Float F⦄ where
  -- The supply of one agent: what it holds above its thresholds.
  add_supply : Agent F → List GoodType → Entries F → Entries F
  add_supply a [] es = es
  add_supply a (g ∷ gs) es =
      let n = pos_part (surplus a.occupation a.inventory g) in
      add_supply a gs (
        if ltb 0 n
        then update_entry g (λ e. record e { supply = d.add e.supply (d.of_ℕ n) }) es
        else es)

  add_demand : List GoodType → Entries F → Entries F
  add_demand [] es = es
  add_demand (g ∷ gs) es =
      add_demand gs (update_entry g (λ e. record e { demand = d.add e.demand one }) es)

  -- The loop over the agents that counts supply and demand.
  unfoldable pub aggregate : Market F → List (Agent F) → Entries F → Entries F
  unfolding add_supply add_demand
  aggregate m [] es = es
  aggregate m (a ∷ as') es =
      let supplied = add_supply a all_goods es in
      let wanted = demanded_goods a (some (record m { entries = supplied })) in
      aggregate m as' (if a.alive then add_demand wanted supplied else es)

  abbrev pub reset_entry : MarketEntry F → MarketEntry F
  reset_entry e = record e { supply = nought; demand = nought }

  -- `float64(sett.Population / 100)`, at least 1
  abbrev pub supply_floor : ℕ → F
  supply_floor population =
      let floor = d.of_ℕ (population / 100) in if d.lt floor one then one else floor

  abbrev pub raise_entry : F → MarketEntry F → MarketEntry F
  raise_entry floor e = record e {
    supply = if d.lt e.supply floor then floor else e.supply;
    demand = if d.lt e.demand one then one else e.demand;
  }

  abbrev pub market_mod : ℕ → F
  market_mod level = d.div one (d.add one (d.mul (d.mul (d.of_ℕ level) agnosis) (d.lit 5 2)))

  abbrev pub ref_prices : Season → ℕ → Entries F → List (GoodType × F)
  ref_prices season level = map (λ (kv : GoodType × MarketEntry F).
      (kv.0, resolve_price kv.1 (seasonal_market_mod season kv.0) (market_mod level)))

  -- The sell orders of one agent.
  unfoldable pub sell_orders_of : ℕ → Agent F → List (GoodType × F) → List GoodType → List (Order F)
  sell_orders_of p a refs [] = []
  sell_orders_of p a refs (g ∷ gs) =
      let n = pos_part (surplus a.occupation a.inventory g) in
      let rest = sell_orders_of p a refs gs in
      if ltb 0 n
      then elim (ref_of g refs) [
        | none ↦ rest
        | some ref ↦
            record { agent = p; good = g; quantity = n; price = d.mul ref matter; is_sell = true }
            ∷ rest
      ]
      else rest

  -- The buy orders of one agent, of one unit each.
  unfoldable pub buy_orders_of : ℕ → List (GoodType × F) → List GoodType → List (Order F)
  buy_orders_of p refs [] = []
  buy_orders_of p refs (g ∷ gs) =
      let rest = buy_orders_of p refs gs in
      elim (ref_of g refs) [
        | none ↦ rest
        | some ref ↦
            record { agent = p; good = g; quantity = 1; price = d.mul ref being; is_sell = false }
            ∷ rest
      ]

  -- A loop over the living agents that collects orders.
  unfoldable pub collect : World F → (ℕ → Agent F → List (Order F)) → List ℕ → List (Order F)
  collect w orders [] = []
  collect w orders (p ∷ ps) =
      let rest = collect w orders ps in
      elim (get_elem? w.agents p) [
        | none ↦ rest
        | some a ↦ if a.alive then orders p a ++ rest else rest
      ]

-- What the loop over the goods carries.
pub record Clearing (F : Type 0) : Type 0 where
  pub world : World F
  pub market : Market F
  pub max_traded : ℕ

module _ {F : Type 0} ⦃d : Float F⦄ where
  -- The price and the trade statistics after the matches for one good.
  abbrev pub record_trades : GoodType → Matching F → Clearing F → Clearing F
  record_trades g m c =
      let priced =
        if ltb 0 m.traded
        then update_entry g (λ e. blend_price e m.traded m.revenue) c.market.entries
        else c.market.entries in
      let most = ltb c.max_traded m.traded in
      record {
        world = m.world;
        market = record {
          entries = priced;
          trade_count = c.market.trade_count + m.traded;
          most_traded_good = if most then g else c.market.most_traded_good;
        };
        max_traded = if most then m.traded else c.max_traded;
      }

  abbrev pub is_empty_list : List (Order F) → Bool
  is_empty_list [] = true
  is_empty_list (o ∷ os) = false

  -- The loop over the goods: one round of order matching each.
  unfoldable pub clear_goods :
      List GoodType → List (Order F) → List (Order F) → Clearing F → Clearing F
  clear_goods [] sells buys c = c
  clear_goods (g ∷ gs) sells buys c =
      let c' = record_trades g (match_good g sells buys c.world) c in
      let skip = is_empty_list (orders_for g sells) || is_empty_list (orders_for g buys) in
      clear_goods gs sells buys (if skip then c else c')

  -- The market of a settlement that has one, up to the writes to the settlement.
  unfoldable pub clear_market : Season → Settlement F → Market F → List ℕ → World F → Clearing F
  clear_market season s m ps w =
      let counted = aggregate m (agents_at w ps) (map_entries reset_entry m.entries) in
      let raised = map_entries (raise_entry (supply_floor s.population)) counted in
      let refs = ref_prices season s.market_level raised in
      let market = record m { entries = raised } in
      let sells = collect w (λ p a. sell_orders_of p a refs all_goods) ps in
      let buys = collect w (λ p a. buy_orders_of p refs (demanded_goods a (some market))) ps in
      let cleared =
        clear_goods (goods_of raised) sells buys
          (record { world = w; market = record market { trade_count = 0 }; max_traded = 0 }) in
      let pop_threshold = d.mul (d.of_ℕ s.population) being in
      let decayed = map_entries (decay_price pop_threshold) cleared.market.entries in
      record cleared { market = record cleared.market { entries = decayed } }

  abbrev pub resolve_found :
      Season → ℕ → List ℕ → World F → Settlement F → Option (Market F) → World F
  resolve_found season at ps w s none = w
  resolve_found season at ps w s (some m) =
      let c = clear_market season s m ps w in
      update_settlement at (λ s'. record s' { market = some c.market }) c.world

  -- `resolveSettlementMarket`, for the settlement at `at`.
  unfoldable pub resolve_settlement_market : Season → ℕ → List ℕ → World F → World F
  unfolding clear_market
  resolve_settlement_market season at ps w = elim (get_elem? w.settlements at) [
    | none ↦ w
    | some s ↦ resolve_found season at ps w s s.market
  ]

  abbrev pub resolve_inhabited : Season → ℕ → List ℕ → World F → World F
  resolve_inhabited season at [] w = w
  resolve_inhabited season at (p ∷ ps) w = resolve_settlement_market season at (p ∷ ps) w

  -- `resolveMarkets`, over the settlements at the given places.
  unfoldable pub resolve_markets : Season → (ℕ → List ℕ) → List ℕ → World F → World F
  resolve_markets season sett_agents [] w = w
  resolve_markets season sett_agents (at ∷ rest) w =
      resolve_markets season sett_agents rest
        (resolve_inhabited season at (sett_agents (id_at w at)) w)
