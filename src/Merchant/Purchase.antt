-- ===== src/Merchant/Purchase.antt =====
-- Of `resolveMerchantTrade` in internal/engine/market.go: what a merchant buys at home, on credit where
-- its own money does not do, the provisions for the journey, and what happens on arrival.
pub mod Crowns
use mini_world.Base.Int.{pos}
use mini_world.Clock.{ticks_per_sim_hour}
use mini_world.Merchant.Sale.{sell_merchant_cargo, unit_price}
use mini_world.Base.Word.{add64, sub64, sub16, of_int16}
use mini_world.Model.Settlements.{Market, Settlement, MarketEntry, entry_of, Entries}
use mini_world.Model.Goods.{GoodType, clear, add_good, grain, fish}
use mini_world.Ledger.{World, credit, balance, update_agent, treasury, purse, debit}
use mini_world.Model.Agents.{Agent}
use mini_world.Base.{
  ℕ, zero, suc, ◌+◌, ◌-◌, ◌*◌, ◌≤◌, ◌<◌, ◌^◌, ◌≡◌, refl, sym, ap, subst, ◌∙◌, ◌≢◌, ◌⊎◌, inl, inr,
  Bool, true, false, not, ◌&&◌, ◌||◌, Option, none, some, List, [], ◌∷◌, ◌++◌, arith, ltb, leb,
  ◌==◌, if◌then◌else◌, tests, Bool-cases, Option-cases, length, get_elem?, modify, All, Any, total,
}
use mini_world.Base.Float.{Float, agnosis}

module _ {F : Type 0} where
  abbrev pub borrow : ℕ → Agent F → Agent F
  borrow price a = record a { consignment_debt = add64 a.consignment_debt price }

  -- The loop that buys up to 5 units, with `buyQty`.
  unfoldable pub buy_units : ℕ → ℕ → ℕ → ℕ → World F × ℕ → World F × ℕ
  buy_units p at price zero (w, n) = (w, n)
  buy_units p at price (suc k) (w, n) =
      let own =
        buy_units p at price k (credit (treasury at) price (debit (purse p) price w), n + 1) in
      let fronted =
        buy_units p at price k
          (update_agent p (borrow price) (debit (treasury at) price w), n + 1) in
      if leb price (balance (purse p) w)
      then own
      else if leb price (balance (treasury at) w)
      then fronted
      else (w, n)

  abbrev pub debt_of : Option (Agent F) → ℕ
  debt_of none = 0
  debt_of (some a) = a.consignment_debt

  -- The debt that is repaid: what the merchant can pay of it.
  unfoldable pub repayment : ℕ → World F → ℕ
  repayment p w =
      let debt = debt_of (get_elem? w.agents p) in
      let held = balance (purse p) w in if ltb held debt then held else debt

  abbrev pub settle : ℕ → Agent F → Agent F
  settle paid a = record a { consignment_debt = sub64 a.consignment_debt paid }

  -- `if a.ConsignmentDebt > 0 { … }`
  unfoldable pub repay : ℕ → ℕ → World F → World F
  repay p at w =
      let paid = repayment p w in
      let done =
        update_agent p (settle paid) (credit (treasury at) paid (debit (purse p) paid w)) in
      if ltb 0 (debt_of (get_elem? w.agents p)) then done else w

  abbrev pub unload : Agent F → Agent F
  unload a = record a { trade_dest_sett = none; trade_cargo = clear a.trade_cargo }

  abbrev pub load : GoodType → ℕ → ℕ → Agent F → Agent F
  load good qty dest a = record a {
    trade_dest_sett = some dest;
    trade_cargo = add_good good (pos qty) a.trade_cargo;
  }

  abbrev pub travel : Agent F → Agent F
  travel a = record a {
    travel_ticks_left =
        if leb a.travel_ticks_left ticks_per_sim_hour
        then 0
        else sub16 a.travel_ticks_left ticks_per_sim_hour;
  }

  abbrev pub set_out : ℕ → Agent F → Agent F
  set_out cost a = record a { travel_ticks_left = of_int16 cost }

-- `roadAdjustedCost`, for a cost that is not negative.
unfoldable pub road_adjusted_cost : {F : Type 0} → Float F → ℕ → ℕ → ℕ
road_adjusted_cost d base_cost road_level =
    let discount =
      d.sub (d.lit 1 0) (d.mul (d.mul (d.of_ℕ road_level) (agnosis ⦃d = d⦄)) (d.lit 1 1)) in
    let adjusted = d.trunc (d.mul (d.of_ℕ base_cost) discount) in
    if road_level == 0 then base_cost else if ltb adjusted 6 then 6 else adjusted

module _ {F : Type 0} ⦃d : Float F⦄ where
  -- One meal of a good, if the market has it and the merchant can pay.
  abbrev pub buy_meal_of : ℕ → ℕ → GoodType → Option (MarketEntry F) → World F → Option (World F)
  buy_meal_of p at good none w = none
  buy_meal_of p at good (some e) w =
      let cost = unit_price e.price in
      let paid = credit (treasury at) cost (debit (purse p) cost w) in
      let fed =
        update_agent p (λ a. record a { inventory = add_good good (pos 1) a.inventory }) paid in
      if leb cost (balance (purse p) w) then some fed else none

  abbrev pub or_else : Option (World F) → Option (World F) → Option (World F)
  or_else none y = y
  or_else (some x) y = some x

  abbrev pub buy_meal : ℕ → ℕ → Entries F → World F → Option (World F)
  buy_meal p at es w =
      or_else (buy_meal_of p at grain (entry_of grain es) w)
        (buy_meal_of p at fish (entry_of fish es) w)

  -- The loop that buys the meals still needed; it stops at the first that cannot be had.
  unfoldable pub provision : ℕ → ℕ → Entries F → ℕ → World F → World F
  provision p at es zero w = w
  provision p at es (suc n) w = elim (buy_meal p at es w) [
    | none ↦ w
    | some w' ↦ provision p at es n w'
  ]

  -- The sale at the destination, where the index has it and it has a market; with the settlement
  -- whose trade is then counted.
  abbrev pub sell_there :
      (ℕ → List ℕ) → ℕ → ℕ → Option (Settlement F) → World F → World F × Option ℕ
  sell_there sett_agents p at none w = (w, none)
  sell_there sett_agents p at (some s) w = elim s.market [
    | none ↦ (w, none)
    | some m ↦ (sell_merchant_cargo p at (sett_agents s.id) m w, some s.id)
  ]

  abbrev pub sell_at_place : (ℕ → List ℕ) → ℕ → Option ℕ → World F → World F × Option ℕ
  sell_at_place sett_agents p none w = (w, none)
  sell_at_place sett_agents p (some at) w =
      sell_there sett_agents p at (get_elem? w.settlements at) w

  -- The merchant at `p` has arrived with its cargo: it sells, repays its home at `home`, and unloads.
  unfoldable pub arrive : (ℕ → Option ℕ) → (ℕ → List ℕ) → ℕ → ℕ → ℕ → World F → World F × Option ℕ
  arrive sett_index sett_agents p home dest w =
      let (sold, counted) = sell_at_place sett_agents p (sett_index dest) w in
      (update_agent p unload (repay p home sold), counted)
