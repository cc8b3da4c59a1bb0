-- ===== src/Merchant/Sale.antt =====
-- `sellMerchantCargo` and `findDirectBuyer` of internal/engine/market.go.
pub mod Crowns
use mini_world.Model.Goods.{
  grain, timber, iron_ore, stone, fish, herbs, gems, furs, coal, exotics, tools, weapons, clothing,
  medicine, luxuries,
}
use mini_world.Memories.{add_memory}
use mini_world.Base.Word.{sub64, add64}
use mini_world.Model.Settlements.{Settlement, Market, MarketEntry, entry_of}
use Prim.Native.String.{String}
use mini_world.Model.Agents.{Agent, Piece, words, number, is_tier2}
use mini_world.Base.Int.{ℤ, pos, ltb_ℤ, pos_part}
use mini_world.Ledger.{World, credit, balance, treasury, update_agent, purse, debit}
use mini_world.Model.Goods.{GoodType, GoodInventory, same_good, all_goods, grain, fish, index}
use mini_world.Base.{
  ℕ, zero, suc, ◌+◌, ◌-◌, ◌*◌, ◌≤◌, ◌<◌, ◌^◌, ◌≡◌, refl, sym, ap, subst, ◌∙◌, ◌≢◌, ◌⊎◌, inl, inr,
  Bool, true, false, not, ◌&&◌, ◌||◌, Option, none, some, List, [], ◌∷◌, ◌++◌, arith, ltb, leb,
  ◌==◌, if◌then◌else◌, tests, Bool-cases, Option-cases, length, get_elem?, modify, All, Any, total,
}
use mini_world.Merchant.Commission.{tier2_commission}
use mini_world.Base.Float.{Float, rounded, agnosis, matter, add32, lit32}

abbrev pub is_food : GoodType → Bool
is_food good = same_good good grain || same_good good fish

-- `goodName`
unfoldable pub good_name : GoodType → String
good_name grain = "grain"
good_name timber = "timber"
good_name iron_ore = "iron ore"
good_name stone = "stone"
good_name fish = "fish"
good_name herbs = "herbs"
good_name gems = "gems"
good_name furs = "furs"
good_name coal = "coal"
good_name exotics = "exotics"
good_name tools = "tools"
good_name weapons = "weapons"
good_name clothing = "clothing"
good_name medicine = "medicine"
good_name luxuries = "luxuries"

-- The description of the cargo: each quantity and good.
pub describe : GoodInventory → List GoodType → List Piece
describe cargo [] = []
describe cargo (g ∷ gs) =
    let rest = describe cargo gs in
    if ltb_ℤ (pos 0) (cargo g)
    then number (pos_part (cargo g)) ∷ words (good_name g) ∷ words " " ∷ rest
    else rest

module _ {F : Type 0} ⦃d : Float F⦄ where
  -- `uint64(entry.Price + 0.5)`, at least 1.
  unfoldable pub unit_price : F → ℕ
  unit_price price = let whole = rounded price in if ltb whole 1 then 1 else whole

  abbrev pub buys : GoodType → ℕ → Option (Agent F) → Bool
  buys good price none = false
  buys good price (some b) =
      let can_pay = leb price b.wealth && leb price (d.trunc (d.mul (d.of_ℕ b.wealth) agnosis)) in
      let in_need =
        if is_food good
        then not (d.lt matter b.needs.survival)
        else ltb_ℤ (b.inventory good) (pos 2) in
      b.alive && can_pay && in_need

  -- `findDirectBuyer`, over the agents of the settlement.
  unfoldable pub find_direct_buyer : GoodType → ℕ → World F → List ℕ → Option ℕ
  find_direct_buyer good price w [] = none
  find_direct_buyer good price w (p ∷ ps) =
      let rest = find_direct_buyer good price w ps in
      if buys good price (get_elem? w.agents p) then some p else rest

  unfoldable pub market_fee : F → ℕ → ℕ
  market_fee tenth price =
      let fee = d.trunc (d.mul (d.mul (d.of_ℕ price) agnosis) tenth) in if ltb fee 1 then 1 else fee

  -- One unit to an agent; `none` is the `break`.
  abbrev pub sell_direct : ℕ → ℕ → ℕ → Option ℕ → World F × ℕ → Option (World F × ℕ)
  sell_direct p at price none (w, revenue) = none
  sell_direct p at price (some b) (w, revenue) =
      let fee = market_fee (d.lit 1 1) price in
      some (
        credit (treasury at) fee (credit (purse p) (sub64 price fee) (debit (purse b) price w)),
        add64 revenue (sub64 price fee),
      )

  -- One unit, to the treasury where that can pay; `ps` are the agents of the settlement.
  unfoldable pub sell_unit : ℕ → ℕ → GoodType → ℕ → List ℕ → World F × ℕ → Option (World F × ℕ)
  sell_unit p at good price ps (w, revenue) =
      let direct = sell_direct p at price (find_direct_buyer good price w ps) (w, revenue) in
      if leb price (balance (treasury at) w)
      then some (credit (purse p) price (debit (treasury at) price w), add64 revenue price)
      else direct

  -- The units of one good.
  unfoldable pub sell_units : ℕ → ℕ → GoodType → ℕ → List ℕ → ℕ → World F × ℕ → World F × ℕ
  sell_units p at good price ps zero s = s
  sell_units p at good price ps (suc n) s = elim (sell_unit p at good price ps s) [
    | none ↦ s
    | some s' ↦ sell_units p at good price ps n s'
  ]

  abbrev pub sell_good :
      ℕ → ℕ → List ℕ → ℤ → GoodType → Option (MarketEntry F) → World F × ℕ → World F × ℕ
  sell_good p at ps qty good none s = s
  sell_good p at ps qty good (some e) s =
      sell_units p at good (unit_price e.price) ps (pos_part qty) s

  unfoldable pub sell_goods :
      ℕ → ℕ → List ℕ → GoodInventory → Market F → List GoodType → World F × ℕ → World F × ℕ
  sell_goods p at ps cargo m [] s = s
  sell_goods p at ps cargo m (g ∷ gs) s =
      sell_goods p at ps cargo m gs (sell_good p at ps (cargo g) g (entry_of g m.entries) s)

  abbrev pub accomplished : Agent F → Agent F
  accomplished a = record a {
    needs = record {
      survival = add32 a.needs.survival (d.round32 (d.mul agnosis (d.lit 5 2)));
      safety = add32 a.needs.safety (lit32 8 3);
      belonging = add32 a.needs.belonging (lit32 4 3);
      esteem = add32 a.needs.esteem (lit32 12 3);
      purpose = add32 a.needs.purpose (lit32 4 3);
    };
  }

  -- What a Tier 2 merchant remembers of the trade.
  unfoldable pub remember_sale : String → ℕ → Agent F → Agent F
  unfolding describe
  remember_sale name revenue a =
      let importance = if ltb revenue a.consignment_debt then lit32 7 1 else lit32 6 1 in
      let content =
        words "Completed trade to "
        ∷ words name
        ∷ words ": sold "
        ∷ (describe a.trade_cargo all_goods
            ++ words "for " ∷ number revenue ∷ words " crowns" ∷ []) in
      if is_tier2 a.tier then add_memory 0 content importance a else a

  abbrev pub cargo_of : Option (Agent F) → GoodInventory
  cargo_of none = λ g. pos 0
  cargo_of (some a) = a.trade_cargo

  abbrev pub name_of : Option (Settlement F) → String
  name_of none = ""
  name_of (some s) = s.name

  -- `sellMerchantCargo` of the merchant at `p`, on the market of the settlement at `at`.
  unfoldable pub sell_merchant_cargo : ℕ → ℕ → List ℕ → Market F → World F → World F
  sell_merchant_cargo p at ps m w =
      let (sold, revenue) =
        sell_goods p at ps (cargo_of (get_elem? w.agents p)) m all_goods (w, 0) in
      let name = name_of (get_elem? w.settlements at) in
      let told = update_agent p (remember_sale name revenue) (update_agent p accomplished sold) in
      if ltb 0 revenue then tier2_commission p revenue ps told else sold
