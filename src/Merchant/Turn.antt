-- ===== src/Merchant/Turn.antt =====
-- One merchant's hour in `resolveMerchantTrade` of internal/engine/market.go.
pub mod Crowns
pub mod Journey
pub mod Hour
use mini_world.Clock.{ticks_per_sim_hour, ticks_per_sim_day}
use mini_world.Merchant.MarketSell.{price_of}
use mini_world.Memories.{add_memory}
use mini_world.Merchant.Sale.{unit_price}
use mini_world.Merchant.Purchase.{arrive, travel, buy_units, load, provision, set_out}
use mini_world.Model.Goods.{GoodType, is_empty, grain, fish}
use mini_world.Model.Settlements.{Settlement, entry_of}
use mini_world.Base.Int.{ℤ, pos, ◌+ℤ◌, pos_part, ◌-ℤ◌}
use mini_world.Ledger.{World, update_agent}
use mini_world.Merchant.Seek.{Outlook, Chance, entries_of, pays_off, best_chance, travel_cost}
use Prim.Native.String.{String}
use mini_world.Model.Agents.{Agent, words, is_tier2, is_occupied, Occupation}
use mini_world.Base.{
  ℕ, zero, suc, ◌+◌, ◌-◌, ◌*◌, ◌≤◌, ◌<◌, ◌^◌, ◌≡◌, refl, sym, ap, subst, ◌∙◌, ◌≢◌, ◌⊎◌, inl, inr,
  Bool, true, false, not, ◌&&◌, ◌||◌, Option, none, some, List, [], ◌∷◌, ◌++◌, arith, ltb, leb,
  ◌==◌, if◌then◌else◌, tests, Bool-cases, Option-cases, length, get_elem?, modify, All, Any, total,
  ◌%◌, ◌/◌,
}
use mini_world.Base.Float.{Float, nought, lit32}

-- The trades that are counted between settlements: from the merchant's home to the destination.
abbrev pub counted_from : Option ℕ → Option ℕ → List (ℕ × ℕ)
counted_from (some home) (some dest) = (home, dest) ∷ []
counted_from _ _ = []

module _ {F : Type 0} ⦃d : Float F⦄ where
  abbrev pub forget_preference : Agent F → Agent F
  forget_preference a = record a { trade_preferred_dest = none }

  -- Tier 2 merchants remember a dry spell once per day.
  unfoldable pub remember_dry_spell : ℕ → String → Agent F → Agent F
  remember_dry_spell tick name a =
      let content = words "No profitable trade routes from " ∷ words name ∷ words " today." ∷ [] in
      if is_tier2 a.tier && ltb (tick % ticks_per_sim_day) ticks_per_sim_hour
      then add_memory tick content (lit32 3 1) a
      else a

  abbrev pub food_held : Option (Agent F) → ℤ
  food_held none = pos 0
  food_held (some a) = a.inventory grain +ℤ a.inventory fish

  -- From `Buy goods at home market` on, for the good and the destination that were chosen.
  unfoldable pub embark :
      Outlook F → ℕ → ℕ → Settlement F → Settlement F → GoodType → World F → World F
  embark o p home s n good w =
      let es = entries_of s.market in
      let price = unit_price (price_of (entry_of good es)) in
      let (bought, quantity) = buy_units p home price 5 (w, 0) in
      let loaded = update_agent p (load good quantity n.id) bought in
      let cost = travel_cost o s n in
      let meals =
        pos_part (pos (cost / ticks_per_sim_hour + 2) -ℤ food_held (get_elem? loaded.agents p)) in
      let fed = provision p home es meals loaded in
      if quantity == 0 then bought else update_agent p (set_out cost) fed

  abbrev pub embark_for :
      Outlook F → ℕ → ℕ → ℕ → Settlement F → GoodType → Option (Settlement F) → World F → World F
  embark_for o tick p home s good none w = update_agent p (remember_dry_spell tick s.name) w
  embark_for o tick p home s good (some n) w =
      if pays_off o s n good
      then embark o p home s n good w
      else update_agent p (remember_dry_spell tick s.name) w

  abbrev pub place_of : Option ℕ → World F → Option (Settlement F)
  place_of none w = none
  place_of (some at) w = get_elem? w.settlements at

  -- The search for an opportunity, and what follows from it.
  unfoldable pub seek : Outlook F → ℕ → ℕ → ℕ → List ℕ → Settlement F → Agent F → World F → World F
  seek o tick p home neighbors s a w =
      let none_yet : Chance F = record { profit = nought; good = grain; dest = none } in
      let best = best_chance o a s w neighbors none_yet in
      embark_for o tick p home s best.good (place_of best.dest w)
        (update_agent p forget_preference w)

  -- A merchant that is at a place, with cargo for a destination or without.
  abbrev pub act :
      (ℕ → Option ℕ)
      → (ℕ → List ℕ)
      → Outlook F
      → ℕ
      → ℕ
      → ℕ
      → List ℕ
      → Settlement F
      → Agent F
      → Option ℕ
      → World F
      → World F × Option ℕ
  act sett_index sett_agents o tick p home neighbors s a none w =
      if ltb a.wealth 20 then (w, none) else (seek o tick p home neighbors s a w, none)
  act sett_index sett_agents o tick p home neighbors s a (some dest) w =
      if not (is_empty a.trade_cargo)
      then arrive sett_index sett_agents p home dest w
      else if ltb a.wealth 20
      then (w, none)
      else (seek o tick p home neighbors s a w, none)

  -- The body of the loop over the agents; with the destination whose trade is to be counted.
  unfoldable pub merchant_turn :
      (ℕ → Option ℕ)
      → (ℕ → List ℕ)
      → Outlook F
      → ℕ
      → ℕ
      → ℕ
      → List ℕ
      → Settlement F
      → Agent F
      → World F
      → World F × Option ℕ
  merchant_turn sett_index sett_agents o tick p home neighbors s a w =
      let acted = act sett_index sett_agents o tick p home neighbors s a a.trade_dest_sett w in
      if not a.alive || not (is_occupied a.occupation Occupation.merchant)
      then (w, none)
      else if ltb 0 a.travel_ticks_left
      then (update_agent p travel w, none)
      else acted

  abbrev pub turn_found :
      (ℕ → Option ℕ)
      → (ℕ → List ℕ)
      → Outlook F
      → ℕ
      → ℕ
      → ℕ
      → List ℕ
      → Settlement F
      → Option (Agent F)
      → World F × List (ℕ × ℕ)
      → World F × List (ℕ × ℕ)
  turn_found sett_index sett_agents o tick p home neighbors s none (w, trades) = (w, trades)
  turn_found sett_index sett_agents o tick p home neighbors s (some a) (w, trades) =
      let (w', dest) = merchant_turn sett_index sett_agents o tick p home neighbors s a w in
      (w', trades ++ counted_from a.home_sett_id dest)

  -- The loop over the agents of a settlement with a market and with neighbours.
  unfoldable pub merchant_turns :
      (ℕ → Option ℕ)
      → (ℕ → List ℕ)
      → Outlook F
      → ℕ
      → ℕ
      → List ℕ
      → Settlement F
      → List ℕ
      → World F × List (ℕ × ℕ)
      → World F × List (ℕ × ℕ)
  merchant_turns sett_index sett_agents o tick home neighbors s [] (w, trades) = (w, trades)
  merchant_turns sett_index sett_agents o tick home neighbors s (p ∷ ps) (w, trades) =
      merchant_turns sett_index sett_agents o tick home neighbors s ps (
        turn_found sett_index sett_agents o tick p home neighbors s (get_elem? w.agents p)
          (w, trades))
