-- ===== src/Merchant/MarketSell/Crowns.antt =====
-- A sale to the treasury moves crowns from it to the agent.
use mini_world.Ledger.Moves.{
  Conserves-refl, Conserves-trans, payment-Conserves, update_agent-Conserves, Holds-mono,
}
use mini_world.Ledger.{
  Holds, treasury, crowns, Conserves, balance, credit, purse, debit, update_agent,
}
use mini_world.Model.Agents.{Agent}
use mini_world.Merchant.MarketSell.{
  sell_surplus, tier2_market_sell, GoodType, Market, World, sell_on, market_of, best_offer,
  all_goods, grain, unit_price, price_of, give, entry_of, skill_bonus, practise,
}
use mini_world.Base.{
  ℕ, zero, suc, ◌<◌, ◌^◌, refl, Option, none, some, arith, ltb, ◌==◌, tests, length, get_elem?,
  if_both,
}
use mini_world.Base.Float.{Float, nought}

module _ {F : Type 0} ⦃d : Float F⦄ where
  sell_surplus-Conserves :
      (p at : ℕ) (g : GoodType) (price n : ℕ) (w : World F)
      → p < length w.agents
      → Holds w (treasury at)
      → crowns w < 2 ^ 64
      → Conserves w (sell_surplus p at g price n w)
  unfolding sell_surplus
  sell_surplus-Conserves p at g price zero w hp ht fits = Conserves-refl w
  sell_surplus-Conserves p at g price (suc n) w hp ht fits =
      if_both (Conserves w) (ltb (balance (treasury at) w) price) (λ _. Conserves-refl w)
        (λ covered.
          let paid = credit (purse p) price (debit (treasury at) price w) in
          let next = update_agent p (give g) paid in
          let first =
            Conserves-trans
              (payment-Conserves (treasury at) (purse p) price w ht hp (omega (tests, covered))
                fits)
              (update_agent-Conserves p (give g) paid (λ a. refl)) in
          Conserves-trans first (
            sell_surplus-Conserves p at g price n next
              (Holds-mono w next (purse p) first.same_shape hp)
              (Holds-mono w next (treasury at) first.same_shape ht)
              (omega (arith, first.same_crowns))))

  sell_on-Conserves :
      (p at : ℕ) (a : Option (Agent F)) (m : Option (Market F)) (w : World F)
      → p < length w.agents
      → Holds w (treasury at)
      → crowns w < 2 ^ 64
      → Conserves w (sell_on p at a m w)
  sell_on-Conserves p at none m w hp ht fits = Conserves-refl w
  sell_on-Conserves p at (some a) none w hp ht fits = Conserves-refl w
  sell_on-Conserves p at (some a) (some m) w hp ht fits =
      let best =
        best_offer a m.entries all_goods (record { value = nought; good = grain; quantity = 0 }) in
      let price =
        unit_price (d.mul (price_of (entry_of best.good m.entries)) (skill_bonus a.trade)) in
      let sold = sell_surplus p at best.good price best.quantity w in
      if_both (Conserves w) (best.quantity == 0) (λ _. Conserves-refl w)
        (λ _.
          Conserves-trans (sell_surplus-Conserves p at best.good price best.quantity w hp ht fits)
            (update_agent-Conserves p practise sold (λ a. refl)))

  -- Where the agent and the settlement are in the world and the crowns of the world are fewer
  -- than 2^64, the sale of a surplus to the treasury makes and destroys no crown.
  pub tier2_market_sell-Conserves :
      (p at : ℕ) (w : World F)
      → p < length w.agents
      → Holds w (treasury at)
      → crowns w < 2 ^ 64
      → Conserves w (tier2_market_sell p at w)
  unfolding tier2_market_sell
  tier2_market_sell-Conserves p at w hp ht fits =
      sell_on-Conserves p at (get_elem? w.agents p) (market_of (get_elem? w.settlements at)) w hp ht
        fits
