-- ===== src/Treasury/Food/Crowns.antt =====
-- Food is paid for into the home treasury.
use mini_world.Ledger.Moves.{update_agent-Conserves, Conserves-trans, payment-Conserves}
use mini_world.Ledger.{Holds, treasury, crowns, Conserves, balance, purse, credit, debit}
use mini_world.Treasury.Food.{
  resolve_buy_food, World, market_of, forage, cheapest_food, food_cost, fed, forage_poor,
}
use mini_world.Base.{
  ℕ, ◌<◌, ◌^◌, refl, inl, inr, some, leb, tests, Option-cases, length, get_elem?, if_both,
}
use mini_world.Base.Float.{Float}

module _ {F : Type 0} ⦃d : Float F⦄ where
  -- Where the agent and its home are in the world and the crowns of the world are fewer than
  -- 2^64, buying food makes and destroys no crown.
  pub resolve_buy_food-Conserves :
      (p at : ℕ) (w : World F)
      → p < length w.agents
      → Holds w (treasury at)
      → crowns w < 2 ^ 64
      → Conserves w (resolve_buy_food p (some at) w)
  unfolding resolve_buy_food
  resolve_buy_food-Conserves p at w hp ht fits =
      elim (Option-cases (market_of (get_elem? w.settlements at))) [
        | inl gone ↦ rw gone (update_agent-Conserves p forage w (λ a. refl))
        | inr (m, e) ↦
            let (good, price) = cheapest_food m in
            let cost = food_cost price in
            rw e (
              if_both (Conserves w) (leb cost (balance (purse p) w))
                (λ covered.
                  Conserves-trans
                    (payment-Conserves (purse p) (treasury at) cost w hp ht (omega (tests, covered))
                      fits)
                    (update_agent-Conserves p (fed good)
                      (credit (treasury at) cost (debit (purse p) cost w)) (λ a. refl)))
                (λ _. update_agent-Conserves p forage_poor w (λ a. refl)))
      ]
