-- ===== src/Market/Resolve/Crowns.antt =====
-- The hourly market resolution conserves the crowns of the world.
use mini_world.Market.Resolve.Orders.{sells-HaveAgents, buys-HaveAgents}
use mini_world.Ledger.Moves.{Conserves-refl, Conserves-trans, update_settlement-Conserves}
use mini_world.Ledger.{crowns, Conserves}
use mini_world.Market.Matching.Crowns.{HaveAgents, match_good-Conserves, HaveAgents-mono}
use mini_world.Ledger.Loops.{AreAgents, AreAgents-mono}
use mini_world.Market.Resolve.{
  clear_goods, resolve_settlement_market, GoodType, Season, Order, World, Clearing, match_good,
  is_empty_list, orders_for, clear_market, Settlement, resolve_inhabited, resolve_markets, Market,
  id_at, resolve_found,
}
use mini_world.Base.{
  ℕ, ◌<◌, ◌^◌, refl, inl, inr, ◌||◌, Option, none, some, List, [], ◌∷◌, arith, Bool-cases,
  Option-cases, get_elem?,
}
use mini_world.Base.Float.{Float}

module _ {F : Type 0} ⦃d : Float F⦄ where
  clear_goods-Conserves :
      (gs : List GoodType) (sells buys : List (Order F)) (c : Clearing F)
      → HaveAgents c.world sells
      → HaveAgents c.world buys
      → crowns c.world < 2 ^ 64
      → Conserves c.world (clear_goods gs sells buys c).world
  unfolding clear_goods
  clear_goods-Conserves [] sells buys c hs hb fits = Conserves-refl c.world
  clear_goods-Conserves (g ∷ gs) sells buys c hs hb fits =
      let first = match_good-Conserves g sells buys c.world hs hb fits in
      let w' = (match_good g sells buys c.world).world in
      elim (Bool-cases (is_empty_list (orders_for g sells) || is_empty_list (orders_for g buys))) [
        | inl skip ↦ rw (skip, clear_goods) (clear_goods-Conserves gs sells buys c hs hb fits)
        | inr trade ↦
            rw (trade, clear_goods)
              (Conserves-trans first (
                clear_goods-Conserves gs sells buys _
                  (HaveAgents-mono c.world w' sells first.same_shape hs)
                  (HaveAgents-mono c.world w' buys first.same_shape hb)
                  (omega (arith, first.same_crowns))))
      ]

  clear_market-Conserves :
      (season : Season) (s : Settlement F) (m : Market F) (ps : List ℕ) (w : World F)
      → AreAgents w ps
      → crowns w < 2 ^ 64
      → Conserves w (clear_market season s m ps w).world
  unfolding clear_market
  clear_market-Conserves season s m ps w h fits =
      clear_goods-Conserves _ _ _ _ (sells-HaveAgents w _ ps h) (buys-HaveAgents w _ _ ps h) fits

  found-Conserves :
      (season : Season) (at : ℕ) (ps : List ℕ) (w : World F) (s : Settlement F)
      (m : Option (Market F))
      → AreAgents w ps
      → crowns w < 2 ^ 64
      → Conserves w (resolve_found season at ps w s m)
  found-Conserves season at ps w s none h fits = Conserves-refl w
  found-Conserves season at ps w s (some m) h fits =
      Conserves-trans (clear_market-Conserves season s m ps w h fits)
        (update_settlement-Conserves at _ _ (λ s'. refl))

  -- One settlement's market resolution makes and destroys no crown.
  pub resolve_settlement_market-Conserves :
      (season : Season) (at : ℕ) (ps : List ℕ) (w : World F)
      → AreAgents w ps
      → crowns w < 2 ^ 64
      → Conserves w (resolve_settlement_market season at ps w)
  unfolding resolve_settlement_market
  resolve_settlement_market-Conserves season at ps w h fits =
      elim (Option-cases (get_elem? w.settlements at)) [
        | inl gone ↦ rw (gone, resolve_settlement_market) (Conserves-refl w)
        | inr (s, e) ↦
            rw (e, resolve_settlement_market) (found-Conserves season at ps w s s.market h fits)
      ]

  inhabited-Conserves :
      (season : Season) (at : ℕ) (ps : List ℕ) (w : World F)
      → AreAgents w ps
      → crowns w < 2 ^ 64
      → Conserves w (resolve_inhabited season at ps w)
  inhabited-Conserves season at [] w h fits = Conserves-refl w
  inhabited-Conserves season at (p ∷ ps) w h fits =
      resolve_settlement_market-Conserves season at (p ∷ ps) w h fits

  -- Where all pointers to agents are valid and the crowns of the world are fewer than 2^64, the
  -- hourly market resolution of any settlements makes and destroys no crown.
  pub resolve_markets-Conserves :
      (season : Season) (sett_agents : ℕ → List ℕ) (places : List ℕ) (w : World F)
      → ((id : ℕ) → AreAgents w (sett_agents id))
      → crowns w < 2 ^ 64
      → Conserves w (resolve_markets season sett_agents places w)
  unfolding resolve_markets
  resolve_markets-Conserves season sett_agents [] w h fits = Conserves-refl w
  resolve_markets-Conserves season sett_agents (at ∷ rest) w h fits =
      let first =
        inhabited-Conserves season at (sett_agents (id_at w at)) w (h (id_at w at)) fits in
      Conserves-trans first (
        resolve_markets-Conserves season sett_agents rest _
          (λ id. AreAgents-mono w _ (sett_agents id) first.same_shape (h id))
          (omega (arith, first.same_crowns)))
