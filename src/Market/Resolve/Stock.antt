-- ===== src/Market/Resolve/Stock.antt =====
-- The hourly market resolution makes and destroys no goods.
use mini_world.Market.Matching.Crowns.{HaveAgents}
use mini_world.Market.Resolve.Orders.{sells-HaveAgents, buys-HaveAgents}
use mini_world.Ledger.Loops.{AreAgents}
use mini_world.Market.Matching.Stock.{
  KeepsStock, KeepsStock-refl, KeepsStock-trans, match_good-KeepsStock, HaveAgents-kept,
}
use mini_world.Market.Prices.{Season}
use mini_world.Market.Resolve.{
  clear_goods, clear_market, resolve_settlement_market, resolve_markets, Order, Market, Clearing,
  resolve_found, resolve_inhabited, match_good, is_empty_list, orders_for,
}
use mini_world.Model.Settlements.{Settlement}
use mini_world.Ledger.{World, update_settlement, id_at}
use mini_world.Model.Goods.{GoodType}
use mini_world.Base.{
  ℕ, ◌<◌, refl, inl, inr, ◌||◌, Option, none, some, List, [], ◌∷◌, arith, Bool-cases, Option-cases,
  length, get_elem?, All-map,
}
use mini_world.Base.Float.{Float}

module _ {F : Type 0} where
  AreAgents-kept :
      (h : GoodType) (w w' : World F) (ps : List ℕ)
      → KeepsStock h w w'
      → AreAgents w ps
      → AreAgents w' ps
  AreAgents-kept h w w' ps kept are =
      All-map {P = λ p. p < length w.agents} {Q = λ p. p < length w'.agents}
        (λ p k. omega (arith, kept.same_agents)) ps are

  update_settlement-KeepsStock :
      (h : GoodType) (at : ℕ) (f : Settlement F → Settlement F) (w : World F)
      → KeepsStock h w (update_settlement at f w)
  update_settlement-KeepsStock h at f w = record { same_stock = refl; same_agents = refl }

module _ {F : Type 0} ⦃d : Float F⦄ (h : GoodType) where
  clear_goods-KeepsStock :
      (gs : List GoodType) (sells buys : List (Order F)) (c : Clearing F)
      → HaveAgents c.world sells
      → HaveAgents c.world buys
      → KeepsStock h c.world (clear_goods gs sells buys c).world
  unfolding clear_goods
  clear_goods-KeepsStock [] sells buys c hs hb = KeepsStock-refl h c.world
  clear_goods-KeepsStock (g ∷ gs) sells buys c hs hb =
      let first = match_good-KeepsStock h g sells buys c.world hs hb in
      let w' = (match_good g sells buys c.world).world in
      elim (Bool-cases (is_empty_list (orders_for g sells) || is_empty_list (orders_for g buys))) [
        | inl skip ↦ rw (skip, clear_goods) (clear_goods-KeepsStock gs sells buys c hs hb)
        | inr trade ↦
            rw (trade, clear_goods)
              (KeepsStock-trans h first (
                clear_goods-KeepsStock gs sells buys _ (HaveAgents-kept h c.world w' sells first hs)
                  (HaveAgents-kept h c.world w' buys first hb)))
      ]

  clear_market-KeepsStock :
      (season : Season) (s : Settlement F) (m : Market F) (ps : List ℕ) (w : World F)
      → AreAgents w ps
      → KeepsStock h w (clear_market season s m ps w).world
  unfolding clear_market
  clear_market-KeepsStock season s m ps w are =
      clear_goods-KeepsStock _ _ _ _ (sells-HaveAgents w _ ps are) (buys-HaveAgents w _ _ ps are)

  found-KeepsStock :
      (season : Season) (at : ℕ) (ps : List ℕ) (w : World F) (s : Settlement F)
      (m : Option (Market F))
      → AreAgents w ps
      → KeepsStock h w (resolve_found season at ps w s m)
  found-KeepsStock season at ps w s none are = KeepsStock-refl h w
  found-KeepsStock season at ps w s (some m) are =
      KeepsStock-trans h (clear_market-KeepsStock season s m ps w are)
        (update_settlement-KeepsStock h at _ _)

  settlement-KeepsStock :
      (season : Season) (at : ℕ) (ps : List ℕ) (w : World F)
      → AreAgents w ps
      → KeepsStock h w (resolve_settlement_market season at ps w)
  unfolding resolve_settlement_market
  settlement-KeepsStock season at ps w are = elim (Option-cases (get_elem? w.settlements at)) [
    | inl gone ↦ rw (gone, resolve_settlement_market) (KeepsStock-refl h w)
    | inr (s, e) ↦
        rw (e, resolve_settlement_market) (found-KeepsStock season at ps w s s.market are)
  ]

  inhabited-KeepsStock :
      (season : Season) (at : ℕ) (ps : List ℕ) (w : World F)
      → AreAgents w ps
      → KeepsStock h w (resolve_inhabited season at ps w)
  inhabited-KeepsStock season at [] w are = KeepsStock-refl h w
  inhabited-KeepsStock season at (p ∷ ps) w are = settlement-KeepsStock season at (p ∷ ps) w are

  -- Where all pointers to agents are valid, the hourly market resolution makes and destroys no
  -- unit of any good: what all agents hold of it together stays the same.
  pub resolve_markets-KeepsStock :
      (season : Season) (sett_agents : ℕ → List ℕ) (places : List ℕ) (w : World F)
      → ((id : ℕ) → AreAgents w (sett_agents id))
      → KeepsStock h w (resolve_markets season sett_agents places w)
  unfolding resolve_markets
  resolve_markets-KeepsStock season sett_agents [] w are = KeepsStock-refl h w
  resolve_markets-KeepsStock season sett_agents (at ∷ rest) w are =
      let first = inhabited-KeepsStock season at (sett_agents (id_at w at)) w (are (id_at w at)) in
      KeepsStock-trans h first (
        resolve_markets-KeepsStock season sett_agents rest _
          (λ id. AreAgents-kept h w _ (sett_agents id) first (are id)))
