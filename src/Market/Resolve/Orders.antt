-- ===== src/Market/Resolve/Orders.antt =====
-- The orders that `resolveSettlementMarket` collects are those of the agents that it is given.
use mini_world.Market.Matching.Crowns.{HaveAgents}
use mini_world.Ledger.Loops.{AreAgents}
use mini_world.Ledger.{World}
use mini_world.Market.Resolve.{
  sell_orders_of, buy_orders_of, collect, Agent, GoodType, Order, all_goods,
}
use mini_world.Base.{
  ℕ, ◌<◌, inl, inr, List, [], ◌∷◌, arith, Option-cases, length, get_elem?, All, All-append, if_both,
}
use mini_world.Base.Float.{Float}

module _ {F : Type 0} ⦃d : Float F⦄ where
  sell_orders_of-at :
      (n p : ℕ) (a : Agent F) (refs : List (GoodType × F)) (gs : List GoodType)
      → p < n
      → All (λ o. o.agent < n) (sell_orders_of p a refs gs)
  unfolding sell_orders_of
  sell_orders_of-at n p a refs [] h = tt
  sell_orders_of-at n p a refs (g ∷ gs) h = ground (arith, sell_orders_of-at n p a refs gs h)

  buy_orders_of-at :
      (n p : ℕ) (refs : List (GoodType × F)) (gs : List GoodType)
      → p < n
      → All (λ o. o.agent < n) (buy_orders_of p refs gs)
  unfolding buy_orders_of
  buy_orders_of-at n p refs [] h = tt
  buy_orders_of-at n p refs (g ∷ gs) h = ground (arith, buy_orders_of-at n p refs gs h)

  collect-All :
      (P : Order F → Type 0) (w : World F) (orders : ℕ → Agent F → List (Order F)) (ps : List ℕ)
      → ((p : ℕ) (a : Agent F) → p < length w.agents → All P (orders p a))
      → AreAgents w ps
      → All P (collect w orders ps)
  unfolding collect
  collect-All P w orders [] each_one h = tt
  collect-All P w orders (p ∷ ps) each_one (hp, hps) =
      let rest = collect-All P w orders ps each_one hps in
      elim (Option-cases (get_elem? w.agents p)) [
        | inl gone ↦ rw (gone, collect) rest
        | inr (a, e) ↦
            rw (e, collect)
              (if_both (All P) a.alive (λ _. All-append P (orders p a) _ (each_one p a hp) rest)
                (λ _. rest))
      ]

  pub sells-HaveAgents :
      (w : World F) (refs : List (GoodType × F)) (ps : List ℕ)
      → AreAgents w ps
      → HaveAgents w (collect w (λ p a. sell_orders_of p a refs all_goods) ps)
  sells-HaveAgents w refs ps h =
      collect-All (λ o. o.agent < length w.agents) w _ ps
        (λ p a hp. sell_orders_of-at (length w.agents) p a refs all_goods hp) h

  pub buys-HaveAgents :
      (w : World F) (refs : List (GoodType × F)) (wanted : Agent F → List GoodType) (ps : List ℕ)
      → AreAgents w ps
      → HaveAgents w (collect w (λ p a. buy_orders_of p refs (wanted a)) ps)
  buys-HaveAgents w refs wanted ps h =
      collect-All (λ o. o.agent < length w.agents) w _ ps
        (λ p a hp. buy_orders_of-at (length w.agents) p refs (wanted a) hp) h
