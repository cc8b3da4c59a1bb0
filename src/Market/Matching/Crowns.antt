-- ===== src/Market/Matching/Crowns.antt =====
-- Order matching moves crowns from buyers to sellers and makes none.
use mini_world.Ledger.Moves.{
  Conserves-trans, Conserves-refl, payment-Conserves, update_agent-Conserves,
}
use mini_world.Ledger.{World, balance, SameShape, purse, crowns, Conserves}
use mini_world.Market.Matching.{
  trade_unit, trade_units, GoodType, Order, Matching, orders_for, insert_by, sort_by, match_pair,
  match_loop, match_good, same_good,
}
use mini_world.Base.{
  ℕ, zero, suc, ◌≤◌, ◌<◌, ◌^◌, ◌≡◌, refl, inl, inr, Bool, false, ◌&&◌, List, [], ◌∷◌, arith, ltb,
  ◌==◌, if◌then◌else◌, Bool-cases, length, All, All-map,
}
use mini_world.Base.Float.{Float, rounded}

affordable : (price held : ℕ) → (ltb 0 price && ltb held price) ≡ false → price ≤ held
affordable price held h = ground arith

module _ {F : Type 0} where
  -- A buyer that can pay pays the seller, and nothing else moves a crown.
  trade_unit-Conserves :
      (g : GoodType) (price buyer seller : ℕ) (w : World F)
      → buyer < length w.agents
      → seller < length w.agents
      → price ≤ balance (purse buyer) w
      → crowns w < 2 ^ 64
      → Conserves w (trade_unit g price buyer seller w)
  unfolding trade_unit
  trade_unit-Conserves g price buyer seller w hb hs covered fits =
      Conserves-trans (payment-Conserves (purse buyer) (purse seller) price w hb hs covered fits) (
        Conserves-trans (update_agent-Conserves buyer _ _ (λ a. refl))
          (update_agent-Conserves seller _ _ (λ a. refl)))

  -- Filtering and sorting drop and move orders only.
  pub orders_for-All :
      (P : Order F → Type 0) (g : GoodType) (os : List (Order F))
      → All P os
      → All P (orders_for g os)
  unfolding orders_for
  orders_for-All P g [] h = tt
  orders_for-All P g (o ∷ os) (h, hs) = elim (Bool-cases (same_good o.good g)) [
    | inl e ↦ rw (e, orders_for) (h, orders_for-All P g os hs)
    | inr e ↦ rw (e, orders_for) (orders_for-All P g os hs)
  ]

  insert_by-All :
      (P : Order F → Type 0) (less : Order F → Order F → Bool) (o : Order F) (os : List (Order F))
      → P o
      → All P os
      → All P (insert_by less o os)
  unfolding insert_by
  insert_by-All P less o [] h hs = (h, tt)
  insert_by-All P less o (x ∷ os) h (hx, hs) = elim (Bool-cases (less x o)) [
    | inl e ↦ rw (e, insert_by) (hx, insert_by-All P less o os h hs)
    | inr e ↦ rw (e, insert_by) (h, (hx, hs))
  ]

  pub sort_by-All :
      (P : Order F → Type 0) (less : Order F → Order F → Bool) (os : List (Order F))
      → All P os
      → All P (sort_by less os)
  unfolding sort_by
  sort_by-All P less [] h = tt
  sort_by-All P less (o ∷ os) (h, hs) = insert_by-All P less o _ h (sort_by-All P less os hs)

  -- Every order is that of an agent of the world.
  abbrev pub HaveAgents : World F → List (Order F) → Type 0
  HaveAgents w = All (λ o. o.agent < length w.agents)

  pub HaveAgents-mono :
      (w w' : World F) (os : List (Order F)) → SameShape w w' → HaveAgents w os → HaveAgents w' os
  HaveAgents-mono w w' os s h =
      All-map {P = λ (o : Order F). o.agent < length w.agents}
        {Q = λ (o : Order F). o.agent < length w'.agents} (λ o k. omega arith) os h

module _ {F : Type 0} ⦃d : Float F⦄ where
  trade_units-Conserves :
      (n : ℕ) (g : GoodType) (price buyer seller : ℕ) (m : Matching F)
      → buyer < length m.world.agents
      → seller < length m.world.agents
      → crowns m.world < 2 ^ 64
      → Conserves m.world (trade_units n g price buyer seller m).world
  unfolding trade_units
  trade_units-Conserves zero g price buyer seller m hb hs fits = Conserves-refl m.world
  trade_units-Conserves (suc n) g price buyer seller m hb hs fits =
      elim (Bool-cases (ltb 0 price && ltb (balance (purse buyer) m.world) price)) [
        | inl stop ↦ rw stop (Conserves-refl m.world)
        | inr go ↦
            let first =
              trade_unit-Conserves g price buyer seller m.world hb hs (affordable price _ go)
                fits in
            let shape = first.same_shape in
            rw go (
              Conserves-trans first (
                trade_units-Conserves n g price buyer seller _ (omega arith) (omega arith)
                  (omega (arith, first.same_crowns))))
      ]

  match_pair-Conserves :
      (g : GoodType) (sell buy : Order F) (m : Matching F)
      → buy.agent < length m.world.agents
      → sell.agent < length m.world.agents
      → crowns m.world < 2 ^ 64
      → Conserves m.world (match_pair g sell buy m).world
  unfolding match_pair
  match_pair-Conserves g sell buy m hb hs fits =
      trade_units-Conserves (if ltb m.remain buy.quantity then m.remain else buy.quantity) g
        (rounded sell.price) buy.agent sell.agent m hb hs fits

  -- The matching loop conserves the crowns of the world, whatever the orders.
  pub match_loop-Conserves :
      (g : GoodType) (sells buys : List (Order F)) (m : Matching F)
      → HaveAgents m.world sells
      → HaveAgents m.world buys
      → crowns m.world < 2 ^ 64
      → Conserves m.world (match_loop g sells buys m).world
  unfolding match_loop
  match_loop-Conserves g sells [] m hs hb fits = Conserves-refl m.world
  match_loop-Conserves g [] (buy ∷ buys) m hs hb fits = Conserves-refl m.world
  match_loop-Conserves g (sell ∷ sells) (buy ∷ buys) m (hs, hss) (hb, hbs) fits =
      let first = match_pair-Conserves g sell buy m hb hs fits in
      let w' = (match_pair g sell buy m).world in
      let held = HaveAgents-mono m.world w' (sell ∷ sells) first.same_shape (hs, hss) in
      let wanted = HaveAgents-mono m.world w' buys first.same_shape hbs in
      let fits' : crowns w' < 2 ^ 64 = omega (arith, first.same_crowns) in
      elim (Bool-cases (d.lt buy.price sell.price)) [
        | inl crossed ↦ rw crossed (Conserves-refl m.world)
        | inr open_book ↦ elim (Bool-cases ((match_pair g sell buy m).remain == 0)) [
          | inl e ↦
              rw (open_book, e)
                (Conserves-trans first (match_loop-Conserves g sells buys _ held.1 wanted fits'))
          | inr e ↦
              rw (open_book, e)
                (Conserves-trans first
                  (match_loop-Conserves g (sell ∷ sells) buys _ held wanted fits'))
        ]
      ]

  -- All matches for one good conserve the crowns of the world.
  pub match_good-Conserves :
      (g : GoodType) (sells buys : List (Order F)) (w : World F)
      → HaveAgents w sells
      → HaveAgents w buys
      → crowns w < 2 ^ 64
      → Conserves w (match_good g sells buys w).world
  unfolding match_good
  match_good-Conserves g sells buys w hs hb fits =
      match_loop-Conserves g _ _ _ (sort_by-All _ _ _ (orders_for-All _ g sells hs))
        (sort_by-All _ _ _ (orders_for-All _ g buys hb)) fits
