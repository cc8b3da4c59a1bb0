-- ===== src/Market/Matching/Stock.antt =====
-- The matching moves goods between agents and makes and destroys none.
use mini_world.Market.Matching.Crowns.{HaveAgents, sort_by-All, orders_for-All}
use mini_world.Base.Word.{sub64, add64}
use mini_world.Model.Agents.{Agent}
use mini_world.Base.Int.{ℤ, pos_part, neg_part, pos, int_laws, negsuc, +ℤ_parts}
use mini_world.Market.Matching.{
  trade_unit, same_good, Order, trade_units, match_pair, match_loop, match_good, Matching,
}
use mini_world.Ledger.{set_balance, credit, World, debit, purse, balance, update_agent}
use mini_world.Model.Goods.{GoodType, add_good, GoodInventory}
use mini_world.Base.{
  ℕ, zero, suc, ◌+◌, ◌-◌, ◌<◌, ◌≡◌, refl, ◌∙◌, inl, inr, Bool, true, false, ◌&&◌, List, [], ◌∷◌,
  arith, ltb, ◌==◌, if◌then◌else◌, Bool-cases, length, total, total-modify_same, length-modify,
  get_elem?-some, total-modify, All-map, if_both,
}
use mini_world.Base.Float.{Float, rounded}

change : Bool → ℤ → ℤ
change same n = if same then n else pos 0

-- A unit more and a unit less.
change-cancels :
    (same : Bool)
    → pos_part (change same (pos 1)) + pos_part (change same (negsuc 0))
      ≡ neg_part (change same (pos 1)) + neg_part (change same (negsuc 0))
unfolding change
change-cancels true = omega arith
change-cancels false = omega arith

-- What one agent has of a good after a change, by the parts of the integers.
add_good-parts :
    (g h : GoodType) (n : ℤ) (inv : GoodInventory)
    → let m = change (same_good h g) n in
      pos_part (add_good g n inv h) + neg_part (inv h) + neg_part m
      ≡ neg_part (add_good g n inv h) + pos_part (inv h) + pos_part m
unfolding add_good change
add_good-parts g h n inv = elim (Bool-cases (same_good h g)) [
  | inl e ↦ rw e (omega (int_laws, +ℤ_parts (inv h) n))
  | inr e ↦ rw e (omega arith)
]

module _ {F : Type 0} where
  -- What the agents hold of a good, and what they are short of it; the sum over all agents is the
  -- difference.
  abbrev pub holdings : GoodType → World F → ℕ
  holdings h w = total (λ (a : Agent F). pos_part (a.inventory h)) w.agents

  abbrev pub shortfalls : GoodType → World F → ℕ
  shortfalls h w = total (λ (a : Agent F). neg_part (a.inventory h)) w.agents

  -- The sum over all agents is the same, and nobody has come or gone.
  pub record KeepsStock (h : GoodType) (w w' : World F) : Type 0 where
    pub same_stock : holdings h w' + shortfalls h w ≡ holdings h w + shortfalls h w'
    pub same_agents : length w'.agents ≡ length w.agents

  pub KeepsStock-refl : (h : GoodType) (w : World F) → KeepsStock h w w
  KeepsStock-refl h w = record { same_stock = refl; same_agents = refl }

  pub KeepsStock-trans :
      (h : GoodType) {u v w : World F} → KeepsStock h u v → KeepsStock h v w → KeepsStock h u w
  KeepsStock-trans h a b = record {
    same_stock = omega (arith, a.same_stock, b.same_stock);
    same_agents = b.same_agents ∙ a.same_agents;
  }

  set_balance-KeepsStock :
      (h : GoodType) (p v : ℕ) (w : World F) → KeepsStock h w (set_balance (purse p) v w)
  unfolding set_balance
  set_balance-KeepsStock h p v w =
      let pay = λ (a : Agent F). record a { wealth = v } in
      let held =
        total-modify_same (λ (a : Agent F). pos_part (a.inventory h)) p pay w.agents (λ a. refl) in
      let short =
        total-modify_same (λ (a : Agent F). neg_part (a.inventory h)) p pay w.agents (λ a. refl) in
      record { same_stock = omega (arith, held, short); same_agents = length-modify p pay w.agents }

  payment-KeepsStock :
      (h : GoodType) (buyer seller price : ℕ) (w : World F)
      → KeepsStock h w (credit (purse seller) price (debit (purse buyer) price w))
  unfolding credit debit
  payment-KeepsStock h buyer seller price w =
      KeepsStock-trans h (set_balance-KeepsStock h buyer (sub64 (balance (purse buyer) w) price) w)
        (set_balance-KeepsStock h seller
          (add64 (balance (purse seller) (debit (purse buyer) price w)) price)
          (debit (purse buyer) price w))

  -- A change of one agent's inventory moves the sum by the change.
  receive-parts :
      (g h : GoodType) (n : ℤ) (p : ℕ) (w : World F)
      → p < length w.agents
      → let m = change (same_good h g) n in
        let w' =
          update_agent p (λ (a : Agent F). record a { inventory = add_good g n a.inventory }) w in
        holdings h w' + shortfalls h w + neg_part m ≡ holdings h w + shortfalls h w' + pos_part m
  receive-parts g h n p w hp =
      let f = λ (a : Agent F). record a { inventory = add_good g n a.inventory } in
      let (a, e) = get_elem?-some w.agents p hp in
      let held = total-modify (λ (a : Agent F). pos_part (a.inventory h)) p f w.agents e in
      let short = total-modify (λ (a : Agent F). neg_part (a.inventory h)) p f w.agents e in
      omega (arith, held, short, add_good-parts g h n a.inventory)

  trade_unit-KeepsStock :
      (h g : GoodType) (price buyer seller : ℕ) (w : World F)
      → buyer < length w.agents
      → seller < length w.agents
      → KeepsStock h w (trade_unit g price buyer seller w)
  unfolding trade_unit
  trade_unit-KeepsStock h g price buyer seller w hb hs =
      let paid = credit (purse seller) price (debit (purse buyer) price w) in
      let first = payment-KeepsStock h buyer seller price w in
      let gain = λ (a : Agent F). record a { inventory = add_good g (pos 1) a.inventory } in
      let lose = λ (a : Agent F). record a { inventory = add_good g (negsuc 0) a.inventory } in
      let bought = update_agent buyer gain paid in
      let same = length-modify buyer gain paid.agents in
      let plus = receive-parts g h (pos 1) buyer paid (omega (arith, first.same_agents)) in
      let minus =
        receive-parts g h (negsuc 0) seller bought (omega (arith, first.same_agents, same)) in
      record {
        same_stock = omega (arith, plus, minus, first.same_stock, change-cancels (same_good h g));
        same_agents = length-modify seller lose bought.agents ∙ same ∙ first.same_agents;
      }

  pub HaveAgents-kept :
      (h : GoodType) (w w' : World F) (os : List (Order F))
      → KeepsStock h w w'
      → HaveAgents w os
      → HaveAgents w' os
  HaveAgents-kept h w w' os kept have =
      All-map {P = λ (o : Order F). o.agent < length w.agents}
        {Q = λ (o : Order F). o.agent < length w'.agents} (λ o k. omega (arith, kept.same_agents))
        os have

module _ {F : Type 0} ⦃d : Float F⦄ where
  trade_units-KeepsStock :
      (h : GoodType) (n : ℕ) (g : GoodType) (price buyer seller : ℕ) (m : Matching F)
      → buyer < length m.world.agents
      → seller < length m.world.agents
      → KeepsStock h m.world (trade_units n g price buyer seller m).world
  unfolding trade_units
  trade_units-KeepsStock h zero g price buyer seller m hb hs = KeepsStock-refl h m.world
  trade_units-KeepsStock h (suc n) g price buyer seller m hb hs =
      let first = trade_unit-KeepsStock h g price buyer seller m.world hb hs in
      let next : Matching F = record {
        world = trade_unit g price buyer seller m.world;
        traded = m.traded + 1;
        revenue = d.add m.revenue (d.of_ℕ price);
        remain = m.remain - 1;
      } in
      if_both (λ (r : Matching F). KeepsStock h m.world r.world)
        (ltb 0 price && ltb (balance (purse buyer) m.world) price) (λ _. KeepsStock-refl h m.world)
        (λ _. KeepsStock-trans h first (
          trade_units-KeepsStock h n g price buyer seller next (omega (arith, first.same_agents))
            (omega (arith, first.same_agents))))

  match_pair-KeepsStock :
      (h g : GoodType) (sell buy : Order F) (m : Matching F)
      → buy.agent < length m.world.agents
      → sell.agent < length m.world.agents
      → KeepsStock h m.world (match_pair g sell buy m).world
  unfolding match_pair
  match_pair-KeepsStock h g sell buy m hb hs =
      trade_units-KeepsStock h (if ltb m.remain buy.quantity then m.remain else buy.quantity) g
        (rounded sell.price) buy.agent sell.agent m hb hs

  match_loop-KeepsStock :
      (h g : GoodType) (sells buys : List (Order F)) (m : Matching F)
      → HaveAgents m.world sells
      → HaveAgents m.world buys
      → KeepsStock h m.world (match_loop g sells buys m).world
  unfolding match_loop
  match_loop-KeepsStock h g sells [] m hs hb = KeepsStock-refl h m.world
  match_loop-KeepsStock h g [] (buy ∷ buys) m hs hb = KeepsStock-refl h m.world
  match_loop-KeepsStock h g (sell ∷ sells) (buy ∷ buys) m (hs, hss) (hb, hbs) =
      let first = match_pair-KeepsStock h g sell buy m hb hs in
      let w' = (match_pair g sell buy m).world in
      let held = HaveAgents-kept h m.world w' (sell ∷ sells) first (hs, hss) in
      let wanted = HaveAgents-kept h m.world w' buys first hbs in
      elim (Bool-cases (d.lt buy.price sell.price)) [
        | inl crossed ↦ rw crossed (KeepsStock-refl h m.world)
        | inr open_book ↦ elim (Bool-cases ((match_pair g sell buy m).remain == 0)) [
          | inl e ↦
              rw (open_book, e)
                (KeepsStock-trans h first (match_loop-KeepsStock h g sells buys _ held.1 wanted))
          | inr e ↦
              rw (open_book, e)
                (KeepsStock-trans h first
                  (match_loop-KeepsStock h g (sell ∷ sells) buys _ held wanted))
        ]
      ]

  -- Where all orders are those of agents of the world, the matches for one good make and destroy no
  -- unit of any good: the sum over all agents stays the same.
  pub match_good-KeepsStock :
      (h g : GoodType) (sells buys : List (Order F)) (w : World F)
      → HaveAgents w sells
      → HaveAgents w buys
      → KeepsStock h w (match_good g sells buys w).world
  unfolding match_good
  match_good-KeepsStock h g sells buys w hs hb =
      match_loop-KeepsStock h g _ _ _ (sort_by-All _ _ _ (orders_for-All _ g sells hs))
        (sort_by-All _ _ _ (orders_for-All _ g buys hb))
