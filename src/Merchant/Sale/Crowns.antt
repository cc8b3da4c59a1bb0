-- ===== src/Merchant/Sale/Crowns.antt =====
-- A sale moves crowns from the treasury or from a buyer to the merchant and the market fee.
use mini_world.Memories.Bound.{wealth-add_memory}
use mini_world.Merchant.Commission.Crowns.{tier2_commission-Conserves}
use mini_world.Base.Word.{sub64_exact, sub64}
use mini_world.Ledger.Moves.{
  Conserves-refl, balance-le-crowns, payment-Conserves, Conserves-trans, Holds-mono,
  debit-SameShape, crowns-debit, SameShape-trans, credit-SameShape, crowns-credit,
  update_agent-Conserves,
}
use mini_world.Ledger.Loops.{AreAgents, AreAgents-mono}
use mini_world.Base.Maps.{Meets}
use mini_world.Ledger.{
  World, balance, Holds, Conserves, treasury, purse, crowns, debit, credit, wealth_of, update_agent,
}
use mini_world.Merchant.Sale.{
  unit_price, market_fee, find_direct_buyer, sell_unit, sell_units, GoodType, sell_direct, buys,
  Agent, ℤ, sell_goods, remember_sale, sell_merchant_cargo, MarketEntry, GoodInventory, Market,
  sell_good, cargo_of, pos_part, entry_of, all_goods, name_of, accomplished, String, words,
  describe, number, is_tier2,
}
use mini_world.Base.{
  ℕ, zero, suc, ◌≤◌, ◌<◌, ◌^◌, ◌≡◌, refl, subst, inl, inr, true, Option, none, some, List, [], ◌∷◌,
  ◌++◌, arith, ltb, leb, if◌then◌else◌, tests, Option-cases, length, get_elem?, if_both,
}
use mini_world.Base.Float.{Float, agnosis, lit32}

-- A tenth of a share of a price is at most the price.
abbrev pub FeeFits : (F : Type 0) → Float F → Type 0
FeeFits F d = (n : ℕ) → d.trunc (d.mul (d.mul (d.of_ℕ n) (agnosis {F = F} ⦃d = d⦄)) (d.lit 1 1)) ≤ n

market_fee-le :
    {F : Type 0} (d : Float F)
    → FeeFits F d
    → (price : ℕ) → 1 ≤ price
    → market_fee ⦃d = d⦄ (d.lit 1 1) price ≤ price
unfolding market_fee
market_fee-le d small price h = let low = small price in ground arith

module _ {F : Type 0} ⦃d : Float F⦄ where
  unit_price-positive : (price : F) → 1 ≤ unit_price price
  unfolding unit_price
  unit_price-positive price = ground arith

  buys-CanPay :
      (good : GoodType) (price : ℕ) (found : Option (Agent F))
      → buys good price found ≡ true
      → price ≤ wealth_of found
  buys-CanPay good price none e = cc
  buys-CanPay good price (some b) e = ground arith

  -- The buyer that is found is an agent who can pay the price.
  find_direct_buyer-CanPay :
      (good : GoodType) (price : ℕ) (w : World F) (ps : List ℕ)
      → AreAgents w ps
      → Meets
          (λ b. (b < length w.agents) × (price ≤ balance (purse b) w))
          (find_direct_buyer good price w ps)
  unfolding find_direct_buyer balance
  find_direct_buyer-CanPay good price w [] h = tt
  find_direct_buyer-CanPay good price w (p ∷ ps) (hp, hps) =
      let P = Meets (λ b. (b < length w.agents) × (price ≤ balance (purse b) w)) in
      if_both P (buys good price (get_elem? w.agents p))
        (λ e. (hp, buys-CanPay good price (get_elem? w.agents p) e))
        (λ _. find_direct_buyer-CanPay good price w ps hps)

  abbrev Sold : World F → Option (World F × ℕ) → Type 0
  Sold w = Meets (λ (s : World F × ℕ). Conserves w s.0)

  sell_direct-Conserves :
      FeeFits F d
      → (p at price : ℕ) (found : Option ℕ) (w : World F) (revenue : ℕ) → 1 ≤ price
      → p < length w.agents
      → Holds w (treasury at)
      → crowns w < 2 ^ 64
      → Meets (λ b. (b < length w.agents) × (price ≤ balance (purse b) w)) found
      → Sold w (sell_direct p at price found (w, revenue))
  sell_direct-Conserves small p at price none w revenue h1 hp ht fits h = tt
  sell_direct-Conserves small p at price (some b) w revenue h1 hp ht fits (hb, covered) =
      let fee = market_fee (d.lit 1 1) price in
      let low = market_fee-le d small price h1 in
      let le = balance-le-crowns (purse b) w hb in
      let exact = sub64_exact price fee low (omega arith) in
      let shape = debit-SameShape (purse b) price w in
      let paid = debit (purse b) price w in
      let down = crowns-debit (purse b) price w hb covered fits in
      let shape' = SameShape-trans shape (credit-SameShape (purse p) (sub64 price fee) paid) in
      let up =
        crowns-credit (purse p) (sub64 price fee) paid (Holds-mono w paid (purse p) shape hp)
          (omega arith) in
      let mid = credit (purse p) (sub64 price fee) paid in
      let up' =
        crowns-credit (treasury at) fee mid (Holds-mono w mid (treasury at) shape' ht)
          (omega arith) in
      record {
        same_crowns = omega arith;
        same_shape = SameShape-trans shape' (credit-SameShape (treasury at) fee mid);
      }

  sell_unit-Conserves :
      FeeFits F d
      → (p at : ℕ) (good : GoodType) (price : ℕ) (ps : List ℕ) (w : World F) (revenue : ℕ)
      → 1 ≤ price
      → p < length w.agents
      → AreAgents w ps
      → Holds w (treasury at)
      → crowns w < 2 ^ 64
      → Sold w (sell_unit p at good price ps (w, revenue))
  unfolding sell_unit
  sell_unit-Conserves small p at good price ps w revenue h1 hp h ht fits =
      if_both (Sold w) (leb price (balance (treasury at) w))
        (λ covered.
          payment-Conserves (treasury at) (purse p) price w ht hp (omega (tests, covered)) fits)
        (λ _.
          sell_direct-Conserves small p at price (find_direct_buyer good price w ps) w revenue h1 hp
            ht fits (find_direct_buyer-CanPay good price w ps h))

  sell_units-Conserves :
      FeeFits F d
      → (p at : ℕ) (good : GoodType) (price : ℕ) (ps : List ℕ) (n : ℕ) (w : World F) (revenue : ℕ)
      → 1 ≤ price
      → p < length w.agents
      → AreAgents w ps
      → Holds w (treasury at)
      → crowns w < 2 ^ 64
      → Conserves w (sell_units p at good price ps n (w, revenue)).0
  unfolding sell_units
  sell_units-Conserves small p at good price ps zero w revenue h1 hp h ht fits = Conserves-refl w
  sell_units-Conserves small p at good price ps (suc n) w revenue h1 hp h ht fits =
      let sold = sell_unit-Conserves small p at good price ps w revenue h1 hp h ht fits in
      elim (Option-cases (sell_unit p at good price ps (w, revenue))) [
        | inl gone ↦ rw (gone, sell_units) (Conserves-refl w)
        | inr (s, e) ↦
            let first : Conserves w s.0 = subst (Sold w) e sold in
            rw (e, sell_units)
              (Conserves-trans first (
                sell_units-Conserves small p at good price ps n s.0 s.1 h1
                  (Holds-mono w s.0 (purse p) first.same_shape hp)
                  (AreAgents-mono w s.0 ps first.same_shape h)
                  (Holds-mono w s.0 (treasury at) first.same_shape ht)
                  (omega (arith, first.same_crowns))))
      ]

  sell_good-Conserves :
      FeeFits F d
      → (p at : ℕ) (ps : List ℕ) (qty : ℤ) (good : GoodType) (found : Option (MarketEntry F))
        (w : World F) (revenue : ℕ)
      → p < length w.agents
      → AreAgents w ps
      → Holds w (treasury at)
      → crowns w < 2 ^ 64
      → Conserves w (sell_good p at ps qty good found (w, revenue)).0
  sell_good-Conserves small p at ps qty good none w revenue hp h ht fits = Conserves-refl w
  sell_good-Conserves small p at ps qty good (some e) w revenue hp h ht fits =
      sell_units-Conserves small p at good (unit_price e.price) ps (pos_part qty) w revenue
        (unit_price-positive e.price) hp h ht fits

  sell_goods-Conserves :
      FeeFits F d
      → (p at : ℕ) (ps : List ℕ) (cargo : GoodInventory) (m : Market F) (gs : List GoodType)
        (w : World F) (revenue : ℕ)
      → p < length w.agents
      → AreAgents w ps
      → Holds w (treasury at)
      → crowns w < 2 ^ 64
      → Conserves w (sell_goods p at ps cargo m gs (w, revenue)).0
  unfolding sell_goods
  sell_goods-Conserves small p at ps cargo m [] w revenue hp h ht fits = Conserves-refl w
  sell_goods-Conserves small p at ps cargo m (g ∷ gs) w revenue hp h ht fits =
      let s = sell_good p at ps (cargo g) g (entry_of g m.entries) (w, revenue) in
      let first =
        sell_good-Conserves small p at ps (cargo g) g (entry_of g m.entries) w revenue hp h ht
          fits in
      Conserves-trans first (
        sell_goods-Conserves small p at ps cargo m gs s.0 s.1
          (Holds-mono w s.0 (purse p) first.same_shape hp)
          (AreAgents-mono w s.0 ps first.same_shape h)
          (Holds-mono w s.0 (treasury at) first.same_shape ht) (omega (arith, first.same_crowns)))

  wealth-remember_sale :
      (name : String) (revenue : ℕ) (a : Agent F) → (remember_sale name revenue a).wealth ≡ a.wealth
  unfolding remember_sale
  wealth-remember_sale name revenue a =
      let importance = if ltb revenue a.consignment_debt then lit32 7 1 else lit32 6 1 in
      let content =
        words "Completed trade to "
        ∷ words name
        ∷ words ": sold "
        ∷ (describe a.trade_cargo all_goods
            ++ words "for " ∷ number revenue ∷ words " crowns" ∷ []) in
      if_both (λ (b : Agent F). b.wealth ≡ a.wealth) (is_tier2 a.tier)
        (λ _. wealth-add_memory 0 content importance a) (λ _. refl)

  -- Where all pointers are valid, the fee before rounding is at most the price and the crowns of
  -- the world are fewer than 2^64, the sale of a cargo, to the treasury or to direct buyers, with
  -- the market fee and the commissions, makes and destroys no crown.
  pub sell_merchant_cargo-Conserves :
      FeeFits F d
      → (p at : ℕ) (ps : List ℕ) (m : Market F) (w : World F) → p < length w.agents
      → AreAgents w ps
      → Holds w (treasury at)
      → crowns w < 2 ^ 64
      → Conserves w (sell_merchant_cargo p at ps m w)
  unfolding sell_merchant_cargo
  sell_merchant_cargo-Conserves small p at ps m w hp h ht fits =
      let cargo = cargo_of (get_elem? w.agents p) in
      let s = sell_goods p at ps cargo m all_goods (w, 0) in
      let sold = sell_goods-Conserves small p at ps cargo m all_goods w 0 hp h ht fits in
      let name = name_of (get_elem? w.settlements at) in
      let proud = update_agent p accomplished s.0 in
      let told = update_agent p (remember_sale name s.1) proud in
      let all = Conserves-trans sold (
        Conserves-trans (update_agent-Conserves p accomplished s.0 (λ a. refl)) (
          update_agent-Conserves p (remember_sale name s.1) proud
            (wealth-remember_sale name s.1))) in
      if_both (Conserves w) (ltb 0 s.1)
        (λ _. Conserves-trans all (
          tier2_commission-Conserves p s.1 ps told (Holds-mono w told (purse p) all.same_shape hp)
            (AreAgents-mono w told ps all.same_shape h) (omega (arith, all.same_crowns))))
        (λ _. sold)
