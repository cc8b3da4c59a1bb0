-- ===== src/Merchant/Round/Crowns.antt =====
-- The trade of an hour makes no crown.
use mini_world.Merchant.Turn.Crowns.{NoMint, NoMint-refl, NoMint-trans}
use mini_world.Base.Maps.{Meets}
use mini_world.Merchant.Turn.Hour.{IsIndex, merchant_turns-NoMint}
use mini_world.Ledger.{SameShape, Holds, treasury, crowns}
use mini_world.Ledger.Loops.{AreAgents, AreSettlements, AreAgents-mono, AreSettlements-mono}
use mini_world.Merchant.Round.{
  Nearby, Outlook, World, Settlement, trade_round, resolve_merchant_trade, Market, Pair, trade_from,
  trade_found, trade_at, scouted,
}
use mini_world.Merchant.Sale.Crowns.{FeeFits}
use mini_world.Base.{ℕ, ◌<◌, ◌^◌, sym, subst, Option, none, some, List, [], ◌∷◌, arith, get_elem?}
use mini_world.Base.Float.{Float}

module _ {F : Type 0} ⦃d : Float F⦄ (small : FeeFits F d) (near : Nearby) (o : Outlook F)
    (tick : ℕ) where
  -- What the index says of the world: its pointers are to agents and settlements.
  pub record IsSound (w : World F) : Type 0 where
    pub agents_there : (id : ℕ) → AreAgents w (near.sett_agents id)
    pub index_there : IsIndex near.sett_index w

  IsSound-mono : (w w' : World F) → SameShape w w' → IsSound w → IsSound w'
  IsSound-mono w w' same h = record {
    agents_there = λ id. AreAgents-mono w w' (near.sett_agents id) same (h.agents_there id);
    index_there = λ id.
        subst (λ n. Meets (λ at. at < n) (near.sett_index id)) (sym same.same_settlements)
          (h.index_there id);
  }

  trade_from-NoMint :
      (at : ℕ) (s : Settlement F) (ns : List ℕ) (w : World F) (trades : List (ℕ × ℕ))
      → IsSound w
      → Holds w (treasury at)
      → crowns w < 2 ^ 64
      → NoMint w (trade_from near o tick at s ns (w, trades)).0
  trade_from-NoMint at s [] w trades h ht fits = NoMint-refl w
  trade_from-NoMint at s (n ∷ ns) w trades h ht fits =
      merchant_turns-NoMint small near.sett_index near.sett_agents o tick at (n ∷ ns) s
        (near.sett_agents s.id) w trades (h.agents_there s.id) h.agents_there h.index_there ht fits

  trade_found-NoMint :
      (at : ℕ) (s : Settlement F) (m : Option (Market F)) (w : World F) (trades : List (ℕ × ℕ))
      → IsSound w
      → Holds w (treasury at)
      → crowns w < 2 ^ 64
      → NoMint w (trade_found near o tick at s m (w, trades)).0
  trade_found-NoMint at s none w trades h ht fits = NoMint-refl w
  trade_found-NoMint at s (some m) w trades h ht fits =
      trade_from-NoMint at s (scouted near s m w) w trades h ht fits

  trade_at-NoMint :
      (at : ℕ) (found : Option (Settlement F)) (w : World F) (trades : List (ℕ × ℕ))
      → IsSound w
      → Holds w (treasury at)
      → crowns w < 2 ^ 64
      → NoMint w (trade_at near o tick at found (w, trades)).0
  trade_at-NoMint at none w trades h ht fits = NoMint-refl w
  trade_at-NoMint at (some s) w trades h ht fits =
      trade_found-NoMint at s s.market w trades h ht fits

  trade_round-NoMint :
      (places : List ℕ) (w : World F) (trades : List (ℕ × ℕ))
      → IsSound w
      → AreSettlements w places
      → crowns w < 2 ^ 64
      → NoMint w (trade_round near o tick places (w, trades)).0
  unfolding trade_round
  trade_round-NoMint [] w trades h hs fits = NoMint-refl w
  trade_round-NoMint (at ∷ rest) w trades h (ht, hs) fits =
      let r = trade_at near o tick at (get_elem? w.settlements at) (w, trades) in
      let first = trade_at-NoMint at (get_elem? w.settlements at) w trades h ht fits in
      let same = first.same_shape in
      NoMint-trans first (
        trade_round-NoMint rest r.0 r.1 (IsSound-mono w r.0 same h)
          (AreSettlements-mono w r.0 rest same hs) (omega (arith, first.no_more)))

  -- Where all pointers and the index lead to agents and settlements of the world, the fee before
  -- rounding is at most the price and the crowns of the world are fewer than 2^64, the hourly
  -- trade of all merchants, with their searches, purchases, provisions, arrivals, sales and
  -- repayments, never makes a crown, and nobody comes or goes.
  pub resolve_merchant_trade-NoMint :
      (places : List ℕ) (w : World F) (tracker : List (Pair × F))
      → IsSound w
      → AreSettlements w places
      → crowns w < 2 ^ 64
      → NoMint w (resolve_merchant_trade near o tick places (w, tracker)).0
  unfolding resolve_merchant_trade
  resolve_merchant_trade-NoMint places w tracker h hs fits =
      trade_round-NoMint places w [] h hs fits
