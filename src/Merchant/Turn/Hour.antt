-- ===== src/Merchant/Turn/Hour.antt =====
-- The hour of the merchants of a settlement, put together from its parts.
use mini_world.Merchant.Turn.Journey.{seek-NoMint}
use mini_world.Merchant.Purchase.Crowns.{repay-Conserves}
use mini_world.Ledger.Moves.{Conserves-refl, update_agent-Conserves, Conserves-trans, Holds-mono}
use mini_world.Ledger.Loops.{AreAgents, AreAgents-mono}
use mini_world.Merchant.Turn.Crowns.{NoMint, of_Conserves, NoMint-refl, NoMint-trans}
use mini_world.Base.Maps.{Meets}
use mini_world.Merchant.Sale.Crowns.{FeeFits, sell_merchant_cargo-Conserves}
use mini_world.Merchant.Seek.{Outlook}
use mini_world.Merchant.Turn.{
  Settlement, Agent, merchant_turn, merchant_turns, act, turn_found, is_empty, is_occupied,
  Occupation,
}
use mini_world.Merchant.Purchase.{arrive, sell_there, sell_at_place, travel, unload, repay}
use mini_world.Ledger.{World, Holds, crowns, SameShape, treasury, Conserves, purse}
use mini_world.Base.{
  ℕ, ◌<◌, ◌^◌, refl, sym, subst, inl, inr, not, ◌||◌, Option, none, some, List, [], ◌∷◌, arith, ltb,
  Option-cases, length, get_elem?, if_both,
}
use mini_world.Base.Float.{Float}

module _ {F : Type 0} ⦃d : Float F⦄ where
  -- The index leads to settlements of the world.
  abbrev pub IsIndex : (ℕ → Option ℕ) → World F → Type 0
  IsIndex sett_index w = (id : ℕ) → Meets (λ at. at < length w.settlements) (sett_index id)

  sell_there-Conserves :
      FeeFits F d
      → (sett_agents : ℕ → List ℕ) (p at : ℕ) (found : Option (Settlement F)) (w : World F)
      → p < length w.agents
      → ((id : ℕ) → AreAgents w (sett_agents id))
      → Holds w (treasury at)
      → crowns w < 2 ^ 64
      → Conserves w (sell_there sett_agents p at found w).0
  sell_there-Conserves small sett_agents p at none w hp h ht fits = Conserves-refl w
  sell_there-Conserves small sett_agents p at (some s) w hp h ht fits =
      elim (Option-cases s.market) [
        | inl gone ↦ rw gone (Conserves-refl w)
        | inr (m, e) ↦
            rw e
              (sell_merchant_cargo-Conserves small p at (sett_agents s.id) m w hp (h s.id) ht fits)
      ]

  sell_at_place-Conserves :
      FeeFits F d
      → (sett_agents : ℕ → List ℕ) (p : ℕ) (place : Option ℕ) (w : World F) → p < length w.agents
      → ((id : ℕ) → AreAgents w (sett_agents id))
      → Meets (λ at. at < length w.settlements) place
      → crowns w < 2 ^ 64
      → Conserves w (sell_at_place sett_agents p place w).0
  sell_at_place-Conserves small sett_agents p none w hp h ht fits = Conserves-refl w
  sell_at_place-Conserves small sett_agents p (some at) w hp h ht fits =
      sell_there-Conserves small sett_agents p at (get_elem? w.settlements at) w hp h ht fits

  arrive-Conserves :
      FeeFits F d
      → (sett_index : ℕ → Option ℕ) (sett_agents : ℕ → List ℕ) (p home dest : ℕ) (w : World F)
      → p < length w.agents
      → ((id : ℕ) → AreAgents w (sett_agents id))
      → IsIndex sett_index w
      → Holds w (treasury home)
      → crowns w < 2 ^ 64
      → Conserves w (arrive sett_index sett_agents p home dest w).0
  unfolding arrive
  arrive-Conserves small sett_index sett_agents p home dest w hp h index ht fits =
      let sold = (sell_at_place sett_agents p (sett_index dest) w).0 in
      let first =
        sell_at_place-Conserves small sett_agents p (sett_index dest) w hp h (index dest) fits in
      Conserves-trans first (
        Conserves-trans
          (repay-Conserves p home sold (Holds-mono w sold (purse p) first.same_shape hp)
            (Holds-mono w sold (treasury home) first.same_shape ht)
            (omega (arith, first.same_crowns)))
          (update_agent-Conserves p unload (repay p home sold) (λ a. refl)))

module _ {F : Type 0} ⦃d : Float F⦄ (small : FeeFits F d) (sett_index : ℕ → Option ℕ)
    (sett_agents : ℕ → List ℕ) (o : Outlook F) (tick home : ℕ) (neighbors : List ℕ)
    (s : Settlement F) where
  act-NoMint :
      (p : ℕ) (a : Agent F) (dest : Option ℕ) (w : World F)
      → p < length w.agents
      → ((id : ℕ) → AreAgents w (sett_agents id))
      → IsIndex sett_index w
      → Holds w (treasury home)
      → crowns w < 2 ^ 64
      → NoMint w (act sett_index sett_agents o tick p home neighbors s a dest w).0
  act-NoMint p a none w hp h index ht fits =
      if_both (λ (r : World F × Option ℕ). NoMint w r.0) (ltb a.wealth 20) (λ _. NoMint-refl w)
        (λ _. seek-NoMint o tick p home neighbors s a w hp ht fits)
  act-NoMint p a (some dest) w hp h index ht fits =
      let P = λ (r : World F × Option ℕ). NoMint w r.0 in
      if_both P (not (is_empty a.trade_cargo))
        (λ _.
          of_Conserves
            (arrive-Conserves small sett_index sett_agents p home dest w hp h index ht fits))
        (λ _.
          if_both P (ltb a.wealth 20) (λ _. NoMint-refl w)
            (λ _. seek-NoMint o tick p home neighbors s a w hp ht fits))

  turn_found-NoMint :
      (p : ℕ) (found : Option (Agent F)) (w : World F) (trades : List (ℕ × ℕ))
      → p < length w.agents
      → ((id : ℕ) → AreAgents w (sett_agents id))
      → IsIndex sett_index w
      → Holds w (treasury home)
      → crowns w < 2 ^ 64
      → NoMint w (turn_found sett_index sett_agents o tick p home neighbors s found (w, trades)).0
  unfolding merchant_turn
  turn_found-NoMint p none w trades hp h index ht fits = NoMint-refl w
  turn_found-NoMint p (some a) w trades hp h index ht fits =
      let P = λ (r : World F × Option ℕ). NoMint w r.0 in
      if_both P (not a.alive || not (is_occupied a.occupation Occupation.merchant))
        (λ _. NoMint-refl w)
        (λ _.
          if_both P (ltb 0 a.travel_ticks_left)
            (λ _. of_Conserves (update_agent-Conserves p travel w (λ b. refl)))
            (λ _. act-NoMint p a a.trade_dest_sett w hp h index ht fits))

  IsIndex-mono : (w w' : World F) → SameShape w w' → IsIndex sett_index w → IsIndex sett_index w'
  IsIndex-mono w w' same index id =
      subst (λ n. Meets (λ at. at < n) (sett_index id)) (sym same.same_settlements) (index id)

  pub merchant_turns-NoMint :
      (ps : List ℕ) (w : World F) (trades : List (ℕ × ℕ))
      → AreAgents w ps
      → ((id : ℕ) → AreAgents w (sett_agents id))
      → IsIndex sett_index w
      → Holds w (treasury home)
      → crowns w < 2 ^ 64
      → NoMint w (merchant_turns sett_index sett_agents o tick home neighbors s ps (w, trades)).0
  unfolding merchant_turns
  merchant_turns-NoMint [] w trades hps h index ht fits = NoMint-refl w
  merchant_turns-NoMint (p ∷ ps) w trades (hp, hps) h index ht fits =
      let r =
        turn_found sett_index sett_agents o tick p home neighbors s (get_elem? w.agents p)
          (w, trades) in
      let first = turn_found-NoMint p (get_elem? w.agents p) w trades hp h index ht fits in
      let same = first.same_shape in
      NoMint-trans first (
        merchant_turns-NoMint ps r.0 r.1 (AreAgents-mono w r.0 ps same hps)
          (λ id. AreAgents-mono w r.0 (sett_agents id) same (h id)) (IsIndex-mono w r.0 same index)
          (Holds-mono w r.0 (treasury home) same ht) (omega (arith, first.no_more)))
