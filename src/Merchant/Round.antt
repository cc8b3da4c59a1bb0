-- ===== src/Merchant/Round.antt =====
-- `resolveMerchantTrade` of internal/engine/market.go: the merchants of all settlements, one after the
-- other. The trades between settlements are counted in a list, for RecordInterSettlementTrade.
pub mod Crowns
use mini_world.Merchant.Turn.{merchant_turns}
use mini_world.Merchant.Seek.{Outlook}
use mini_world.Ledger.{World}
use mini_world.Model.Settlements.{Settlement, Entries, Market}
use mini_world.Base.{
  ℕ, zero, suc, ◌+◌, ◌-◌, ◌*◌, ◌≤◌, ◌<◌, ◌^◌, ◌≡◌, refl, sym, ap, subst, ◌∙◌, ◌≢◌, ◌⊎◌, inl, inr,
  Bool, true, false, not, ◌&&◌, ◌||◌, Option, none, some, List, [], ◌∷◌, ◌++◌, arith, ltb, leb,
  ◌==◌, if◌then◌else◌, tests, Bool-cases, Option-cases, length, get_elem?, modify, All, Any, total,
}
use mini_world.Relations.{Key-Pair, Pair, record_trade}
use mini_world.Base.Float.{Float, being}

-- What the index of the simulation holds of each settlement, by its ID.
pub record Nearby : Type 0 where
  pub sett_agents : ℕ → List ℕ
  pub trade_neighbors : ℕ → List ℕ
  pub wide_neighbors : ℕ → List ℕ
  pub sett_index : ℕ → Option ℕ

module _ {F : Type 0} where
  abbrev pub has_market : Option (Settlement F) → Bool
  has_market none = false
  has_market (some s) = elim s.market [ none ↦ false | some m ↦ true ]

  unfoldable pub with_market : World F → List ℕ → List ℕ
  with_market w [] = []
  with_market w (at ∷ rest) =
      let others = with_market w rest in
      if has_market (get_elem? w.settlements at) then at ∷ others else others

module _ {F : Type 0} ⦃d : Float F⦄ where
  unfoldable pub has_surplus : F → Entries F → Bool
  has_surplus pop_threshold [] = false
  has_surplus pop_threshold ((g, e) ∷ es) =
      (d.lt pop_threshold e.supply && d.lt (d.lit 100 0) e.supply) || has_surplus pop_threshold es

  -- The neighbours that are scouted: the wide ones where there is a surplus.
  unfoldable pub scouted : Nearby → Settlement F → Market F → World F → List ℕ
  scouted near s m w =
      if has_surplus (d.mul (d.of_ℕ s.population) being) m.entries
      then with_market w (near.wide_neighbors s.id)
      else near.trade_neighbors s.id

  abbrev pub trade_from :
      Nearby
      → Outlook F
      → ℕ
      → ℕ
      → Settlement F
      → List ℕ
      → World F × List (ℕ × ℕ)
      → World F × List (ℕ × ℕ)
  trade_from near o tick at s [] r = r
  trade_from near o tick at s (n ∷ ns) r =
      merchant_turns near.sett_index near.sett_agents o tick at (n ∷ ns) s (near.sett_agents s.id) r

  abbrev pub trade_found :
      Nearby
      → Outlook F
      → ℕ
      → ℕ
      → Settlement F
      → Option (Market F)
      → World F × List (ℕ × ℕ)
      → World F × List (ℕ × ℕ)
  trade_found near o tick at s none r = r
  trade_found near o tick at s (some m) (w, trades) =
      trade_from near o tick at s (scouted near s m w) (w, trades)

  abbrev pub trade_at :
      Nearby
      → Outlook F
      → ℕ
      → ℕ
      → Option (Settlement F)
      → World F × List (ℕ × ℕ)
      → World F × List (ℕ × ℕ)
  trade_at near o tick at none r = r
  trade_at near o tick at (some s) r = trade_found near o tick at s s.market r

  -- The loop over the settlements.
  unfoldable pub trade_round :
      Nearby → Outlook F → ℕ → List ℕ → World F × List (ℕ × ℕ) → World F × List (ℕ × ℕ)
  trade_round near o tick [] (w, trades) = (w, trades)
  trade_round near o tick (at ∷ rest) (w, trades) =
      trade_round near o tick rest
        (trade_at near o tick at (get_elem? w.settlements at) (w, trades))

  abbrev pub record_trades_of : List (ℕ × ℕ) → List (Pair × F) → List (Pair × F)
  record_trades_of [] tracker = tracker
  record_trades_of ((home, dest) ∷ ts) tracker =
      record_trades_of ts (record_trade home dest tracker)

  -- `resolveMerchantTrade`, on the world and the tracker of the trades between settlements.
  unfoldable pub resolve_merchant_trade :
      Nearby → Outlook F → ℕ → List ℕ → World F × List (Pair × F) → World F × List (Pair × F)
  resolve_merchant_trade near o tick places (w, tracker) =
      let (w', trades) = trade_round near o tick places (w, []) in
      (w', record_trades_of trades tracker)
