-- ===== src/Market/Matching.antt =====
-- The matching of sell and buy orders for one good in `resolveSettlementMarket` of
-- internal/engine/market.go. `sort.Slice` is an insertion sort here: one of the orders that it may give.
pub mod Crowns
pub mod Stock
use mini_world.Ledger.{World, update_agent, credit, purse, debit, balance}
use mini_world.Model.Goods.{GoodType, same_good, add_good}
use mini_world.Base.{
  ℕ, zero, suc, ◌+◌, ◌-◌, ◌*◌, ◌≤◌, ◌<◌, ◌^◌, ◌≡◌, refl, sym, ap, subst, ◌∙◌, ◌≢◌, ◌⊎◌, inl, inr,
  Bool, true, false, not, ◌&&◌, ◌||◌, Option, none, some, List, [], ◌∷◌, ◌++◌, arith, ltb, leb,
  ◌==◌, if◌then◌else◌, tests, Bool-cases, Option-cases, length, get_elem?, modify, All, Any, total,
}
use mini_world.Base.Float.{Float, rounded}
use mini_world.Base.Int.{pos, negsuc}

pub record Order (F : Type 0) : Type 0 where
  pub agent : ℕ
  pub good : GoodType
  pub quantity : ℕ
  pub price : F
  pub is_sell : Bool

-- What the loop carries: the world, the units traded, the revenue, and what remains of the sell order.
pub record Matching (F : Type 0) : Type 0 where
  pub world : World F
  pub traded : ℕ
  pub revenue : F
  pub remain : ℕ

module _ {F : Type 0} where
  -- Of the orders for one good, in their order.
  unfoldable pub orders_for : GoodType → List (Order F) → List (Order F)
  orders_for g [] = []
  orders_for g (o ∷ os) = if same_good o.good g then o ∷ orders_for g os else orders_for g os

  insert_by : (Order F → Order F → Bool) → Order F → List (Order F) → List (Order F)
  insert_by less o [] = o ∷ []
  insert_by less o (p ∷ ps) = if less p o then p ∷ insert_by less o ps else o ∷ p ∷ ps

  unfoldable pub sort_by : (Order F → Order F → Bool) → List (Order F) → List (Order F)
  unfolding insert_by
  sort_by less [] = []
  sort_by less (o ∷ os) = insert_by less o (sort_by less os)

  abbrev pub first_quantity : List (Order F) → ℕ
  first_quantity [] = 0
  first_quantity (o ∷ os) = o.quantity

  -- One unit changes hands: `buyer.Wealth -= clearCrowns` up to `seller.Inventory[good]--`.
  unfoldable pub trade_unit : GoodType → ℕ → ℕ → ℕ → World F → World F
  trade_unit g price buyer seller w =
      update_agent seller (λ a. record a { inventory = add_good g (negsuc 0) a.inventory })
        (update_agent buyer (λ a. record a { inventory = add_good g (pos 1) a.inventory })
          (credit (purse seller) price (debit (purse buyer) price w)))

module _ {F : Type 0} ⦃d : Float F⦄ where
  -- The loop over the units of one match, which stops at a buyer that cannot pay.
  unfoldable pub trade_units : ℕ → GoodType → ℕ → ℕ → ℕ → Matching F → Matching F
  trade_units zero g price buyer seller m = m
  trade_units (suc n) g price buyer seller m =
      let rest = trade_units n g price buyer seller (record {
        world = trade_unit g price buyer seller m.world;
        traded = m.traded + 1;
        revenue = d.add m.revenue (d.of_ℕ price);
        remain = m.remain - 1;
      }) in
      if ltb 0 price && ltb (balance (purse buyer) m.world) price then m else rest

  -- One match of the first sell order with the first buy order.
  unfoldable pub match_pair : GoodType → Order F → Order F → Matching F → Matching F
  unfolding trade_units
  match_pair g sell buy m =
      let quantity = if ltb m.remain buy.quantity then m.remain else buy.quantity in
      trade_units quantity g (rounded sell.price) buy.agent sell.agent m

  -- The loop over the orders, which ends when a list does or the prices cross.
  unfoldable pub match_loop : GoodType → List (Order F) → List (Order F) → Matching F → Matching F
  unfolding match_pair
  match_loop g sells [] m = m
  match_loop g [] (buy ∷ buys) m = m
  match_loop g (sell ∷ sells) (buy ∷ buys) m =
      let m' = match_pair g sell buy m in
      let exhausted = m'.remain == 0 in
      let rest =
        match_loop g (if exhausted then sells else sell ∷ sells) buys
          (if exhausted then record m' { remain = first_quantity sells } else m') in
      if d.lt buy.price sell.price then m else rest

  -- All matches for one good: both sides filtered and sorted, then the loop.
  unfoldable pub match_good : GoodType → List (Order F) → List (Order F) → World F → Matching F
  unfolding orders_for sort_by match_loop
  match_good g sell_orders buy_orders w =
      let sells = sort_by (λ a b. d.lt a.price b.price) (orders_for g sell_orders) in
      let buys = sort_by (λ a b. d.lt b.price a.price) (orders_for g buy_orders) in
      match_loop g sells buys
        (record { world = w; traded = 0; revenue = d.lit 0 0; remain = first_quantity sells })
