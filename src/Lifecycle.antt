-- ===== src/Lifecycle.antt =====
-- Death: inheritWealth of internal/engine/simulation.go. The indices of the settlements and of the
-- residents are arguments.
pub mod Sums
pub mod Heirs
pub mod Inheritance
use mini_world.Interventions.{raise_supply, of_ℤ}
use mini_world.Base.Int.{leb_ℤ, pos}
use mini_world.Base.Word.{sub64}
use mini_world.Model.Settlements.{Entries, Settlement}
use mini_world.Treasury.Decay.{home_of}
use mini_world.Model.Goods.{GoodType, GoodInventory, clear, is_empty, all_goods}
use mini_world.Base.Float.{Float}
use mini_world.Ledger.{
  World, credit, update_agent, treasury, purse, set_balance, id_at, update_settlement,
}
use mini_world.Model.Agents.{Agent}
use mini_world.Base.{
  ℕ, zero, suc, ◌+◌, ◌-◌, ◌*◌, ◌≤◌, ◌<◌, ◌^◌, ◌≡◌, refl, sym, ap, subst, ◌∙◌, ◌≢◌, ◌⊎◌, inl, inr,
  Bool, true, false, not, ◌&&◌, ◌||◌, Option, none, some, List, [], ◌∷◌, ◌++◌, arith, ltb, leb,
  ◌==◌, if◌then◌else◌, tests, Bool-cases, Option-cases, length, get_elem?, modify, All, Any, total,
  ◌/◌,
}

module _ {F : Type 0} where
  -- `heir.Alive && heir.ID != a.ID`
  abbrev pub is_heir : ℕ → Option (Agent F) → Bool
  is_heir id none = false
  is_heir id (some a) = a.alive && not (a.id == id)

  -- The loop that stops at the first heir.
  unfoldable pub heir_of : ℕ → World F → List ℕ → Option ℕ
  heir_of id w [] = none
  heir_of id w (p ∷ ps) =
      let rest = heir_of id w ps in if is_heir id (get_elem? w.agents p) then some p else rest

  -- What is left of the share goes to the treasury.
  abbrev pub give_share : ℕ → Option ℕ → ℕ → World F → World F
  give_share at none share w = if ltb 0 share then credit (treasury at) share w else w
  give_share at (some h) share w = credit (purse h) share w

  abbrev pub leave_nothing : ℕ → World F → World F
  leave_nothing p w =
      update_agent p (λ a. record a { inventory = clear a.inventory }) (set_balance (purse p) 0 w)

module _ {F : Type 0} ⦃d : Float F⦄ where
  -- The loop over the inventory.
  unfoldable pub leave_goods : List GoodType → GoodInventory → Entries F → Entries F
  leave_goods [] inv es = es
  leave_goods (g ∷ gs) inv es =
      leave_goods gs inv (if leb_ℤ (inv g) (pos 0) then es else raise_supply g (of_ℤ (inv g)) es)

  abbrev pub stock_market : GoodInventory → Settlement F → Settlement F
  stock_market inv s = elim s.market [
    | none ↦ s
    | some mk ↦ record s {
      market = some (record mk { entries = leave_goods all_goods inv mk.entries });
    }
  ]

  abbrev pub bequeath : (ℕ → List ℕ) → Agent F → Option ℕ → World F → World F
  bequeath sett_agents a none w = w
  bequeath sett_agents a (some at) w =
      let half = a.wealth / 2 in
      let share = sub64 a.wealth half in
      let w1 = credit (treasury at) half w in
      let w2 = give_share at (heir_of a.id w1 (sett_agents (id_at w at))) share w1 in
      update_settlement at (stock_market a.inventory) w2

  abbrev pub inherit_found :
      (ℕ → Option ℕ) → (ℕ → List ℕ) → ℕ → Option (Agent F) → World F → World F
  inherit_found sett_index sett_agents p none w = w
  inherit_found sett_index sett_agents p (some a) w =
      let left = leave_nothing p (bequeath sett_agents a (home_of sett_index a) w) in
      if (a.wealth == 0) && is_empty a.inventory then w else left

  -- `inheritWealth`, of the agent at a place
  unfoldable pub inherit_wealth : (ℕ → Option ℕ) → (ℕ → List ℕ) → ℕ → World F → World F
  unfolding heir_of
  inherit_wealth sett_index sett_agents p w =
      inherit_found sett_index sett_agents p (get_elem? w.agents p) w
