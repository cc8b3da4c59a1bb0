-- ===== src/Market/Demand.antt =====
-- What an agent offers and wants on the market: `surplusThreshold`, `demandedGoods` and
-- `crafterRecipeDemand` of internal/engine/market.go.
pub mod Sides
pub mod Recipes
use mini_world.Base.{
  ℕ, Bool, true, false, not, ◌&&◌, Option, none, some, List, [], ◌∷◌, ◌++◌, if◌then◌else◌,
}
use mini_world.Base.Float.{Float}
use mini_world.Base.Int.{ℤ, pos, negsuc, ◌+ℤ◌, ◌-ℤ◌, ltb_ℤ}
use mini_world.Model.Goods.{
  GoodType, grain, timber, iron_ore, fish, herbs, gems, furs, coal, exotics, tools, weapons,
  GoodInventory,
}
use mini_world.Model.Agents.{
  Agent, Occupation, farmer, fisher, crafter, alchemist, scholar, is_occupied,
}
use mini_world.Model.Settlements.{Market, MarketEntry, entry_of}

-- How many of a good an agent keeps before selling.
unfoldable pub surplus_threshold : Occupation → GoodType → ℕ
surplus_threshold o grain =
    if is_occupied o farmer then 3 else if is_occupied o fisher then 3 else 2
surplus_threshold o fish = if is_occupied o farmer then 3 else if is_occupied o fisher then 3 else 2
surplus_threshold o iron_ore = if is_occupied o crafter then 5 else 1
surplus_threshold o timber = if is_occupied o crafter then 5 else 1
surplus_threshold o herbs = if is_occupied o alchemist then 4 else 1
surplus_threshold o tools = 1
surplus_threshold o weapons = 1
surplus_threshold o _ = 1

-- `qty - surplusThreshold(a, good)`
unfoldable pub surplus : Occupation → GoodInventory → GoodType → ℤ
surplus o inv g = inv g -ℤ pos (surplus_threshold o g)

pub record Recipe : Type 0 where
  pub mat1 : GoodType
  pub need1 : ℕ
  pub mat2 : GoodType
  pub need2 : ℕ

abbrev recipe : GoodType → ℕ → GoodType → ℕ → Recipe
recipe a n b m = record { mat1 = a; need1 = n; mat2 = b; need2 = m }

abbrev pub tools_recipe : Recipe
tools_recipe = recipe iron_ore 2 timber 1

abbrev pub recipes : List Recipe
recipes =
    tools_recipe ∷ recipe iron_ore 2 coal 1 ∷ recipe furs 2 tools 1 ∷ recipe gems 2 tools 1 ∷ []

-- What the agent has of a material, counted up to the need.
abbrev pub have : GoodInventory → GoodType → ℕ → ℤ
have inv g need = if ltb_ℤ (pos need) (inv g) then pos need else inv g

unfoldable pub score : GoodInventory → Recipe → ℤ
score inv r = have inv r.mat1 r.need1 +ℤ have inv r.mat2 r.need2

-- The loop that keeps the first recipe with the best score.
unfoldable pub best_recipe : GoodInventory → List Recipe → ℤ → Recipe → Recipe
best_recipe inv [] best_score best = best
best_recipe inv (r ∷ rs) best_score best =
    let better = ltb_ℤ best_score (score inv r) in
    best_recipe inv rs (if better then score inv r else best_score) (if better then r else best)

-- One material of a recipe, if the agent has less than it needs.
abbrev pub lacking : GoodInventory → GoodType → ℕ → List GoodType
lacking inv g need = if ltb_ℤ (inv g) (pos need) then g ∷ [] else []

unfoldable pub crafter_recipe_demand : GoodInventory → List GoodType
unfolding best_recipe
crafter_recipe_demand inv =
    let r = best_recipe inv recipes (negsuc 0) tools_recipe in
    lacking inv r.mat1 r.need1 ++ lacking inv r.mat2 r.need2

abbrev pub occupation_demand : Occupation → GoodInventory → List GoodType
occupation_demand crafter inv = crafter_recipe_demand inv
occupation_demand alchemist inv = lacking inv herbs 2 ++ lacking inv exotics 2
occupation_demand scholar inv = lacking inv herbs 1
occupation_demand _ inv = []

module _ {F : Type 0} ⦃d : Float F⦄ where
  -- `ge.Price > ge.BasePrice*3`, false where the market has no such entry.
  abbrev pub is_expensive : GoodType → Option (Market F) → Bool
  is_expensive g none = false
  is_expensive g (some m) = elim (entry_of g m.entries) [
    | none ↦ false
    | some e ↦ d.lt (d.mul e.base_price (d.lit 3 0)) e.price
  ]

  unfoldable pub food_demand : GoodInventory → Option (Market F) → List GoodType
  food_demand inv market =
      let grain_expensive = is_expensive grain market in
      let fish_expensive = is_expensive fish market in
      if ltb_ℤ (inv grain +ℤ inv fish) (pos 3)
      then if grain_expensive && not fish_expensive
        then fish ∷ []
        else if fish_expensive && not grain_expensive
        then grain ∷ []
        else grain ∷ fish ∷ []
      else []

  -- `demandedGoods`
  unfoldable pub demanded_goods : Agent F → Option (Market F) → List GoodType
  unfolding food_demand
  demanded_goods a market =
      food_demand a.inventory market
      ++ (occupation_demand a.occupation a.inventory ++ lacking a.inventory tools 1)
