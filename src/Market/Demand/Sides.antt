-- ===== src/Market/Demand/Sides.antt =====
-- An agent never stands on both sides of the market for a good.
use mini_world.Base.{
  true, false, ℕ, ◌+◌, ◌≤◌, inl, inr, arith, Option, List, [], ◌∷◌, All, All-append, Bool-cases,
  tests, Bool, if◌then◌else◌, ◌&&◌, not,
}
use mini_world.Base.Float.{Float}
use mini_world.Base.Int.{ℤ, pos, negsuc, ltb_ℤ, ◌≤ℤ◌, ◌+ℤ◌, int_laws}
use mini_world.Model.Goods.{GoodType, GoodInventory, grain, fish, herbs, exotics, tools}
use mini_world.Model.Agents.{Agent, Occupation, crafter, scholar, alchemist}
use mini_world.Model.Settlements.{Market}
use mini_world.Market.Demand.{
  surplus_threshold, surplus, Recipe, recipes, best_recipe, crafter_recipe_demand, food_demand,
  occupation_demand, demanded_goods, lacking, score, tools_recipe, is_expensive,
}

-- The agent has none of the good to sell.
abbrev pub HasNoSurplus : Occupation → GoodInventory → GoodType → Type 0
HasNoSurplus o inv g = surplus o inv g ≤ℤ pos 0

abbrev pub IsNonneg : GoodInventory → Type 0
IsNonneg inv = (g : GoodType) → pos 0 ≤ℤ inv g

keeps :
    (o : Occupation) (inv : GoodInventory) (g : GoodType)
    → inv g ≤ℤ pos (surplus_threshold o g)
    → HasNoSurplus o inv g
unfolding surplus
keeps o inv g h = omega int_laws

-- A material that is lacking is not on offer, if the need is at most one above the threshold.
lacking-HasNoSurplus :
    (o : Occupation) (inv : GoodInventory) (g : GoodType) (need : ℕ)
    → need ≤ surplus_threshold o g + 1
    → All (HasNoSurplus o inv) (lacking inv g need)
lacking-HasNoSurplus o inv g need h = elim (Bool-cases (ltb_ℤ (inv g) (pos need))) [
  | inl few ↦ rw few (keeps o inv g (omega (tests, few)), tt)
  | inr enough ↦ rw enough tt
]

-- A recipe whose needs a crafter does not hold back more than.
abbrev IsModest : Recipe → Type 0
IsModest r =
    (r.need1 ≤ surplus_threshold crafter r.mat1 + 1)
    × (r.need2 ≤ surplus_threshold crafter r.mat2 + 1)

best_recipe-IsModest :
    (inv : GoodInventory) (rs : List Recipe) (best_score : ℤ) (best : Recipe)
    → IsModest best
    → All IsModest rs
    → IsModest (best_recipe inv rs best_score best)
unfolding best_recipe
best_recipe-IsModest inv [] best_score best h hs = h
best_recipe-IsModest inv (r ∷ rs) best_score best h (hr, hs) =
    elim (Bool-cases (ltb_ℤ best_score (score inv r))) [
      | inl e ↦ rw (e, best_recipe) (best_recipe-IsModest inv rs (score inv r) r hr hs)
      | inr e ↦ rw (e, best_recipe) (best_recipe-IsModest inv rs best_score best h hs)
    ]

crafter-HasNoSurplus :
    (inv : GoodInventory) → All (HasNoSurplus crafter inv) (crafter_recipe_demand inv)
unfolding crafter_recipe_demand surplus_threshold
crafter-HasNoSurplus inv =
    let r = best_recipe inv recipes (negsuc 0) tools_recipe in
    let modest =
      best_recipe-IsModest inv recipes (negsuc 0) tools_recipe (omega arith) (omega arith) in
    All-append (HasNoSurplus crafter inv) (lacking inv r.mat1 r.need1) (lacking inv r.mat2 r.need2)
      (lacking-HasNoSurplus crafter inv r.mat1 r.need1 modest.0)
      (lacking-HasNoSurplus crafter inv r.mat2 r.need2 modest.1)

occupation-HasNoSurplus :
    (o : Occupation) (inv : GoodInventory) → All (HasNoSurplus o inv) (occupation_demand o inv)
unfolding surplus_threshold
occupation-HasNoSurplus crafter inv = crafter-HasNoSurplus inv
occupation-HasNoSurplus alchemist inv =
    All-append (HasNoSurplus alchemist inv) (lacking inv herbs 2) (lacking inv exotics 2)
      (lacking-HasNoSurplus alchemist inv herbs 2 (omega arith))
      (lacking-HasNoSurplus alchemist inv exotics 2 (omega arith))
occupation-HasNoSurplus scholar inv = lacking-HasNoSurplus scholar inv herbs 1 (omega arith)
occupation-HasNoSurplus _ inv = tt

least_threshold :
    (o : Occupation) → (2 ≤ surplus_threshold o grain) × (2 ≤ surplus_threshold o fish)
unfolding surplus_threshold
least_threshold o = ground arith

-- The foods that are demanded, whatever the two prices say.
food_choice :
    (P : GoodType → Type 0) (grain_expensive fish_expensive : Bool)
    → P grain
    → P fish
    → All P (
        if grain_expensive && not fish_expensive
        then fish ∷ []
        else if fish_expensive && not grain_expensive
        then grain ∷ []
        else grain ∷ fish ∷ [])
food_choice P true true g f = (g, (f, tt))
food_choice P true false g f = (f, tt)
food_choice P false true g f = (g, tt)
food_choice P false false g f = (g, (f, tt))

module _ {F : Type 0} ⦃d : Float F⦄ where
  food-HasNoSurplus :
      (o : Occupation) (inv : GoodInventory) (market : Option (Market F))
      → IsNonneg inv
      → All (HasNoSurplus o inv) (food_demand inv market)
  unfolding food_demand
  food-HasNoSurplus o inv market h = elim (Bool-cases (ltb_ℤ (inv grain +ℤ inv fish) (pos 3))) [
    | inl few ↦
        let (grain_kept, fish_kept) = least_threshold o in
        let g = h grain in
        let f = h fish in
        rw few (
          food_choice (HasNoSurplus o inv) (is_expensive grain market) (is_expensive fish market)
            (keeps o inv grain (omega (int_laws, tests, few)))
            (keeps o inv fish (omega (int_laws, tests, few))))
    | inr enough ↦ rw enough tt
  ]

  -- Of a good that an agent with no negative quantities demands it never has a surplus to sell:
  -- no agent is on both sides of the market for a good.
  pub demanded_goods-HasNoSurplus :
      (a : Agent F) (market : Option (Market F))
      → IsNonneg a.inventory
      → All (HasNoSurplus a.occupation a.inventory) (demanded_goods a market)
  unfolding demanded_goods
  demanded_goods-HasNoSurplus a market h =
      let P = HasNoSurplus a.occupation a.inventory in
      All-append P (food_demand a.inventory market) _
        (food-HasNoSurplus a.occupation a.inventory market h)
        (All-append P (occupation_demand a.occupation a.inventory) (lacking a.inventory tools 1)
          (occupation-HasNoSurplus a.occupation a.inventory)
          (lacking-HasNoSurplus a.occupation a.inventory tools 1 (omega arith)))
