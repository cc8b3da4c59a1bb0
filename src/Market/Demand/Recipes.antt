-- ===== src/Market/Demand/Recipes.antt =====
-- The recipe for which a crafter buys is one that it is closest to completing.
use mini_world.Base.Int.{◌≤ℤ◌, negsuc, pos, +ℤ_parts, ltb_ℤ}
use mini_world.Market.Demand.Sides.{IsNonneg}
use mini_world.Market.Demand.{
  best_recipe, crafter_recipe_demand, Recipe, ℤ, score, recipes, lacking, tools_recipe, have,
}
use mini_world.Model.Goods.{GoodInventory}
use mini_world.Base.{
  ◌≡◌, refl, subst, ◌⊎◌, inl, inr, List, [], ◌∷◌, ◌++◌, arith, tests, Bool-cases, All, Any,
}

-- `r` is the start or a recipe of the list, and no score exceeds its own.
abbrev IsBest : GoodInventory → List Recipe → ℤ → Recipe → Recipe → Type 0
IsBest inv rs best_score best r =
    (best_score ≤ℤ score inv r)
    × All (λ x. score inv x ≤ℤ score inv r) rs
    × ((best ≡ r) ⊎ Any (λ x. x ≡ r) rs)

best_recipe-IsBest :
    (inv : GoodInventory) (rs : List Recipe) (best_score : ℤ) (best : Recipe)
    → best_score ≤ℤ score inv best
    → IsBest inv rs best_score best (best_recipe inv rs best_score best)
unfolding best_recipe
best_recipe-IsBest inv [] best_score best h = (h, tt, inl refl)
best_recipe-IsBest inv (x ∷ rs) best_score best h =
    elim (Bool-cases (ltb_ℤ best_score (score inv x))) [
      | inl e ↦
          let (low, all, from) = best_recipe-IsBest inv rs (score inv x) x (omega arith) in
          subst (IsBest inv (x ∷ rs) best_score best) (rw (e, best_recipe))
            (omega (tests, e), (low, all), inr from)
      | inr e ↦
          let (low, all, from) = best_recipe-IsBest inv rs best_score best h in
          subst (IsBest inv (x ∷ rs) best_score best) (rw (e, best_recipe))
            (low, (omega (tests, e), all), skip from)
    ]
  where
    skip :
        {r : Recipe} → (best ≡ r) ⊎ Any (λ y. y ≡ r) rs → (best ≡ r) ⊎ (x ≡ r) ⊎ Any (λ y. y ≡ r) rs
    skip (inl p) = inl p
    skip (inr p) = inr (inr p)

score_nonneg : (inv : GoodInventory) (r : Recipe) → IsNonneg inv → pos 0 ≤ℤ score inv r
unfolding score
score_nonneg inv r h =
    ground (arith, h r.mat1, h r.mat2, +ℤ_parts (have inv r.mat1 r.need1) (have inv r.mat2 r.need2))

-- A crafter with no negative quantities demands what it lacks of one of the four recipes, and no
-- recipe has a better score than that one.
pub crafter_recipe_demand-best :
    (inv : GoodInventory)
    → IsNonneg inv
    → (r : Recipe) × Any (λ x. x ≡ r) recipes
      × All (λ x. score inv x ≤ℤ score inv r) recipes
      × (crafter_recipe_demand inv ≡ lacking inv r.mat1 r.need1 ++ lacking inv r.mat2 r.need2)
unfolding crafter_recipe_demand
crafter_recipe_demand-best inv h =
    let r = best_recipe inv recipes (negsuc 0) tools_recipe in
    let (low, all, from) =
      best_recipe-IsBest inv recipes (negsuc 0) tools_recipe
        (omega (arith, score_nonneg inv tools_recipe h)) in
    (r, elim from [ inl e ↦ inl e | inr a ↦ a ], all, refl)
