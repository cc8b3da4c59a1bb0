-- ===== src/Treasury/Poverty.antt =====
-- Who is poor in a settlement and what share of a budget falls to each: the loops that `collectTaxes`
-- and `paySettlementWages` of internal/engine/market.go have in common.
use mini_world.Model.Agents.{Agent}
use mini_world.Base.{ℕ, ◌+◌, Bool, ◌&&◌, List, [], ◌∷◌, ltb, if◌then◌else◌}
use mini_world.Base.Float.{Float, agnosis, nought}

module _ {F : Type 0} ⦃d : Float F⦄ where
  -- `avgWealth += float64(a.Wealth)` and `aliveCount++`
  unfoldable pub wealth_sum : List (Agent F) → F × ℕ → F × ℕ
  wealth_sum [] acc = acc
  wealth_sum (a ∷ as') (sum, n) =
      wealth_sum as' (if a.alive then (d.add sum (d.of_ℕ a.wealth), n + 1) else (sum, n))

  unfoldable pub average_wealth : List (Agent F) → F
  unfolding wealth_sum
  average_wealth as' =
      let (sum, n) = wealth_sum as' (nought, 0) in if ltb 0 n then d.div sum (d.of_ℕ n) else sum

  -- A fraction of the average wealth, and at least `least`.
  unfoldable pub poverty_line : ℕ → List (Agent F) → F
  unfolding average_wealth
  poverty_line least as' =
      let line = d.mul (average_wealth as') agnosis in
      if d.lt line (d.lit least 0) then d.lit least 0 else line

  abbrev pub is_poor : F → Agent F → Bool
  is_poor line a = a.alive && ltb a.wealth (d.trunc line)

  abbrev pub weight : F → ℕ → F
  weight line wealth = d.div (d.sub line (d.of_ℕ wealth)) line

  unfoldable pub total_weight : F → List (Agent F) → F → F
  total_weight line [] acc = acc
  total_weight line (a ∷ as') acc =
      total_weight line as' (if is_poor line a then d.add acc (weight line a.wealth) else acc)

  -- `uint64(float64(budget) * weight / totalWeight)`
  unfoldable pub share : ℕ → F → F → ℕ → ℕ
  share budget line sum wealth = d.trunc (d.div (d.mul (d.of_ℕ budget) (weight line wealth)) sum)
