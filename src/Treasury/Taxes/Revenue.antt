-- ===== src/Treasury/Taxes/Revenue.antt =====
-- What the taxes of internal/engine/market.go take from the purses is in the revenue.
use mini_world.Base.Word.{add64_exact}
use mini_world.Ledger.Moves.{SameShape-refl, SameShape-trans, crowns-debit, debit-SameShape}
use mini_world.Ledger.Loops.{AreAgents, AreAgents-mono}
use mini_world.Ledger.{World, crowns, SameShape, balance, purse, wealth_of}
use mini_world.Treasury.Taxes.{tax_on, tax_agents, tax_found, is_taxed}
use mini_world.Base.{
  ℕ, ◌+◌, ◌≤◌, ◌<◌, ◌^◌, ◌≡◌, refl, ap, ◌∙◌, inl, inr, List, [], ◌∷◌, arith, Option-cases, length,
  get_elem?, if_both,
}
use mini_world.Base.Float.{Float}

module _ {F : Type 0} ⦃d : Float F⦄ where
  -- The tax on a wealth above 20 is at least 1 and at most the wealth.
  pub tax_on_bounds :
      (rate : F) (wealth : ℕ)
      → 20 < wealth
      → (1 ≤ tax_on rate wealth) × (tax_on rate wealth ≤ wealth)
  unfolding tax_on
  tax_on_bounds rate wealth h = ground arith

  -- What has left the purses is in the revenue.
  abbrev pub IsCollected : World F × ℕ → World F × ℕ → Type 0
  IsCollected (w, r) (w', r') = (crowns w' + r' ≡ crowns w + r) × SameShape w w'

  tax_found-IsCollected :
      (rate : F) (p : ℕ) (w : World F) (revenue : ℕ)
      → p < length w.agents
      → crowns w + revenue < 2 ^ 64
      → IsCollected (w, revenue) (tax_found rate p (get_elem? w.agents p) (w, revenue))
  unfolding balance
  tax_found-IsCollected rate p w revenue hp fits = elim (Option-cases (get_elem? w.agents p)) [
    | inl gone ↦ rw gone (refl, SameShape-refl w)
    | inr (a, e) ↦ rw e (
        if_both (IsCollected (w, revenue)) (is_taxed a)
          (λ taxed.
            let (least, most) = tax_on_bounds rate a.wealth (ground arith) in
            let held : balance (purse p) w ≡ a.wealth = ap wealth_of e in
            let down =
              crowns-debit (purse p) (tax_on rate a.wealth) w hp (omega arith) (omega arith) in
            let up = add64_exact revenue (tax_on rate a.wealth) (omega arith) in
            (omega arith, debit-SameShape (purse p) (tax_on rate a.wealth) w))
          (λ _. (refl, SameShape-refl w)))
  ]

  pub tax_agents-IsCollected :
      (rate : F) (ps : List ℕ) (w : World F) (revenue : ℕ)
      → AreAgents w ps
      → crowns w + revenue < 2 ^ 64
      → IsCollected (w, revenue) (tax_agents rate ps (w, revenue))
  unfolding tax_agents
  tax_agents-IsCollected rate [] w revenue h fits = (refl, SameShape-refl w)
  tax_agents-IsCollected rate (p ∷ ps) w revenue (hp, hps) fits =
      let next = tax_found rate p (get_elem? w.agents p) (w, revenue) in
      let (even, shape) = tax_found-IsCollected rate p w revenue hp fits in
      let (even', shape') =
        tax_agents-IsCollected rate ps next.0 next.1 (AreAgents-mono w next.0 ps shape hps)
          (omega (arith, even)) in
      (even' ∙ even, SameShape-trans shape shape')
