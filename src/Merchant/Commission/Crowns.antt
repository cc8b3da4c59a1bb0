-- ===== src/Merchant/Commission/Crowns.antt =====
-- Commissions move crowns from the seller to the other merchants.
use mini_world.Ledger.Moves.{Conserves-refl, payment-Conserves, Conserves-trans, Holds-mono}
use mini_world.Ledger.{crowns, Conserves, balance, purse, credit, debit}
use mini_world.Ledger.Loops.{AreAgents, AreAgents-mono}
use mini_world.Merchant.Commission.{
  capped, pay_commissions, tier2_commission, World, most_commission, commission_of, coherence_of,
  id_of, earns, add64,
}
use mini_world.Base.{
  ℕ, ◌≤◌, ◌<◌, ◌^◌, not, ◌||◌, List, [], ◌∷◌, arith, leb, ◌==◌, length, get_elem?, if_both,
}
use mini_world.Base.Float.{Float}

capped-le : (most paid held commission : ℕ) → capped most paid held commission ≤ held
capped-le most paid held commission = ground arith

module _ {F : Type 0} ⦃d : Float F⦄ where
  pay_commissions-Conserves :
      (p seller revenue most : ℕ) (qs : List ℕ) (w : World F) (paid : ℕ)
      → p < length w.agents
      → AreAgents w qs
      → crowns w < 2 ^ 64
      → Conserves w (pay_commissions p seller revenue most qs w paid)
  unfolding pay_commissions
  pay_commissions-Conserves p seller revenue most [] w paid hp h fits = Conserves-refl w
  pay_commissions-Conserves p seller revenue most (q ∷ qs) w paid hp (hq, hqs) fits =
      let found = get_elem? w.agents q in
      let full = commission_of revenue (coherence_of found) in
      let commission = capped most paid (balance (purse p) w) full in
      let next = credit (purse q) commission (debit (purse p) commission w) in
      let first =
        payment-Conserves (purse p) (purse q) commission w hp hq
          (capped-le most paid (balance (purse p) w) full) fits in
      if_both (Conserves w) (not (earns seller found) || full == 0)
        (λ _. pay_commissions-Conserves p seller revenue most qs w paid hp hqs fits)
        (λ _.
          if_both (Conserves w) (commission == 0) (λ _. Conserves-refl w)
            (λ _.
              if_both (Conserves w) (leb most (add64 paid commission)) (λ _. first)
                (λ _. Conserves-trans first (
                  pay_commissions-Conserves p seller revenue most qs next (add64 paid commission)
                    (Holds-mono w next (purse p) first.same_shape hp)
                    (AreAgents-mono w next qs first.same_shape hqs)
                    (omega (arith, first.same_crowns))))))

  -- Where all pointers are valid and the crowns of the world are fewer than 2^64, the commissions
  -- of a sale make and destroy no crown.
  pub tier2_commission-Conserves :
      (p revenue : ℕ) (ps : List ℕ) (w : World F)
      → p < length w.agents
      → AreAgents w ps
      → crowns w < 2 ^ 64
      → Conserves w (tier2_commission p revenue ps w)
  unfolding tier2_commission
  tier2_commission-Conserves p revenue ps w hp h fits =
      let most = most_commission (d.lit 5 1) revenue in
      if_both (Conserves w) (most == 0) (λ _. Conserves-refl w)
        (λ _.
          pay_commissions-Conserves p (id_of (get_elem? w.agents p)) revenue most ps w 0 hp h fits)
