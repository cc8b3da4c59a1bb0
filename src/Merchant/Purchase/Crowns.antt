-- ===== src/Merchant/Purchase/Crowns.antt =====
-- What a purchase on credit does to the crowns of the world.
use mini_world.Base.Word.{add64_exact}
use mini_world.Ledger.Moves.{
  SameShape-refl, payment-Conserves, Holds-mono, SameShape-trans, balance-le-crowns, crowns-debit,
  debit-SameShape, update_agent-Conserves, Conserves-trans, Conserves-refl,
}
use mini_world.Merchant.Purchase.{
  buy_units, Agent, borrow, sub64, repayment, repay, debt_of, settle,
}
use mini_world.Ledger.{
  World, credit, debit, treasury, balance, update_agent, crowns, Holds, purse, SameShape, wealth_of,
  Conserves,
}
use mini_world.Base.{
  ℕ, zero, suc, ◌+◌, ◌≤◌, ◌<◌, ◌^◌, ◌≡◌, refl, ◌∙◌, arith, ltb, leb, tests, length, get_elem?,
  total, total-modify_same, get_elem?-some, if_both, le-total, total-modify,
}

module _ {F : Type 0} where
  -- What all merchants owe.
  abbrev pub debts : World F → ℕ
  debts w = total (λ (a : Agent F). a.consignment_debt) w.agents

  debts-credit_treasury : (at c : ℕ) (w : World F) → debts (credit (treasury at) c w) ≡ debts w
  unfolding credit
  debts-credit_treasury at c w = refl

  debts-debit_treasury : (at c : ℕ) (w : World F) → debts (debit (treasury at) c w) ≡ debts w
  unfolding debit
  debts-debit_treasury at c w = refl

  debts-debit_purse : (p c : ℕ) (w : World F) → debts (debit (purse p) c w) ≡ debts w
  unfolding debit balance
  debts-debit_purse p c w =
      total-modify_same (λ (a : Agent F). a.consignment_debt) p
        (λ (a : Agent F). record a { wealth = sub64 (wealth_of (get_elem? w.agents p)) c }) w.agents
        (λ a. refl)

  debts-borrow :
      (p c : ℕ) (w : World F)
      → p < length w.agents
      → debts w + c < 2 ^ 64
      → debts (update_agent p (borrow c) w) ≡ debts w + c
  debts-borrow p c w hp fits =
      let (a, e) = get_elem?-some w.agents p hp in
      let low = le-total (λ (a : Agent F). a.consignment_debt) w.agents p e in
      let exact = add64_exact a.consignment_debt c (omega arith) in
      let step = total-modify (λ (a : Agent F). a.consignment_debt) p (borrow c) w.agents e in
      omega (arith, exact, step)

  -- Crowns and debts together.
  record Fronts (w w' : World F) : Type 0 where
    same_sum : crowns w' + debts w' ≡ crowns w + debts w
    same_shape : SameShape w w'

  buy_units-Fronts :
      (p at price k : ℕ) (w : World F) (n : ℕ)
      → p < length w.agents
      → Holds w (treasury at)
      → crowns w + debts w < 2 ^ 64
      → Fronts w (buy_units p at price k (w, n)).0
  unfolding buy_units
  buy_units-Fronts p at price zero w n hp ht fits = record {
    same_sum = refl;
    same_shape = SameShape-refl w;
  }
  buy_units-Fronts p at price (suc k) w n hp ht fits =
      let P = λ (s : World F × ℕ). Fronts w s.0 in
      if_both P (leb price (balance (purse p) w))
        (λ covered.
          let next = credit (treasury at) price (debit (purse p) price w) in
          let first =
            payment-Conserves (purse p) (treasury at) price w hp ht (omega (tests, covered))
              (omega arith) in
          let owed : debts next ≡ debts w =
            debts-credit_treasury at price (debit (purse p) price w)
            ∙ debts-debit_purse p price w in
          let rest =
            buy_units-Fronts p at price k next (n + 1)
              (Holds-mono w next (purse p) first.same_shape hp)
              (Holds-mono w next (treasury at) first.same_shape ht)
              (omega (arith, first.same_crowns)) in
          record {
            same_sum = omega (arith, first.same_crowns, rest.same_sum);
            same_shape = SameShape-trans first.same_shape rest.same_shape;
          })
        (λ _.
          if_both P (leb price (balance (treasury at) w))
            (λ covered.
              let paid = debit (treasury at) price w in
              let low = balance-le-crowns (treasury at) w ht in
              let down =
                crowns-debit (treasury at) price w ht (omega (tests, covered)) (omega arith) in
              let shape = debit-SameShape (treasury at) price w in
              let hp' = Holds-mono w paid (purse p) shape hp in
              let same = update_agent-Conserves p (borrow price) paid (λ a. refl) in
              let next = update_agent p (borrow price) paid in
              let still = debts-debit_treasury at price w in
              let owed = debts-borrow p price paid hp' (omega (arith, still, tests, covered)) in
              let shape' = SameShape-trans shape same.same_shape in
              let rest =
                buy_units-Fronts p at price k next (n + 1) (Holds-mono w next (purse p) shape' hp)
                  (Holds-mono w next (treasury at) shape' ht)
                  (omega (arith, down, still, owed, same.same_crowns)) in
              record {
                same_sum = omega (arith, down, still, owed, same.same_crowns, rest.same_sum);
                same_shape = SameShape-trans shape' rest.same_shape;
              })
            (λ _. record { same_sum = refl; same_shape = SameShape-refl w }))

  -- Where the pointers are valid and crowns and debts are fewer than 2^64 together, the crowns of
  -- the world and the debts of all merchants together stay the same while a merchant buys its
  -- cargo: what the treasury fronts leaves the world.
  pub crowns-buy_units :
      (p at price k : ℕ) (w : World F) (n : ℕ)
      → p < length w.agents
      → Holds w (treasury at)
      → crowns w + debts w < 2 ^ 64
      → let after = (buy_units p at price k (w, n)).0 in
        crowns after + debts after ≡ crowns w + debts w
  crowns-buy_units p at price k w n hp ht fits =
      (buy_units-Fronts p at price k w n hp ht fits).same_sum

  repayment-le : (p : ℕ) (w : World F) → repayment p w ≤ balance (purse p) w
  unfolding repayment
  repayment-le p w = ground arith

  -- Where the merchant and its home are in the world and the crowns of the world are fewer than
  -- 2^64, the repayment of a debt makes and destroys no crown: what the treasury fronted does not
  -- come back, the merchant pays from its own.
  pub repay-Conserves :
      (p at : ℕ) (w : World F)
      → p < length w.agents
      → Holds w (treasury at)
      → crowns w < 2 ^ 64
      → Conserves w (repay p at w)
  unfolding repay
  repay-Conserves p at w hp ht fits =
      let paid = repayment p w in
      let moved = credit (treasury at) paid (debit (purse p) paid w) in
      if_both (Conserves w) (ltb 0 (debt_of (get_elem? w.agents p)))
        (λ _.
          Conserves-trans
            (payment-Conserves (purse p) (treasury at) paid w hp ht (repayment-le p w) fits)
            (update_agent-Conserves p (settle paid) moved (λ a. refl)))
        (λ _. Conserves-refl w)
