-- ===== src/Merchant/Turn/Crowns.antt =====
-- A merchant's hour makes no crown.
use mini_world.Ledger.Moves.{
  SameShape-refl, SameShape-trans, payment-Conserves, Holds-mono, crowns-debit,
  update_agent-Conserves, debit-SameShape,
}
use mini_world.Merchant.Purchase.{buy_units, borrow}
use mini_world.Ledger.{
  World, crowns, Conserves, Holds, SameShape, treasury, balance, purse, credit, debit, update_agent,
}
use mini_world.Base.{ℕ, zero, suc, ◌+◌, ◌≤◌, ◌<◌, ◌^◌, refl, arith, leb, tests, length, if_both}

module _ {F : Type 0} where
  -- Crowns may be lost and not made, and nobody comes or goes.
  pub record NoMint (w w' : World F) : Type 0 where
    pub no_more : crowns w' ≤ crowns w
    pub same_shape : SameShape w w'

  pub of_Conserves : {w w' : World F} → Conserves w w' → NoMint w w'
  of_Conserves c = record { no_more = omega (arith, c.same_crowns); same_shape = c.same_shape }

  pub NoMint-refl : (w : World F) → NoMint w w
  NoMint-refl w = record { no_more = omega arith; same_shape = SameShape-refl w }

  pub NoMint-trans : {u v w : World F} → NoMint u v → NoMint v w → NoMint u w
  NoMint-trans h k = record {
    no_more = omega (arith, h.no_more, k.no_more);
    same_shape = SameShape-trans h.same_shape k.same_shape;
  }

  -- Buying units: paid into the treasury, or fronted by it and lost.
  pub buy_units-NoMint :
      (p at price k : ℕ) (w : World F) (n : ℕ)
      → p < length w.agents
      → Holds w (treasury at)
      → crowns w < 2 ^ 64
      → NoMint w (buy_units p at price k (w, n)).0
  unfolding buy_units
  buy_units-NoMint p at price zero w n hp ht fits = NoMint-refl w
  buy_units-NoMint p at price (suc k) w n hp ht fits =
      let P = λ (s : World F × ℕ). NoMint w s.0 in
      if_both P (leb price (balance (purse p) w))
        (λ covered.
          let next = credit (treasury at) price (debit (purse p) price w) in
          let first =
            payment-Conserves (purse p) (treasury at) price w hp ht (omega (tests, covered)) fits in
          NoMint-trans (of_Conserves first) (
            buy_units-NoMint p at price k next (n + 1)
              (Holds-mono w next (purse p) first.same_shape hp)
              (Holds-mono w next (treasury at) first.same_shape ht)
              (omega (arith, first.same_crowns))))
        (λ _.
          if_both P (leb price (balance (treasury at) w))
            (λ covered.
              let paid = debit (treasury at) price w in
              let down = crowns-debit (treasury at) price w ht (omega (tests, covered)) fits in
              let same = update_agent-Conserves p (borrow price) paid (λ a. refl) in
              let next = update_agent p (borrow price) paid in
              let first : NoMint w next = record {
                no_more = omega (arith, down, same.same_crowns);
                same_shape =
                    SameShape-trans (debit-SameShape (treasury at) price w) same.same_shape;
              } in
              NoMint-trans first (
                buy_units-NoMint p at price k next (n + 1)
                  (Holds-mono w next (purse p) first.same_shape hp)
                  (Holds-mono w next (treasury at) first.same_shape ht)
                  (omega (arith, first.no_more))))
            (λ _. NoMint-refl w))
