-- ===== src/Ledger/Moves.antt =====
-- What a write to one account does to the crowns of the world.
use mini_world.Base.{
  ap, ℕ, ◌+◌, ◌≤◌, ◌<◌, ◌≡◌, ◌^◌, refl, ◌∙◌, arith, some, length-modify, get_elem?, get_elem?-some,
  total-modify, total-modify_same, le-total,
}
use mini_world.Base.Word.{add64, sub64, add64_exact, sub64_exact}
use mini_world.Model.Agents.{Agent}
use mini_world.Model.Settlements.{Settlement}
use mini_world.Ledger.{
  World, Faction, Account, purse, treasury, chest, update_agent, update_settlement, balance,
  set_balance, credit, debit, crowns, Holds, Conserves, SameShape, wealth_of,
}

module _ {F : Type 0} where
  pub SameShape-refl : (w : World F) → SameShape w w
  SameShape-refl w = record { same_agents = refl; same_settlements = refl; same_factions = refl }

  pub SameShape-trans : {u v w : World F} → SameShape u v → SameShape v w → SameShape u w
  SameShape-trans h k = record {
    same_agents = k.same_agents ∙ h.same_agents;
    same_settlements = k.same_settlements ∙ h.same_settlements;
    same_factions = k.same_factions ∙ h.same_factions;
  }

  pub Conserves-refl : (w : World F) → Conserves w w
  Conserves-refl w = record { same_crowns = refl; same_shape = SameShape-refl w }

  pub Conserves-trans : {u v w : World F} → Conserves u v → Conserves v w → Conserves u w
  Conserves-trans h k = record {
    same_crowns = k.same_crowns ∙ h.same_crowns;
    same_shape = SameShape-trans h.same_shape k.same_shape;
  }

  -- An account that was there still is.
  pub Holds-mono : (w w' : World F) (a : Account) → SameShape w w' → Holds w a → Holds w' a
  Holds-mono w w' (purse p) c h = omega arith
  Holds-mono w w' (treasury p) c h = omega arith
  Holds-mono w w' (chest p) c h = omega arith

  pub balance-le-crowns : (a : Account) (w : World F) → Holds w a → balance a w ≤ crowns w
  unfolding balance crowns
  balance-le-crowns (purse p) w h =
      let (x, e) = get_elem?-some w.agents p h in
      ground (arith, e, le-total (λ (a : Agent F). a.wealth) w.agents p e)
  balance-le-crowns (treasury p) w h =
      let (x, e) = get_elem?-some w.settlements p h in
      ground (arith, e, le-total (λ (a : Settlement F). a.treasury) w.settlements p e)
  balance-le-crowns (chest p) w h =
      let (x, e) = get_elem?-some w.factions p h in
      ground (arith, e, le-total (λ (a : Faction F). a.treasury) w.factions p e)

  pub set_balance-SameShape : (a : Account) (v : ℕ) (w : World F) → SameShape w (set_balance a v w)
  unfolding set_balance
  set_balance-SameShape (purse p) v w =
      ground (arith, length-modify p (λ (a : Agent F). record a { wealth = v }) w.agents)
  set_balance-SameShape (treasury p) v w =
      ground
        (arith, length-modify p (λ (a : Settlement F). record a { treasury = v }) w.settlements)
  set_balance-SameShape (chest p) v w =
      ground (arith, length-modify p (λ (a : Faction F). record a { treasury = v }) w.factions)

  pub crowns-set_balance :
      (a : Account) (v : ℕ) (w : World F)
      → Holds w a
      → crowns (set_balance a v w) + balance a w ≡ crowns w + v
  unfolding balance crowns set_balance
  crowns-set_balance (purse p) v w h =
      let (x, e) = get_elem?-some w.agents p h in
      ground (
        arith,
        e,
        total-modify (λ (a : Agent F). a.wealth) p (λ (a : Agent F). record a { wealth = v })
            w.agents e,
      )
  crowns-set_balance (treasury p) v w h =
      let (x, e) = get_elem?-some w.settlements p h in
      ground (
        arith,
        e,
        total-modify (λ (a : Settlement F). a.treasury) p
            (λ (a : Settlement F). record a { treasury = v }) w.settlements e,
      )
  crowns-set_balance (chest p) v w h =
      let (x, e) = get_elem?-some w.factions p h in
      ground (
        arith,
        e,
        total-modify (λ (a : Faction F). a.treasury) p
            (λ (a : Faction F). record a { treasury = v }) w.factions e,
      )

  pub credit-SameShape : (a : Account) (c : ℕ) (w : World F) → SameShape w (credit a c w)
  unfolding credit
  credit-SameShape a c w = set_balance-SameShape a (add64 (balance a w) c) w

  pub debit-SameShape : (a : Account) (c : ℕ) (w : World F) → SameShape w (debit a c w)
  unfolding debit
  debit-SameShape a c w = set_balance-SameShape a (sub64 (balance a w) c) w

  -- A credit adds its amount, where the sum of all crowns stays in range.
  pub crowns-credit :
      (a : Account) (c : ℕ) (w : World F)
      → Holds w a
      → crowns w + c < 2 ^ 64
      → crowns (credit a c w) ≡ crowns w + c
  unfolding credit
  crowns-credit a c w h fits =
      let low = balance-le-crowns a w h in
      let exact = add64_exact (balance a w) c (omega arith) in
      omega (arith, crowns-set_balance a (add64 (balance a w) c) w h)

  -- A debit that is covered takes its amount.
  pub crowns-debit :
      (a : Account) (c : ℕ) (w : World F)
      → Holds w a
      → c ≤ balance a w
      → crowns w < 2 ^ 64
      → crowns (debit a c w) + c ≡ crowns w
  unfolding debit
  crowns-debit a c w h covered fits =
      let low = balance-le-crowns a w h in
      let exact = sub64_exact (balance a w) c covered (omega arith) in
      omega (arith, crowns-set_balance a (sub64 (balance a w) c) w h)

  -- A covered payment from one account to another, also from an account to itself, conserves.
  pub payment-Conserves :
      (from to : Account) (c : ℕ) (w : World F)
      → Holds w from
      → Holds w to
      → c ≤ balance from w
      → crowns w < 2 ^ 64
      → Conserves w (credit to c (debit from c w))
  payment-Conserves from to c w hf ht covered fits =
      let shape = debit-SameShape from c w in
      let down = crowns-debit from c w hf covered fits in
      record {
        same_crowns =
            crowns-credit to c (debit from c w) (Holds-mono _ _ to shape ht) (omega arith) ∙ down;
        same_shape = SameShape-trans shape (credit-SameShape to c (debit from c w));
      }

  -- A write to an agent or a settlement that leaves its crowns alone conserves.
  pub update_agent-Conserves :
      (p : ℕ) (f : Agent F → Agent F) (w : World F)
      → ((a : Agent F) → (f a).wealth ≡ a.wealth)
      → Conserves w (update_agent p f w)
  unfolding crowns
  update_agent-Conserves p f w keep = record {
    same_crowns = omega (arith, total-modify_same (λ (a : Agent F). a.wealth) p f w.agents keep);
    same_shape = record {
      same_agents = length-modify p f w.agents;
      same_settlements = refl;
      same_factions = refl;
    };
  }

  pub update_settlement-Conserves :
      (p : ℕ) (f : Settlement F → Settlement F) (w : World F)
      → ((s : Settlement F) → (f s).treasury ≡ s.treasury)
      → Conserves w (update_settlement p f w)
  unfolding crowns
  update_settlement-Conserves p f w keep = record {
    same_crowns =
        omega (arith, total-modify_same (λ (s : Settlement F). s.treasury) p f w.settlements keep);
    same_shape = record {
      same_agents = refl;
      same_settlements = length-modify p f w.settlements;
      same_factions = refl;
    };
  }

  -- A purse and a treasury are different accounts.
  pub treasury-credit_purse :
      (at p c : ℕ) (w : World F)
      → balance (treasury at) (credit (purse p) c w) ≡ balance (treasury at) w
  unfolding balance credit
  treasury-credit_purse at p c w = refl

  pub treasury-debit_purse :
      (at p c : ℕ) (w : World F)
      → balance (treasury at) (debit (purse p) c w) ≡ balance (treasury at) w
  unfolding balance debit
  treasury-debit_purse at p c w = refl

  pub treasury-update_agent :
      (at p : ℕ) (f : Agent F → Agent F) (w : World F)
      → balance (treasury at) (update_agent p f w) ≡ balance (treasury at) w
  unfolding balance
  treasury-update_agent at p f w = refl

  pub purse-some :
      (p : ℕ) (w : World F) {a : Agent F}
      → get_elem? w.agents p ≡ some a
      → balance (purse p) w ≡ a.wealth
  unfolding balance
  purse-some p w e = ap wealth_of e
