-- ===== src/Factions/Crowns.antt =====
-- Dues and patronage of internal/engine/factions.go move crowns, and make none.
use mini_world.Factions.Dues.{collect_faction_dues-Conserves}
use mini_world.Base.Word.{add64, add64_exact}
use mini_world.Ledger.Moves.{
  Conserves-refl, SameShape-refl, Conserves-trans, balance-le-crowns, crowns-credit, Holds-mono,
  update_agent-Conserves, crowns-debit, SameShape-trans, credit-SameShape, debit-SameShape,
}
use mini_world.Ledger.Loops.{AreAgents, AreAgents-mono}
use mini_world.Model.Agents.{Agent}
use mini_world.Ledger.{
  World, balance, Faction, credit, Holds, crowns, chest, Conserves, purse, update_agent, SameShape,
}
use mini_world.Factions.{
  patronage_budget, collect_faction_dues, pay_members, patronize, faction_members, patronize_all,
  distribute_faction_patronage, member_found, weights_sum, is_member, patronage_weight,
  apply_patronage_needs, has_no_members, is_zero,
}
use mini_world.Base.Float.{Float, nought}
use mini_world.Base.{
  ℕ, suc, ◌+◌, ◌-◌, ◌≤◌, ◌<◌, ◌^◌, ◌≡◌, refl, ◌∙◌, ◌&&◌, ◌||◌, Option, none, some, List, [], ◌∷◌,
  arith, ltb, ◌==◌, tests, length, get_elem?, All, if_both, All-map, false,
}

-- A week's patronage is at most the treasury.
abbrev pub BudgetFits : (F : Type 0) → Float F → Type 0
BudgetFits F d = (n : ℕ) → d.trunc (patronage_budget {F = F} ⦃d = d⦄ n) ≤ n

module _ {F : Type 0} where
  chest-credit_purse :
      (at p c : ℕ) (w : World F) → balance (chest at) (credit (purse p) c w) ≡ balance (chest at) w
  unfolding balance credit
  chest-credit_purse at p c w = refl

  chest-update_agent :
      (at p : ℕ) (f : Agent F → Agent F) (w : World F)
      → balance (chest at) (update_agent p f w) ≡ balance (chest at) w
  unfolding balance
  chest-update_agent at p f w = refl

module _ {F : Type 0} ⦃d : Float F⦄ where
  -- What has been paid out has arrived in the purses, and the budget covers it.
  abbrev pub IsPaid : ℕ → ℕ → World F × ℕ → World F × ℕ → Type 0
  IsPaid at budget (w, paid) (w', paid') =
      (crowns w' + paid ≡ crowns w + paid')
      × (paid' ≤ budget)
      × (balance (chest at) w' ≡ balance (chest at) w)
      × SameShape w w'

  -- The members of a list are all agents.
  abbrev pub AreMembers : World F → List (ℕ × F) → Type 0
  AreMembers w = All (λ (m : ℕ × F). m.0 < length w.agents)

  -- The payments that are computed for the members are below 2^63, where Go defines the
  -- conversion of a float to an integer.
  abbrev pub PaymentsFit : ℕ → F → List (ℕ × F) → Type 0
  PaymentsFit budget sum =
      All (λ (m : ℕ × F). d.trunc (d.div (d.mul (d.of_ℕ budget) m.1) sum) < 2 ^ 63)

  -- That holds of a faction, where it pays at all.
  abbrev pub PatronageFits : ℕ → List (ℕ × F) → World F → Type 0
  PatronageFits at ms w =
      let held = balance (chest at) w in
      let budget = d.trunc (patronage_budget held) in
      let sum = weights_sum ms nought in
      ((held == 0) || has_no_members ms) || ((budget == 0) || is_zero sum) ≡ false
      → PaymentsFit budget sum ms

  -- That holds of each faction, in the order of the run.
  unfoldable pub FactionsFit : World F → List ℕ → ℕ → List (Faction F) → World F → Type 0
  FactionsFit before ps at [] w = Unit
  FactionsFit before ps at (f ∷ fs) w =
      let ms = faction_members f.id before ps in
      PatronageFits at ms w × FactionsFit before ps (suc at) fs (patronize at f.id ms w)

  pay_members-IsPaid :
      (at id budget : ℕ) (sum : F) (ms : List (ℕ × F)) (w : World F) (paid : ℕ)
      → PaymentsFit budget sum ms
      → AreMembers w ms
      → paid ≤ budget
      → budget < 2 ^ 63
      → crowns w + (budget - paid) < 2 ^ 64
      → IsPaid at budget (w, paid) (pay_members id budget sum ms (w, paid))
  unfolding pay_members
  pay_members-IsPaid at id budget sum [] w paid fit h covered small fits =
      (refl, covered, refl, SameShape-refl w)
  pay_members-IsPaid at id budget sum ((p, weight) ∷ ms) w paid (bound, fit) (hp, hms) covered small
        fits =
      let payment = d.trunc (d.div (d.mul (d.of_ℕ budget) weight) sum) in
      if_both (IsPaid at budget (w, paid)) (payment == 0)
        (λ _. pay_members-IsPaid at id budget sum ms w paid fit hms covered small fits)
        (λ _.
          if_both (IsPaid at budget (w, paid)) (ltb budget (add64 paid payment))
            (λ _. (refl, covered, refl, SameShape-refl w))
            (λ within.
              let up : add64 paid payment ≡ paid + payment =
                add64_exact paid payment (omega arith) in
              let room : paid + payment ≤ budget = omega (tests, within, up) in
              let credited = credit (purse p) payment w in
              let gained = crowns-credit (purse p) payment w hp (omega arith) in
              let same = update_agent-Conserves p (apply_patronage_needs id) credited (λ x. refl) in
              let shape = SameShape-trans (credit-SameShape (purse p) payment w) same.same_shape in
              let next = update_agent p (apply_patronage_needs id) credited in
              let gained' : crowns next ≡ crowns w + payment = same.same_crowns ∙ gained in
              let (even, most, kept, shape') =
                pay_members-IsPaid at id budget sum ms next (add64 paid payment) fit
                  (All-map (λ (m : ℕ × F) lt. omega arith) ms hms) (omega arith) small
                  (omega arith) in
              (
                omega arith,
                most,
                kept
                    ∙ chest-update_agent at p (apply_patronage_needs id) credited
                    ∙ chest-credit_purse at p payment w,
                SameShape-trans shape shape',
              )))

  patronize-Conserves :
      BudgetFits F d
      → (at id : ℕ) (ms : List (ℕ × F)) (w : World F) → PatronageFits at ms w
      → AreMembers w ms
      → Holds w (chest at)
      → crowns w < 2 ^ 63
      → Conserves w (patronize at id ms w)
  unfolding patronize
  patronize-Conserves budget_fits at id ms w fit h there fits =
      let held = balance (chest at) w in
      let budget = d.trunc (patronage_budget held) in
      let sum = weights_sum ms nought in
      let low : budget ≤ held = budget_fits held in
      let low' = balance-le-crowns (chest at) w there in
      let done = pay_members id budget sum ms (w, 0) in
      if_both (Conserves w) (((held == 0) || has_no_members ms) || ((budget == 0) || is_zero sum))
        (λ _. Conserves-refl w)
        (λ pays.
          let (even, most, kept, shape) =
            pay_members-IsPaid at id budget sum ms w 0 (fit pays) h (omega arith) (omega arith)
              (omega arith) in
          let there' = Holds-mono w done.0 (chest at) shape there in
          let down = crowns-debit (chest at) done.1 done.0 there' (omega arith) (omega arith) in
          record {
            same_crowns = omega arith;
            same_shape = SameShape-trans shape (debit-SameShape (chest at) done.1 done.0);
          })

  member_found-AreMembers :
      (id p : ℕ) (found : Option (Agent F)) (w : World F) (rest : List (ℕ × F))
      → p < length w.agents
      → AreMembers w rest
      → AreMembers w (member_found id p found rest)
  member_found-AreMembers id p none w rest hp h = h
  member_found-AreMembers id p (some a) w rest hp h =
      if_both (AreMembers w)
        (a.alive && (is_member id a.faction_id && d.lt nought (patronage_weight id a)))
        (λ _. (hp, h)) (λ _. h)

  faction_members-AreMembers :
      (id : ℕ) (before w : World F) (ps : List ℕ)
      → AreAgents w ps
      → AreMembers w (faction_members id before ps)
  unfolding faction_members
  faction_members-AreMembers id before w [] h = tt
  faction_members-AreMembers id before w (p ∷ ps) (hp, hps) =
      member_found-AreMembers id p (get_elem? before.agents p) w _ hp
        (faction_members-AreMembers id before w ps hps)

  patronize_all-Conserves :
      BudgetFits F d
      → (before : World F) (ps : List ℕ) (at : ℕ) (fs : List (Faction F)) (w : World F)
      → FactionsFit before ps at fs w
      → AreAgents w ps
      → at + length fs ≤ length w.factions
      → crowns w < 2 ^ 63
      → Conserves w (patronize_all before ps at fs w)
  unfolding patronize_all FactionsFit
  patronize_all-Conserves budget_fits before ps at [] w fit h there fits = Conserves-refl w
  patronize_all-Conserves budget_fits before ps at (f ∷ fs) w (fit, fit') h there fits =
      let ms = faction_members f.id before ps in
      let first =
        patronize-Conserves budget_fits at f.id ms w fit
          (faction_members-AreMembers f.id before w ps h) (omega arith) fits in
      let next = patronize at f.id ms w in
      let same_factions : length next.factions ≡ length w.factions =
        first.same_shape.same_factions in
      Conserves-trans first (
        patronize_all-Conserves budget_fits before ps (suc at) fs next fit'
          (AreAgents-mono w next ps first.same_shape h) (omega arith)
          (omega (arith, first.same_crowns)))

  distribute_faction_patronage-Conserves :
      BudgetFits F d
      → (ps : List ℕ) (w : World F) → FactionsFit w ps 0 w.factions w
      → AreAgents w ps
      → crowns w < 2 ^ 63
      → Conserves w (distribute_faction_patronage ps w)
  unfolding distribute_faction_patronage
  distribute_faction_patronage-Conserves budget_fits ps w fit h fits =
      patronize_all-Conserves budget_fits w ps 0 w.factions w fit h (omega arith) fits

  -- That holds of each faction after the week's dues.
  abbrev pub WeekFits : List ℕ → World F → Type 0
  WeekFits ps w = let paid = collect_faction_dues ps w in FactionsFit paid ps 0 paid.factions paid

  -- Where all pointers are valid, a budget is at most the treasury that it is a part of, the
  -- payments that follow along the run from the budget of a faction for its members are below
  -- 2^63 and the crowns of the world are fewer than 2^63, a week's dues and then its patronage
  -- make and destroy no crown.
  pub distribute_faction_patronage-collect_faction_dues :
      BudgetFits F d
      → (ps : List ℕ) (w : World F) → WeekFits ps w
      → AreAgents w ps
      → crowns w < 2 ^ 63
      → Conserves w (distribute_faction_patronage ps (collect_faction_dues ps w))
  distribute_faction_patronage-collect_faction_dues budget_fits ps w fit h fits =
      let first = collect_faction_dues-Conserves ps w h (omega arith) in
      let next = collect_faction_dues ps w in
      Conserves-trans first (
        distribute_faction_patronage-Conserves budget_fits ps next fit
          (AreAgents-mono w next ps first.same_shape h) (omega (arith, first.same_crowns)))
