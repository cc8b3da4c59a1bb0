-- ===== src/Factions/Dues.antt =====
-- Dues of internal/engine/factions.go move crowns into the chests of the factions.
use mini_world.Ledger.Moves.{Conserves-refl, purse-some, payment-Conserves}
use mini_world.Ledger.Loops.{AreAgents, each-Conserves}
use mini_world.Base.Float.{Float}
use mini_world.Ledger.{World, Faction, Holds, chest, crowns, balance, Conserves, purse}
use mini_world.Factions.{
  later_or, faction_at, joined_at, dues_of, dues_one, collect_faction_dues, pay_dues, dues_part,
}
use mini_world.Base.{
  ℕ, suc, ◌+◌, ◌≤◌, ◌<◌, ◌^◌, ◌≡◌, refl, subst, inl, inr, ◌&&◌, Option, none, some, List, [], ◌∷◌,
  arith, ltb, ◌==◌, if◌then◌else◌, Bool-cases, Option-cases, length, get_elem?, if_both,
}

later_or-lt :
    (o o' : Option ℕ) (n : ℕ) {at : ℕ}
    → ((k : ℕ) → o ≡ some k → k < n)
    → ((k : ℕ) → o' ≡ some k → k < n)
    → later_or o o' ≡ some at
    → at < n
later_or-lt none o' n {at} h h' e = h' at e
later_or-lt (some k) o' n {at} h h' e = h at e

module _ {F : Type 0} where
  faction_at-lt :
      (id i : ℕ) (fs : List (Faction F)) {at : ℕ}
      → faction_at id i fs ≡ some at
      → at < i + length fs
  unfolding faction_at
  faction_at-lt id i [] e = cc
  faction_at-lt id i (f ∷ fs) {at} e =
      later_or-lt (faction_at id (suc i) fs) (if f.id == id then some i else none)
        (i + suc (length fs)) (λ k found. let lt = faction_at-lt id (suc i) fs found in omega arith)
        (λ k found. elim (Bool-cases (f.id == id)) [
          | inl same ↦
              let e' = subst (λ b. (if b then some i else none) ≡ some k) same found in
              let here : i ≡ k = cc in omega arith
          | inr other ↦
              let e' = subst (λ b. (if b then some i else none) ≡ some k) other found in cc
        ])
        e

  joined_at-Holds :
      (home : Option ℕ) (w : World F) {at : ℕ}
      → joined_at home w.factions ≡ some at
      → Holds w (chest at)
  joined_at-Holds none w e = cc
  joined_at-Holds (some id) w e = let lt = faction_at-lt id 0 w.factions e in omega arith

module _ {F : Type 0} ⦃d : Float F⦄ where
  dues_of-le : (part : F) (wealth : ℕ) → dues_of part wealth ≤ wealth
  unfolding dues_of
  dues_of-le part wealth = ground arith

  pay_dues-Conserves :
      (p dues : ℕ) (to : Option ℕ) (w : World F)
      → p < length w.agents
      → ((at : ℕ) → to ≡ some at → Holds w (chest at))
      → dues ≤ balance (purse p) w
      → crowns w < 2 ^ 64
      → Conserves w (pay_dues p to dues w)
  pay_dues-Conserves p dues none w hp there covered fits = Conserves-refl w
  pay_dues-Conserves p dues (some at) w hp there covered fits =
      payment-Conserves (purse p) (chest at) dues w hp (there at refl) covered fits

  dues_one-Conserves :
      (p : ℕ) (w : World F) → p < length w.agents → crowns w < 2 ^ 64 → Conserves w (dues_one p w)
  unfolding dues_one
  dues_one-Conserves p w hp fits = elim (Option-cases (get_elem? w.agents p)) [
    | inl gone ↦ rw gone (Conserves-refl w)
    | inr (a, e) ↦
        let held = purse-some p w e in
        let le = dues_of-le (dues_part a.wealth) a.wealth in
        rw e (
          if_both (Conserves w) (a.alive && ltb 30 a.wealth)
            (λ _.
              pay_dues-Conserves p (dues_of (dues_part a.wealth) a.wealth)
                (joined_at a.faction_id w.factions) w hp (λ at. joined_at-Holds a.faction_id w)
                (omega arith) fits)
            (λ _. Conserves-refl w))
  ]

  pub collect_faction_dues-Conserves :
      (ps : List ℕ) (w : World F)
      → AreAgents w ps
      → crowns w < 2 ^ 64
      → Conserves w (collect_faction_dues ps w)
  unfolding collect_faction_dues
  collect_faction_dues-Conserves ps w h fits =
      each-Conserves dues_one ps w (λ p u hp same shape. dues_one-Conserves p u hp (omega arith)) h
