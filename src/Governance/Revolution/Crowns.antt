-- ===== src/Governance/Revolution/Crowns.antt =====
-- A revolution moves crowns from the treasury to the chest of the faction.
use mini_world.Ledger.Moves.{
  Conserves-refl, update_agent-Conserves, Conserves-trans, update_settlement-Conserves,
  payment-Conserves, Holds-mono,
}
use mini_world.Base.Maps.{Meets}
use mini_world.Governance.Revolution.{
  dominant_from, seized, revolt, check_revolution, depose, Faction, update_agent, depose_leader,
  treasury, is_over, chest, takes_over, leader_of, revolt_with, revolutionary_of, crown,
  threshold_of, overturn, faction_id, id_of, update_settlement, balance, credit, debit, settle_down,
}
use mini_world.Ledger.{World, Conserves, Holds, crowns}
use mini_world.Model.Agents.{Agent}
use mini_world.Base.{
  ℕ, suc, ◌+◌, ◌≤◌, ◌<◌, ◌^◌, ◌≡◌, refl, sym, subst, inl, inr, ◌&&◌, Option, none, some, List, [],
  ◌∷◌, arith, if◌then◌else◌, Option-cases, length, get_elem?, if_both,
}
use mini_world.Base.Float.{Float}

-- The part that is seized is at most the treasury.
abbrev pub PartFits : (F : Type 0) → Float F → Type 0
PartFits F d = (n : ℕ) → d.trunc (d.mul (d.of_ℕ n) (d.lit 3 1)) ≤ n

seized-le :
    {F : Type 0} (d : Float F) → PartFits F d → (held : ℕ) → seized ⦃d = d⦄ held (d.lit 3 1) ≤ held
unfolding seized
seized-le d fits held = fits held

module _ {F : Type 0} where
  wealth-depose : (a : Agent F) → (depose a).wealth ≡ a.wealth
  wealth-depose a = if_both (λ (b : Agent F). b.wealth ≡ a.wealth) a.alive (λ _. refl) (λ _. refl)

  depose_at-Conserves :
      (found : Option ℕ) (w : World F)
      → Conserves w (elim found [ none ↦ w | some p ↦ update_agent p depose w ])
  depose_at-Conserves none w = Conserves-refl w
  depose_at-Conserves (some p) w = update_agent-Conserves p depose w wealth-depose

  depose_leader-Conserves :
      (agent_index : ℕ → Option ℕ) (id : Option ℕ) (w : World F)
      → Conserves w (depose_leader agent_index id w)
  depose_leader-Conserves agent_index none w = Conserves-refl w
  depose_leader-Conserves agent_index (some id) w = depose_at-Conserves (agent_index id) w

module _ {F : Type 0} ⦃d : Float F⦄ where
  dominant_from-lt :
      (sett : ℕ) (fs : List (Faction F)) (i : ℕ) (best : Option ℕ)
      → Meets (λ c. c < i + length fs) best
      → Meets (λ c. c < i + length fs) (dominant_from sett fs i best)
  unfolding dominant_from
  dominant_from-lt sett [] i best h = h
  dominant_from-lt sett (f ∷ fs) i best h =
      let inf = f.influence sett in
      let n : i + suc (length fs) ≡ suc i + length fs = omega arith in
      subst
        (λ m.
          Meets (λ c. c < m)
            (dominant_from sett fs (suc i)
              (if is_over inf && takes_over inf best then some i else best)))
        (sym n)
        (dominant_from-lt sett fs (suc i)
          (if is_over inf && takes_over inf best then some i else best)
          (if_both (Meets (λ c. c < suc i + length fs)) (is_over inf && takes_over inf best)
            (λ _. omega arith) (λ _. subst (λ m. Meets (λ c. c < m) best) n h)))

  revolt-Conserves :
      PartFits F d
      → (agent_index : ℕ → Option ℕ) (at c p : ℕ) (w : World F) → Holds w (treasury at)
      → Holds w (chest c)
      → crowns w < 2 ^ 64
      → Conserves w (revolt agent_index at c p w)
  unfolding revolt
  revolt-Conserves part agent_index at c p w ht hc fits =
      let id = leader_of (get_elem? w.settlements at) in
      let deposed = depose_leader agent_index id w in
      let crowned = update_agent p crown deposed in
      let turn = overturn (faction_id (get_elem? w.factions c)) (id_of (get_elem? w.agents p)) in
      let overturned = update_settlement at turn crowned in
      let first = Conserves-trans (depose_leader-Conserves agent_index id w) (
        Conserves-trans (update_agent-Conserves p crown deposed (λ a. refl))
          (update_settlement-Conserves at turn crowned (λ s. refl))) in
      let loot = seized (balance (treasury at) overturned) (d.lit 3 1) in
      let moved = credit (chest c) loot (debit (treasury at) loot overturned) in
      Conserves-trans first (
        Conserves-trans
          (payment-Conserves (treasury at) (chest c) loot overturned
            (Holds-mono w overturned (treasury at) first.same_shape ht)
            (Holds-mono w overturned (chest c) first.same_shape hc)
            (seized-le d part (balance (treasury at) overturned))
            (omega (arith, first.same_crowns)))
          (update_settlement-Conserves at settle_down moved (λ s. refl)))

  revolt_with-Conserves :
      PartFits F d
      → (agent_index : ℕ → Option ℕ) (at : ℕ) (c p : Option ℕ) (w : World F) → Holds w (treasury at)
      → Meets (λ i. i < length w.factions) c
      → crowns w < 2 ^ 64
      → Conserves w (revolt_with agent_index at c p w)
  revolt_with-Conserves part agent_index at none p w ht hc fits = Conserves-refl w
  revolt_with-Conserves part agent_index at (some c) none w ht hc fits = Conserves-refl w
  revolt_with-Conserves part agent_index at (some c) (some p) w ht hc fits =
      revolt-Conserves part agent_index at c p w ht hc fits

  -- Where the settlement is in the world, the seized part is at most the treasury and the crowns
  -- of the world are fewer than 2^64, the check for a revolution makes and destroys no crown,
  -- whether or not it fires.
  pub check_revolution-Conserves :
      PartFits F d
      → (agent_index : ℕ → Option ℕ) (at : ℕ) (alive : List ℕ) (w : World F) → Holds w (treasury at)
      → crowns w < 2 ^ 64
      → Conserves w (check_revolution agent_index at alive w)
  unfolding check_revolution
  check_revolution-Conserves part agent_index at alive w ht fits =
      elim (Option-cases (get_elem? w.settlements at)) [
        | inl gone ↦ rw gone (Conserves-refl w)
        | inr (s, e) ↦
            let c = dominant_from s.id w.factions 0 none in
            let p = revolutionary_of w alive none in
            let all : 0 + length w.factions ≡ length w.factions = omega arith in
            let found : Meets (λ i. i < length w.factions) c =
              subst (λ n. Meets (λ i. i < n) c) all (dominant_from-lt s.id w.factions 0 none tt) in
            rw e (
              if_both (Conserves w) (d.le (threshold_of s) s.governance_score)
                (λ _. Conserves-refl w)
                (λ _. revolt_with-Conserves part agent_index at c p w ht found fits))
      ]
