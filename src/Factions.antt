-- ===== src/Factions.antt =====
-- The money of the factions: collectFactionDues and distributeFactionPatronage of
-- internal/engine/factions.go, without the event that reports the patronage.
pub mod Dues
pub mod Crowns
use mini_world.Base.Word.{add64}
use mini_world.Satisfaction.{clamp_agent_needs}
use mini_world.Ledger.Loops.{each}
use mini_world.Model.Agents.{
  Agent, SocialRole, Occupation, AgentClass, NeedsState, noble, leader, outlaw, farmer, fisher,
  laborer, miner, alchemist, hunter, nihilist, transcendentalist, crafter, SocialRole, Occupation,
}
use mini_world.Base.Float.{Float, agnosis, nought, being, nous, one, add32, psyche, lit32}
use mini_world.Ledger.{Faction, World, credit, update_agent, balance, chest, purse, debit}
use mini_world.Base.{
  ℕ, zero, suc, ◌+◌, ◌-◌, ◌*◌, ◌≤◌, ◌<◌, ◌^◌, ◌≡◌, refl, sym, ap, subst, ◌∙◌, ◌≢◌, ◌⊎◌, inl, inr,
  Bool, true, false, not, ◌&&◌, ◌||◌, Option, none, some, List, [], ◌∷◌, ◌++◌, arith, ltb, leb,
  ◌==◌, if◌then◌else◌, tests, Bool-cases, Option-cases, length, get_elem?, modify, All, Any, total,
}

-- `factionIndex[id]`: where the last faction with the ID stands, from `i` on.
abbrev pub later_or : Option ℕ → Option ℕ → Option ℕ
later_or none o = o
later_or (some at) o = some at

abbrev pub is_member : ℕ → Option ℕ → Bool
is_member id none = false
is_member id (some n) = n == id

module _ {F : Type 0} where
  unfoldable pub faction_at : ℕ → ℕ → List (Faction F) → Option ℕ
  faction_at id i [] = none
  faction_at id i (f ∷ fs) =
      later_or (faction_at id (suc i) fs) (if f.id == id then some i else none)

  abbrev pub joined_at : Option ℕ → List (Faction F) → Option ℕ
  joined_at none fs = none
  joined_at (some id) fs = faction_at id 0 fs

module _ {F : Type 0} ⦃d : Float F⦄ where
  unfoldable pub dues_part : ℕ → F
  dues_part wealth = d.mul (d.mul (d.of_ℕ wealth) agnosis) (d.lit 1 2)

  unfoldable pub dues_of : F → ℕ → ℕ
  dues_of part wealth =
      let due = d.trunc part in
      let charged = if ltb due 1 then 1 else due in if ltb wealth charged then wealth else charged

  abbrev pub pay_dues : ℕ → Option ℕ → ℕ → World F → World F
  pay_dues p none dues w = w
  pay_dues p (some at) dues w = credit (chest at) dues (debit (purse p) dues w)

  abbrev pub dues_found : ℕ → Option (Agent F) → World F → World F
  dues_found p none w = w
  dues_found p (some a) w =
      let paid =
        pay_dues p (joined_at a.faction_id w.factions) (dues_of (dues_part a.wealth) a.wealth) w in
      if a.alive && ltb 30 a.wealth then paid else w

  unfoldable pub dues_one : ℕ → World F → World F
  unfolding faction_at
  dues_one p w = dues_found p (get_elem? w.agents p) w

  -- `collectFactionDues`, over the agents at the given places
  unfoldable pub collect_faction_dues : List ℕ → World F → World F
  unfolding dues_one
  collect_faction_dues = each dues_one

  abbrev pub crown_bonus : SocialRole → F
  crown_bonus noble = being
  crown_bonus leader = being
  crown_bonus _ = one

  abbrev pub brotherhood_bonus : SocialRole → F
  brotherhood_bonus SocialRole.soldier = nous
  brotherhood_bonus outlaw = agnosis
  brotherhood_bonus _ = nought

  abbrev pub compact_bonus : Occupation → F
  compact_bonus Occupation.merchant = being
  compact_bonus _ = one

  abbrev pub circle_bonus : Occupation → F
  circle_bonus farmer = nous
  circle_bonus fisher = nous
  circle_bonus laborer = nous
  circle_bonus miner = nous
  circle_bonus alchemist = nous
  circle_bonus hunter = being
  circle_bonus Occupation.soldier = d.mul agnosis (d.lit 5 1)
  circle_bonus Occupation.merchant = d.mul agnosis (d.lit 5 1)
  circle_bonus _ = one

  abbrev pub path_bonus : AgentClass → F
  path_bonus nihilist = nous
  path_bonus transcendentalist = nous
  path_bonus _ = nought

  abbrev pub outlaw_bonus : SocialRole → F → F
  outlaw_bonus outlaw x = d.add x agnosis
  outlaw_bonus _ x = x

  -- `factionPatronageWeight`
  unfoldable pub patronage_weight : ℕ → Agent F → F
  patronage_weight id a =
      let wealth = d.of_ℕ a.wealth in
      if id == 1
      then d.mul (d.add one (d.mul a.citta_coherence being)) (crown_bonus a.role)
      else if id == 2
      then d.div (d.mul (d.add (d.mul a.trade being) agnosis) (compact_bonus a.occupation))
          (d.add one (d.mul (d.log1p wealth) agnosis))
      else if id == 3
      then d.add (d.mul a.combat nous) (brotherhood_bonus a.role)
      else if id == 4
      then d.mul (circle_bonus a.occupation) (d.add one (d.mul a.citta_coherence psyche))
      else if id == 5
      then (let part = d.div wealth (d.lit 5000 0) in
          let most = if d.lt part one then part else one in
          d.add (d.mul being (d.sub one most)) (outlaw_bonus a.role (path_bonus a.soul_class)))
      else nought

  -- The needs that patronage raises, before they are clamped.
  abbrev pub raise_needs : ℕ → NeedsState F → NeedsState F
  raise_needs id n =
      if id == 1
      then record n {
        esteem = add32 n.esteem (lit32 15 3);
        belonging = add32 n.belonging (lit32 10 3);
        safety = add32 n.safety (lit32 5 3);
      }
      else if id == 2
      then record n {
        purpose = add32 n.purpose (lit32 20 3);
        esteem = add32 n.esteem (lit32 10 3);
        safety = add32 n.safety (lit32 8 3);
      }
      else if id == 3
      then record n {
        safety = add32 n.safety (lit32 20 3);
        belonging = add32 n.belonging (lit32 15 3);
        esteem = add32 n.esteem (lit32 5 3);
      }
      else if id == 4
      then record n {
        purpose = add32 n.purpose (lit32 20 3);
        belonging = add32 n.belonging (lit32 15 3);
        survival = add32 n.survival (lit32 3 3);
      }
      else if id == 5
      then record n {
        belonging = add32 n.belonging (lit32 20 3);
        purpose = add32 n.purpose (lit32 15 3);
        safety = d.round32 (d.sub n.safety (lit32 5 3));
      }
      else n

  -- `applyPatronageNeeds`
  abbrev pub apply_patronage_needs : ℕ → Agent F → Agent F
  apply_patronage_needs id a = record a { needs = clamp_agent_needs (raise_needs id a.needs) }

  abbrev pub member_found : ℕ → ℕ → Option (Agent F) → List (ℕ × F) → List (ℕ × F)
  member_found id p none rest = rest
  member_found id p (some a) rest =
      let weight = patronage_weight id a in
      if a.alive && (is_member id a.faction_id && d.lt nought weight)
      then (p, weight) ∷ rest
      else rest

  -- `factionMembers[id]`, with the weights
  unfoldable pub faction_members : ℕ → World F → List ℕ → List (ℕ × F)
  faction_members id w [] = []
  faction_members id w (p ∷ ps) = member_found id p (get_elem? w.agents p) (faction_members id w ps)

  abbrev pub weights_sum : List (ℕ × F) → F → F
  weights_sum [] sum = sum
  weights_sum ((p, weight) ∷ ms) sum = weights_sum ms (d.add sum weight)

  -- The loop that pays the members, with `paid`.
  unfoldable pub pay_members : ℕ → ℕ → F → List (ℕ × F) → World F × ℕ → World F × ℕ
  pay_members id budget sum [] (w, paid) = (w, paid)
  pay_members id budget sum ((p, weight) ∷ ms) (w, paid) =
      let payment = d.trunc (d.div (d.mul (d.of_ℕ budget) weight) sum) in
      let skip = pay_members id budget sum ms (w, paid) in
      let pay = pay_members id budget sum ms (
        update_agent p (apply_patronage_needs id) (credit (purse p) payment w),
        add64 paid payment,
      ) in
      if payment == 0 then skip else if ltb budget (add64 paid payment) then (w, paid) else pay

  unfoldable pub patronage_budget : ℕ → F
  patronage_budget held = d.mul (d.mul (d.of_ℕ held) agnosis) (d.lit 1 1)

  abbrev pub has_no_members : List (ℕ × F) → Bool
  has_no_members [] = true
  has_no_members (m ∷ ms) = false

  -- `totalWeight == 0`
  abbrev pub is_zero : F → Bool
  is_zero x = d.le x nought && d.le nought x

  -- The faction at a place, with the members of before the first payment.
  unfoldable pub patronize : ℕ → ℕ → List (ℕ × F) → World F → World F
  unfolding pay_members
  patronize at id ms w =
      let budget = d.trunc (patronage_budget (balance (chest at) w)) in
      let sum = weights_sum ms nought in
      let (w', paid) = pay_members id budget sum ms (w, 0) in
      if ((balance (chest at) w == 0) || has_no_members ms) || ((budget == 0) || is_zero sum)
      then w
      else debit (chest at) paid w'

  -- The loop over the factions, from place `at` on, with the world of before.
  unfoldable pub patronize_all : World F → List ℕ → ℕ → List (Faction F) → World F → World F
  unfolding patronize faction_members
  patronize_all before ps at [] w = w
  patronize_all before ps at (f ∷ fs) w =
      patronize_all before ps (suc at) fs (patronize at f.id (faction_members f.id before ps) w)

  -- `distributeFactionPatronage`, with the agents at the given places
  unfoldable pub distribute_faction_patronage : List ℕ → World F → World F
  unfolding patronize_all
  distribute_faction_patronage ps w = patronize_all w ps 0 w.factions w
