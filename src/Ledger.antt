-- ===== src/Ledger.antt =====
-- The money of a Simulation (internal/engine/simulation.go): the agents, settlements and factions that
-- its pointers reach, as a store, and the accounts in it that hold crowns. A pointer is an index; a
-- write through an index that is out of range changes nothing.
pub mod Moves
pub mod Loops
pub mod Balances
use Prim.Native.String.{String}
use mini_world.Base.{
  [], ◌∷◌, ℕ, ◌+◌, ◌≤◌, ◌<◌, ◌≡◌, Option, none, some, List, length, get_elem?, modify, total,
}
use mini_world.Base.Word.{add64, sub64}
use mini_world.Model.Agents.{Agent}
use mini_world.Model.Settlements.{Settlement}

-- internal/social/faction.go, as far as money goes.
pub record Faction (F : Type 0) : Type 0 where
  pub id : ℕ
  pub treasury : ℕ
  -- `f.Influence[id]` with its `ok`
  pub influence : ℕ → Option F

pub record World (F : Type 0) : Type 0 where
  pub agents : List (Agent F)
  pub settlements : List (Settlement F)
  pub factions : List (Faction F)
  -- `SatBumpSaturatedCounter`, by source
  pub sat_bumps : List (String × ℕ)

-- Where crowns are: an agent's Wealth, a settlement's Treasury, a faction's Treasury.
pub data Account : Type 0 where
  purse treasury chest : ℕ → Account

module _ {F : Type 0} where
  abbrev pub update_agent : ℕ → (Agent F → Agent F) → World F → World F
  update_agent p f w = record w { agents = modify p f w.agents }

  abbrev pub update_settlement : ℕ → (Settlement F → Settlement F) → World F → World F
  update_settlement p f w = record w { settlements = modify p f w.settlements }

  -- What the pointers of a list lead to.
  unfoldable pub agents_at : World F → List ℕ → List (Agent F)
  agents_at w [] = []
  agents_at w (p ∷ ps) = elim (get_elem? w.agents p) [
    | none ↦ agents_at w ps
    | some a ↦ a ∷ agents_at w ps
  ]

  -- The ID of the settlement at a place.
  abbrev pub id_at : World F → ℕ → ℕ
  id_at w at = elim (get_elem? w.settlements at) [ none ↦ 0 | some s ↦ s.id ]

  abbrev pub wealth_of : Option (Agent F) → ℕ
  wealth_of none = 0
  wealth_of (some a) = a.wealth

  abbrev pub treasury_of : Option (Settlement F) → ℕ
  treasury_of none = 0
  treasury_of (some s) = s.treasury

  abbrev pub chest_of : Option (Faction F) → ℕ
  chest_of none = 0
  chest_of (some f) = f.treasury

  unfoldable pub balance : Account → World F → ℕ
  balance (purse p) w = wealth_of (get_elem? w.agents p)
  balance (treasury p) w = treasury_of (get_elem? w.settlements p)
  balance (chest p) w = chest_of (get_elem? w.factions p)

  unfoldable pub set_balance : Account → ℕ → World F → World F
  set_balance (purse p) v w = update_agent p (λ a. record a { wealth = v }) w
  set_balance (treasury p) v w = update_settlement p (λ s. record s { treasury = v }) w
  set_balance (chest p) v w = record w {
    factions = modify p (λ f. record f { treasury = v }) w.factions;
  }

  -- `x += c` and `x -= c` on the uint64 of an account.
  unfoldable pub credit : Account → ℕ → World F → World F
  unfolding balance set_balance
  credit a c w = set_balance a (add64 (balance a w) c) w

  unfoldable pub debit : Account → ℕ → World F → World F
  unfolding balance set_balance
  debit a c w = set_balance a (sub64 (balance a w) c) w

  -- All crowns in the world.
  unfoldable pub crowns : World F → ℕ
  crowns w =
      total (λ (a : Agent F). a.wealth) w.agents
      + total (λ (s : Settlement F). s.treasury) w.settlements
      + total (λ (f : Faction F). f.treasury) w.factions

  -- The account is there.
  abbrev pub Holds : World F → Account → Type 0
  Holds w (purse p) = p < length w.agents
  Holds w (treasury p) = p < length w.settlements
  Holds w (chest p) = p < length w.factions

  -- Nobody has come or gone.
  pub record SameShape (w w' : World F) : Type 0 where
    pub same_agents : length w'.agents ≡ length w.agents
    pub same_settlements : length w'.settlements ≡ length w.settlements
    pub same_factions : length w'.factions ≡ length w.factions

  -- Neither has a crown.
  pub record Conserves (w w' : World F) : Type 0 where
    pub same_crowns : crowns w' ≡ crowns w
    pub same_shape : SameShape w w'
