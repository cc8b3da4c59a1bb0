-- ===== src/Simulation.antt =====
-- The state of internal/engine/simulation.go beyond its money: the index of the residents, which
-- rebuildSettlementAgents makes from the homes of the agents, and updateSettlementPopulations of
-- perpetuation.go, the events and the active boosts of intervention.go.
pub mod Index
use mini_world.Base.Int.{ℤ}
use Prim.Native.String.{String}
use mini_world.Base.Maps.{get, put, Key-ℕ}
use mini_world.Base.Word.{add32}
use mini_world.Ledger.{World}
use mini_world.Model.Agents.{Agent}
use mini_world.Model.Settlements.{Settlement}
use mini_world.Base.{
  ℕ, zero, suc, ◌+◌, ◌-◌, ◌*◌, ◌≤◌, ◌<◌, ◌^◌, ◌≡◌, refl, sym, ap, subst, ◌∙◌, ◌≢◌, ◌⊎◌, inl, inr,
  Bool, true, false, not, ◌&&◌, ◌||◌, Option, none, some, List, [], ◌∷◌, ◌++◌, arith, ltb, leb,
  ◌==◌, if◌then◌else◌, tests, Bool-cases, Option-cases, length, get_elem?, modify, All, Any, total,
}

-- A formatted text keeps its pieces apart: `%s`, `%d`, `%.1f`.
pub data Fragment (F : Type 0) : Type 0 where
  say : String → Fragment F
  int : ℤ → Fragment F
  tenths : F → Fragment F

pub record Event (F : Type 0) : Type 0 where
  pub tick : ℕ
  pub description : List (Fragment F)
  pub category : String

-- `ProductionBoost`
pub record Boost (F : Type 0) : Type 0 where
  pub settlement_id : ℕ
  pub multiplier : F
  pub expires_at : ℕ

pub record Sim (F : Type 0) : Type 0 where
  pub world : World F
  -- `SettlementAgents`
  pub settlement_agents : List (ℕ × List ℕ)
  -- `AgentIndex`, from IDs to places
  pub agent_index : List (ℕ × ℕ)
  pub active_boosts : List (Boost F)
  pub last_tick : ℕ
  pub events : List (Event F)

abbrev pub or_nil : Option (List ℕ) → List ℕ
or_nil none = []
or_nil (some ps) = ps

-- `s.SettlementAgents[id]`
abbrev pub residents : ℕ → List (ℕ × List ℕ) → List ℕ
residents id m = or_nil (get id m)

abbrev pub add_resident : Option ℕ → ℕ → List (ℕ × List ℕ) → List (ℕ × List ℕ)
add_resident none p m = m
add_resident (some id) p m = put id (residents id m ++ p ∷ []) m

module _ {F : Type 0} where
  -- The loop of `rebuildSettlementAgents`, from the agent at `p` on.
  unfoldable pub index_agents : ℕ → List (Agent F) → List (ℕ × List ℕ) → List (ℕ × List ℕ)
  index_agents p [] m = m
  index_agents p (a ∷ xs) m =
      index_agents (suc p) xs (if a.alive then add_resident a.home_sett_id p m else m)

  abbrev pub is_alive : Option (Agent F) → Bool
  is_alive none = false
  is_alive (some a) = a.alive

  -- The loop over the residents that counts the living, on a uint32.
  unfoldable pub count_alive : List (Agent F) → List ℕ → ℕ → ℕ
  count_alive agents [] n = n
  count_alive agents (p ∷ ps) n =
      count_alive agents ps (if is_alive (get_elem? agents p) then add32 n 1 else n)

  unfoldable pub update_populations :
      List (Agent F) → List (ℕ × List ℕ) → List (Settlement F) → List (Settlement F)
  update_populations agents m [] = []
  update_populations agents m (s ∷ ss) =
      record s { population = count_alive agents (residents s.id m) 0 }
      ∷ update_populations agents m ss

  -- `rebuildSettlementAgents`
  unfoldable pub rebuild_settlement_agents : Sim F → Sim F
  rebuild_settlement_agents s =
      let m = index_agents 0 s.world.agents [] in
      record s {
        settlement_agents = m;
        world = record s.world {
          settlements = update_populations s.world.agents m s.world.settlements;
        };
      }

  -- `EmitEvent`, as far as the stored events go.
  unfoldable pub emit : Event F → Sim F → Sim F
  emit e s = record s { events = s.events ++ e ∷ [] }
