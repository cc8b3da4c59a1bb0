-- ===== src/Model/Settlements.antt =====
-- Markets of internal/economy/goods.go and settlements of internal/social/settlement.go.
use Prim.Native.String.{String}
use mini_world.Base.{ℕ, Option, none, some, List, [], ◌∷◌, if◌then◌else◌}
use mini_world.Model.Goods.{GoodType, same_good}
use mini_world.World.Hex.{HexCoord}

pub record MarketEntry (F : Type 0) : Type 0 where
  pub supply : F
  pub demand : F
  pub price : F
  pub base_price : F

-- The map of entries, in the order in which a `range` loop happens to visit it.
abbrev pub Entries : Type 0 → Type 0
Entries F = List (GoodType × MarketEntry F)

pub record Market (F : Type 0) : Type 0 where
  pub entries : Entries F
  pub trade_count : ℕ
  pub most_traded_good : GoodType

module _ {F : Type 0} where
  -- `market.Entries[good]` with its `ok`
  unfoldable pub entry_of : GoodType → Entries F → Option (MarketEntry F)
  entry_of g [] = none
  entry_of g ((k, e) ∷ es) = if same_good k g then some e else entry_of g es

pub data GovernanceType : Type 0 where
  monarchy council merchant_republic commune : GovernanceType

pub record Settlement (F : Type 0) : Type 0 where
  pub id : ℕ
  pub name : String
  pub position : HexCoord
  pub population : ℕ
  pub governance : GovernanceType
  pub leader_id : Option ℕ
  pub tax_rate : F
  pub treasury : ℕ
  pub culture_tradition : F
  pub culture_openness : F
  pub culture_militarism : F
  pub wall_level : ℕ
  pub road_level : ℕ
  pub market_level : ℕ
  pub governance_score : F
  pub market : Option (Market F)
