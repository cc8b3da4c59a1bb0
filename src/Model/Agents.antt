-- ===== src/Model/Agents.antt =====
-- Agents of internal/agents/types.go, their needs (needs.go) and their memories (memory.go), with the
-- fields that the modelled code reads or writes.
use Prim.Native.String.{String}
use mini_world.Base.{ℕ, Bool, Option, List}
use mini_world.Model.Goods.{GoodInventory}
use mini_world.World.Hex.{HexCoord}

pub data Occupation : Type 0 where
  farmer miner crafter merchant soldier scholar alchemist laborer fisher hunter : Occupation

pub data CognitionTier : Type 0 where
  tier0 tier1 tier2 : CognitionTier

-- internal/agents/soul.go
pub data AgentClass : Type 0 where
  devotionalist ritualist nihilist transcendentalist : AgentClass

pub data SocialRole : Type 0 where
  commoner merchant soldier noble leader outlaw scholar : SocialRole

pub record NeedsState (F : Type 0) : Type 0 where
  pub survival : F
  pub safety : F
  pub belonging : F
  pub esteem : F
  pub purpose : F

-- A formatted text keeps its pieces apart.
pub data Piece : Type 0 where
  words : String → Piece
  number : ℕ → Piece

pub record Memory (F : Type 0) : Type 0 where
  pub tick : ℕ
  pub content : List Piece
  pub importance : F

pub record Agent (F : Type 0) : Type 0 where
  pub id : ℕ
  pub age : ℕ
  pub position : HexCoord
  pub home_sett_id : Option ℕ
  pub faction_id : Option ℕ
  pub occupation : Occupation
  pub inventory : GoodInventory
  pub wealth : ℕ
  pub combat : F
  pub trade : F
  pub role : SocialRole
  pub tier : CognitionTier
  pub satisfaction : F
  pub citta_coherence : F
  pub soul_class : AgentClass
  pub needs : NeedsState F
  pub trade_dest_sett : Option ℕ
  pub trade_cargo : GoodInventory
  pub travel_ticks_left : ℕ
  pub consignment_debt : ℕ
  pub trade_preferred_dest : Option ℕ
  pub memories : List (Memory F)
  pub born_tick : ℕ
  pub alive : Bool

abbrev pub is_occupied : Occupation → Occupation → Bool
is_occupied farmer farmer = Bool.true
is_occupied miner miner = Bool.true
is_occupied crafter crafter = Bool.true
is_occupied Occupation.merchant Occupation.merchant = Bool.true
is_occupied Occupation.soldier Occupation.soldier = Bool.true
is_occupied Occupation.scholar Occupation.scholar = Bool.true
is_occupied alchemist alchemist = Bool.true
is_occupied laborer laborer = Bool.true
is_occupied fisher fisher = Bool.true
is_occupied hunter hunter = Bool.true
is_occupied _ _ = Bool.false

abbrev pub is_tier2 : CognitionTier → Bool
is_tier2 tier2 = Bool.true
is_tier2 _ = Bool.false
