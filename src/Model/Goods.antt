-- ===== src/Model/Goods.antt =====
-- Goods and inventories of internal/agents/types.go.
use mini_world.Base.{ℕ, Bool, ◌&&◌, List, [], ◌∷◌, ◌==◌, if◌then◌else◌}
use mini_world.Base.Int.{ℤ, pos, ◌+ℤ◌, eqb_ℤ}

pub data GoodType : Type 0 where
  grain timber iron_ore stone fish herbs gems furs coal exotics : GoodType
  tools weapons clothing medicine luxuries : GoodType

-- The value of the constant.
abbrev pub index : GoodType → ℕ
index grain = 0
index timber = 1
index iron_ore = 2
index stone = 3
index fish = 4
index herbs = 5
index gems = 6
index furs = 7
index coal = 8
index exotics = 9
index tools = 10
index weapons = 11
index clothing = 12
index medicine = 13
index luxuries = 14

abbrev pub same_good : GoodType → GoodType → Bool
same_good a b = index a == index b

-- The order in which a loop over an inventory visits the goods.
abbrev pub all_goods : List GoodType
all_goods =
    grain ∷ timber ∷ iron_ore ∷ stone ∷ fish ∷ herbs ∷ gems ∷ furs ∷ coal ∷ exotics ∷ tools
    ∷ weapons ∷ clothing ∷ medicine ∷ luxuries ∷ []

-- `GoodInventory`: Go's `int` quantities are unbounded integers here.
abbrev pub GoodInventory : Type 0
GoodInventory = GoodType → ℤ

-- `inv[good] += n`
unfoldable pub add_good : GoodType → ℤ → GoodInventory → GoodInventory
add_good good n inv g = if same_good g good then inv g +ℤ n else inv g

all_zero : List GoodType → GoodInventory → Bool
all_zero [] inv = Bool.true
all_zero (g ∷ gs) inv = eqb_ℤ (inv g) (pos 0) && all_zero gs inv

-- `GoodInventory.IsEmpty`
unfoldable pub is_empty : GoodInventory → Bool
unfolding all_zero
is_empty inv = all_zero all_goods inv

-- `GoodInventory.Clear`
unfoldable pub clear : GoodInventory → GoodInventory
clear inv g = pos 0
