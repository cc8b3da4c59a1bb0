-- ===== src/Examples/Raids.antt =====
-- A won raid of settlement 1 on settlement 2, which claims its home and two hexes of the border.
use mini_world.Base.Int.{pos}
use mini_world.Warfare.{Hex, capture_hex}
use mini_world.Base.{ℕ, Option, none, some, List, [], ◌∷◌, arith}
use mini_world.Examples.Fixed.{fixed, fixed-IsOrdered}
use mini_world.Warfare.Capture.{Captures, capture_hex-Captures}

abbrev hex : ℕ → ℕ → ℕ → Option ℕ → Hex ℕ
hex x health owner home = record {
  coord = record { q = pos x; r = pos 0 };
  health = health;
  claimed_by = some owner;
  settlement_id = home;
}

abbrev frontier : List (Hex ℕ)
frontier =
    hex 0 900 1 (some 1)
    ∷ hex 1 300 2 none
    ∷ hex 3 800 1 none
    ∷ hex 2 700 2 none
    ∷ hex 4 950 2 (some 2)
    ∷ []

capture_hex-Captures_example :
    Captures ⦃d = fixed⦄ 1 2 frontier (capture_hex ⦃d = fixed⦄ 1 2 frontier)
capture_hex-Captures_example =
    capture_hex-Captures ⦃d = fixed⦄ fixed-IsOrdered 1 2 frontier (λ e. absurd (omega (arith, e)))
