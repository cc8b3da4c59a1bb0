-- ===== src/Governance/Revolution/Choice.antt =====
-- Which faction a revolution falls to.
use mini_world.Governance.Revolution.{takes_over, dominant_from, is_over}
use mini_world.Ledger.{Faction}
use mini_world.Base.{
  ℕ, suc, ◌≡◌, refl, inl, inr, Bool, true, false, ◌&&◌, Option, none, some, List, [], ◌∷◌,
  if◌then◌else◌, Bool-cases,
}
use mini_world.Base.Float.{Float, IsOrdered}

and_false : (a b : Bool) → b ≡ false → a && b ≡ false
and_false true b h = h
and_false false b h = refl

module _ {F : Type 0} ⦃d : Float F⦄ where
  -- The place of the first faction whose influence is over 40.
  abbrev pub first_over : ℕ → List (Faction F) → ℕ → Option ℕ
  first_over sett [] i = none
  first_over sett (f ∷ fs) i =
      let rest = first_over sett fs (suc i) in if is_over (f.influence sett) then some i else rest

  takes_over-none : IsOrdered F d → (inf : Option F) (best : ℕ) → takes_over inf (some best) ≡ false
  takes_over-none laws none best = refl
  takes_over-none laws (some inf) best = laws.lt_irrefl inf

  stays :
      IsOrdered F d
      → (sett : ℕ) (fs : List (Faction F)) (i best : ℕ)
      → dominant_from sett fs i (some best) ≡ some best
  unfolding dominant_from
  stays laws sett [] i best = refl
  stays laws sett (f ∷ fs) i best =
      let inf = f.influence sett in
      rw (and_false (is_over inf) (takes_over inf (some best)) (takes_over-none laws inf best))
        (stays laws sett fs (suc i) best)

  -- Where no float is less than itself, the faction that a revolution falls to is the first one
  -- in the list whose influence is over 40, whatever the influence of the others is.
  pub dominant_from-first_over :
      IsOrdered F d
      → (sett : ℕ) (fs : List (Faction F)) (i : ℕ)
      → dominant_from sett fs i none ≡ first_over sett fs i
  unfolding dominant_from
  dominant_from-first_over laws sett [] i = refl
  dominant_from-first_over laws sett (f ∷ fs) i = elim (Bool-cases (is_over (f.influence sett))) [
    | inl over ↦ rw over (stays laws sett fs (suc i) i)
    | inr under ↦ rw under (dominant_from-first_over laws sett fs (suc i))
  ]
