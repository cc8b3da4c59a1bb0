-- ===== src/Interventions/Consolidate/Nearest.antt =====
-- The target of ConsolidateSettlement is the nearest viable settlement.
use mini_world.World.Hex.{distance}
use mini_world.Model.Settlements.{Settlement}
use mini_world.Interventions.Consolidate.{target_from, is_nearer}
use mini_world.Base.{
  ℕ, ◌≤◌, ◌<◌, ◌≡◌, refl, ◌≢◌, inl, inr, true, false, Option, none, some, List, [], ◌∷◌, arith,
  Bool-cases, All,
}

module _ {F : Type 0} where
  -- A settlement that may take refugees: another one, of at least 50, within 8 hexes.
  abbrev pub IsShelter : Settlement F → Settlement F → Type 0
  IsShelter source s =
      (s.id ≢ source.id) × (50 ≤ s.population) × (distance source.position s.position ≤ 8)

  -- The best one so far, with its distance.
  abbrev IsBestSoFar : Settlement F → Option (Settlement F) → ℕ → Type 0
  IsBestSoFar source none best_dist = best_dist ≡ 999
  IsBestSoFar source (some t) best_dist =
      IsShelter source t × (distance source.position t.position ≡ best_dist)

  -- No shelter is nearer.
  abbrev pub IsNearest : Settlement F → List (Settlement F) → Option (Settlement F) → Type 0
  IsNearest source ss none = All (λ s. ¬ IsShelter source s) ss
  IsNearest source ss (some t) =
      IsShelter source t
      × All
          (λ s.
            IsShelter source s
            → distance source.position t.position ≤ distance source.position s.position)
          ss

  -- The same, with the distance that the loop started from.
  abbrev IsNearestFrom : Settlement F → ℕ → List (Settlement F) → Option (Settlement F) → Type 0
  IsNearestFrom source best_dist ss none = (best_dist ≡ 999) × All (λ s. ¬ IsShelter source s) ss
  IsNearestFrom source best_dist ss (some t) =
      IsShelter source t
      × (distance source.position t.position ≤ best_dist)
      × All
          (λ s.
            IsShelter source s
            → distance source.position t.position ≤ distance source.position s.position)
          ss

  nearer-IsShelter :
      (source s : Settlement F) (best_dist : ℕ)
      → is_nearer source s best_dist ≡ true
      → IsShelter source s × (distance source.position s.position < best_dist)
  nearer-IsShelter source s best_dist h = ground arith

  not_nearer :
      (source s : Settlement F) (best_dist : ℕ)
      → is_nearer source s best_dist ≡ false
      → IsShelter source s
      → best_dist ≤ distance source.position s.position
  not_nearer source s best_dist h shelter = ground arith

  add_nearer :
      (source s : Settlement F) (best_dist : ℕ) (ss : List (Settlement F))
      (r : Option (Settlement F))
      → is_nearer source s best_dist ≡ true
      → IsNearestFrom source (distance source.position s.position) ss r
      → IsNearestFrom source best_dist (s ∷ ss) r
  add_nearer source s best_dist ss none h (far, others) =
      let (shelter, near) = nearer-IsShelter source s best_dist h in absurd (omega arith)
  add_nearer source s best_dist ss (some t) h (shelter, le, all) =
      let (_, near) = nearer-IsShelter source s best_dist h in
      (shelter, omega arith, ((λ _. le), all))

  add_farther :
      (source s : Settlement F) (best_dist : ℕ) (ss : List (Settlement F))
      (r : Option (Settlement F))
      → is_nearer source s best_dist ≡ false
      → IsNearestFrom source best_dist ss r
      → IsNearestFrom source best_dist (s ∷ ss) r
  add_farther source s best_dist ss none h (far, others) =
      let away = λ (shelter : IsShelter source s).
        let le = not_nearer source s best_dist h shelter in
        let (_, _, near) = shelter in absurd (omega arith) in
      (far, (away, others))
  add_farther source s best_dist ss (some t) h (shelter, le, all) =
      (shelter, le, ((λ other. let ge = not_nearer source s best_dist h other in omega arith), all))

  target_from-IsNearestFrom :
      (source : Settlement F) (ss : List (Settlement F)) (best : Option (Settlement F))
      (best_dist : ℕ)
      → IsBestSoFar source best best_dist
      → IsNearestFrom source best_dist ss (target_from source ss best best_dist)
  unfolding target_from
  target_from-IsNearestFrom source [] none best_dist h = (h, tt)
  target_from-IsNearestFrom source [] (some t) best_dist (shelter, e) = (shelter, omega arith, tt)
  target_from-IsNearestFrom source (s ∷ ss) best best_dist h =
      elim (Bool-cases (is_nearer source s best_dist)) [
        | inl near ↦
            let start = (nearer-IsShelter source s best_dist near).0 in
            add_nearer source s best_dist ss _ near (
              rw near (
                target_from-IsNearestFrom source ss (some s) (distance source.position s.position)
                  (start, refl)))
        | inr far ↦
            add_farther source s best_dist ss _ far
              (rw far (target_from-IsNearestFrom source ss best best_dist h))
      ]

  from_start :
      (source : Settlement F) (ss : List (Settlement F)) (r : Option (Settlement F))
      → IsNearestFrom source 999 ss r
      → IsNearest source ss r
  from_start source ss none (_, others) = others
  from_start source ss (some t) (shelter, _, all) = (shelter, all)

  -- The target of the refugees is another settlement of at least 50 people within 8 hexes, and no
  -- other such settlement is nearer; where there is no target there is no such settlement.
  pub target_from-IsNearest :
      (source : Settlement F) (ss : List (Settlement F))
      → IsNearest source ss (target_from source ss none 999)
  target_from-IsNearest source ss =
      from_start source ss (target_from source ss none 999)
        (target_from-IsNearestFrom source ss none 999 refl)
