-- ===== src/Simulation/Index.antt =====
-- The index of the residents, after a rebuild, is what the homes of the living agents say.
use mini_world.Base.Word.{add32_exact}
use mathlib.Core.List.{append-nil, append_assoc}
use mini_world.Base.Maps.{get-put}
use mini_world.Simulation.{
  Sim, index_agents, add_resident, residents, is_alive, count_alive, update_populations,
  rebuild_settlement_agents, Agent, add32, Settlement,
}
use mini_world.Base.{
  ℕ, suc, ◌+◌, ◌<◌, ◌^◌, ◌≡◌, refl, sym, ap, subst, ◌∙◌, inl, inr, Bool, false, ◌&&◌, Option, none,
  some, List, [], ◌∷◌, ◌++◌, arith, ◌==◌, if◌then◌else◌, Bool-cases, length, get_elem?, All, total,
}

abbrev pub lives_at : ℕ → Option ℕ → Bool
lives_at id none = false
lives_at id (some home) = home == id

residents-add_resident :
    (id : ℕ) (home : Option ℕ) (p : ℕ) (m : List (ℕ × List ℕ))
    → residents id (add_resident home p m)
      ≡ (if lives_at id home then residents id m ++ p ∷ [] else residents id m)
residents-add_resident id none p m = refl
residents-add_resident id (some home) p m = elim (Bool-cases (home == id)) [
  | inl same ↦
      let e : home ≡ id = ground arith in
      rw (get-put home id (residents home m ++ p ∷ []) m, same, e)
  | inr other ↦ rw (get-put home id (residents home m ++ p ∷ []) m, other)
]

module _ {F : Type 0} where
  -- The places of the living agents with a home, in order.
  abbrev pub homed_at : ℕ → ℕ → List (Agent F) → List ℕ
  homed_at id p [] = []
  homed_at id p (a ∷ xs) =
      let rest = homed_at id (suc p) xs in
      if a.alive && lives_at id a.home_sett_id then p ∷ rest else rest

  pub residents-index_agents :
      (id p : ℕ) (xs : List (Agent F)) (m : List (ℕ × List ℕ))
      → residents id (index_agents p xs m) ≡ residents id m ++ homed_at id p xs
  unfolding index_agents
  residents-index_agents id p [] m = sym (append-nil (residents id m))
  residents-index_agents id p (a ∷ xs) m =
      let next = if a.alive then add_resident a.home_sett_id p m else m in
      residents-index_agents id (suc p) xs next ∙ (elim (Bool-cases a.alive) [
        | inl up ↦ elim (Bool-cases (lives_at id a.home_sett_id)) [
          | inl at ↦ rw (up, residents-add_resident id a.home_sett_id p m, at, append_assoc)
          | inr away ↦ rw (up, residents-add_resident id a.home_sett_id p m, away)
        ]
        | inr down ↦ rw down
      ])

  -- How many living agents there are with a home.
  abbrev pub living_in : ℕ → List (Agent F) → ℕ
  living_in id xs =
      total (λ (a : Agent F). if a.alive && lives_at id a.home_sett_id then 1 else 0) xs

  count_alive-homed_at :
      (id p : ℕ) (all xs : List (Agent F)) (n : ℕ)
      → ((i : ℕ) → get_elem? all (p + i) ≡ get_elem? xs i)
      → n + length xs < 2 ^ 32
      → count_alive all (homed_at id p xs) n ≡ n + living_in id xs
  unfolding count_alive
  count_alive-homed_at id p all [] n at fits = omega arith
  count_alive-homed_at id p all (a ∷ xs) n at fits =
      let zero_off : p + 0 ≡ p = omega arith in
      let mine : get_elem? all p ≡ some a = subst (λ q. get_elem? all q ≡ some a) zero_off (at 0) in
      let later : (i : ℕ) → get_elem? all (suc p + i) ≡ get_elem? xs i = λ i.
        let off : p + suc i ≡ suc p + i = omega arith in
        subst (λ q. get_elem? all q ≡ get_elem? xs i) off (at (suc i)) in
      elim (Bool-cases a.alive) [
        | inl up ↦ elim (Bool-cases (lives_at id a.home_sett_id)) [
          | inl here ↦
              let step : add32 n 1 ≡ n + 1 = add32_exact n 1 (omega arith) in
              let rest = count_alive-homed_at id (suc p) all xs (n + 1) later (omega arith) in
              let one_more : (if is_alive (get_elem? all p) then add32 n 1 else n) ≡ n + 1 =
                rw (mine, up, step) in
              rw (up, here)
                (ap (count_alive all (homed_at id (suc p) xs)) one_more ∙ rest ∙ omega arith)
          | inr away ↦
              rw (up, away)
                (count_alive-homed_at id (suc p) all xs n later (omega arith) ∙ omega arith)
        ]
        | inr down ↦
            rw down (count_alive-homed_at id (suc p) all xs n later (omega arith) ∙ omega arith)
      ]

  unfoldable pub AreCounted : List (Agent F) → List (Settlement F) → Type 0
  AreCounted agents = All (λ (s : Settlement F). s.population ≡ living_in s.id agents)

  update_populations-AreCounted :
      (agents : List (Agent F)) (ss : List (Settlement F))
      → length agents < 2 ^ 32
      → AreCounted agents (update_populations agents (index_agents 0 agents []) ss)
  unfolding update_populations AreCounted
  update_populations-AreCounted agents [] fits = tt
  update_populations-AreCounted agents (s ∷ ss) fits =
      let found = residents-index_agents s.id 0 agents [] in
      let counted =
        count_alive-homed_at s.id 0 agents agents 0 (λ i. let e : 0 + i ≡ i = omega arith in rw e)
          (omega arith) in
      (
        ap (λ ps. count_alive agents ps 0) found ∙ counted ∙ omega arith,
        update_populations-AreCounted agents ss fits,
      )

  -- Where there are fewer than 2^32 agents, after the rebuild the residents of every settlement
  -- are just the living agents with their home there, in the order of the agents, and its
  -- population is their number.
  pub rebuild_settlement_agents-IsCensus :
      (s : Sim F)
      → length s.world.agents < 2 ^ 32
      → ((id : ℕ)
          → residents id (rebuild_settlement_agents s).settlement_agents
            ≡ homed_at id 0 s.world.agents)
        × AreCounted s.world.agents (rebuild_settlement_agents s).world.settlements
  unfolding rebuild_settlement_agents
  rebuild_settlement_agents-IsCensus s fits = (
    (λ id. residents-index_agents id 0 s.world.agents []),
    update_populations-AreCounted s.world.agents s.world.settlements fits,
  )
