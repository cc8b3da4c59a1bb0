-- ===== src/Ledger/Loops.antt =====
-- Loops over agents: a rule for what each round keeps.
use mini_world.Base.{refl, ℕ, ◌<◌, ◌≡◌, ◌∙◌, arith, List, [], ◌∷◌, length, All, All-map}
use mini_world.Ledger.{World, crowns, Conserves, SameShape}
use mini_world.Ledger.Moves.{Conserves-refl, Conserves-trans, SameShape-refl, SameShape-trans}

-- The pointers of a list all lead to agents.
abbrev pub AreAgents : {F : Type 0} → World F → List ℕ → Type 0
AreAgents w = All (λ p. p < length w.agents)

-- The places of a list all hold settlements.
abbrev pub AreSettlements : {F : Type 0} → World F → List ℕ → Type 0
AreSettlements w = All (λ at. at < length w.settlements)

module _ {F : Type 0} where
  pub AreSettlements-mono :
      (w w' : World F) (places : List ℕ)
      → SameShape w w'
      → AreSettlements w places
      → AreSettlements w' places
  AreSettlements-mono w w' places s h =
      All-map {P = λ p. p < length w.settlements} {Q = λ p. p < length w'.settlements}
        (λ p k. omega arith) places h

  pub AreAgents-mono :
      (w w' : World F) (ps : List ℕ) → SameShape w w' → AreAgents w ps → AreAgents w' ps
  AreAgents-mono w w' ps s h =
      All-map {P = λ p. p < length w.agents} {Q = λ p. p < length w'.agents} (λ p k. omega arith) ps
        h

  unfoldable pub each : (ℕ → World F → World F) → List ℕ → World F → World F
  each f [] w = w
  each f (p ∷ ps) w = each f ps (f p w)

  pub each-Conserves :
      (f : ℕ → World F → World F) (ps : List ℕ) (w : World F)
      → ((p : ℕ) (u : World F)
          → p < length u.agents
          → crowns u ≡ crowns w
          → SameShape w u
          → Conserves u (f p u))
      → AreAgents w ps
      → Conserves w (each f ps w)
  unfolding each
  each-Conserves f [] w keep h = Conserves-refl w
  each-Conserves f (p ∷ ps) w keep (hp, hps) =
      let first = keep p w hp refl (SameShape-refl w) in
      Conserves-trans first (
        each-Conserves f ps (f p w)
          (λ q u hq e s. keep q u hq (e ∙ first.same_crowns) (SameShape-trans first.same_shape s))
          (AreAgents-mono w (f p w) ps first.same_shape hps))
