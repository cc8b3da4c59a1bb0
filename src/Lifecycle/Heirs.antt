-- ===== src/Lifecycle/Heirs.antt =====
-- Who inherits: the first of the residents who is alive and not the dead.
use mini_world.Model.Agents.{Agent}
use mini_world.Ledger.{World}
use mini_world.Lifecycle.{heir_of, is_heir}
use mini_world.Base.{
  ℕ, ◌≡◌, refl, ap, subst, ◌≢◌, inl, inr, true, false, Option, none, some, List, [], ◌∷◌, ◌++◌,
  arith, Option-cases, get_elem?, All, if_both,
}

module _ {F : Type 0} where
  -- A living agent with another ID stands at this place.
  abbrev pub CanInherit : ℕ → List (Agent F) → ℕ → Type 0
  CanInherit id as' p = (b : Agent F) × (get_elem? as' p ≡ some b) × (b.alive ≡ true) × (b.id ≢ id)

  -- The first in a list of places who can inherit, if there is one.
  abbrev pub IsFirstHeir : ℕ → List (Agent F) → List ℕ → Option ℕ → Type 0
  IsFirstHeir id as' ps none = All (λ p. ¬ CanInherit id as' p) ps
  IsFirstHeir id as' ps (some h) =
      (before after : List ℕ) × (ps ≡ before ++ h ∷ after)
      × All (λ p. ¬ CanInherit id as' p) before
      × CanInherit id as' h

  is_heir-CanInherit :
      (id : ℕ) (as' : List (Agent F)) (p : ℕ)
      → is_heir id (get_elem? as' p) ≡ true
      → CanInherit id as' p
  is_heir-CanInherit id as' p h = elim (Option-cases (get_elem? as' p)) [
    | inl gone ↦ let clash = subst (λ o. is_heir id o ≡ true) gone h in cc
    | inr (b, e) ↦
        let h' = subst (λ o. is_heir id o ≡ true) e h in
        (b, e, ground arith, λ same. ground (arith, same))
  ]

  not-CanInherit :
      (id : ℕ) (as' : List (Agent F)) (p : ℕ)
      → is_heir id (get_elem? as' p) ≡ false
      → ¬ CanInherit id as' p
  not-CanInherit id as' p h (b, e, lives, other) =
      let h' = subst (λ o. is_heir id o ≡ false) e h in ground arith

  IsFirstHeir-skip :
      (id : ℕ) (as' : List (Agent F)) (p : ℕ) (ps : List ℕ) (o : Option ℕ)
      → ¬ CanInherit id as' p
      → IsFirstHeir id as' ps o
      → IsFirstHeir id as' (p ∷ ps) o
  IsFirstHeir-skip id as' p ps none not_p first = (not_p, first)
  IsFirstHeir-skip id as' p ps (some h) not_p (before, after, split, none_before, can) =
      (p ∷ before, after, ap (λ qs. p ∷ qs) split, (not_p, none_before), can)

  pub heir_of-IsFirstHeir :
      (id : ℕ) (w : World F) (ps : List ℕ) → IsFirstHeir id w.agents ps (heir_of id w ps)
  unfolding heir_of
  heir_of-IsFirstHeir id w [] = tt
  heir_of-IsFirstHeir id w (p ∷ ps) =
      if_both (IsFirstHeir id w.agents (p ∷ ps)) (is_heir id (get_elem? w.agents p))
        (λ heir. ([], ps, refl, tt, is_heir-CanInherit id w.agents p heir))
        (λ not_heir.
          IsFirstHeir-skip id w.agents p ps (heir_of id w ps)
            (not-CanInherit id w.agents p not_heir) (heir_of-IsFirstHeir id w ps))
