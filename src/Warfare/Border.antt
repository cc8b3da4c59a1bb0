-- ===== src/Warfare/Border.antt =====
-- What the border of captureHex in internal/engine/warfare.go is.
use mini_world.World.Route.Shortest.{same_hex-eq, same_hex_self}
use mini_world.World.Hex.{HexCoord, same_hex, neighbors}
use mini_world.Warfare.{Hex, is_id, claims, touches, is_border}
use mini_world.Base.{
  ℕ, ◌≡◌, refl, sym, ap, ◌∙◌, ◌≢◌, ◌⊎◌, inl, inr, Bool, true, false, ◌&&◌, ◌||◌, Option, none, some,
  List, [], ◌∷◌, arith, ◌==◌, Bool-cases, Any,
}

pub is_id-some : (id : ℕ) (o : Option ℕ) → is_id id o ≡ true → o ≡ some id
is_id-some id none h = cc
is_id-some id (some n) h = let e : n ≡ id = ground arith in ap some e

is_id_self : (id : ℕ) (o : Option ℕ) → o ≡ some id → is_id id o ≡ true
is_id_self id o e = let same : (id == id) ≡ true = ground arith in ap (is_id id) e ∙ same

or_cases : (a b : Bool) → (a || b) ≡ true → (a ≡ true) ⊎ (b ≡ true)
or_cases true b h = inl refl
or_cases false b h = inr h

or_left : (a b : Bool) → a ≡ true → (a || b) ≡ true
or_left a b h = rw h

or_right : (a b : Bool) → b ≡ true → (a || b) ≡ true
or_right true b h = refl
or_right false b h = h

module _ {F : Type 0} where
  -- A settlement claims a hex of the map with these coordinates.
  abbrev pub Claims : ℕ → List (Hex F) → HexCoord → Type 0
  Claims id hexes c = Any (λ (x : Hex F). (x.claimed_by ≡ some id) × (x.coord ≡ c)) hexes

  -- A hex that the loser claims, that is not where the loser stands, and that has a neighbour which
  -- the winner claims.
  abbrev pub IsOnBorder : ℕ → ℕ → List (Hex F) → Hex F → Type 0
  IsOnBorder winner loser hexes h =
      (h.claimed_by ≡ some loser)
      × (h.settlement_id ≢ some loser)
      × Any (Claims winner hexes) (neighbors h.coord)

  claims-Claims :
      (id : ℕ) (hexes : List (Hex F)) (c : HexCoord) → claims id hexes c ≡ true → Claims id hexes c
  unfolding claims
  claims-Claims id [] c h = cc
  claims-Claims id (x ∷ xs) c h =
      elim (or_cases (is_id id x.claimed_by && same_hex x.coord c) (claims id xs c) h) [
        | inl here ↦
            inl (is_id-some id x.claimed_by (ground arith), same_hex-eq x.coord c (ground arith))
        | inr later ↦ inr (claims-Claims id xs c later)
      ]

  Claims-claims :
      (id : ℕ) (hexes : List (Hex F)) (c : HexCoord) → Claims id hexes c → claims id hexes c ≡ true
  unfolding claims
  Claims-claims id [] c h = absurd h
  Claims-claims id (x ∷ xs) c (inl (owner, place)) =
      let same : same_hex x.coord c ≡ true =
        ap (same_hex x.coord) (sym place) ∙ same_hex_self x.coord in
      or_left _ (claims id xs c) (rw (is_id_self id x.claimed_by owner) same)
  Claims-claims id (x ∷ xs) c (inr later) =
      or_right (is_id id x.claimed_by && same_hex x.coord c) _ (Claims-claims id xs c later)

  touches-Any :
      (id : ℕ) (hexes : List (Hex F)) (cs : List HexCoord)
      → touches id hexes cs ≡ true
      → Any (Claims id hexes) cs
  unfolding touches
  touches-Any id hexes [] h = cc
  touches-Any id hexes (c ∷ cs) h = elim (or_cases (claims id hexes c) (touches id hexes cs) h) [
    | inl here ↦ inl (claims-Claims id hexes c here)
    | inr later ↦ inr (touches-Any id hexes cs later)
  ]

  Any-touches :
      (id : ℕ) (hexes : List (Hex F)) (cs : List HexCoord)
      → Any (Claims id hexes) cs
      → touches id hexes cs ≡ true
  unfolding touches
  Any-touches id hexes [] h = absurd h
  Any-touches id hexes (c ∷ cs) (inl here) =
      or_left _ (touches id hexes cs) (Claims-claims id hexes c here)
  Any-touches id hexes (c ∷ cs) (inr later) =
      or_right (claims id hexes c) _ (Any-touches id hexes cs later)

  pub is_border-IsOnBorder :
      (winner loser : ℕ) (hexes : List (Hex F)) (h : Hex F)
      → is_border winner loser hexes h ≡ true
      → IsOnBorder winner loser hexes h
  is_border-IsOnBorder winner loser hexes h border =
      let away : is_id loser h.settlement_id ≡ false = ground arith in
      (
        is_id-some loser h.claimed_by (ground arith),
        λ e. let clash : true ≡ false = sym (is_id_self loser h.settlement_id e) ∙ away in cc,
        touches-Any winner hexes (neighbors h.coord) (ground arith),
      )

  pub IsOnBorder-is_border :
      (winner loser : ℕ) (hexes : List (Hex F)) (h : Hex F)
      → IsOnBorder winner loser hexes h
      → is_border winner loser hexes h ≡ true
  IsOnBorder-is_border winner loser hexes h (owner, away, near) =
      elim (Bool-cases (is_id loser h.settlement_id)) [
        | inl e ↦ absurd (away (is_id-some loser h.settlement_id e))
        | inr e ↦
            rw (is_id_self loser h.claimed_by owner, e)
              (Any-touches winner hexes (neighbors h.coord) near)
      ]
