-- ===== src/Warfare/Capture.antt =====
-- What a won raid does to the claims on the map.
use mini_world.Warfare.Border.{is_id-some, IsOnBorder, IsOnBorder-is_border, is_border-IsOnBorder}
use mini_world.World.Hex.{HexCoord}
use mini_world.Base.Float.{Float, IsOrdered}
use mini_world.Warfare.{
  is_id, Hex, best_border, capture_hex, is_border, is_fitter, count_claimed, transfer, take_over,
}
use mini_world.Base.{
  ℕ, suc, ◌+◌, ◌≤◌, ◌≡◌, refl, sym, ap, subst, ◌≢◌, ◌⊎◌, inl, inr, Bool, true, false, ◌&&◌, Option,
  none, some, List, [], ◌∷◌, arith, leb, ◌==◌, if◌then◌else◌, tests, Bool-cases, get_elem?, modify,
  All, if_both, total-modify, get_elem?-modify_self, get_elem?-modify_ne,
}

abbrev one_if : Bool → ℕ
one_if b = if b then 1 else 0

one_if_yes : (a b : ℕ) → a ≡ b → one_if (a == b) ≡ 1
one_if_yes a b e = let same : (a == b) ≡ true = ground arith in ap one_if same

one_if_no : (a b : ℕ) → a ≢ b → one_if (a == b) ≡ 0
one_if_no a b ne = let apart : (a == b) ≡ false = ground arith in ap one_if apart

module _ {F : Type 0} ⦃d : Float F⦄ where
  -- The choice so far is a hex of the border, at its place.
  abbrev pub IsBorderAt : ℕ → ℕ → List (Hex F) → Option (ℕ × Hex F) → Type 0
  IsBorderAt winner loser all none = Unit
  IsBorderAt winner loser all (some (at, h)) =
      (get_elem? all at ≡ some h) × (is_border winner loser all h ≡ true)

  claims-take_over :
      (winner loser at : ℕ) (hexes : List (Hex F)) {h : Hex F}
      → get_elem? hexes at ≡ some h
      → is_id loser h.claimed_by ≡ true
      → (id : ℕ)
      → count_claimed id (modify at (take_over winner) hexes) + one_if (loser == id)
        ≡ count_claimed id hexes + one_if (winner == id)
  claims-take_over winner loser at hexes {h} found held id =
      let owner : h.claimed_by ≡ some loser = is_id-some loser h.claimed_by held in
      subst
        (λ o.
          count_claimed id (modify at (take_over winner) hexes) + one_if (is_id id o)
          ≡ count_claimed id hexes + one_if (winner == id))
        owner
        (total-modify (λ (x : Hex F). one_if (is_id id x.claimed_by)) at (take_over winner) hexes
          found)

  -- There is a choice, and its health is not below.
  abbrev pub IsAtLeast : F → Option (ℕ × Hex F) → Type 0
  IsAtLeast x none = ⊥
  IsAtLeast x (some (at, h)) = d.lt h.health x ≡ false

  best_border-IsBorderAt :
      (winner loser : ℕ) (all : List (Hex F)) (i : ℕ) (hs : List (Hex F))
      (best : Option (ℕ × Hex F))
      → ((k : ℕ) → get_elem? all (i + k) ≡ get_elem? hs k)
      → IsBorderAt winner loser all best
      → IsBorderAt winner loser all (best_border winner loser all i hs best)
  unfolding best_border
  best_border-IsBorderAt winner loser all i [] best at ok = ok
  best_border-IsBorderAt winner loser all i (h ∷ hs) best at ok =
      let zero_off : i + 0 ≡ i = omega arith in
      let here : get_elem? all i ≡ some h = subst (λ j. get_elem? all j ≡ some h) zero_off (at 0) in
      best_border-IsBorderAt winner loser all (suc i) hs _
        (λ k.
          let off : i + suc k ≡ suc i + k = omega arith in
          subst (λ j. get_elem? all j ≡ get_elem? hs k) off (at (suc k)))
        (if_both (IsBorderAt winner loser all) (is_border winner loser all h && is_fitter best h)
          (λ t. (here, ground arith)) (λ _. ok))

  -- A fitter choice is still at least what the one before was.
  fitter-IsAtLeast :
      IsOrdered F d
      → (i : ℕ) (h : Hex F) (x : F) (best : Option (ℕ × Hex F)) → is_fitter best h ≡ true
      → IsAtLeast x best
      → IsAtLeast x (some (i, h))
  fitter-IsAtLeast o i h x none fitter low = absurd low
  fitter-IsAtLeast o i h x (some (at, b)) fitter low = elim (Bool-cases (d.lt h.health x)) [
    | inl less ↦ let clash = o.lt_trans b.health h.health x fitter less in cc
    | inr e ↦ e
  ]

  best_border-grows :
      IsOrdered F d
      → (winner loser : ℕ) (all : List (Hex F)) (i : ℕ) (hs : List (Hex F))
        (best : Option (ℕ × Hex F)) (x : F)
      → IsAtLeast x best
      → IsAtLeast x (best_border winner loser all i hs best)
  unfolding best_border
  best_border-grows o winner loser all i [] best x low = low
  best_border-grows o winner loser all i (h ∷ hs) best x low =
      best_border-grows o winner loser all (suc i) hs _ x (
        if_both (IsAtLeast x) (is_border winner loser all h && is_fitter best h)
          (λ t. fitter-IsAtLeast o i h x best (ground arith) low) (λ _. low))

  not_fitter :
      (h : Hex F) (best : Option (ℕ × Hex F)) → is_fitter best h ≡ false → IsAtLeast h.health best
  not_fitter h none e = cc
  not_fitter h (some (at, b)) e = e

  best_border-tops :
      IsOrdered F d
      → (winner loser : ℕ) (all : List (Hex F)) (i : ℕ) (hs : List (Hex F))
        (best : Option (ℕ × Hex F))
      → All
          (λ (x : Hex F).
            is_border winner loser all x ≡ true
            → IsAtLeast x.health (best_border winner loser all i hs best))
          hs
  unfolding best_border
  best_border-tops o winner loser all i [] best = tt
  best_border-tops o winner loser all i (h ∷ hs) best = (
    (λ border. best_border-grows o winner loser all (suc i) hs _ h.health (
        if_both (IsAtLeast h.health) (is_border winner loser all h && is_fitter best h)
          (λ t. o.lt_irrefl h.health) (λ f. not_fitter h best (ground arith)))),
    best_border-tops o winner loser all (suc i) hs _,
  )

  -- What the map is afterwards: either as it was, or with one hex of the border, the healthiest, gone
  -- from the loser, who keeps another one, to the winner; the hexes at all other places are as before.
  abbrev pub Captures : ℕ → ℕ → List (Hex F) → Option HexCoord × List (Hex F) → Type 0
  Captures winner loser hexes (none, hexes') =
      (hexes' ≡ hexes)
      × ((count_claimed loser hexes ≤ 1)
          ⊎ All (λ (x : Hex F). ¬ IsOnBorder winner loser hexes x) hexes)
  Captures winner loser hexes (some c, hexes') =
      (at : ℕ) × (h : Hex F) × (get_elem? hexes at ≡ some h)
      × (h.coord ≡ c)
      × (get_elem? hexes' at ≡ some (record h { claimed_by = some winner }))
      × ((i : ℕ) → i ≢ at → get_elem? hexes' i ≡ get_elem? hexes i)
      × IsOnBorder winner loser hexes h
      × All (λ (x : Hex F). IsOnBorder winner loser hexes x → d.lt h.health x.health ≡ false) hexes
      × (count_claimed loser hexes' + 1 ≡ count_claimed loser hexes)
      × (1 ≤ count_claimed loser hexes')
      × (count_claimed winner hexes' ≡ count_claimed winner hexes + 1)
      × ((id : ℕ) → id ≢ winner → id ≢ loser → count_claimed id hexes' ≡ count_claimed id hexes)

  -- What holds of the hexes that pass the test of the code holds of those on the border.
  on_border :
      (winner loser : ℕ) (all : List (Hex F)) (P : Hex F → Type 0) (hs : List (Hex F))
      → All (λ (x : Hex F). is_border winner loser all x ≡ true → P x) hs
      → All (λ (x : Hex F). IsOnBorder winner loser all x → P x) hs
  on_border winner loser all P [] tops = tt
  on_border winner loser all P (x ∷ hs) (top, tops) =
      (λ on. top (IsOnBorder-is_border winner loser all x on), on_border winner loser all P hs tops)

  transfer-Captures :
      (winner loser : ℕ) (hexes : List (Hex F)) (best : Option (ℕ × Hex F))
      → winner ≢ loser
      → 2 ≤ count_claimed loser hexes
      → IsBorderAt winner loser hexes best
      → All (λ (x : Hex F). is_border winner loser hexes x ≡ true → IsAtLeast x.health best) hexes
      → Captures winner loser hexes (transfer winner best hexes)
  transfer-Captures winner loser hexes none ne many ok tops =
      (refl, inr (on_border winner loser hexes (λ x. ⊥) hexes tops))
  transfer-Captures winner loser hexes (some (at, h)) ne many (found, border) tops =
      let held : is_id loser h.claimed_by ≡ true = ground arith in
      let moved = claims-take_over winner loser at hexes found held in
      let less = moved loser in
      let more = moved winner in
      let gone = one_if_yes loser loser refl in
      let come = one_if_yes winner winner refl in
      let no_gain = one_if_no winner loser ne in
      let no_loss = one_if_no loser winner (λ e. ne (sym e)) in
      (
        at,
        h,
        found,
        refl,
        get_elem?-modify_self at (take_over winner) hexes found,
        λ i apart. get_elem?-modify_ne at i (take_over winner) hexes (λ e. apart (sym e)),
        is_border-IsOnBorder winner loser hexes h border,
        on_border winner loser hexes (λ x. d.lt h.health x.health ≡ false) hexes tops,
        omega (arith, less, gone, no_gain),
        omega (arith, less, gone, no_gain),
        omega (arith, more, come, no_loss),
        (λ id apart apart'. omega (
          arith,
          moved id,
          one_if_no winner id (λ e. apart (sym e)),
          one_if_no loser id (λ e. apart' (sym e)),
        )),
      )

  -- Where the order of floats is irreflexive and transitive and winner and loser differ, a won
  -- raid either leaves the map as it was, where the loser claims at most one hex or has none on
  -- the border (claimed by it, not its home, and next to a claim of the winner), or gives the
  -- winner the claim on just one hex of the map, the one with the coordinate that is returned,
  -- and leaves the hexes at all other places as they are: that hex is on the border, none there
  -- is healthier, the loser has one claim less but keeps at least one, the winner has one more,
  -- and all others have as many as before.
  pub capture_hex-Captures :
      IsOrdered F d
      → (winner loser : ℕ) (hexes : List (Hex F)) → winner ≢ loser
      → Captures winner loser hexes (capture_hex winner loser hexes)
  unfolding capture_hex
  capture_hex-Captures o winner loser hexes ne =
      if_both (Captures winner loser hexes) (leb (count_claimed loser hexes) 1)
        (λ few. (refl, inl (omega (tests, few))))
        (λ many.
          transfer-Captures winner loser hexes (best_border winner loser hexes 0 hexes none) ne
            (omega (tests, many))
            (best_border-IsBorderAt winner loser hexes 0 hexes none
              (λ k. let e : 0 + k ≡ k = omega arith in rw e) tt)
            (best_border-tops o winner loser hexes 0 hexes none))
