-- ===== src/Interventions/Boosts.antt =====
-- The slice that CleanExpiredBoosts of internal/engine/intervention.go compacts in place, and what a boost is worth.
use mini_world.Base.Word.{add64_exact}
use mini_world.Base.Float.{IsOrdered}
use mathlib.Core.List.{append_assoc, append-nil}
use mini_world.Simulation.{emit, Sim, Boost}
use mini_world.Interventions.{
  clean_loop, clean_expired_boosts, best_boost, get_settlement_boost, cultivate_settlement,
  find_settlement_by_name, uint64_of, Float, one, String, Settlement, ticks_per_sim_day, pos, add64,
}
use mini_world.Base.{
  length-append, ℕ, suc, ◌+◌, ◌*◌, ◌<◌, ◌^◌, ◌≡◌, refl, sym, ap, subst, ◌∙◌, ◌⊎◌, inl, inr, true,
  false, ◌&&◌, some, List, [], ◌∷◌, ◌++◌, arith, ltb, ◌==◌, if◌then◌else◌, Bool-cases, length,
  get_elem?, All, Any, take, set, if_both, ◌%◌,
}

module _ {ℓ} {A : Type ℓ} where
  take-append : (xs ys : List A) → take (length xs) (xs ++ ys) ≡ xs
  take-append [] ys = refl
  take-append (x ∷ xs) ys = ap (λ zs. x ∷ zs) (take-append xs ys)

  get_elem?-append :
      (xs ys : List A) (i : ℕ) → get_elem? (xs ++ ys) (length xs + i) ≡ get_elem? ys i
  get_elem?-append [] ys i = let e : 0 + i ≡ i = omega arith in rw e
  get_elem?-append (x ∷ xs) ys i =
      let e : suc (length xs) + i ≡ suc (length xs + i) = omega arith in
      rw e (get_elem?-append xs ys i)

  set-append :
      (xs : List A) (y : A) (ys : List A) (v : A) → set (xs ++ y ∷ ys) (length xs) v ≡ xs ++ v ∷ ys
  set-append [] y ys v = refl
  set-append (x ∷ xs) y ys v = ap (λ zs. x ∷ zs) (set-append xs y ys v)

module _ {F : Type 0} where
  -- The boosts that a tick leaves.
  abbrev pub live : ℕ → List (Boost F) → List (Boost F)
  live tick [] = []
  live tick (b ∷ bs) = let rest = live tick bs in if ltb tick b.expires_at then b ∷ rest else rest

  live-append :
      (tick : ℕ) (xs ys : List (Boost F)) → live tick (xs ++ ys) ≡ live tick xs ++ live tick ys
  live-append tick [] ys = refl
  live-append tick (b ∷ xs) ys = elim (Bool-cases (ltb tick b.expires_at)) [
    | inl on ↦ rw on (ap (λ zs. b ∷ zs) (live-append tick xs ys))
    | inr off ↦ rw off (live-append tick xs ys)
  ]

  -- What is left of a run of the loop.
  abbrev remains : List (Boost F) × ℕ → List (Boost F)
  remains r = take r.1 r.0

  -- Writing the element that was read over the first one that was dropped.
  overwrite :
      (kept junk rest : List (Boost F)) (b : Boost F)
      → (junk' : List (Boost F)) × (set (kept ++ (junk ++ b ∷ rest)) (length kept) b
          ≡ (kept ++ b ∷ []) ++ (junk' ++ rest))
        × (length junk' ≡ length junk)
  overwrite kept [] rest b =
      ([], set-append kept b rest b ∙ sym (append_assoc kept (b ∷ []) rest), refl)
  overwrite kept (j ∷ junk) rest b = (
    junk ++ b ∷ [],
    set-append kept j (junk ++ b ∷ rest) b ∙ simp append_assoc,
    omega (arith, length-append junk (b ∷ [])),
  )

  keep_one :
      (tick k i n : ℕ) (bs : List (Boost F)) {b : Boost F}
      → get_elem? bs i ≡ some b
      → ltb tick b.expires_at ≡ true
      → clean_loop tick (suc k) i n bs ≡ clean_loop tick k (suc i) (suc n) (set bs n b)
  unfolding clean_loop
  keep_one tick k i n bs read on = rw (read, on, clean_loop)

  drop_one :
      (tick k i n : ℕ) (bs : List (Boost F)) {b : Boost F}
      → get_elem? bs i ≡ some b
      → ltb tick b.expires_at ≡ false
      → clean_loop tick (suc k) i n bs ≡ clean_loop tick k (suc i) n bs
  unfolding clean_loop
  drop_one tick k i n bs read off = rw (read, off, clean_loop)

  clean_loop_lem :
      (tick : ℕ) (kept junk rest : List (Boost F)) (i : ℕ)
      → i ≡ length kept + length junk
      → remains (clean_loop tick (length rest) i (length kept) (kept ++ (junk ++ rest)))
        ≡ kept ++ live tick rest
  unfolding clean_loop
  clean_loop_lem tick kept junk [] i e = take-append kept (junk ++ []) ∙ sym (append-nil kept)
  clean_loop_lem tick kept junk (b ∷ rest) i e =
      let whole = kept ++ (junk ++ b ∷ rest) in
      let next : get_elem? (junk ++ b ∷ rest) (length junk) ≡ some b =
        let e : length junk + 0 ≡ length junk = omega arith in
        subst (λ n. get_elem? (junk ++ b ∷ rest) n ≡ some b) e
          (get_elem?-append junk (b ∷ rest) 0) in
      let read : get_elem? whole i ≡ some b =
        subst (λ n. get_elem? whole n ≡ some b) (sym e)
          (get_elem?-append kept (junk ++ b ∷ rest) (length junk) ∙ next) in
      elim (Bool-cases (ltb tick b.expires_at)) [
        | inl on ↦
            let (junk', written, same) = overwrite kept junk rest b in
            let longer : suc (length kept) ≡ length (kept ++ b ∷ []) =
              omega (arith, length-append kept (b ∷ [])) in
            let ih =
              clean_loop_lem tick (kept ++ b ∷ []) junk' rest (suc i)
                (omega (arith, length-append kept (b ∷ []))) in
            let stepped = keep_one tick (length rest) i (length kept) whole read on in
            rw (stepped, on, written, longer) (ih ∙ append_assoc kept (b ∷ []) (live tick rest))
        | inr off ↦
            let ih =
              clean_loop_lem tick kept (junk ++ b ∷ []) rest (suc i)
                (omega (arith, length-append junk (b ∷ []))) in
            let stepped = drop_one tick (length rest) i (length kept) whole read off in
            rw (stepped, off)
              (subst
                (λ zs.
                  remains (clean_loop tick (length rest) (suc i) (length kept) (kept ++ zs))
                  ≡ kept ++ live tick rest)
                (append_assoc junk (b ∷ []) rest) ih)
      ]

  -- The compaction in place, which writes the boosts that it keeps over the front of the slice
  -- that it reads, leaves just the boosts that expire after the tick, in their order.
  pub clean_expired_boosts_lem :
      (tick : ℕ) (s : Sim F)
      → clean_expired_boosts tick s ≡ record s { active_boosts = live tick s.active_boosts }
  unfolding clean_expired_boosts
  clean_expired_boosts_lem tick s =
      ap (λ bs. record s { active_boosts = bs }) (clean_loop_lem tick [] [] s.active_boosts 0 refl)

module _ {F : Type 0} ⦃d : Float F⦄ where
  -- No boost of the settlement is worth more.
  abbrev pub IsBest : F → ℕ → List (Boost F) → Type 0
  IsBest best id = All (λ (b : Boost F). b.settlement_id ≡ id → d.lt best b.multiplier ≡ false)

  -- The value is 1 or the multiplier of a boost of the settlement.
  abbrev pub IsFrom : F → ℕ → List (Boost F) → Type 0
  IsFrom best id bs =
      (best ≡ one) ⊎ Any (λ (b : Boost F). (b.settlement_id ≡ id) × (b.multiplier ≡ best)) bs

  no_less :
      IsOrdered F d → (best m x : F) → d.lt best m ≡ true → d.lt best x ≡ false → d.lt m x ≡ false
  no_less o best m x up h = elim (Bool-cases (d.lt m x)) [
    | inl less ↦ let clash = o.lt_trans best m x up less in cc
    | inr e ↦ e
  ]

  -- The best value after one more boost.
  abbrev best_after : ℕ → Boost F → F → F
  best_after id b best =
      if (b.settlement_id == id) && d.lt best b.multiplier then b.multiplier else best

  best_after-grows :
      IsOrdered F d
      → (id : ℕ) (b : Boost F) (best x : F) → d.lt best x ≡ false
      → d.lt (best_after id b best) x ≡ false
  best_after-grows o id b best x h =
      if_both (λ y. d.lt y x ≡ false) ((b.settlement_id == id) && d.lt best b.multiplier)
        (λ t. no_less o best b.multiplier x (ground arith) h) (λ _. h)

  best_after-top :
      IsOrdered F d
      → (id : ℕ) (b : Boost F) (best : F) → b.settlement_id ≡ id
      → d.lt (best_after id b best) b.multiplier ≡ false
  best_after-top o id b best e =
      if_both (λ y. d.lt y b.multiplier ≡ false) ((b.settlement_id == id) && d.lt best b.multiplier)
        (λ t. o.lt_irrefl b.multiplier) (λ f. ground arith)

  best_boost-grows :
      IsOrdered F d
      → (id : ℕ) (bs : List (Boost F)) (best x : F) → d.lt best x ≡ false
      → d.lt (best_boost id bs best) x ≡ false
  unfolding best_boost
  best_boost-grows o id [] best x h = h
  best_boost-grows o id (b ∷ bs) best x h =
      best_boost-grows o id bs (best_after id b best) x (best_after-grows o id b best x h)

  best_boost-IsBest :
      IsOrdered F d
      → (id : ℕ) (bs : List (Boost F)) (best : F) → IsBest (best_boost id bs best) id bs
  unfolding best_boost
  best_boost-IsBest o id [] best = tt
  best_boost-IsBest o id (b ∷ bs) best = (
    (λ e.
        best_boost-grows o id bs (best_after id b best) b.multiplier
          (best_after-top o id b best e)),
    best_boost-IsBest o id bs (best_after id b best),
  )

  best_boost-IsFrom :
      (id : ℕ) (bs : List (Boost F)) (best : F)
      → (best_boost id bs best ≡ best)
        ⊎ Any (λ (b : Boost F). (b.settlement_id ≡ id) × (b.multiplier ≡ best_boost id bs best)) bs
  unfolding best_boost
  best_boost-IsFrom id [] best = inl refl
  best_boost-IsFrom id (b ∷ bs) best = elim (best_boost-IsFrom id bs (best_after id b best)) [
    | inl e ↦ elim (Bool-cases ((b.settlement_id == id) && d.lt best b.multiplier)) [
      | inl t ↦
          let same : b.settlement_id ≡ id = ground arith in
          let top : best_after id b best ≡ b.multiplier = rw t in inr (inl (same, sym (e ∙ top)))
      | inr f ↦ let kept : best_after id b best ≡ best = rw f in inl (e ∙ kept)
    ]
    | inr later ↦ inr (inr later)
  ]

  -- Where the order of floats is irreflexive and transitive, no boost of the settlement has a
  -- multiplier above the value, and the value is 1 or the multiplier of one of them.
  pub get_settlement_boost-IsBest :
      IsOrdered F d
      → (id : ℕ) (s : Sim F)
      → IsBest (get_settlement_boost id s) id s.active_boosts
        × IsFrom (get_settlement_boost id s) id s.active_boosts
  unfolding get_settlement_boost
  get_settlement_boost-IsBest o id s =
      (best_boost-IsBest o id s.active_boosts one, best_boost-IsFrom id s.active_boosts one)

  -- Where the settlement is found and the end of the boost is below 2^64, cultivation adds a
  -- boost at the end that a cleanup keeps just before the last tick plus the days, and the
  -- cleanup keeps of the others what it would have kept.
  pub clean_expired_boosts-cultivate_settlement :
      (name : String) (m : F) (days : ℕ) (tick : ℕ) (s : Sim F) (at : ℕ) (sett : Settlement F)
      → find_settlement_by_name name 0 s.world.settlements ≡ some (at, sett)
      → s.last_tick + days * ticks_per_sim_day < 2 ^ 64
      → (clean_expired_boosts tick (cultivate_settlement name m (pos days) s).0).active_boosts
        ≡ live tick s.active_boosts
          ++ (if ltb tick (s.last_tick + days * ticks_per_sim_day)
              then record {
                settlement_id = sett.id;
                multiplier = m;
                expires_at = s.last_tick + days * ticks_per_sim_day;
              }
                ∷ []
              else [])
  unfolding cultivate_settlement emit
  clean_expired_boosts-cultivate_settlement name m days tick s at sett found fits =
      let until = s.last_tick + days * ticks_per_sim_day in
      let boost : Boost F = record {
        settlement_id = sett.id;
        multiplier = m;
        expires_at = until;
      } in
      let same : add64 s.last_tick (uint64_of (pos days) * ticks_per_sim_day % 2 ^ 64) ≡ until =
        let span : uint64_of (pos days) * ticks_per_sim_day % 2 ^ 64 ≡ days * ticks_per_sim_day =
          omega arith in
        rw span (add64_exact s.last_tick (days * ticks_per_sim_day) fits) in
      rw (clean_expired_boosts_lem, found, same) (live-append tick s.active_boosts (boost ∷ []))
