-- ===== src/Routes/Weeks.antt =====
-- How soon a route rises.
use mini_world.Routes.{
  TradeRoute, process_trade_routes, grown, process_tracker, new_level, process_traded, at_least,
  process_existing, route_establish_threshold, degrade, route_flourish, route_legendary, level_of,
  Routes, rest_week, keep,
}
use Prim.Native.String.{String}
use mini_world.Base.Maps.{Key, same_self, get, put, HasUniqueKeys, get-put, HasUniqueKeys-put}
use mini_world.Base.{
  ◌≡◌, refl, ap, ◌∙◌, true, Option, none, some, List, [], ◌∷◌, arith, if◌then◌else◌, Bool-cases,
  Option-cases, subst, inl, sym, inr,
}
use mini_world.Base.Float.{Float}

module _ {F : Type 0} ⦃d : Float F⦄ where
  rise :
      (v1 v2 v3 v4 : F) (name : String)
      → at_least v2 route_establish_threshold ≡ true
      → at_least v3 route_flourish ≡ true
      → at_least v4 route_legendary ≡ true
      → (grown v4 name
          (some (grown v3 name (some (grown v2 name (some (grown v1 name none))))))).level
        ≡ 3
  unfolding grown new_level
  rise v1 v2 v3 v4 name h2 h3 h4 = rw (h2, h3, h4)

  -- What the second loop leaves of the route of a pair.
  rested : Option F → Option (TradeRoute F) → Option (TradeRoute F)
  rested traded none = none
  rested traded (some r) = (degrade (rest_week traded r)).0

module _ {F K : Type 0} ⦃d : Float F⦄ ⦃k : Key K⦄ where
  get-keep :
      (key other : K) (stays : Option (TradeRoute F)) (rest : List (K × TradeRoute F))
      → get other (keep key stays rest) ≡ (
          if k.same key other
          then elim stays [ none ↦ get other rest | some r ↦ some r ]
          else get other rest)
  get-keep key other none rest = elim (Bool-cases (k.same key other)) [
    | inl e ↦ rw e refl
    | inr e ↦ rw e refl
  ]
  get-keep key other (some r) rest = refl

  get-process_existing :
      (tracker : List (K × F)) (other : K) (rs : List (K × TradeRoute F))
      → HasUniqueKeys rs
      → get other (process_existing tracker rs).routes ≡ rested (get other tracker) (get other rs)
  unfolding process_existing rested
  get-process_existing tracker other [] u = refl
  get-process_existing tracker other ((key, r) ∷ rs) (fresh, u) =
      let stays = (degrade (rest_week (get key tracker) r)).0 in
      let others = (process_existing tracker rs).routes in
      let ih = get-process_existing tracker other rs u in
      get-keep key other stays others ∙ elim (Bool-cases (k.same key other)) [
        | inl e ↦
            let same = (k.same_iff key other).0 e in
            let gone : get other rs ≡ none = subst (λ x. get x rs ≡ none) same fresh in
            let is_other : (degrade (rest_week (get other tracker) r)).0 ≡ stays =
              ap (λ x. (degrade (rest_week (get x tracker) r)).0) (sym same) in
            elim (Option-cases stays) [
              | inl e' ↦
                  rw (e, e') (ih ∙ ap (rested (get other tracker)) gone ∙ sym (is_other ∙ e'))
              | inr (r', e') ↦ rw (e, e') (sym (is_other ∙ e'))
            ]
        | inr e ↦ rw e ih
      ]

  process_existing-HasUniqueKeys :
      (tracker : List (K × F)) (rs : List (K × TradeRoute F))
      → HasUniqueKeys rs
      → HasUniqueKeys (process_existing tracker rs).routes
  unfolding process_existing rested
  process_existing-HasUniqueKeys tracker [] u = tt
  process_existing-HasUniqueKeys tracker ((key, r) ∷ rs) (fresh, u) =
      let gone : get key (process_existing tracker rs).routes ≡ none =
        get-process_existing tracker key rs u ∙ ap (rested (get key tracker)) fresh in
      elim (Option-cases (degrade (rest_week (get key tracker) r)).0) [
        | inl e ↦ rw e (process_existing-HasUniqueKeys tracker rs u)
        | inr (r', e) ↦ rw e (gone, process_existing-HasUniqueKeys tracker rs u)
      ]

module _ {F K : Type 0} ⦃d : Float F⦄ ⦃k : Key K⦄ (name_of : K → String) (key : K) where
  -- A week in which only this pair trades.
  abbrev pub week : F → List (K × TradeRoute F) → List (K × TradeRoute F)
  week vol routes = (process_trade_routes name_of ((key, vol) ∷ []) routes).routes

  degrade-awake : (r : TradeRoute F) → r.dormant_weeks ≡ 0 → degrade r ≡ (some r, none)
  unfolding degrade
  degrade-awake r h = ground arith

  awake :
      (vol : F) (name : String) (found : Option (TradeRoute F))
      → (grown vol name found).dormant_weeks ≡ 0
  unfolding grown
  awake vol name none = refl
  awake vol name (some r) = refl

  busy_routes :
      (vol : F) (s : Routes F K)
      → at_least vol route_establish_threshold ≡ true
      → (process_traded name_of key vol s).routes
        ≡ put key (grown vol (name_of key) (get key s.routes)) s.routes
  unfolding process_traded
  busy_routes vol s busy = rw busy

  start : List (K × TradeRoute F) → Routes F K
  start routes = record { routes = routes; events = [] }

  busy_week :
      (vol : F) (routes : List (K × TradeRoute F))
      → at_least vol route_establish_threshold ≡ true
      → week vol routes
        ≡ (process_existing
            ((key, vol) ∷ [])
            (put key (grown vol (name_of key) (get key routes)) routes)).routes
  unfolding process_trade_routes process_tracker start
  busy_week vol routes busy =
      ap (λ x. (process_existing ((key, vol) ∷ []) x).routes) (busy_routes vol (start routes) busy)

  -- The pair's route among the routes of all pairs.
  abbrev HasRoute : Option (TradeRoute F) → List (K × TradeRoute F) → Type 0
  HasRoute found routes = HasUniqueKeys routes × (get key routes ≡ found)

  next_week :
      (vol : F) (routes : List (K × TradeRoute F)) (found : Option (TradeRoute F))
      → at_least vol route_establish_threshold ≡ true
      → HasRoute found routes
      → HasRoute (some (grown vol (name_of key) found)) (week vol routes)
  unfolding rested
  next_week vol routes found busy (u, is_found) =
      let r = grown vol (name_of key) found in
      let next = put key r routes in
      let tracker = (key, vol) ∷ [] in
      let same : week vol routes ≡ (process_existing tracker next).routes =
        busy_week vol routes busy
        ∙ ap (λ o. (process_existing tracker (put key (grown vol (name_of key) o) routes)).routes)
            is_found in
      let traded : get key tracker ≡ some vol = rw (same_self key) in
      let there : get key next ≡ some r = get-put key key r routes ∙ rw (same_self key) in
      let u' = HasUniqueKeys-put key r routes u in
      (
        subst HasUniqueKeys (sym same) (process_existing-HasUniqueKeys tracker next u'),
        ap (get key) same
            ∙ get-process_existing tracker key next u'
            ∙ ap (λ o. rested o (get key next)) traded
            ∙ ap (rested (some vol)) there
            ∙ ap (λ x. x.0) (degrade-awake r (awake vol (name_of key) found)),
      )

  -- Where each pair has at most one route, a pair without a route has one of level 3 after four
  -- weeks in which only it trades, whatever routes other pairs have, with volumes of at least 4,
  -- where the third one is also at least 8 and the fourth one at least 16.
  pub legendary_in_four_weeks :
      (routes : List (K × TradeRoute F)) (v1 v2 v3 v4 : F)
      → HasUniqueKeys routes
      → get key routes ≡ none
      → at_least v1 route_establish_threshold ≡ true
      → at_least v2 route_establish_threshold ≡ true
      → at_least v3 route_establish_threshold ≡ true
      → at_least v3 route_flourish ≡ true
      → at_least v4 route_establish_threshold ≡ true
      → at_least v4 route_legendary ≡ true
      → level_of (get key (week v4 (week v3 (week v2 (week v1 routes))))) ≡ 3
  legendary_in_four_weeks routes v1 v2 v3 v4 u fresh h1 h2 h3 h3' h4 h4' =
      let first = next_week v1 routes none h1 (u, fresh) in
      let second = next_week v2 _ _ h2 first in
      let third = next_week v3 _ _ h3 second in
      let (_, fourth) = next_week v4 _ _ h4 third in
      ap level_of fourth ∙ rise v1 v2 v3 v4 (name_of key) h2 h3' h4'
