-- ===== src/Routes/Levels.antt =====
-- The levels of trade routes.
use mini_world.Base.Maps.{Key, Meets, get, All-put, get-Meets}
use mini_world.Routes.{
  TradeRoute, new_level, grown, quiet, degrade, String, Routes, process_traded, process_tracker,
  rest_week, process_existing, process_trade_routes, traded_route, route_decay_threshold, Action,
  put_quiet, keep, at_least, route_establish_threshold,
}
use mini_world.Base.{
  ◌-◌, ◌≤◌, ◌&&◌, Option, none, some, List, [], ◌∷◌, arith, ltb, leb, ◌==◌, All, if_both,
}
use mini_world.Base.Float.{Float}

module _ {F : Type 0} where
  abbrev pub IsLevel : TradeRoute F → Type 0
  IsLevel r = r.level ≤ 3

module _ {F : Type 0} ⦃d : Float F⦄ where
  new_level-le : (vol : F) (r : TradeRoute F) → r.level ≤ 3 → new_level vol r ≤ 3
  unfolding new_level
  new_level-le vol r h = ground arith

  grown-IsLevel :
      (vol : F) (name : String) (found : Option (TradeRoute F))
      → Meets IsLevel found
      → IsLevel (grown vol name found)
  unfolding grown
  grown-IsLevel vol name none h = new_level-le vol (traded_route vol name none) (omega arith)
  grown-IsLevel vol name (some r) h = new_level-le vol (traded_route vol name (some r)) h

  quiet-IsLevel : (vol : F) (r : TradeRoute F) → IsLevel r → IsLevel (quiet vol r)
  unfolding quiet
  quiet-IsLevel vol r h =
      if_both IsLevel (d.lt vol (d.lit route_decay_threshold 0)) (λ _. h) (λ _. h)

  degrade-IsLevel : (r : TradeRoute F) → IsLevel r → Meets IsLevel (degrade r).0
  unfolding degrade
  degrade-IsLevel r h =
      let P = λ (s : Option (TradeRoute F) × Option Action). Meets IsLevel s.0 in
      if_both P (leb 2 r.dormant_weeks && ltb 0 r.level)
        (λ _. if_both P (r.level - 1 == 0) (λ _. tt) (λ _. omega arith))
        (λ _. if_both P (r.level == 0 && leb 3 r.dormant_weeks) (λ _. tt) (λ _. h))

  rest_week-IsLevel :
      (found : Option F) (r : TradeRoute F) → IsLevel r → IsLevel (rest_week found r)
  rest_week-IsLevel none r h = h
  rest_week-IsLevel (some vol) r h = h

abbrev pub AreLevels : {F K : Type 0} → List (K × TradeRoute F) → Type 0
AreLevels routes = All (λ e. IsLevel e.1) routes

module _ {F K : Type 0} ⦃d : Float F⦄ ⦃k : Key K⦄ where
  put_quiet-AreLevels :
      (key : K) (vol : F) (found : Option (TradeRoute F)) (s : Routes F K)
      → Meets IsLevel found
      → AreLevels s.routes
      → AreLevels (put_quiet key vol found s).routes
  put_quiet-AreLevels key vol none s m h = h
  put_quiet-AreLevels key vol (some r) s m h =
      All-put IsLevel key (quiet vol r) s.routes (quiet-IsLevel vol r m) h

  process_traded-AreLevels :
      (name_of : K → String) (key : K) (vol : F) (s : Routes F K)
      → AreLevels s.routes
      → AreLevels (process_traded name_of key vol s).routes
  unfolding process_traded
  process_traded-AreLevels name_of key vol s h =
      let found = get key s.routes in
      let P = λ (t : Routes F K). AreLevels t.routes in
      let known = get-Meets IsLevel key s.routes h in
      if_both P (at_least vol route_establish_threshold)
        (λ _.
          All-put IsLevel key (grown vol (name_of key) found) s.routes
            (grown-IsLevel vol (name_of key) found known) h)
        (λ _. put_quiet-AreLevels key vol found s known h)

  process_tracker-AreLevels :
      (name_of : K → String) (tracker : List (K × F)) (s : Routes F K)
      → AreLevels s.routes
      → AreLevels (process_tracker name_of tracker s).routes
  unfolding process_tracker
  process_tracker-AreLevels name_of [] s h = h
  process_tracker-AreLevels name_of ((key, vol) ∷ rest) s h =
      process_tracker-AreLevels name_of rest (process_traded name_of key vol s)
        (process_traded-AreLevels name_of key vol s h)

  keep-AreLevels :
      (key : K) (stays : Option (TradeRoute F)) (rest : List (K × TradeRoute F))
      → Meets IsLevel stays
      → AreLevels rest
      → AreLevels (keep key stays rest)
  keep-AreLevels key none rest h hs = hs
  keep-AreLevels key (some r) rest h hs = (h, hs)

  process_existing-AreLevels :
      (tracker : List (K × F)) (routes : List (K × TradeRoute F))
      → AreLevels routes
      → AreLevels (process_existing tracker routes).routes
  unfolding process_existing
  process_existing-AreLevels tracker [] h = tt
  process_existing-AreLevels tracker ((key, r) ∷ rest) (h, hs) =
      let rested = rest_week (get key tracker) r in
      keep-AreLevels key (degrade rested).0 (process_existing tracker rest).routes
        (degrade-IsLevel rested (rest_week-IsLevel (get key tracker) r h))
        (process_existing-AreLevels tracker rest hs)

  -- Where the levels of all routes are at most 3, they still are after a week, whatever the
  -- trade.
  pub process_trade_routes-AreLevels :
      (name_of : K → String) (tracker : List (K × F)) (routes : List (K × TradeRoute F))
      → AreLevels routes
      → AreLevels (process_trade_routes name_of tracker routes).routes
  unfolding process_trade_routes
  process_trade_routes-AreLevels name_of tracker routes h =
      let grown = process_tracker name_of tracker (record { routes = routes; events = [] }) in
      process_existing-AreLevels tracker grown.routes
        (process_tracker-AreLevels name_of tracker (record { routes = routes; events = [] }) h)
