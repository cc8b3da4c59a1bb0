-- ===== src/Routes.antt =====
-- internal/engine/trade_routes.go: trade routes between pairs of settlements, which rise and fall with
-- the weekly trade. The maps are keyed by the pair of settlements.
pub mod Levels
pub mod Weeks
use mini_world.Base.Maps.{Key, put, get}
use Prim.Native.String.{String}
use mini_world.Base.{
  ℕ, zero, suc, ◌+◌, ◌-◌, ◌*◌, ◌≤◌, ◌<◌, ◌^◌, ◌≡◌, refl, sym, ap, subst, ◌∙◌, ◌≢◌, ◌⊎◌, inl, inr,
  Bool, true, false, not, ◌&&◌, ◌||◌, Option, none, some, List, [], ◌∷◌, ◌++◌, arith, ltb, leb,
  ◌==◌, if◌then◌else◌, tests, Bool-cases, Option-cases, length, get_elem?, modify, All, Any, total,
}
use mini_world.Base.Float.{Float, one, nought, agnosis}

pub record TradeRoute (F : Type 0) : Type 0 where
  pub level : ℕ
  pub name : String
  pub sustained_weeks : ℕ
  pub dormant_weeks : ℕ
  pub weekly_trade : F

-- The `action` of `emitRouteEvent`.
pub data Action : Type 0 where
  established upgraded degraded dissolved : Action

abbrev pub route_establish_threshold : ℕ
route_establish_threshold = 4

abbrev pub route_flourish : ℕ
route_flourish = 8

abbrev pub route_legendary : ℕ
route_legendary = 16

abbrev pub route_decay_threshold : ℕ
route_decay_threshold = 2

-- What a week carries: the routes, and the events with their keys.
pub record Routes (F K : Type 0) : Type 0 where
  pub routes : List (K × TradeRoute F)
  pub events : List (K × Action)

module _ {F : Type 0} ⦃d : Float F⦄ where
  abbrev pub at_least : F → ℕ → Bool
  at_least vol n = d.le (d.lit n 0) vol

  -- The level after the three checks for an upgrade, of which only the first that applies counts.
  unfoldable pub new_level : F → TradeRoute F → ℕ
  new_level vol r =
      if r.level == 0 && leb 2 r.sustained_weeks && at_least vol route_establish_threshold
      then 1
      else if r.level == 1 && leb 3 r.sustained_weeks && at_least vol route_flourish
      then 2
      else if r.level == 2 && leb 4 r.sustained_weeks && at_least vol route_legendary
      then 3
      else r.level

  -- `if vol >= routeEstablishThreshold`, up to the upgrade.
  abbrev pub traded_route : F → String → Option (TradeRoute F) → TradeRoute F
  traded_route vol name none = record {
    level = 0;
    name = name;
    sustained_weeks = 1;
    dormant_weeks = 0;
    weekly_trade = vol;
  }
  traded_route vol name (some r) = record r {
    sustained_weeks = r.sustained_weeks + 1;
    dormant_weeks = 0;
    weekly_trade = vol;
  }

  abbrev pub weaken : TradeRoute F → TradeRoute F
  weaken r = record r {
    sustained_weeks = r.sustained_weeks - 1;
    dormant_weeks = r.dormant_weeks + 1;
  }

  -- The branch below the threshold.
  unfoldable pub quiet : F → TradeRoute F → TradeRoute F
  quiet vol r =
      let weak = weaken (record r { weekly_trade = vol }) in
      if d.lt vol (d.lit route_decay_threshold 0)
      then weak
      else record r { weekly_trade = vol; dormant_weeks = 0 }

  unfoldable pub grown : F → String → Option (TradeRoute F) → TradeRoute F
  grown vol name found = let r = traded_route vol name found in record r { level = new_level vol r }

  abbrev pub level_of : Option (TradeRoute F) → ℕ
  level_of none = 0
  level_of (some r) = r.level

  abbrev pub rest_week : Option F → TradeRoute F → TradeRoute F
  rest_week none r = record (weaken r) { weekly_trade = d.lit 0 0 }
  rest_week (some vol) r = r

  -- What the second loop does to a route: the route, if it stays, and the event.
  unfoldable pub degrade : TradeRoute F → Option (TradeRoute F) × Option Action
  degrade r =
      let lower = record r { level = r.level - 1; dormant_weeks = 0 } in
      if leb 2 r.dormant_weeks && ltb 0 r.level
      then if lower.level == 0 then (none, some dissolved) else (some lower, some degraded)
      else if r.level == 0 && leb 3 r.dormant_weeks
      then (none, none)
      else (some r, none)

  -- `GetRouteBonus`, on the route of the pair.
  unfoldable pub get_route_bonus : Option (TradeRoute F) → F × F
  get_route_bonus none = (one, nought)
  get_route_bonus (some r) = if r.level == 0 then (one, nought) else (
    d.sub one (d.mul (d.mul (d.of_ℕ r.level) agnosis) (d.lit 1 1)),
    d.mul (d.mul (d.of_ℕ r.level) agnosis) (d.lit 5 2),
  )

module _ {K : Type 0} where
  abbrev pub upgrade_event : K → ℕ → ℕ → List (K × Action)
  upgrade_event key old new =
      if ltb old new then (key, (if old == 0 then established else upgraded)) ∷ [] else []

  abbrev pub event_of : K → Option Action → List (K × Action)
  event_of key none = []
  event_of key (some a) = (key, a) ∷ []

module _ {F K : Type 0} ⦃d : Float F⦄ ⦃k : Key K⦄ where
  abbrev pub put_quiet : K → F → Option (TradeRoute F) → Routes F K → Routes F K
  put_quiet key vol none s = s
  put_quiet key vol (some r) s = record s { routes = put key (quiet vol r) s.routes }

  -- One round of the loop over the trade of the week; `name_of` is `generateRouteName`.
  unfoldable pub process_traded : (K → String) → K → F → Routes F K → Routes F K
  process_traded name_of key vol s =
      let found = get key s.routes in
      let r = grown vol (name_of key) found in
      let busy : Routes F K = record {
        routes = put key r s.routes;
        events = s.events ++ upgrade_event key (level_of found) r.level;
      } in
      if at_least vol route_establish_threshold then busy else put_quiet key vol found s

  unfoldable pub process_tracker : (K → String) → List (K × F) → Routes F K → Routes F K
  process_tracker name_of [] s = s
  process_tracker name_of ((key, vol) ∷ rest) s =
      process_tracker name_of rest (process_traded name_of key vol s)

  abbrev pub keep : K → Option (TradeRoute F) → List (K × TradeRoute F) → List (K × TradeRoute F)
  keep key none rest = rest
  keep key (some r) rest = (key, r) ∷ rest

  -- The loop over the routes.
  unfoldable pub process_existing : List (K × F) → List (K × TradeRoute F) → Routes F K
  process_existing tracker [] = record { routes = []; events = [] }
  process_existing tracker ((key, r) ∷ rest) =
      let (stays, action) = degrade (rest_week (get key tracker) r) in
      let others = process_existing tracker rest in
      record {
        routes = keep key stays others.routes;
        events = event_of key action ++ others.events;
      }

  -- `processTradeRoutes`
  unfoldable pub process_trade_routes :
      (K → String) → List (K × F) → List (K × TradeRoute F) → Routes F K
  process_trade_routes name_of tracker routes =
      let grown = process_tracker name_of tracker (record { routes = routes; events = [] }) in
      let left = process_existing tracker grown.routes in
      record left { events = grown.events ++ left.events }
