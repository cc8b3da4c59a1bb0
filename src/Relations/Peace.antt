-- ===== src/Relations/Peace.antt =====
-- internal/engine/peace.go: raids are counted, exhausted pairs make peace, and treaties run out. A map is a
-- list with one entry for each key; the loop over the treaties, which deletes from the map that it
-- visits, is the one that keeps the others. An event keeps its pair and its action.
pub mod Expiry
pub mod Duration
use mini_world.Base.Float.{Float, agnosis, nought}
use mini_world.Base.Int.{ℤ, pos, ◌+ℤ◌, ◌-ℤ◌, leb_ℤ}
use mini_world.Base.Maps.{get, put}
use mini_world.Relations.{Pair, Key-Pair, sett_rel_key}
use mini_world.Base.{
  ℕ, zero, suc, ◌+◌, ◌-◌, ◌*◌, ◌≤◌, ◌<◌, ◌^◌, ◌≡◌, refl, sym, ap, subst, ◌∙◌, ◌≢◌, ◌⊎◌, inl, inr,
  Bool, true, false, not, ◌&&◌, ◌||◌, Option, none, some, List, [], ◌∷◌, ◌++◌, arith, ltb, leb,
  ◌==◌, if◌then◌else◌, tests, Bool-cases, Option-cases, length, get_elem?, modify, All, Any, total,
}

-- `PeaceTreaty`
pub record Treaty : Type 0 where
  pub remaining_weeks : ℤ
  pub raid_count : ℤ
  pub formed_at_tick : ℕ

pub data Action : Type 0 where
  formed expired : Action

pub record Peace (F : Type 0) : Type 0 where
  pub raid_counts : List (Pair × ℤ)
  pub treaties : List (Pair × Treaty)
  -- the sentiments of the relations
  pub sentiments : List (Pair × F)
  pub events : List (Pair × Action)

abbrev pub peace_duration_weeks : ℤ
peace_duration_weeks = pos 8

abbrev pub peace_raid_threshold : ℤ
peace_raid_threshold = pos 3

abbrev pub raids_of : Option ℤ → ℤ
raids_of none = pos 0
raids_of (some n) = n

abbrev pub is_some : Option Treaty → Bool
is_some none = false
is_some (some t) = true

abbrev pub new_treaty : ℕ → ℤ → Treaty
new_treaty tick n = record {
  remaining_weeks = peace_duration_weeks;
  raid_count = n;
  formed_at_tick = tick;
}

abbrev pub one_week_less : Treaty → Treaty
one_week_less t = record t { remaining_weeks = t.remaining_weeks -ℤ pos 1 }

abbrev pub is_over : Treaty → Bool
is_over t = leb_ℤ t.remaining_weeks (pos 0)

-- What the loop over the treaties leaves of them, and the keys that it deletes.
unfoldable pub age_treaties : List (Pair × Treaty) → List (Pair × Treaty)
age_treaties [] = []
age_treaties ((key, t) ∷ ts) =
    let rest = age_treaties ts in
    if is_over (one_week_less t) then rest else (key, one_week_less t) ∷ rest

unfoldable pub expiries : List (Pair × Treaty) → List (Pair × Action)
expiries [] = []
expiries ((key, t) ∷ ts) =
    let rest = expiries ts in if is_over (one_week_less t) then (key, expired) ∷ rest else rest

module _ {F : Type 0} where
  -- `RecordRaid`
  unfoldable pub record_raid : ℕ → ℕ → Peace F → Peace F
  record_raid a b s =
      let key = sett_rel_key a b in
      record s { raid_counts = put key (raids_of (get key s.raid_counts) +ℤ pos 1) s.raid_counts }

  -- `HasPeace`
  unfoldable pub has_peace : ℕ → ℕ → Peace F → Bool
  has_peace a b s = is_some (get (sett_rel_key a b) s.treaties)

  abbrev pub make_peace : ℕ → Pair → ℤ → Peace F → Peace F
  make_peace tick key n s = record s {
    treaties = put key (new_treaty tick n) s.treaties;
    raid_counts = put key (pos 0) s.raid_counts;
    events = s.events ++ (key, formed) ∷ [];
  }

  -- The loop over the raid counts.
  unfoldable pub form_treaties : ℕ → List (Pair × ℤ) → Peace F → Peace F
  form_treaties tick [] s = s
  form_treaties tick ((key, n) ∷ counts) s = form_treaties tick counts (
      if leb_ℤ peace_raid_threshold n && not (is_some (get key s.treaties))
      then make_peace tick key n s
      else s)

module _ {F : Type 0} ⦃d : Float F⦄ where
  -- `rel.Sentiment += phi.Agnosis * 0.1`, and no friendship
  unfoldable pub recovered : F → F
  recovered x =
      let warmer = d.add x (d.mul agnosis (d.lit 1 1)) in
      if d.lt nought warmer then nought else warmer

  abbrev pub recover_found : Pair → Option F → List (Pair × F) → List (Pair × F)
  recover_found key none rels = rels
  recover_found key (some x) rels = put key (recovered x) rels

  unfoldable pub recover_sentiments : List (Pair × Treaty) → List (Pair × F) → List (Pair × F)
  recover_sentiments [] rels = rels
  recover_sentiments ((key, t) ∷ ts) rels =
      recover_sentiments ts (recover_found key (get key rels) rels)

  -- `processPeace`
  unfoldable pub process_peace : ℕ → Peace F → Peace F
  process_peace tick s =
      let s' = form_treaties tick s.raid_counts s in
      record s' {
        treaties = age_treaties s'.treaties;
        sentiments = recover_sentiments s'.treaties s'.sentiments;
        events = s'.events ++ expiries s'.treaties;
      }
