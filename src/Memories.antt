-- ===== src/Memories.antt =====
-- `AddMemory` of internal/agents/memory.go: the bounded stream of an agent's memories.
pub mod Bound
use text.Mathlib.Text.{starts_with}
use mini_world.Model.Agents.{Piece, Memory, Agent, words}
use mini_world.Base.{
  ℕ, zero, suc, ◌+◌, ◌-◌, ◌*◌, ◌≤◌, ◌<◌, ◌^◌, ◌≡◌, refl, sym, ap, subst, ◌∙◌, ◌≢◌, ◌⊎◌, inl, inr,
  Bool, true, false, not, ◌&&◌, ◌||◌, Option, none, some, List, [], ◌∷◌, ◌++◌, arith, ltb, leb,
  ◌==◌, if◌then◌else◌, tests, Bool-cases, Option-cases, length, get_elem?, modify, All, Any, total,
  set, map,
}
use mini_world.Base.Float.{Float, lit32}

abbrev pub max_memories : ℕ
max_memories = 50

-- `strings.HasPrefix(content, "Vision: ")`
abbrev pub is_vision : List Piece → Bool
is_vision (words s ∷ ps) = starts_with s "Vision: "
is_vision _ = false

module _ {F : Type 0} ⦃d : Float F⦄ where
  abbrev pub fade : Memory F → Memory F
  fade m =
      if is_vision m.content
      then record m { importance = d.round32 (d.mul m.importance (lit32 8 1)) }
      else m

  -- The loop that finds the least important memory: the index of the next one, and the best index so
  -- far with its memory.
  unfoldable pub least_from : List (Memory F) → ℕ → ℕ → Memory F → ℕ × Memory F
  least_from [] i best m = (best, m)
  least_from (x ∷ xs) i best m =
      let lower = d.lt x.importance m.importance in
      least_from xs (suc i) (if lower then i else best) (if lower then x else m)

  abbrev pub replace_least : Memory F → List (Memory F) → List (Memory F)
  replace_least m [] = []
  replace_least m (x ∷ xs) =
      let (at, low) = least_from xs 1 0 x in
      if d.lt low.importance m.importance then set (x ∷ xs) at m else x ∷ xs

  unfoldable pub add_to_stream : Memory F → List (Memory F) → List (Memory F)
  add_to_stream m ms =
      let faded = if is_vision m.content then map fade ms else ms in
      if ltb (length faded) max_memories then faded ++ m ∷ [] else replace_least m faded

  -- `AddMemory`
  unfoldable pub add_memory : ℕ → List Piece → F → Agent F → Agent F
  add_memory tick content importance a = record a {
    memories =
        add_to_stream (record { tick = tick; content = content; importance = importance })
          a.memories;
  }
