-- ===== src/Memories/Bound.antt =====
-- The stream of memories is bounded, and only a less important memory makes room.
use mini_world.Memories.{
  add_to_stream, replace_least, max_memories, fade, least_from, is_vision, add_memory, Piece, Agent,
}
use mini_world.Model.Agents.{Memory}
use mini_world.Base.{
  ℕ, suc, ◌≤◌, ◌<◌, ◌≡◌, refl, ap, ◌∙◌, List, [], ◌∷◌, arith, ltb, if◌then◌else◌, tests, length,
  map, if_both, length-set, length-append,
}
use mini_world.Base.Float.{Float}

module _ {F : Type 0} ⦃d : Float F⦄ where
  length-fade : (ms : List (Memory F)) → length (map fade ms) ≡ length ms
  length-fade [] = refl
  length-fade (m ∷ ms) = ap suc (length-fade ms)

  length-replace_least :
      (m : Memory F) (ms : List (Memory F)) → length (replace_least m ms) ≡ length ms
  length-replace_least m [] = refl
  length-replace_least m (x ∷ xs) =
      let (at, low) = least_from xs 1 0 x in
      if_both (λ (ms : List (Memory F)). length ms ≡ length (x ∷ xs))
        (d.lt low.importance m.importance) (λ _. length-set (x ∷ xs) at m) (λ _. refl)

  IsNext : ℕ → List (Memory F) → Type 0
  IsNext n ms = (n < max_memories → length ms ≡ suc n) × (max_memories ≤ n → length ms ≡ n)

  length-add_to_stream :
      (m : Memory F) (ms : List (Memory F)) → IsNext (length ms) (add_to_stream m ms)
  unfolding add_to_stream IsNext
  length-add_to_stream m ms =
      let faded = if is_vision m.content then map fade ms else ms in
      let same : length faded ≡ length ms =
        if_both (λ (xs : List (Memory F)). length xs ≡ length ms) (is_vision m.content)
          (λ _. length-fade ms) (λ _. refl) in
      if_both (IsNext (length ms)) (ltb (length faded) max_memories)
        (λ few.
          let grown = length-append faded (m ∷ []) in
          (λ h. omega arith, λ h. absurd (omega (tests, few, same, h))))
        (λ full.
          let kept = length-replace_least m faded in
          (λ h. absurd (omega (tests, full, same, h)), λ h. kept ∙ same))

  -- A new memory adds one to a stream of less than 50, and leaves the length of a stream of at
  -- least 50 as it is.
  pub length-add_memory :
      (tick : ℕ) (content : List Piece) (importance : F) (a : Agent F)
      → let after = (add_memory tick content importance a).memories in
        (length a.memories < max_memories → length after ≡ suc (length a.memories))
        × (max_memories ≤ length a.memories → length after ≡ length a.memories)
  unfolding add_memory IsNext
  length-add_memory tick content importance a =
      length-add_to_stream (record { tick = tick; content = content; importance = importance })
        a.memories

  pub wealth-add_memory :
      (tick : ℕ) (content : List Piece) (importance : F) (a : Agent F)
      → (add_memory tick content importance a).wealth ≡ a.wealth
  unfolding add_memory
  wealth-add_memory tick content importance a = refl
