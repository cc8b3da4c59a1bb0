-- ===== src/Relations/Peace/Duration.antt =====
-- A treaty of internal/engine/peace.go through the weeks, whatever raids there are meanwhile.
use mini_world.Base.Float.{Float}
use mini_world.Base.Int.{pos, ◌-ℤ◌, ℤ, eq_of_parts, leb_ℤ, int_laws}
use mini_world.Base.Maps.{get, HasUniqueKeys}
use mini_world.Relations.{Pair, Key-Pair}
use mini_world.Relations.Peace.{
  Peace, Treaty, one_week_less, form_treaties, new_treaty, process_peace, peace_raid_threshold,
}
use mini_world.Relations.Peace.Expiry.{
  aged, get-age_treaties, age_treaties-HasUniqueKeys, form_treaties-HasUniqueKeys,
  form_treaties-forms, form_treaties-keeps, treaties-record_raids, record_raids,
}
use mini_world.Base.{
  ℕ, zero, suc, ◌+◌, ◌≡◌, refl, sym, ap, subst, ◌∙◌, true, false, none, some, List, [], ◌∷◌, arith,
  length,
}

-- The treaty of a week later.
sub_one : (n : ℕ) → pos (suc n) -ℤ pos 1 ≡ pos n
sub_one n = eq_of_parts (pos (suc n) -ℤ pos 1) (pos n) (omega int_laws)

aged_last : (t : Treaty) → t.remaining_weeks ≡ pos 1 → aged (some t) ≡ none
unfolding aged
aged_last t h = rw (h, sub_one 0)

aged_on :
    (t : Treaty) (n : ℕ)
    → t.remaining_weeks ≡ pos (suc (suc n))
    → (aged (some t) ≡ some (one_week_less t)) × ((one_week_less t).remaining_weeks ≡ pos (suc n))
unfolding aged
aged_on t n h =
    let less : t.remaining_weeks -ℤ pos 1 ≡ pos (suc n) = rw h (sub_one (suc n)) in
    let not_over : leb_ℤ (t.remaining_weeks -ℤ pos 1) (pos 0) ≡ false = rw less (ground arith) in
    (rw not_over, less)

module _ {F : Type 0} ⦃d : Float F⦄ where
  -- TickWeek: processPeace, then processWarfare, which records the raids.
  abbrev pub weeks : List (ℕ × List (ℕ × ℕ)) → Peace F → Peace F
  weeks [] s = s
  weeks ((tick, raids) ∷ ws) s = weeks ws (record_raids raids (process_peace tick s))

  one_week :
      (tick : ℕ) (raids : List (ℕ × ℕ)) (s : Peace F)
      → HasUniqueKeys s.treaties
      → HasUniqueKeys (record_raids raids (process_peace tick s)).treaties
        × ((k : Pair)
            → get k (record_raids raids (process_peace tick s)).treaties
              ≡ aged (get k (form_treaties tick s.raid_counts s).treaties))
  unfolding process_peace
  one_week tick raids s u =
      let same = treaties-record_raids raids (process_peace tick s) in
      let u' = form_treaties-HasUniqueKeys tick s.raid_counts s u in
      (
        subst HasUniqueKeys (sym same)
            (age_treaties-HasUniqueKeys (form_treaties tick s.raid_counts s).treaties u'),
        (λ k.
            ap (get k) same ∙ get-age_treaties k (form_treaties tick s.raid_counts s).treaties u'),
      )

  -- The treaty after a week, and whether it is still there.
  abbrev pub HasWeeks : ℕ → Pair → Peace F → Type 0
  HasWeeks zero k s = get k s.treaties ≡ none
  HasWeeks (suc n) k s =
      (t : Treaty) × (get k s.treaties ≡ some t) × (t.remaining_weeks ≡ pos (suc n))

  one_week-HasWeeks :
      (tick : ℕ) (raids : List (ℕ × ℕ)) (k : Pair) (n : ℕ) (s : Peace F)
      → HasUniqueKeys s.treaties
      → HasWeeks (suc n) k s
      → HasWeeks n k (record_raids raids (process_peace tick s))
  one_week-HasWeeks tick raids k zero s u (t, found, left) =
      (one_week tick raids s u).1 k
      ∙ ap aged (form_treaties-keeps tick k s.raid_counts s found)
      ∙ aged_last t left
  one_week-HasWeeks tick raids k (suc n) s u (t, found, left) =
      let (on, less) = aged_on t n left in
      (
        one_week_less t,
        (one_week tick raids s u).1 k
            ∙ ap aged (form_treaties-keeps tick k s.raid_counts s found)
            ∙ on,
        less,
      )

  -- Whatever raids there are, a treaty that has as many weeks left as pass and n more has n left
  -- after them, and is gone where n is 0.
  pub weeks-HasWeeks :
      (k : Pair) (ws : List (ℕ × List (ℕ × ℕ))) (n : ℕ) (s : Peace F)
      → HasUniqueKeys s.treaties
      → HasWeeks (length ws + n) k s
      → HasWeeks n k (weeks ws s)
  weeks-HasWeeks k [] n s u h = let e : 0 + n ≡ n = omega arith in subst (λ m. HasWeeks m k s) e h
  weeks-HasWeeks k ((tick, raids) ∷ ws) n s u h =
      let e : suc (length ws) + n ≡ suc (length ws + n) = omega arith in
      let h' = subst (λ m. HasWeeks m k s) e h in
      weeks-HasWeeks k ws n (record_raids raids (process_peace tick s)) (one_week tick raids s u).0
        (one_week-HasWeeks tick raids k (length ws + n) s u h')

  -- A pair with enough raids and no treaty has one after the next week with 7 weeks left, and
  -- whatever raids there are it is gone after 7 weeks more, so that it is there for the raids of
  -- 7 weeks.
  pub weeks-new_peace :
      (k : Pair) {raids_before : ℤ} (tick : ℕ) (raids : List (ℕ × ℕ)) (ws : List (ℕ × List (ℕ × ℕ)))
      (n : ℕ) (s : Peace F)
      → HasUniqueKeys s.treaties
      → get k s.raid_counts ≡ some raids_before
      → leb_ℤ peace_raid_threshold raids_before ≡ true
      → get k s.treaties ≡ none
      → length ws + n ≡ 7
      → HasWeeks n k (weeks ((tick, raids) ∷ ws) s)
  weeks-new_peace k {raids_before} tick raids ws n s u counted enough at_war seven =
      let formed_now = form_treaties-forms tick k s.raid_counts s counted enough at_war in
      let (on, less) = aged_on (new_treaty tick raids_before) 6 refl in
      let after = (one_week tick raids s u).1 k ∙ ap aged formed_now ∙ on in
      weeks-HasWeeks k ws n (record_raids raids (process_peace tick s)) (one_week tick raids s u).0
        (subst (λ m. HasWeeks m k (record_raids raids (process_peace tick s))) (sym seven)
          (one_week_less (new_treaty tick raids_before), after, less))
