-- ===== src/Zachet/End.antt =====
-- The cook's end: it comes within sixteen days, and no hunter is alive to see it.
use mathlib.Core.Path.{subst}
use seminars.Base.{
  ℕ, zero, suc, ◌+◌, ◌*◌, ◌<◌, ◌≤◌, ◌≡◌, ◌≢◌, refl, Bool, true, some, List, [], ◌∷◌, length, arith,
  Bool-cases, sym, inl, inr, ◌⊎◌,
}
use seminars.Zachet.{
  Msg, Stock, get_food, put_food, Meal, Cook, all_sent, Day, failed, died, next, answer, serve,
  no_food_yet, day, cook, first_day,
}
use seminars.Zachet.Choice.{count_alive}
use seminars.Zachet.Days.{IsValid, first_day-IsValid, days_left, Leaves, day-Leaves}

pub Day-cases :
    (d : Day) → (d ≡ failed) ⊎ (((c : Cook) × (d ≡ died c)) ⊎ ((c : Cook) × (d ≡ next c)))
Day-cases failed = inl refl
Day-cases (died c) = inr (inl (c, refl))
Day-cases (next c) = inr (inr (c, refl))

-- The end of `cook`: the cook has outlived every hunter, or a call has failed.
abbrev pub Ends : Day → Type 0
Ends failed = Unit
Ends (died c) = IsValid c × (c.hunters_count ≡ 0)
Ends (next c) = ⊥

cook-Ends :
    (send_ok : ℕ → Bool) (days : ℕ) (c : Cook)
    → IsValid c
    → days_left c < days
    → Ends (cook send_ok days c)
unfolding cook
cook-Ends send_ok zero c v h = absurd (omega arith)
cook-Ends send_ok (suc days) c v h =
    after (day send_ok c) (day-Leaves send_ok c v)
      (λ c' v' lt. cook-Ends send_ok days c' v' (omega arith))
  where
    after :
        (d : Day)
        → Leaves c d
        → ((c' : Cook) → IsValid c' → days_left c' < days_left c → Ends (cook send_ok days c'))
        → Ends (elim d [ next c' ↦ cook send_ok days c' | failed ↦ failed | died c' ↦ died c' ])
    after failed l more = tt
    after (died c') l more = l
    after (next c') (v', lt) more = more c' v' lt

-- Whatever messages come in and whichever sends succeed, the cook's loop is left within sixteen
-- days, and when it is left by the cook's death no hunter is alive.
pub cook-stops : (send_ok : ℕ → Bool) (inbox : List Msg) → Ends (cook send_ok 16 (first_day inbox))
unfolding days_left first_day
cook-stops send_ok inbox =
    cook-Ends send_ok 16 (first_day inbox) (first_day-IsValid inbox) (omega arith)

module _ {send_ok : ℕ → Bool} (sends : (n : ℕ) → send_ok n ≡ true) where
  all_sent-true : (n : ℕ) (msgs : List Msg) → all_sent send_ok n msgs ≡ true
  unfolding all_sent
  all_sent-true n [] = refl
  all_sent-true n (msg ∷ msgs) = rw (sends n) (all_sent-true (n + 1) msgs)

  -- A day does not fail while there are messages for it, and uses up one for each hunter.
  get_food-length :
      (n : ℕ) (st : Stock) (inbox : List Msg)
      → n ≤ length inbox
      → (r : Stock × List Msg) × (get_food n st inbox ≡ some r) × (length inbox ≡ length r.1 + n)
  unfolding get_food
  get_food-length zero st inbox h = ((st, inbox), refl, omega arith)
  get_food-length (suc n) st [] h = absurd (omega arith)
  get_food-length (suc n) st (msg ∷ inbox) h =
      let (r, e, l) = get_food-length n (put_food st msg) inbox (omega arith) in (r, e, omega arith)

  -- A day that goes on leaves the later messages.
  abbrev Proceeds : ℕ → Day → Type 0
  Proceeds n failed = ⊥
  Proceeds n (died c) = Unit
  Proceeds n (next c) = n ≤ length c.inbox

  answer-Proceeds :
      (c : Cook) (inbox : List Msg) (meal : Meal)
      → Proceeds (length inbox) (answer send_ok c inbox meal)
  unfolding answer
  answer-Proceeds c inbox meal = elim (Bool-cases meal.cook_had_food) [
    | inl e ↦ rw (all_sent-true c.sent, e) (omega arith)
    | inr e ↦ rw (all_sent-true c.sent, e) tt
  ]

  Proceeds-le : (d : Day) {m n : ℕ} → n ≤ m → Proceeds m d → Proceeds n d
  Proceeds-le failed h p = p
  Proceeds-le (died c) h p = p
  Proceeds-le (next c) h p = omega arith

  day-received :
      (c : Cook) (stock : Stock) (inbox : List Msg)
      → get_food c.hunters_count (no_food_yet c) c.inbox ≡ some (stock, inbox)
      → day send_ok c ≡ serve send_ok c stock inbox
  unfolding day
  day-received c stock inbox e = ground arith

  day-Proceeds :
      (c : Cook) (n : ℕ) → c.hunters_count ≤ 5 → n + 5 ≤ length c.inbox → Proceeds n (day send_ok c)
  unfolding serve
  day-Proceeds c n few enough =
      let ((stock, inbox), e, l) =
        get_food-length c.hunters_count (no_food_yet c) c.inbox (omega arith) in
      subst (Proceeds n) (sym (day-received c stock inbox e))
        (Proceeds-le (serve send_ok c stock inbox) (omega arith) (answer-Proceeds c inbox _))

  cook-Proceeds :
      (days : ℕ) (c : Cook) → IsValid c → 5 * days ≤ length c.inbox → cook send_ok days c ≢ failed
  unfolding cook
  cook-Proceeds zero c v h = λ e. cc
  cook-Proceeds (suc days) c v h =
      after (day send_ok c) (day-Leaves send_ok c v)
        (day-Proceeds c (5 * days) v.hunters_le (omega arith))
        (λ c' v' l. cook-Proceeds days c' v' l)
    where
      after :
          (d : Day)
          → Leaves c d
          → Proceeds (5 * days) d
          → ((c' : Cook) → IsValid c' → 5 * days ≤ length c'.inbox → cook send_ok days c' ≢ failed)
          → (elim d [ next c' ↦ cook send_ok days c' | failed ↦ failed | died c' ↦ died c' ])
            ≢ failed
      after failed l p more = absurd p
      after (died c') l p more = λ e. cc
      after (next c') (v', lt) p more = more c' v' p

  -- With every message sent and received, the cook starves, and by then all the hunters are dead.
  pub cook-dies :
      (inbox : List Msg)
      → 80 ≤ length inbox
      → (c : Cook) × (cook send_ok 16 (first_day inbox) ≡ died c)
        × (c.hunters_count ≡ 0)
        × (count_alive c.is_alive ≡ 0)
  cook-dies inbox h = ended (cook send_ok 16 (first_day inbox)) refl (cook-stops send_ok inbox)
    where
      ended :
          (d : Day)
          → cook send_ok 16 (first_day inbox) ≡ d
          → Ends d
          → (c : Cook) × (cook send_ok 16 (first_day inbox) ≡ died c)
            × (c.hunters_count ≡ 0)
            × (count_alive c.is_alive ≡ 0)
      ended failed e end = absurd (
          cook-Proceeds 16 (first_day inbox) (first_day-IsValid inbox)
            (unfold first_day in omega arith) e)
      ended (died c) e (v, alone) = (c, e, alone, omega arith)
      ended (next c) e end = absurd end
