-- ===== src/Zachet/Days.antt =====
-- The cook's days: the invariant of `cook`, and the measure that falls from day to day.
use mathlib.Core.Path.{subst}
use seminars.Base.{
  get_or, sym, dec_lt, ◌∙◌, ◌∷◌, [], ℕ, zero, suc, ◌+◌, ◌-◌, ◌*◌, ◌<◌, ◌≤◌, ◌≡◌, refl, Bool, true,
  false, Option, none, some, List, arith,
}
use seminars.Zachet.{
  Msg, Stock, put_food, get_food, choose_hunter, Meal, cook_eats, kill, cook_eats_late, share_food,
  Cook, Day, failed, died, next, answer, serve, no_food_yet, day, first_day, max_hunters,
}
use seminars.Zachet.Choice.{
  count_alive, Living, choose_hunter-Living, choose_hunter-none, answer_hunters-food,
  answer_hunters-is_alive, count_alive-survivors,
}

-- What holds between two days: `hunters_count` is the number of the living, and little food is left.
pub record IsValid (c : Cook) : Type 0 where
  pub counted : c.hunters_count ≡ count_alive c.is_alive
  pub food_le : c.food_count ≤ 2
  pub hunters_le : c.hunters_count ≤ max_hunters

pub first_day-IsValid : (inbox : List Msg) → IsValid (first_day inbox)
unfolding first_day count_alive
first_day-IsValid inbox = omega arith

-- A day's messages bring a piece each at most.
get_food-food :
    (n : ℕ) (st st' : Stock) (inbox inbox' : List Msg)
    → get_food n st inbox ≡ some (st', inbox')
    → (st.food_count ≤ st'.food_count) × (st'.food_count ≤ st.food_count + n)
unfolding get_food put_food
get_food-food zero st st' inbox inbox' e = ground arith
get_food-food (suc n) st st' [] inbox' e = cc
get_food-food (suc n) st st' (msg ∷ inbox) inbox' e =
    ground (arith, get_food-food n (put_food st msg) st' inbox inbox')

-- How the food is shared: there is plenty for all, or a hunter dies, or only a cook is there to
-- starve.
pub data Shared (is_alive : List Bool) (food hunters : ℕ) (meal : Meal) : Type 0 where
  plenty :
      hunters < food
      → meal ≡ record {
        food_count = food - 1;
        hunters_count = hunters;
        cook_had_food = true;
        hunter_to_kill = none;
      }
      → Shared is_alive food hunters meal
  killed :
      (i : ℕ)
      → food ≤ hunters
      → get_or is_alive i false ≡ true
      → meal ≡ record {
        food_count = food + 1;
        hunters_count = hunters - 1;
        cook_had_food = true;
        hunter_to_kill = some i;
      }
      → Shared is_alive food hunters meal
  starved :
      food ≡ 0
      → hunters ≡ 0
      → meal
        ≡ record { food_count = 0; hunters_count = 0; cook_had_food = false; hunter_to_kill = none }
      → Shared is_alive food hunters meal

share_food-enough :
    (l : List Bool) (brought : List ℕ) (food hunters : ℕ)
    → hunters < food
    → share_food l brought food hunters ≡ record {
      food_count = food - 1;
      hunters_count = hunters;
      cook_had_food = true;
      hunter_to_kill = none;
    }
unfolding share_food cook_eats
share_food-enough l brought food hunters h = ground arith

share_food-kill :
    (l : List Bool) (brought : List ℕ) (food hunters i : ℕ)
    → food ≤ hunters
    → choose_hunter l brought ≡ some i
    → share_food l brought food hunters ≡ record {
      food_count = food + 1;
      hunters_count = hunters - 1;
      cook_had_food = true;
      hunter_to_kill = some i;
    }
unfolding share_food cook_eats kill cook_eats_late
share_food-kill l brought food hunters i h e = ground arith

share_food-alone :
    (l : List Bool) (brought : List ℕ)
    → choose_hunter l brought ≡ none
    → share_food l brought 0 0
      ≡ record { food_count = 0; hunters_count = 0; cook_had_food = false; hunter_to_kill = none }
unfolding share_food cook_eats kill cook_eats_late
share_food-alone l brought e = ground arith

pub share_food-Shared :
    (l : List Bool) (brought : List ℕ) (food hunters : ℕ)
    → hunters ≡ count_alive l
    → Shared l food hunters (share_food l brought food hunters)
share_food-Shared l brought food hunters e = elim (dec_lt hunters food) [
  | yes h ↦ plenty h (share_food-enough l brought food hunters h)
  | no h ↦ too_little (omega arith) (choose_hunter l brought) refl (choose_hunter-Living l brought)
]
  where
    too_little :
        food ≤ hunters
        → (o : Option ℕ) → choose_hunter l brought ≡ o
        → Living l 0 o
        → Shared l food hunters (share_food l brought food hunters)
    too_little h (some i) c (d, at, lives) =
        killed i h (let same : i ≡ d = omega arith in rw same lives)
          (share_food-kill l brought food hunters i h c)
    too_little h none c lives =
        let nobody : hunters ≡ 0 = e ∙ choose_hunter-none l brought c in
        let nothing : food ≡ 0 = omega arith in
        starved nothing nobody (rw (nothing, nobody) (share_food-alone l brought c))

-- A bound on the days to come.
unfoldable pub days_left : Cook → ℕ
days_left c = 3 * c.hunters_count + c.food_count

-- What a day leaves: after it the cook is alone, or there are fewer days to come.
abbrev pub Leaves : Cook → Day → Type 0
Leaves c failed = Unit
Leaves c (died c') = IsValid c' × (c'.hunters_count ≡ 0)
Leaves c (next c') = IsValid c' × (days_left c' < days_left c)

answer-Leaves :
    (send_ok : ℕ → Bool) (c : Cook) (food : ℕ) (inbox : List Msg) (meal : Meal)
    → IsValid c
    → food ≤ c.food_count + c.hunters_count
    → Shared c.is_alive food c.hunters_count meal
    → Leaves c (answer send_ok c inbox meal)
unfolding answer days_left
answer-Leaves send_ok c food inbox meal v h (plenty lt e) =
    subst (λ m. Leaves c (answer send_ok c inbox m)) (sym e)
      (ground (
        arith,
        answer_hunters-food c.is_alive 0 none (food - 1),
        answer_hunters-is_alive c.is_alive 0 none (food - 1),
        count_alive-survivors c.is_alive none tt,
      ))
answer-Leaves send_ok c food inbox meal v h (killed i le at e) =
    subst (λ m. Leaves c (answer send_ok c inbox m)) (sym e)
      (ground (
        arith,
        answer_hunters-food c.is_alive 0 (some i) (food + 1),
        answer_hunters-is_alive c.is_alive 0 (some i) (food + 1),
        count_alive-survivors c.is_alive (some i) (i, omega arith, at),
      ))
answer-Leaves send_ok c food inbox meal v h (starved none_left nobody e) =
    subst (λ m. Leaves c (answer send_ok c inbox m)) (sym e)
      (ground (
        arith,
        answer_hunters-food c.is_alive 0 none 0,
        answer_hunters-is_alive c.is_alive 0 none 0,
        count_alive-survivors c.is_alive none tt,
      ))

-- Every day keeps the invariant, and brings the cook's end nearer.
pub day-Leaves : (send_ok : ℕ → Bool) (c : Cook) → IsValid c → Leaves c (day send_ok c)
unfolding day serve
day-Leaves send_ok c v = received (get_food c.hunters_count (no_food_yet c) c.inbox) refl
  where
    received :
        (r : Option (Stock × List Msg))
        → get_food c.hunters_count (no_food_yet c) c.inbox ≡ r
        → Leaves c (elim r [ none ↦ failed | some (stock, inbox) ↦ serve send_ok c stock inbox ])
    received none e = tt
    received (some (stock, inbox)) e =
        answer-Leaves send_ok c stock.food_count inbox
          (share_food c.is_alive stock.brought_food stock.food_count c.hunters_count) v
          (get_food-food c.hunters_count (no_food_yet c) stock c.inbox inbox e).1
          (share_food-Shared c.is_alive stock.brought_food stock.food_count c.hunters_count
            v.counted)
