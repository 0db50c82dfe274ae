-- ===== src/Zachet/Choice.antt =====
-- Whom the cook chooses, who survives the answers, and what food is left then.
use seminars.Base.{
  ℕ, zero, suc, ◌+◌, ◌-◌, ◌<◌, ◌≡◌, inl, inr, refl, Bool, true, false, not, ◌&&◌, set, Bool-cases,
  Option, none, some, List, [], ◌∷◌, ◌==◌, if◌then◌else◌, arith, get_or,
}
use seminars.Zachet.{first_alive, first_without_food, choose_hunter, is_victim, answer_hunters}

unfoldable pub count_alive : List Bool → ℕ
count_alive [] = 0
count_alive (alive ∷ rest) = (if alive then 1 else 0) + count_alive rest

-- A loop that starts at index `i` finds a living hunter, or there is none it would take.
abbrev pub Living : List Bool → ℕ → Option ℕ → Type 0
Living is_alive i none = Unit
Living is_alive i (some j) = (d : ℕ) × (j ≡ i + d) × (get_or is_alive d false ≡ true)

Living-cons :
    (b : Bool) (rest : List Bool) (i : ℕ) (o : Option ℕ)
    → Living rest (i + 1) o
    → Living (b ∷ rest) i o
Living-cons b rest i none h = tt
Living-cons b rest i (some j) (d, e, h) = (suc d, omega arith, h)

pub first_alive-Living : (l : List Bool) (i : ℕ) → Living l i (first_alive l i)
unfolding first_alive
first_alive-Living [] i = tt
first_alive-Living (true ∷ rest) i = (0, omega arith, refl)
first_alive-Living (false ∷ rest) i =
    Living-cons false rest i (first_alive rest (i + 1)) (first_alive-Living rest (i + 1))

first_without_food-Living :
    (l : List Bool) (brought : List ℕ) (i : ℕ) → Living l i (first_without_food l brought i)
unfolding first_without_food
first_without_food-Living [] brought i = tt
first_without_food-Living (true ∷ rest) brought i = elim (Bool-cases (get_or brought i 0 == 0)) [
  | inl e ↦ rw (e, Living) (0, omega arith, refl)
  | inr e ↦
      rw (e, Living)
        (Living-cons true rest i (first_without_food rest brought (i + 1))
          (first_without_food-Living rest brought (i + 1)))
]
first_without_food-Living (false ∷ rest) brought i =
    Living-cons false rest i (first_without_food rest brought (i + 1))
      (first_without_food-Living rest brought (i + 1))

pub first_alive-none : (l : List Bool) (i : ℕ) → first_alive l i ≡ none → count_alive l ≡ 0
unfolding first_alive count_alive
first_alive-none [] i e = refl
first_alive-none (true ∷ rest) i e = cc
first_alive-none (false ∷ rest) i e = omega (arith, first_alive-none rest (i + 1) e)

-- The hunter to be killed is alive; nobody is chosen only where nobody is alive.
pub choose_hunter-Living : (l : List Bool) (brought : List ℕ) → Living l 0 (choose_hunter l brought)
unfolding choose_hunter
choose_hunter-Living l brought =
    orelse (first_without_food l brought 0) (first_without_food-Living l brought 0)
  where
    orelse :
        (o : Option ℕ)
        → Living l 0 o
        → Living l 0 (elim o [ some i ↦ some i | none ↦ first_alive l 0 ])
    orelse none h = first_alive-Living l 0
    orelse (some i) h = h

pub choose_hunter-none :
    (l : List Bool) (brought : List ℕ) → choose_hunter l brought ≡ none → count_alive l ≡ 0
unfolding choose_hunter
choose_hunter-none l brought e = ground (arith, first_alive-none l 0)

-- The answers leave the food that is left over when each survivor has a piece.
pub answer_hunters-food :
    (l : List Bool) (i : ℕ) (victim : Option ℕ) (food : ℕ)
    → let answers = answer_hunters l i victim food in
      answers.food_count ≡ food - count_alive answers.is_alive
unfolding answer_hunters count_alive
answer_hunters-food [] i victim food = omega arith
answer_hunters-food (alive ∷ rest) i victim food = ground (
  arith,
  answer_hunters-food rest (i + 1) victim food,
  answer_hunters-food rest (i + 1) victim (food - 1),
)

-- Who is alive after the answers, whatever food there was.
pub survivors : ℕ → Option ℕ → List Bool → List Bool
survivors i victim [] = []
survivors i victim (alive ∷ rest) =
    (alive && not (is_victim i victim)) ∷ survivors (i + 1) victim rest

pub answer_hunters-is_alive :
    (l : List Bool) (i : ℕ) (victim : Option ℕ) (food : ℕ)
    → (answer_hunters l i victim food).is_alive ≡ survivors i victim l
unfolding answer_hunters survivors
answer_hunters-is_alive [] i victim food = refl
answer_hunters-is_alive (alive ∷ rest) i victim food = ground (
  arith,
  answer_hunters-is_alive rest (i + 1) victim food,
  answer_hunters-is_alive rest (i + 1) victim (food - 1),
)

survivors-none : (i : ℕ) (l : List Bool) → survivors i none l ≡ l
unfolding survivors is_victim
survivors-none i [] = refl
survivors-none i (alive ∷ rest) = ground (arith, survivors-none (i + 1) rest)

survivors-past : (i j : ℕ) (l : List Bool) → j < i → survivors i (some j) l ≡ l
unfolding survivors is_victim
survivors-past i j [] h = refl
survivors-past i j (alive ∷ rest) h = ground (arith, survivors-past (i + 1) j rest (omega arith))

-- The victim is struck off, and nobody else.
pub survivors-some :
    (i j d : ℕ) (l : List Bool) → j ≡ i + d → survivors i (some j) l ≡ set l d false
unfolding survivors is_victim
survivors-some i j d [] e = refl
survivors-some i j zero (alive ∷ rest) e = ground (arith, survivors-past (i + 1) j rest)
survivors-some i j (suc d) (alive ∷ rest) e =
    ground (arith, survivors-some (i + 1) j d rest (omega arith))

count_alive-set :
    (l : List Bool) (d : ℕ)
    → get_or l d false ≡ true
    → count_alive (set l d false) + 1 ≡ count_alive l
unfolding count_alive
count_alive-set [] d h = cc
count_alive-set (alive ∷ rest) zero h = ground arith
count_alive-set (alive ∷ rest) (suc d) h = omega (arith, count_alive-set rest d h)

-- The number of survivors, by what the choice of a victim was.
pub count_alive-survivors :
    (l : List Bool) (victim : Option ℕ)
    → Living l 0 victim
    → count_alive (survivors 0 victim l) + (elim victim [ none ↦ 0 | some _ ↦ 1 ]) ≡ count_alive l
count_alive-survivors l none h = rw (survivors-none 0 l) (omega arith)
count_alive-survivors l (some j) (d, e, h) = rw (survivors-some 0 j d l e) (count_alive-set l d h)
