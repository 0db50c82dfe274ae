-- ===== src/Zachet.antt =====
-- zachet/zachet.c: a cook and five hunters, who exchange messages once a day. The cook shares the
-- food out, and kills a hunter when there is too little of it.
pub mod Choice
pub mod Days
pub mod End
pub mod Hunter
pub mod Delivery
mod Tests
use Prim.Native.Nat.{bit_and, bit_or}
use seminars.Base.{
  ℕ, zero, suc, ◌+◌, ◌-◌, Bool, true, false, not, ◌&&◌, ◌||◌, Option, none, some, List, [], ◌∷◌,
  ltb, ◌==◌, if◌then◌else◌, get_or, set, replicate, length,
}

-- MAX_HUNTERS
abbrev pub max_hunters : ℕ
max_hunters = 5

-- COOK_MTYPE, and SND_TO_HUNTER( id)
abbrev pub cook_mtype : ℕ
cook_mtype = max_hunters + 1

abbrev pub snd_to_hunter : ℕ → ℕ
snd_to_hunter id = id + 1

abbrev pub food_in_hunter : ℕ
food_in_hunter = 2

-- `msg_val_t`, the flags of a message
abbrev pub msg_food : ℕ
msg_food = 1

abbrev pub msg_killed : ℕ
msg_killed = 2

abbrev pub msg_cook_dead : ℕ
msg_cook_dead = 4

-- `value & flag` as a test
pub has_flag : ℕ → ℕ → Bool
has_flag flag value = not (bit_and value flag == 0)

-- `msg_t`
pub record Msg : Type 0 where
  pub mtype : ℕ
  pub value : ℕ
  pub id_from : ℕ

-- What the cook knows while the messages of a day come in: `brought_food` and `food_count`.
pub record Stock : Type 0 where
  pub brought_food : List ℕ
  pub food_count : ℕ

-- The id is that of a hunter, and below MAX_HUNTERS. For another id the source writes outside
-- `brought_food`, into memory that the model does not have; here such a write is left out.
pub put_food : Stock → Msg → Stock
put_food st msg =
    if has_flag msg_food msg.value
    then record { brought_food = set st.brought_food msg.id_from 1; food_count = st.food_count + 1 }
    else record st { brought_food = set st.brought_food msg.id_from 0 }

-- The receiving loop. The list holds what `msgrcv` will return; where it ends, `msgrcv` fails.
pub get_food : ℕ → Stock → List Msg → Option (Stock × List Msg)
get_food zero st inbox = some (st, inbox)
get_food (suc n) st [] = none
get_food (suc n) st (msg ∷ inbox) = get_food n (put_food st msg) inbox

-- The first living hunter, counted from `i`, who brought no food.
pub first_without_food : List Bool → List ℕ → ℕ → Option ℕ
first_without_food [] brought i = none
first_without_food (alive ∷ rest) brought i =
    let later = first_without_food rest brought (i + 1) in
    if not alive then later else (if get_or brought i 0 == 0 then some i else later)

pub first_alive : List Bool → ℕ → Option ℕ
first_alive [] i = none
first_alive (alive ∷ rest) i =
    let later = first_alive rest (i + 1) in if not alive then later else some i

-- The two loops that choose `hunter_to_kill`; `none` is -1.
pub choose_hunter : List Bool → List ℕ → Option ℕ
choose_hunter is_alive brought = elim (first_without_food is_alive brought 0) [
  | some i ↦ some i
  | none ↦ first_alive is_alive 0
]

-- `food_count`, `hunters_count`, `cook_had_food` and `hunter_to_kill` while the food is shared out
pub record Meal : Type 0 where
  pub food_count : ℕ
  pub hunters_count : ℕ
  pub cook_had_food : Bool
  pub hunter_to_kill : Option ℕ

pub cook_eats : ℕ → ℕ → Meal
cook_eats food hunters =
    if ltb 0 food
    then record {
      food_count = food - 1;
      hunters_count = hunters;
      cook_had_food = true;
      hunter_to_kill = none;
    }
    else record {
      food_count = food;
      hunters_count = hunters;
      cook_had_food = false;
      hunter_to_kill = none;
    }

pub kill : Meal → Option ℕ → Meal
kill meal none = meal
kill meal (some i) = record meal {
  food_count = meal.food_count + food_in_hunter;
  hunters_count = meal.hunters_count - 1;
  hunter_to_kill = some i;
}

-- "Повар забирает себе кусок еды если ему еще не досталось"
pub cook_eats_late : Meal → Meal
cook_eats_late meal =
    if not meal.cook_had_food && ltb 0 meal.food_count
    then record meal { food_count = meal.food_count - 1; cook_had_food = true }
    else meal

pub share_food : List Bool → List ℕ → ℕ → ℕ → Meal
share_food is_alive brought food hunters =
    let meal = cook_eats food hunters in
    if ltb meal.food_count hunters || not meal.cook_had_food
    then cook_eats_late (kill meal (choose_hunter is_alive brought))
    else meal

pub is_victim : ℕ → Option ℕ → Bool
is_victim i none = false
is_victim i (some j) = i == j

-- The cook between two days, with the messages that are still to come and those sent so far.
pub record Cook : Type 0 where
  pub food_count : ℕ
  pub hunters_count : ℕ
  pub is_alive : List Bool
  pub inbox : List Msg
  pub sent : ℕ

-- What the sending loop leaves behind: `is_alive`, `food_count` and the messages, in order.
pub record Answers : Type 0 where
  pub is_alive : List Bool
  pub food_count : ℕ
  pub msgs : List Msg

-- The message to the living hunter `i`.
pub answer_value : Bool → Bool → ℕ
answer_value killed fed =
    let value = if killed then bit_or 0 msg_killed else 0 in
    if fed then bit_or value msg_food else value

pub answer_hunters : List Bool → ℕ → Option ℕ → ℕ → Answers
answer_hunters [] i victim food = record { is_alive = []; food_count = food; msgs = [] }
answer_hunters (alive ∷ rest) i victim food =
    let killed = is_victim i victim in
    let fed = ltb 0 food && not killed in
    let later = answer_hunters rest (i + 1) victim (if alive && fed then food - 1 else food) in
    if not alive then record later { is_alive = false ∷ later.is_alive } else record {
      is_alive = not killed ∷ later.is_alive;
      food_count = later.food_count;
      msgs =
          record { mtype = snd_to_hunter i; value = answer_value killed fed; id_from = 0 }
          ∷ later.msgs;
    }

-- The sending loop stops at the first `msgsnd` that fails. The n-th `msgsnd` of the cook succeeds
-- where `send_ok n`.
pub all_sent : (ℕ → Bool) → ℕ → List Msg → Bool
all_sent send_ok n [] = true
all_sent send_ok n (msg ∷ msgs) = send_ok n && all_sent send_ok (n + 1) msgs

-- How a day ends: EXIT_FAILURE, the cook's death (EXIT_SUCCESS), or another day.
pub data Day : Type 0 where
  failed : Day
  died : Cook → Day
  next : Cook → Day

-- The end of a day: the answers go out, and the cook may die.
pub answer : (ℕ → Bool) → Cook → List Msg → Meal → Day
answer send_ok c inbox meal =
    let answers = answer_hunters c.is_alive 0 meal.hunter_to_kill meal.food_count in
    let c' : Cook = record {
      food_count = answers.food_count;
      hunters_count = meal.hunters_count;
      is_alive = answers.is_alive;
      inbox = inbox;
      sent = c.sent + length answers.msgs;
    } in
    if not (all_sent send_ok c.sent answers.msgs)
    then failed
    else (if not meal.cook_had_food then died c' else next c')

-- A day, after its messages have come in.
pub serve : (ℕ → Bool) → Cook → Stock → List Msg → Day
serve send_ok c stock inbox =
    answer send_ok c inbox
      (share_food c.is_alive stock.brought_food stock.food_count c.hunters_count)

abbrev pub no_food_yet : Cook → Stock
no_food_yet c = record { brought_food = replicate max_hunters 0; food_count = c.food_count }

pub day : (ℕ → Bool) → Cook → Day
day send_ok c = elim (get_food c.hunters_count (no_food_yet c) c.inbox) [
  | none ↦ failed
  | some (stock, inbox) ↦ serve send_ok c stock inbox
]

-- `cook` for so many days at most; `next` means that they were too few.
pub cook : (ℕ → Bool) → ℕ → Cook → Day
cook send_ok zero c = next c
cook send_ok (suc days) c = elim (day send_ok c) [
  | next c' ↦ cook send_ok days c'
  | failed ↦ failed
  | died c' ↦ died c'
]

pub first_day : List Msg → Cook
first_day inbox = record {
  food_count = 0;
  hunters_count = max_hunters;
  is_alive = replicate max_hunters true;
  inbox = inbox;
  sent = 0;
}
