-- ===== src/Zachet/Tests.antt =====
-- Days of the cook and his hunters.
use seminars.Base.{
  ℕ, ◌≡◌, refl, true, false, none, some, List, [], ◌∷◌, ◌==◌, if◌then◌else◌, arith, replicate,
  ==_refl,
}
use seminars.Zachet.{
  Msg, Cook, died, next, day, cook, first_day, cook_mtype, answer_hunters, share_food, has_flag,
  serve, answer, get_food, put_food, cook_eats, cook_eats_late, kill, choose_hunter,
  first_without_food, first_alive, answer_value, is_victim, all_sent,
}
use seminars.Zachet.Choice.{count_alive}
use seminars.Zachet.Days.{Shared, share_food-Shared}
use seminars.Zachet.End.{Ends, cook-stops, cook-dies}
use seminars.Zachet.Hunter.{Receive, TakesFirst, hear_all, hunt}
use seminars.Zachet.Delivery.{hear_all-answers}

-- The first message of the type that is asked for leaves the queue.
receive : Receive
receive mtype [] = none
receive mtype (msg ∷ msgs) =
    let later = receive mtype msgs in
    if msg.mtype == mtype
    then some (msg, msgs)
    else elim later [ none ↦ none | some (m, rest) ↦ some (m, msg ∷ rest) ]

receive-TakesFirst : TakesFirst receive
unfolding receive
receive-TakesFirst msg msgs = rw (==_refl msg.mtype)

hear_all-answers_example :
    let answers = answer_hunters (true ∷ false ∷ true ∷ true ∷ []) 0 (some 2) 1 in
    hear_all receive (true ∷ false ∷ true ∷ true ∷ []) 0 answers.msgs ≡ some (answers.is_alive, [])
hear_all-answers_example =
    hear_all-answers receive (true ∷ false ∷ true ∷ true ∷ []) 0 (some 2) 1 receive-TakesFirst

empty_handed : ℕ → Msg
empty_handed id = record { mtype = cook_mtype; value = 0; id_from = id }

-- Four hunters bring food and the last one does not: he is killed.
abbrev morning : List Msg
morning = hunt 3 true 4 ∷ hunt 0 true 2 ∷ hunt 4 true 1 ∷ hunt 1 true 0 ∷ hunt 2 true 6 ∷ []

morning_alive :
    day (λ n. true) (first_day morning)
    ≡ next (record {
      food_count = 1;
      hunters_count = 4;
      is_alive = true ∷ true ∷ true ∷ true ∷ false ∷ [];
      inbox = [];
      sent = 5;
    })
unfolding hunt day serve answer get_food put_food has_flag share_food cook_eats cook_eats_late kill
    choose_hunter first_without_food first_alive answer_hunters answer_value is_victim all_sent
    first_day
morning_alive = refl

share_food-Shared_example :
    Shared
      (true ∷ false ∷ true ∷ [])
      1
      2
      (share_food (true ∷ false ∷ true ∷ []) (1 ∷ 0 ∷ 0 ∷ []) 1 2)
share_food-Shared_example =
    share_food-Shared (true ∷ false ∷ true ∷ []) (1 ∷ 0 ∷ 0 ∷ []) 1 2 (unfold count_alive in refl)

cook-stops_example : Ends (cook (λ n. true) 16 (first_day morning))
cook-stops_example = cook-stops (λ n. true) morning

abbrev famine : List Msg
famine = replicate 80 (empty_handed 0)

cook-dies_example :
    (c : Cook) × (cook (λ n. true) 16 (first_day famine) ≡ died c)
    × (c.hunters_count ≡ 0)
    × (count_alive c.is_alive ≡ 0)
cook-dies_example = cook-dies (λ n. refl) famine (omega arith)
