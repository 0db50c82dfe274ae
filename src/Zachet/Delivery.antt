-- ===== src/Zachet/Delivery.antt =====
-- The cook's answers reach the hunters that they are meant for.
use seminars.Base.{
  arith, ℕ, ◌+◌, ◌-◌, ◌≡◌, refl, ap, ◌∙◌, Bool, true, false, not, ◌&&◌, Option, some, List, [], ◌∷◌,
  ltb, if◌then◌else◌,
}
use seminars.Zachet.{Msg, answer_value, answer_hunters, snd_to_hunter, is_victim}
use seminars.Zachet.Hunter.{hear, Receive, TakesFirst, hear_all, goes_on}

-- A hunter goes on unless his answer says that he is killed.
hear-answer_value :
    (is_killed fed : Bool) → goes_on (hear (answer_value is_killed fed)) ≡ not is_killed
unfolding hear answer_value
hear-answer_value true true = refl
hear-answer_value true false = refl
hear-answer_value false true = refl
hear-answer_value false false = refl

-- One living hunter hears his answer.
hear_all-cons :
    (receive : Receive) (rest on : List Bool) (i : ℕ) (msg : Msg) (queue queue' left : List Msg)
    → receive (i + 1) queue ≡ some (msg, queue')
    → hear_all receive rest (i + 1) queue' ≡ some (on, left)
    → hear_all receive (true ∷ rest) i queue ≡ some (goes_on (hear msg.value) ∷ on, left)
unfolding hear_all
hear_all-cons receive rest on i msg queue queue' left e f = ground arith

-- Every living hunter receives one answer, no answer is left over, and those who go on are those
-- whom the cook counts as alive after the day.
pub hear_all-answers :
    (receive : Receive) (l : List Bool) (i : ℕ) (victim : Option ℕ) (food : ℕ)
    → TakesFirst receive
    → let answers = answer_hunters l i victim food in
      hear_all receive l i answers.msgs ≡ some (answers.is_alive, [])
unfolding hear_all answer_hunters
hear_all-answers receive [] i victim food first = refl
hear_all-answers receive (false ∷ rest) i victim food first =
    rw (hear_all-answers receive rest (i + 1) victim food first)
hear_all-answers receive (true ∷ rest) i victim food first =
    let is_killed = is_victim i victim in
    let fed = ltb 0 food && not is_killed in
    let later = answer_hunters rest (i + 1) victim (if fed then food - 1 else food) in
    let msg : Msg = record {
      mtype = snd_to_hunter i;
      value = answer_value is_killed fed;
      id_from = 0;
    } in
    hear_all-cons receive rest later.is_alive i msg (msg ∷ later.msgs) later.msgs []
      (first msg later.msgs)
      (hear_all-answers receive rest (i + 1) victim (if fed then food - 1 else food) first)
    ∙ ap (λ b. some (b ∷ later.is_alive, [])) (hear-answer_value is_killed fed)
