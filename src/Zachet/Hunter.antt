-- ===== src/Zachet/Hunter.antt =====
-- zachet/zachet.c, `hunter`: what a hunter sends in the morning, and what the cook's answer does
-- to him. The random number is an argument.
use seminars.Base.{
  ℕ, ◌+◌, ◌%◌, ◌≡◌, Bool, true, false, Option, none, some, List, [], ◌∷◌, ◌==◌, if◌then◌else◌,
}
use seminars.Zachet.{Msg, has_flag, msg_food, msg_killed, msg_cook_dead, cook_mtype, snd_to_hunter}

-- Half of the hunts succeed after a day with food, a third of them after one without.
unfoldable pub hunt : ℕ → Bool → ℕ → Msg
hunt id success rand =
    let got_food = if success then rand % 2 == 0 else rand % 3 == 0 in
    record { mtype = cook_mtype; value = if got_food then msg_food else 0; id_from = id }

-- EXIT_SUCCESS, or another day with the new `success`.
pub data Fate : Type 0 where
  exits : Fate
  hunts_on : Bool → Fate

unfoldable pub hear : ℕ → Fate
unfolding has_flag
hear value =
    if has_flag msg_cook_dead value
    then exits
    else (if has_flag msg_killed value then exits else hunts_on (has_flag msg_food value))

abbrev pub goes_on : Fate → Bool
goes_on exits = false
goes_on (hunts_on _) = true

-- `msgrcv` for one type of message: the message and the queue that it leaves, or no such message.
abbrev pub Receive : Type 0
Receive = ℕ → List Msg → Option (Msg × List Msg)

-- A message at the front of the queue is received by who asks for its type.
abbrev pub TakesFirst : Receive → Type 0
TakesFirst receive =
    (msg : Msg) (msgs : List Msg) → receive msg.mtype (msg ∷ msgs) ≡ some (msg, msgs)

-- The living hunters, from number `i` on, receive their answers one after the other: who of them
-- goes on, and what stays in the queue. `none` where one of them waits in vain.
unfoldable pub hear_all : Receive → List Bool → ℕ → List Msg → Option (List Bool × List Msg)
hear_all receive [] i queue = some ([], queue)
hear_all receive (false ∷ rest) i queue = elim (hear_all receive rest (i + 1) queue) [
  | none ↦ none
  | some (on, left) ↦ some (false ∷ on, left)
]
hear_all receive (true ∷ rest) i queue = elim (receive (snd_to_hunter i) queue) [
  | none ↦ none
  | some (msg, queue') ↦ elim (hear_all receive rest (i + 1) queue') [
    | none ↦ none
    | some (on, left) ↦ some (goes_on (hear msg.value) ∷ on, left)
  ]
]
