-- ===== src/Tg/Chats.antt =====
-- A chat that 7 founds and 8 joins.
use seminars.Base.{ℕ, ◌≡◌, refl, true, false, none, some, List, [], ◌∷◌, replicate, arith}
use seminars.Tg.{success, shared_error, add_user}
use seminars.Tg.Join.{
  System, Calls, Member, Joined, no_bytes, init_signals, fails, init_shared, leave_chat, enter,
  Wait, interrupted, approved, wait_for_approval, init_founder, init_joining, join_request_handler,
}
use seminars.Tg.Joining.{JoinsBy, init_joining-JoinsBy, leave_chat-closes, joined-approves_in_vain}
use seminars.Tg.Founding.{alone, founder-lets_in}

abbrev all_well : Calls
all_well = record {
  sigemptyset = true;
  sigaction_request = true;
  sigaction_approve = true;
  sigaddset_int = true;
  sigaction_msg = true;
  sigaddset_approved = true;
  shm_open = true;
  ftruncate = true;
  mmap = true;
  sem_open = true;
}

abbrev no_chat : System
no_chat = record { shm = λ p. none; mutex = λ p. false; memory = λ o. no_bytes; memories = 0 }

unfoldable chat : System
unfolding init_founder add_user
chat = (init_founder all_well 7 no_chat).system

-- A signal comes in between.
abbrev waits : List Wait
waits = interrupted ∷ approved 7 ∷ []

unfoldable in_chat : Joined
unfolding chat init_shared enter add_user
in_chat = enter (init_shared all_well 8 7 false chat)

abbrev eight : Member
eight = record { self = 8; shm_and_sem_id = 7; shared = 0 }

signals_work : init_signals all_well ≡ success
unfolding init_signals
signals_work = refl

seven_approves : wait_for_approval waits ≡ some (approved 7)
unfolding wait_for_approval
seven_approves = refl

founded : (init_founder all_well 7 no_chat).status ≡ success
unfolding init_founder add_user
founded = refl

eight_joins : init_joining all_well 8 waits chat ≡ some in_chat
unfolding init_joining in_chat
eight_joins = refl

eight_is_in : in_chat.member ≡ some eight
unfolding in_chat
eight_is_in = refl

nine_waits : wait_for_approval (approved 8 ∷ []) ≡ some (approved (join_request_handler eight).0)
unfolding wait_for_approval join_request_handler
nine_waits = refl

nobody_named_eight : chat.shm 8 ≡ none
unfolding chat
nobody_named_eight = refl

init_joining-JoinsBy_example :
    (j : Joined) × (init_joining all_well 8 waits chat ≡ some j) × JoinsBy all_well 8 7 chat j
init_joining-JoinsBy_example =
    init_joining-JoinsBy all_well 8 7 chat waits (omega arith) signals_work refl seven_approves

leave_chat-closes_example :
    init_joining all_well 9 waits (leave_chat eight in_chat.system)
    ≡ some (fails shared_error (leave_chat eight in_chat.system))
leave_chat-closes_example =
    leave_chat-closes all_well 9 eight in_chat.system waits signals_work refl seven_approves

joined-approves_in_vain_example :
    ((join_request_handler eight).1 ≡ 7)
    × (init_joining all_well 9 (approved 8 ∷ []) in_chat.system
        ≡ some (fails shared_error in_chat.system))
joined-approves_in_vain_example =
    joined-approves_in_vain all_well all_well 8 9 7 eight chat in_chat waits (approved 8 ∷ [])
      (omega arith) nobody_named_eight signals_work refl seven_approves eight_joins eight_is_in
      signals_work refl nine_waits

founder-lets_in_example :
    (o : ℕ) × (sys' : System) × ((init_founder all_well 7 no_chat).member
      ≡ some (record { self = 7; shm_and_sem_id = 7; shared = o }))
    × ((init_founder all_well 7 no_chat).system.memory o ≡ alone 7)
    × (init_joining all_well 8 waits (init_founder all_well 7 no_chat).system
        ≡ some (record {
          status = success;
          member = some (record { self = 8; shm_and_sem_id = 7; shared = o });
          system = sys';
        }))
    × ((sys'.memory o).users ≡ 7 ∷ 8 ∷ replicate 8 0)
founder-lets_in_example =
    founder-lets_in all_well all_well 7 8 no_chat waits (omega arith) founded signals_work refl refl
      refl refl seven_approves
