-- ===== src/Tg/Tests.antt =====
-- Runs of the chat with few users and slots.
use seminars.Base.{
  ℕ, zero, suc, replicate, ◌≤◌, ◌<◌, ◌≡◌, ◌≢◌, ◌⊎◌, refl, List, [], ◌∷◌, ◌++◌, codes, arith, length,
  skip_spaces, is_space, digits, to_string,
}
use seminars.Base.{Bool, false, ◌==◌}
use seminars.Tg.{Pid, neg}
use seminars.Tg.{
  success, input_error, Shared, fresh_memory, Msg, no_msg, Chat, pos, max_msg_len, add_user,
  take_entry, send_msg, fill_slot, strncpy, padded, msg_handler,
}
use seminars.Tg.Users.{Lacks}
use seminars.Tg.Slots.{Sends, send_msg-Sends}
use seminars.Tg.Delivery.{receives, sends, Reach, here, then_step, Stays, later_slot-Stays}
use seminars.Tg.Broadcast.{others, Said, handle_cmd-says}
use seminars.Tg.Command.{handle_cmd, dress, nothing}
use seminars.Tg.Tell.{handle_cmd-tells}
use seminars.Tg.Session.{main_loop, session-restores_users}

abbrev after_join : Shared
after_join = record fresh_memory { users = 12 ∷ 0 ∷ 0 ∷ 0 ∷ 0 ∷ 0 ∷ 0 ∷ 0 ∷ 0 ∷ 0 ∷ [] }

joins_first : add_user 12 fresh_memory ≡ (success, after_join)
unfolding add_user take_entry
joins_first = refl

free_ne_12 : ◌≢◌ {A = ℕ} 0 12
free_ne_12 e = absurd (omega arith)

replicate-Lacks : (n : ℕ) → Lacks 12 (replicate n 0)
replicate-Lacks zero = tt
replicate-Lacks (suc n) = (free_ne_12, replicate-Lacks n)

nobody_is_12 : Lacks 12 fresh_memory.users
nobody_is_12 = replicate-Lacks 10

-- Users 12, 13 and 14, and two slots, of which the second is taken.
abbrev hello : Msg
hello = record { bytes = codes "hello"; used = 5 }

-- Process 14 has been killed, and is still in the table.
abbrev is_13 : Pid → Bool
is_13 (pos n) = n == 13
is_13 (neg n) = false

abbrev chat : Chat
chat = record {
  shared = record { users = 12 ∷ 0 ∷ 13 ∷ 14 ∷ []; messages = no_msg ∷ hello ∷ [] };
  signals = [];
  reached = is_13;
}

send_msg-Sends_example : Sends (pos 13) (codes "hi") chat (send_msg (pos 13) (codes "hi") chat)
send_msg-Sends_example = send_msg-Sends (pos 13) (codes "hi") chat

abbrev announced : Chat
announced = (send_msg (pos 13) (codes "hi") chat).1

abbrev received : Chat
received = record {
  shared = record { users = 12 ∷ 0 ∷ 13 ∷ 14 ∷ []; messages = no_msg ∷ hello ∷ [] };
  signals = [];
  reached = is_13;
}

run : Reach chat received
unfolding send_msg fill_slot strncpy padded msg_handler
run =
    then_step announced received (then_step chat announced here (sends (pos 13) (codes "hi") chat))
      (receives [] [] (record { to = pos 13; value = 0 }) (codes "hi") announced received.shared
        refl refl)

later_slot-Stays_example : Stays 0 chat received
later_slot-Stays_example = later_slot-Stays 0 chat received tt (λ e. absurd (omega arith)) run

handle_cmd-says_example :
    let text = dress 12 (32 ∷ codes "hey") in
    let done = handle_cmd 12 (codes "/say " ++ codes "hey") chat in
    (done.status ≡ success)
    × ((length text ≤ max_msg_len) × Said (others 12 chat.shared.users) chat done.chat
        ⊎ (max_msg_len < length text) × (done.chat ≡ chat))
handle_cmd-says_example = handle_cmd-says 12 (codes "hey") chat

others_of_12 : others 12 (12 ∷ 0 ∷ 13 ∷ 14 ∷ []) ≡ 13 ∷ 14 ∷ []
unfolding others
others_of_12 = refl

-- The message that user 13 gets from user 12.
dressed : dress 12 (codes " hey") ≡ (8 ∷ 8 ∷ []) ++ codes "12: hey\n> "
unfolding dress to_string digits skip_spaces is_space
dressed = refl

handle_cmd-tells_example :
    handle_cmd 12 (codes "/tell " ++ (to_string 13 ++ (32 ∷ codes "hey"))) chat ≡ record {
      status = success;
      printed = nothing;
      chat = (send_msg (pos 13) (dress 12 (32 ∷ codes "hey")) chat).1;
    }
handle_cmd-tells_example = handle_cmd-tells 12 13 (codes "hey") chat (omega arith)

abbrev lines : List (List ℕ)
lines = codes "/say hey" ∷ codes "/me" ∷ []

session-restores_users_example :
    let r = main_loop 12 lines (record { shared = after_join; signals = []; reached = is_13 }) in
    ((r.0 ≡ success) ⊎ (r.0 ≡ input_error)) × (r.1.shared.users ≡ fresh_memory.users)
session-restores_users_example =
    session-restores_users 12 lines fresh_memory after_join [] is_13 nobody_is_12 joins_first
