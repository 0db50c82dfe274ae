-- ===== src/Tg/Broadcast.antt =====
-- "/say": who is signalled, and how many slots the copies of the message take.
use Prim.Native.Nat.{min}
use seminars.Base.{
  ℕ, zero, suc, ◌+◌, ◌<◌, ◌≤◌, ◌≡◌, ◌≢◌, refl, ap, sym, ◌∙◌, Bool, true, false, not, ◌&&◌,
  Bool-cases, inl, inr, List, [], ◌∷◌, ◌++◌, append_assoc, append-nil, All, length, length-set,
  ◌==◌, if◌then◌else◌, arith, get_or, set, dec_lt, codes, span_word, is_space, skip_spaces, ◌⊎◌,
}
use seminars.Tg.{
  Status, success, no_space_for_msg, string_overflow, Msg, no_msg, Chat, Signal, Pid, queued_for,
  pos, send_msg, strncpy, max_msg_len,
}
use seminars.Tg.Slots.{filled, Busy, Sends, send_msg-Sends}
use seminars.Tg.Command.{
  say_to, say, get_line, read_word, run_command, same_text, dress, handle_cmd,
}

pub busy_slots : List Msg → ℕ
busy_slots [] = 0
busy_slots (msg ∷ msgs) = (if msg.used == 0 then 0 else 1) + busy_slots msgs

busy_slots-le : (msgs : List Msg) → busy_slots msgs ≤ length msgs
unfolding busy_slots
busy_slots-le [] = omega arith
busy_slots-le (msg ∷ msgs) = ground (arith, busy_slots-le msgs)

busy_slots-set :
    (msgs : List Msg) (i : ℕ) (msg : Msg)
    → i < length msgs
    → (get_or msgs i no_msg).used ≡ 0
    → msg.used ≢ 0
    → (busy_slots (set msgs i msg) ≡ busy_slots msgs + 1) × (busy_slots msgs < length msgs)
unfolding busy_slots
busy_slots-set [] i msg lt free busy = absurd (omega arith)
busy_slots-set (m ∷ msgs) zero msg lt free busy = (ground arith, ground (arith, busy_slots-le msgs))
busy_slots-set (m ∷ msgs) (suc i) msg lt free busy =
    let ih = busy_slots-set msgs i msg (omega arith) free busy in
    (omega (arith, ih.0), ground (arith, ih.1))

busy_slots-Busy : (msgs : List Msg) → All Busy msgs → busy_slots msgs ≡ length msgs
unfolding busy_slots
busy_slots-Busy [] h = refl
busy_slots-Busy (msg ∷ msgs) (b, h) = ground (arith, busy_slots-Busy msgs h)

-- The other users of a table: neither a free entry nor the sender.
unfoldable pub others : ℕ → List ℕ → List ℕ
others self [] = []
others self (user ∷ users) =
    let rest = others self users in
    if not (user == 0) && not (user == self) then user ∷ rest else rest

-- The signals to those of them for whom sigqueue succeeds.
unfoldable pub calls : (Pid → Bool) → List ℕ → List Signal
calls reached [] = []
calls reached (user ∷ users) = queued_for reached (pos user) ++ calls reached users

-- A chat after a message to these users.
pub record Said (to : List ℕ) (chat chat' : Chat) : Type 0 where
  pub queued : chat'.signals ≡ chat.signals ++ calls chat.reached to
  pub reached : chat'.reached ≡ chat.reached
  pub busy :
      busy_slots chat'.shared.messages
      ≡ min (busy_slots chat.shared.messages + length to) (length chat.shared.messages)
  pub size : length chat'.shared.messages ≡ length chat.shared.messages
  pub users : chat'.shared.users ≡ chat.shared.users

Said-none : (chat : Chat) → Said [] chat chat
unfolding calls
Said-none chat = record {
  queued = sym (append-nil chat.signals);
  reached = refl;
  busy = omega (arith, busy_slots-le chat.shared.messages);
  size = refl;
  users = refl;
}

Said-cons :
    (user : ℕ) (users : List ℕ) (chat mid chat' : Chat)
    → Said (user ∷ []) chat mid
    → Said users mid chat'
    → Said (user ∷ users) chat chat'
unfolding calls
Said-cons user users chat mid chat' one rest = record {
  queued =
      rest.queued
      ∙ ap (λ f. mid.signals ++ calls f users) one.reached
      ∙ ap (λ s. s ++ calls chat.reached users)
          (one.queued ∙ ap (λ l. chat.signals ++ l) (append-nil _))
      ∙ append_assoc chat.signals (queued_for chat.reached (pos user)) (calls chat.reached users);
  reached = rest.reached ∙ one.reached;
  busy = omega (arith, one.busy, rest.busy, one.size);
  size = rest.size ∙ one.size;
  users = rest.users ∙ one.users;
}

Sends-Said :
    (user : ℕ) (text : List ℕ) (chat : Chat) (r : Status × Chat)
    → 0 < length text
    → length text ≤ max_msg_len
    → Sends (pos user) text chat r
    → Said (user ∷ []) chat r.1
unfolding calls
Sends-Said user text chat (success, chat') some_text short
      (lt, queued, reached, users, filled i inside free earlier e) =
    let ms = chat.shared.messages in
    let stored : Msg = record {
      bytes = strncpy (get_or ms i no_msg).bytes text;
      used = length text;
    } in
    let slot = busy_slots-set ms i stored inside free (λ z. absurd (omega arith)) in
    record {
      queued = queued ∙ ap (λ l. chat.signals ++ l) (sym (append-nil _));
      reached = reached;
      busy = omega (arith, ap busy_slots e, slot.0, slot.1);
      size = ap length e ∙ length-set ms i stored;
      users = users;
    }
Sends-Said user text chat (no_space_for_msg, chat') some_text short
      (lt, queued, reached, same, full) =
    record {
      queued = queued ∙ ap (λ l. chat.signals ++ l) (sym (append-nil _));
      reached = reached;
      busy =
          omega (
            arith,
            ap (λ s. busy_slots s.messages) same,
            busy_slots-Busy chat.shared.messages full,
          );
      size = ap (λ s. length s.messages) same;
      users = ap (λ s. s.users) same;
    }
Sends-Said user text chat (string_overflow, chat') some_text short (long, same) =
    absurd (omega arith)
Sends-Said user text chat (_, chat') some_text short s = absurd s

-- A text that fits in a slot goes to the other users of the table.
say_to-Said :
    (self : ℕ) (text users : List ℕ) (chat : Chat)
    → 0 < length text
    → length text ≤ max_msg_len
    → Said (others self users) chat (say_to self text users chat)
unfolding say_to others
say_to-Said self text [] chat some_text short = Said-none chat
say_to-Said self text (user ∷ users) chat some_text short =
    entry (λ c. say_to-Said self text users c some_text short)
      (not (user == 0) && not (user == self))
  where
    entry :
        ((c : Chat) → Said (others self users) c (say_to self text users c))
        → (t : Bool)
        → Said
            (if t then user ∷ others self users else others self users)
            chat
            (say_to self text users (if t then (send_msg (pos user) text chat).1 else chat))
    entry later true =
        let sent = send_msg (pos user) text chat in
        Said-cons user (others self users) chat sent.1 (say_to self text users sent.1)
          (Sends-Said user text chat sent some_text short (send_msg-Sends (pos user) text chat))
          (later sent.1)
    entry later false = later chat

say_to-long :
    (self : ℕ) (text users : List ℕ) (chat : Chat)
    → max_msg_len < length text
    → say_to self text users chat ≡ chat
unfolding say_to send_msg
say_to-long self text [] chat long = refl
say_to-long self text (user ∷ users) chat long =
    let same : (send_msg (pos user) text chat).1 ≡ chat = ground arith in
    let next =
      if not (user == 0) && not (user == self) then (send_msg (pos user) text chat).1 else chat in
    let stays : next ≡ chat = elim (Bool-cases (not (user == 0) && not (user == self))) [
      | inl t ↦ ground (arith, same)
      | inr f ↦ ground arith
    ] in
    say_to-long self text users next long ∙ stays

dress-length : (self : ℕ) (line : List ℕ) → 0 < length (dress self line)
unfolding dress
dress-length self line = omega arith

-- The line "/say text" with the sender's id and text filled in: HandleCmd reports success. If the
-- whole message has at most 256 bytes, a signal is queued for each other user of the table for whom
-- sigqueue succeeds, in the order of the table, and one free slot is filled for each other user while there are any; a
-- longer message changes nothing.
pub handle_cmd-says :
    (self : ℕ) (line : List ℕ) (chat : Chat)
    → let text = dress self (32 ∷ line) in
      let done = handle_cmd self (codes "/say " ++ line) chat in
      (done.status ≡ success)
      × ((length text ≤ max_msg_len) × Said (others self chat.shared.users) chat done.chat
          ⊎ (max_msg_len < length text) × (done.chat ≡ chat))
unfolding handle_cmd read_word span_word skip_spaces run_command same_text say get_line is_space
handle_cmd-says self line chat = elim (dec_lt max_msg_len (length (dress self (32 ∷ line)))) [
  | yes long ↦
      (refl, inr (long, say_to-long self (dress self (32 ∷ line)) chat.shared.users chat long))
  | no short ↦
      let text = dress self (32 ∷ line) in
      (
        refl,
        inl (
          omega arith,
          say_to-Said self text chat.shared.users chat (dress-length self (32 ∷ line))
              (omega arith),
        ),
      )
]
