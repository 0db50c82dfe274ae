-- ===== src/Tg.antt =====
-- tg/tg.c: a chat over shared memory. Its users and its message slots lie in a structure that all
-- processes map, and a message is announced to its reader by a signal.
pub mod Command
pub mod Users
pub mod Slots
pub mod Delivery
pub mod Broadcast
pub mod Tell
pub mod Session
pub mod Join
pub mod Joining
pub mod Founding
mod Tests
mod Chats
use seminars.Base.{
  ℕ, zero, suc, ◌+◌, Bool, true, false, not, ◌&&◌, Option, none, some, List, [], ◌∷◌, ◌++◌, length,
  take, drop, ltb, ◌==◌, if◌then◌else◌, replicate, get_elem?, set,
}

-- `status_t`
pub data Status : Type 0 where
  success exit shared_error usage_error input_error signal_error : Status
  no_space_for_user no_space_for_msg string_overflow : Status

-- kMaxUsers, kMaxMsgLen, kMaxMsgNum
abbrev pub max_users : ℕ
max_users = 10

abbrev pub max_msg_len : ℕ
max_msg_len = 256

abbrev pub max_msg_num : ℕ
max_msg_num = 256

-- `msg_t`: the bytes of `data`, and `length`, which is 0 in a free slot.
pub record Msg : Type 0 where
  pub bytes : List ℕ
  pub used : ℕ

-- A zeroed slot.
abbrev pub no_msg : Msg
no_msg = record { bytes = replicate (max_msg_len + 1) 0; used = 0 }

-- `shared_t`
pub record Shared : Type 0 where
  pub users : List ℕ
  pub messages : List Msg

-- The memory that `ftruncate` makes.
abbrev pub fresh_memory : Shared
fresh_memory = record { users = replicate max_users 0; messages = replicate max_msg_num no_msg }

-- The loop of `add_user`: the first free entry is taken, or there is none.
unfoldable pub take_entry : ℕ → List ℕ → Option (List ℕ)
take_entry pid [] = none
take_entry pid (user ∷ users) =
    let later = take_entry pid users in
    if user == 0
    then some (pid ∷ users)
    else elim later [ none ↦ none | some us ↦ some (user ∷ us) ]

unfoldable pub add_user : ℕ → Shared → Status × Shared
unfolding take_entry
add_user pid shared = elim (take_entry pid shared.users) [
  | none ↦ (no_space_for_user, shared)
  | some users ↦ (success, record shared { users = users })
]

-- The loop of `Destroy`: the first entry of the process is freed.
unfoldable pub free_entry : ℕ → List ℕ → List ℕ
free_entry pid [] = []
free_entry pid (user ∷ users) =
    let later = free_entry pid users in if user == pid then 0 ∷ users else user ∷ later

unfoldable pub destroy : ℕ → Shared → Shared
unfolding free_entry
destroy pid shared = record shared { users = free_entry pid shared.users }

-- `strncpy(data, text, n)` for a text of n bytes: behind a NUL in the text, NULs are written.
unfoldable pub padded : List ℕ → List ℕ
padded [] = []
padded (c ∷ cs) = let rest = padded cs in if c == 0 then replicate (suc (length cs)) 0 else c ∷ rest

unfoldable pub strncpy : List ℕ → List ℕ → List ℕ
unfolding padded
strncpy bytes text = padded text ++ drop (length text) bytes

-- The loop of `send_msg`: the first free slot takes the text.
unfoldable pub fill_slot : List ℕ → List Msg → Option (List Msg)
unfolding strncpy
fill_slot text [] = none
fill_slot text (msg ∷ msgs) =
    let later = fill_slot text msgs in
    if msg.used == 0
    then some (record { bytes = strncpy msg.bytes text; used = length text } ∷ msgs)
    else elim later [ none ↦ none | some ms ↦ some (msg ∷ ms) ]

-- A process id as it is typed: it may be negative.
pub data Pid : Type 0 where
  pos : ℕ → Pid
  neg : ℕ → Pid

-- A signal kSignalMsg that is queued, with the value it carries.
pub record Signal : Type 0 where
  pub to : Pid
  pub value : ℕ

-- The memory, the signals that are queued, and the processes for which sigqueue succeeds.
pub record Chat : Type 0 where
  pub shared : Shared
  pub signals : List Signal
  pub reached : Pid → Bool

-- The signal that a message to this process queues, if sigqueue succeeds.
abbrev pub queued_for : (Pid → Bool) → Pid → List Signal
queued_for reached pid = if reached pid then record { to = pid; value = 0 } ∷ [] else []

-- `sigqueue( pid, kSignalMsg, { 0})`, whose result is not looked at
abbrev pub announce : Pid → Chat → Chat
announce pid chat = record chat { signals = chat.signals ++ queued_for chat.reached pid }

unfoldable pub send_msg : Pid → List ℕ → Chat → Status × Chat
unfolding fill_slot
send_msg pid text chat =
    if ltb max_msg_len (length text)
    then (string_overflow, chat)
    else elim (fill_slot text chat.shared.messages) [
      | none ↦ (no_space_for_msg, announce pid chat)
      | some msgs ↦
          (success, announce pid (record chat { shared = record chat.shared { messages = msgs } }))
    ]

-- `msg_handler` for a signal of this value: what is written, and the slot is zeroed. `none` is a
-- read outside the slots.
unfoldable pub msg_handler : ℕ → Shared → Option (List ℕ × Shared)
msg_handler id shared = elim (get_elem? shared.messages id) [
  | none ↦ none
  | some msg ↦
      some (take msg.used msg.bytes, record shared { messages = set shared.messages id no_msg })
]
