-- ===== src/Tg/Slots.antt =====
-- The message slots: what a message fills, what a signal empties, and which slots no signal empties.
use mathlib.Core.Path.{subst}
use seminars.Base.{
  ℕ, ℕ_discrete, zero, suc, ◌<◌, ◌≤◌, ◌≡◌, ◌≢◌, refl, ap, sym, dec_lt, inl, inr, Option-cases, none,
  some, List, [], ◌∷◌, ◌++◌, All, length, arith, get_or, set,
}
use seminars.Tg.{
  Status, success, no_space_for_msg, string_overflow, Msg, no_msg, Chat, Pid, fill_slot, send_msg,
  strncpy, max_msg_len, announce, queued_for,
}

-- The number of the first free slot, from `i` on.
pub data Filled (text : List ℕ) (msgs msgs' : List Msg) : Type 0 where
  filled :
      (i : ℕ)
      → i < length msgs
      → (get_or msgs i no_msg).used ≡ 0
      → ((j : ℕ) → j < i → (get_or msgs j no_msg).used ≢ 0)
      → msgs'
        ≡ set msgs i
            (record { bytes = strncpy (get_or msgs i no_msg).bytes text; used = length text })
      → Filled text msgs msgs'

Filled-cons :
    (text : List ℕ) (msg : Msg) (msgs msgs' : List Msg)
    → msg.used ≢ 0
    → Filled text msgs msgs'
    → Filled text (msg ∷ msgs) (msg ∷ msgs')
Filled-cons text msg msgs msgs' busy (filled i lt free before e) =
    filled (suc i) (omega arith) free earlier (ap (λ ms. msg ∷ ms) e)
  where
    earlier : (j : ℕ) → j < suc i → (get_or (msg ∷ msgs) j no_msg).used ≢ 0
    earlier zero l = busy
    earlier (suc j) l = before j (omega arith)

fill_slot-Filled :
    (text : List ℕ) (msgs msgs' : List Msg)
    → fill_slot text msgs ≡ some msgs'
    → Filled text msgs msgs'
unfolding fill_slot
fill_slot-Filled text [] msgs' e = cc
fill_slot-Filled text (msg ∷ msgs) msgs' e = elim (ℕ_discrete msg.used 0) [
  | yes free ↦ filled 0 (omega arith) free (λ j lt. absurd (omega arith)) (ground arith)
  | no busy ↦ elim (Option-cases (fill_slot text msgs)) [
    | inl full ↦ ground arith
    | inr (ms, more) ↦
        let same : msg ∷ ms ≡ msgs' = ground arith in
        subst (Filled text (msg ∷ msgs)) same
          (Filled-cons text msg msgs ms busy (fill_slot-Filled text msgs ms more))
  ]
]

abbrev pub Busy : Msg → Type 0
Busy msg = msg.used ≢ 0

fill_slot-Busy : (text : List ℕ) (msgs : List Msg) → fill_slot text msgs ≡ none → All Busy msgs
unfolding fill_slot
fill_slot-Busy text [] e = tt
fill_slot-Busy text (msg ∷ msgs) e = (ground arith, fill_slot-Busy text msgs (ground arith))

-- What `send_msg` does to the chat, by its result.
abbrev pub Sends : Pid → List ℕ → Chat → Status × Chat → Type 0
Sends pid text chat (success, chat') =
    (length text ≤ max_msg_len)
    × (chat'.signals ≡ chat.signals ++ queued_for chat.reached pid)
    × (chat'.reached ≡ chat.reached)
    × (chat'.shared.users ≡ chat.shared.users)
    × Filled text chat.shared.messages chat'.shared.messages
Sends pid text chat (no_space_for_msg, chat') =
    (length text ≤ max_msg_len)
    × (chat'.signals ≡ chat.signals ++ queued_for chat.reached pid)
    × (chat'.reached ≡ chat.reached)
    × (chat'.shared ≡ chat.shared)
    × All Busy chat.shared.messages
Sends pid text chat (string_overflow, chat') = (max_msg_len < length text) × (chat' ≡ chat)
Sends pid text chat (_, chat') = ⊥

-- `send_msg` refuses a text of more than 256 bytes and then changes nothing and signals nobody;
-- otherwise it queues a signal of value 0 if sigqueue succeeds for the process, and whether it does
-- or not, it fills the first free slot and no other, or reports that every slot is busy.
pub send_msg-Sends :
    (pid : Pid) (text : List ℕ) (chat : Chat) → Sends pid text chat (send_msg pid text chat)
unfolding send_msg
send_msg-Sends pid text chat = elim (dec_lt max_msg_len (length text)) [
  | yes long ↦
      let refused : send_msg pid text chat ≡ (string_overflow, chat) = ground arith in
      subst (Sends pid text chat) (sym refused) (long, refl)
  | no short ↦ elim (Option-cases (fill_slot text chat.shared.messages)) [
    | inl full ↦
        let same : send_msg pid text chat ≡ (no_space_for_msg, announce pid chat) = ground arith in
        subst (Sends pid text chat) (sym same)
          (omega arith, refl, refl, refl, fill_slot-Busy text chat.shared.messages full)
    | inr (msgs, more) ↦
        let sent : send_msg pid text chat ≡ (
          success,
          announce pid (record chat { shared = record chat.shared { messages = msgs } }),
        ) =
          ground arith in
        subst (Sends pid text chat) (sym sent)
          (omega arith, refl, refl, refl, fill_slot-Filled text chat.shared.messages msgs more)
  ]
]
