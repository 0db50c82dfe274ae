-- ===== src/Tg/Delivery.antt =====
-- The delivery of messages: processes that join, leave and send, and the signals they receive.
use mathlib.Core.Path.{subst}
use seminars.Base.{
  Bool, true, false, if◌then◌else◌, ℕ, suc, ◌≡◌, ◌≢◌, refl, ap, sym, ◌∙◌, inl, inr, Option-cases,
  some, List, [], ◌∷◌, ◌++◌, All, arith, get_or, get_elem?, set, get_or-set_ne,
}
use seminars.Tg.{
  queued_for, Status, success, take_entry, no_space_for_msg, string_overflow, Shared, Msg, no_msg,
  Chat, Signal, Pid, send_msg, msg_handler, add_user, destroy,
}
use seminars.Tg.Slots.{Filled, filled, Sends, send_msg-Sends}

-- What the processes of a chat do to the memory and to the queued signals. The signals may be
-- taken in any order.
pub data Step : Chat → Chat → Type 0 where
  joins :
      (pid : ℕ) (chat : Chat) → Step chat (record chat { shared = (add_user pid chat.shared).1 })
  leaves : (pid : ℕ) (chat : Chat) → Step chat (record chat { shared = destroy pid chat.shared })
  sends : (pid : Pid) (text : List ℕ) (chat : Chat) → Step chat (send_msg pid text chat).1
  receives :
      (earlier later : List Signal) (signal : Signal) (out : List ℕ) (chat : Chat) (shared : Shared)
      → chat.signals ≡ earlier ++ (signal ∷ later)
      → msg_handler signal.value chat.shared ≡ some (out, shared)
      → Step chat (record chat { shared = shared; signals = earlier ++ later })
  starts_or_ends :
      (reached : Pid → Bool) (chat : Chat) → Step chat (record chat { reached = reached })

pub data Reach (chat : Chat) : Chat → Type 0 where
  here : Reach chat chat
  then_step : (mid last : Chat) → Reach chat mid → Step mid last → Reach chat last

abbrev pub Zero : Signal → Type 0
Zero signal = signal.value ≡ 0

Zero-append : (xs ys : List Signal) → All Zero xs → All Zero ys → All Zero (xs ++ ys)
Zero-append [] ys p q = q
Zero-append (x ∷ xs) ys (p, ps) q = (p, Zero-append xs ys ps q)

Zero-without :
    (xs ys : List Signal) (x : Signal) → All Zero (xs ++ (x ∷ ys)) → Zero x × All Zero (xs ++ ys)
Zero-without [] ys x h = h
Zero-without (y ∷ xs) ys x (p, h) = let rest = Zero-without xs ys x h in (rest.0, (p, rest.1))

queued_for-Zero : (reached : Pid → Bool) (pid : Pid) → All Zero (queued_for reached pid)
queued_for-Zero reached pid = if-Zero (reached pid)
  where
    if-Zero : (b : Bool) → All Zero (if b then record { to = pid; value = 0 } ∷ [] else [])
    if-Zero true = (refl, tt)
    if-Zero false = tt

-- What stays when a message lies in slot i + 1.
pub record Stays (i : ℕ) (before after : Chat) : Type 0 where
  pub zeros : All Zero after.signals
  pub kept :
      get_or after.shared.messages (suc i) no_msg ≡ get_or before.shared.messages (suc i) no_msg

Filled-keeps :
    (text : List ℕ) (msgs msgs' : List Msg) (j : ℕ)
    → (get_or msgs j no_msg).used ≢ 0
    → Filled text msgs msgs'
    → get_or msgs' j no_msg ≡ get_or msgs j no_msg
Filled-keeps text msgs msgs' j busy (filled i lt free earlier e) =
    ap (λ ms. get_or ms j no_msg) e
    ∙ get_or-set_ne msgs _ no_msg
        (λ same. busy (subst (λ k. (get_or msgs k no_msg).used ≡ 0) same free))

send_msg-Stays :
    (i : ℕ) (pid : Pid) (text : List ℕ) (chat : Chat) (r : Status × Chat)
    → Sends pid text chat r
    → All Zero chat.signals
    → (get_or chat.shared.messages (suc i) no_msg).used ≢ 0
    → Stays i chat r.1
send_msg-Stays i pid text chat (success, chat') (short, queued, reached, users, fills) z busy =
    record {
      zeros =
          subst (All Zero) (sym queued)
            (Zero-append chat.signals _ z (queued_for-Zero chat.reached pid));
      kept = Filled-keeps text chat.shared.messages chat'.shared.messages (suc i) busy fills;
    }
send_msg-Stays i pid text chat (no_space_for_msg, chat') (short, queued, reached, same, full) z
      busy =
    record {
      zeros =
          subst (All Zero) (sym queued)
            (Zero-append chat.signals _ z (queued_for-Zero chat.reached pid));
      kept = ap (λ s. get_or s.messages (suc i) no_msg) same;
    }
send_msg-Stays i pid text chat (string_overflow, chat') (long, same) z busy = record {
  zeros = subst (λ c. All Zero c.signals) (sym same) z;
  kept = ap (λ c. get_or c.shared.messages (suc i) no_msg) same;
}
send_msg-Stays i pid text chat (_, chat') s z busy = absurd s

add_user-messages : (pid : ℕ) (shared : Shared) → (add_user pid shared).1.messages ≡ shared.messages
unfolding add_user
add_user-messages pid shared = elim (Option-cases (take_entry pid shared.users)) [
  | inl full ↦ cc
  | inr (users, taken) ↦ cc
]

zero_ne_suc : (i : ℕ) → 0 ≢ suc i
zero_ne_suc i e = absurd (omega arith)

msg_handler-keeps :
    (i : ℕ) (shared shared' : Shared) (out : List ℕ) (value : ℕ)
    → value ≡ 0
    → msg_handler value shared ≡ some (out, shared')
    → get_or shared'.messages (suc i) no_msg ≡ get_or shared.messages (suc i) no_msg
unfolding msg_handler
msg_handler-keeps i shared shared' out value z e =
    elim (Option-cases (get_elem? shared.messages value)) [
      | inl outside ↦ absurd (cc)
      | inr (msg, found) ↦
          let emptied : set shared.messages value no_msg ≡ shared'.messages = cc in
          ap (λ ms. get_or ms (suc i) no_msg) (sym emptied)
          ∙ get_or-set_ne shared.messages no_msg no_msg (λ same. zero_ne_suc i (sym z ∙ same))
    ]

Step-Stays :
    (i : ℕ) (chat chat' : Chat)
    → All Zero chat.signals
    → (get_or chat.shared.messages (suc i) no_msg).used ≢ 0
    → Step chat chat'
    → Stays i chat chat'
unfolding destroy
Step-Stays i _ _ z busy (joins pid chat) = record {
  zeros = z;
  kept = ap (λ ms. get_or ms (suc i) no_msg) (add_user-messages pid chat.shared);
}
Step-Stays i _ _ z busy (leaves pid chat) = record { zeros = z; kept = refl }
Step-Stays i _ _ z busy (starts_or_ends reached chat) = record { zeros = z; kept = refl }
Step-Stays i _ _ z busy (sends pid text chat) =
    send_msg-Stays i pid text chat (send_msg pid text chat) (send_msg-Sends pid text chat) z busy
Step-Stays i _ _ z busy (receives earlier later signal out chat shared queue handled) =
    let zeros = Zero-without earlier later signal (subst (All Zero) queue z) in
    record {
      zeros = zeros.1;
      kept = msg_handler-keeps i chat.shared shared out signal.value zeros.0 handled;
    }

-- As every signal carries the value 0, a message that lies in a slot other than the first is never
-- taken out: whatever processes join, leave, send and receive, the slot keeps it.
pub later_slot-Stays :
    (i : ℕ) (chat chat' : Chat)
    → All Zero chat.signals
    → (get_or chat.shared.messages (suc i) no_msg).used ≢ 0
    → Reach chat chat'
    → Stays i chat chat'
later_slot-Stays i chat _ z busy here = record { zeros = z; kept = refl }
later_slot-Stays i chat _ z busy (then_step mid chat' run step) =
    let before = later_slot-Stays i chat mid z busy run in
    let after =
      Step-Stays i mid chat' before.zeros (λ e. busy (sym (ap (λ m. m.used) before.kept) ∙ e))
        step in
    record { zeros = after.zeros; kept = after.kept ∙ before.kept }
