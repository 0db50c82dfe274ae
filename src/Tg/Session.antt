-- ===== src/Tg/Session.antt =====
-- tg/tg.c: main's loop over the lines of input, from joining to leaving.
use mathlib.Core.Path.{subst}
use seminars.Base.{
  ℕ, ◌≡◌, refl, ap, sym, ◌∙◌, inl, inr, ◌⊎◌, Bool, true, false, not, ◌&&◌, Option-cases, List, [],
  ◌∷◌, ◌==◌, if◌then◌else◌,
}
use seminars.Tg.{
  Status, success, exit, usage_error, input_error, no_space_for_msg, string_overflow, Shared,
  Signal, Chat, Pid, pos, add_user, destroy, free_entry, send_msg,
}
use seminars.Tg.Command.{
  Printed, nothing, usage, own_pid, handle_cmd, run_command, tell, say, say_to, read_pid, get_line,
  read_word, dress, Done, refuse,
}
use seminars.Tg.Users.{Lacks, destroy-add_user}
use seminars.Tg.Slots.{Sends, send_msg-Sends}

abbrev pub leave : ℕ → Chat → Chat
leave self chat = record chat { shared = destroy self chat.shared }

-- What main does with the status of a command; `rest` is what the loop does next.
abbrev pub after_cmd : ℕ → Done → Status × Chat → Status × Chat
after_cmd self done rest = elim done.status [
  | success ↦ rest
  | usage_error ↦ rest
  | exit ↦ (success, leave self done.chat)
  | status ↦ (status, leave self done.chat)
]

-- The loop over the lines; when they are at their end, getline fails.
unfoldable pub main_loop : ℕ → List (List ℕ) → Chat → Status × Chat
unfolding handle_cmd destroy
main_loop self [] chat = (input_error, leave self chat)
main_loop self (line ∷ lines) chat =
    let done = handle_cmd self line chat in after_cmd self done (main_loop self lines done.chat)

-- A command that the loop goes on after, or ends well after, with the same table of users.
pub record Harmless (chat : Chat) (done : Done) : Type 0 where
  pub status : (done.status ≡ success) ⊎ (done.status ≡ usage_error) ⊎ (done.status ≡ exit)
  pub users : done.chat.shared.users ≡ chat.shared.users

Sends-users :
    (pid : Pid) (text : List ℕ) (chat : Chat) (r : Status × Chat)
    → Sends pid text chat r
    → r.1.shared.users ≡ chat.shared.users
Sends-users pid text chat (success, chat') (short, queued, reached, users, fills) = users
Sends-users pid text chat (no_space_for_msg, chat') (short, queued, reached, same, full) =
    ap (λ s. s.users) same
Sends-users pid text chat (string_overflow, chat') (long, same) = ap (λ c. c.shared.users) same
Sends-users pid text chat (_, chat') s = absurd s

send_msg-users :
    (pid : Pid) (text : List ℕ) (chat : Chat)
    → (send_msg pid text chat).1.shared.users ≡ chat.shared.users
send_msg-users pid text chat =
    Sends-users pid text chat (send_msg pid text chat) (send_msg-Sends pid text chat)

say_to-users :
    (self : ℕ) (text users : List ℕ) (chat : Chat)
    → (say_to self text users chat).shared.users ≡ chat.shared.users
unfolding say_to
say_to-users self text [] chat = refl
say_to-users self text (user ∷ users) chat =
    entry (λ c. say_to-users self text users c) (not (user == 0) && not (user == self))
  where
    entry :
        ((c : Chat) → (say_to self text users c).shared.users ≡ c.shared.users)
        → (t : Bool)
        → (say_to self text users
            (if t then (send_msg (pos user) text chat).1 else chat)).shared.users
          ≡ chat.shared.users
    entry later true = later (send_msg (pos user) text chat).1 ∙ send_msg-users (pos user) text chat
    entry later false = later chat

refuse-Harmless : (chat : Chat) → Harmless chat (refuse chat)
refuse-Harmless chat = record { status = inr (inl refl); users = refl }

done-Harmless :
    (chat chat' : Chat) (printed : Printed)
    → chat'.shared.users ≡ chat.shared.users
    → Harmless chat (record { status = success; printed = printed; chat = chat' })
done-Harmless chat chat' printed same = record { status = inl refl; users = same }

tell-Harmless : (self : ℕ) (rest : List ℕ) (chat : Chat) → Harmless chat (tell self rest chat)
unfolding tell
tell-Harmless self rest chat = elim (Option-cases (read_pid rest)) [
  | inl bad ↦
      let refused : tell self rest chat ≡ refuse chat = cc in
      subst (Harmless chat) (sym refused) (refuse-Harmless chat)
  | inr (read, good) ↦ elim (Option-cases (get_line read.1)) [
    | inl empty ↦
        let refused : tell self rest chat ≡ refuse chat = cc in
        subst (Harmless chat) (sym refused) (refuse-Harmless chat)
    | inr (line, some_line) ↦
        let after = (send_msg read.0 (dress self line) chat).1 in
        let told : tell self rest chat
            ≡ record { status = success; printed = nothing; chat = after } =
          cc in
        subst (Harmless chat) (sym told)
          (done-Harmless chat after nothing (send_msg-users read.0 (dress self line) chat))
  ]
]

say-Harmless : (self : ℕ) (rest : List ℕ) (chat : Chat) → Harmless chat (say self rest chat)
unfolding say get_line
say-Harmless self [] chat = refuse-Harmless chat
say-Harmless self (c ∷ cs) chat =
    let users = chat.shared.users in
    let text = dress self (c ∷ cs) in
    done-Harmless chat (say_to self text users chat) nothing (say_to-users self text users chat)

if-Harmless :
    (t : Bool) (chat : Chat) (yes_done no_done : Done)
    → Harmless chat yes_done
    → Harmless chat no_done
    → Harmless chat (if t then yes_done else no_done)
if-Harmless true chat yes_done no_done h k = h
if-Harmless false chat yes_done no_done h k = k

run_command-Harmless :
    (self : ℕ) (token rest : List ℕ) (chat : Chat)
    → Harmless chat (run_command self token rest chat)
unfolding run_command
run_command-Harmless self token rest chat =
    if-Harmless _ chat _ _ (done-Harmless chat chat own_pid refl) (
      if-Harmless _ chat _ _ (tell-Harmless self rest chat) (
        if-Harmless _ chat _ _ (say-Harmless self rest chat) (
          if-Harmless _ chat _ _ (done-Harmless chat chat usage refl) (
            if-Harmless _ chat _ _ (record { status = inr (inr refl); users = refl })
              (refuse-Harmless chat)))))

-- Whatever the line is, HandleCmd returns success, a usage error or exit, never the error of a
-- message that was not stored; and it leaves the table of users as it is.
handle_cmd-Harmless :
    (self : ℕ) (input : List ℕ) (chat : Chat) → Harmless chat (handle_cmd self input chat)
unfolding handle_cmd
handle_cmd-Harmless self input chat = elim (Option-cases (read_word input)) [
  | inl blank ↦
      let refused : handle_cmd self input chat ≡ refuse chat = cc in
      subst (Harmless chat) (sym refused) (refuse-Harmless chat)
  | inr (read, word) ↦
      let ran : handle_cmd self input chat ≡ run_command self read.0 read.1 chat = cc in
      subst (Harmless chat) (sym ran) (run_command-Harmless self read.0 read.1 chat)
]

-- How main's loop ends: the process has left.
pub record Left (self : ℕ) (chat : Chat) (r : Status × Chat) : Type 0 where
  pub status : (r.0 ≡ success) ⊎ (r.0 ≡ input_error)
  pub users : r.1.shared.users ≡ free_entry self chat.shared.users

after_cmd-Left :
    (self : ℕ) (chat : Chat) (done : Done) (r : Status × Chat)
    → Harmless chat done
    → Left self done.chat r
    → Left self chat (after_cmd self done r)
unfolding destroy
after_cmd-Left self chat done r h l = elim h.status [
  | inl good ↦
      let next : after_cmd self done r ≡ r = cc in subst (Left self chat) (sym next) goes_on
  | inr (inl bad_usage) ↦
      let next : after_cmd self done r ≡ r = cc in subst (Left self chat) (sym next) goes_on
  | inr (inr leaves) ↦
      let last : after_cmd self done r ≡ (success, leave self done.chat) = cc in
      subst (Left self chat) (sym last)
        (record { status = inl refl; users = ap (free_entry self) h.users })
]
  where
    goes_on : Left self chat r
    goes_on = record { status = l.status; users = l.users ∙ ap (free_entry self) h.users }

-- Over any lines, main's loop ends with success or with the error of the input, and has freed the
-- first entry of its process in the table of users and done nothing else to the table.
main_loop-Left :
    (self : ℕ) (lines : List (List ℕ)) (chat : Chat) → Left self chat (main_loop self lines chat)
unfolding main_loop destroy
main_loop-Left self [] chat = record { status = inr refl; users = refl }
main_loop-Left self (line ∷ lines) chat =
    let done = handle_cmd self line chat in
    after_cmd-Left self chat done (main_loop self lines done.chat)
      (handle_cmd-Harmless self line chat) (main_loop-Left self lines done.chat)

-- A process that is not in the table, joins it, and runs main's loop over any lines while nobody
-- else joins or leaves, ends with success or with the error of the input and leaves the table as
-- it was.
pub session-restores_users :
    (self : ℕ) (lines : List (List ℕ)) (shared shared' : Shared) (signals : List Signal)
    (reached : Pid → Bool)
    → Lacks self shared.users
    → add_user self shared ≡ (success, shared')
    → let r =
        main_loop self lines (record { shared = shared'; signals = signals; reached = reached }) in
      ((r.0 ≡ success) ⊎ (r.0 ≡ input_error)) × (r.1.shared.users ≡ shared.users)
unfolding destroy
session-restores_users self lines shared shared' signals reached lacks joined =
    let l =
      main_loop-Left self lines
        (record { shared = shared'; signals = signals; reached = reached }) in
    (l.status, l.users ∙ ap (λ s. s.users) (destroy-add_user self shared shared' lacks joined))
