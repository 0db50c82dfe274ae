-- ===== src/Tg/Command.antt =====
-- tg/tg.c: HandleCmd, which reads one line of input and acts on it.
use seminars.Base.{
  ℕ, ◌-◌, ◌^◌, Bool, true, false, not, ◌&&◌, Option, none, some, List, [], ◌∷◌, ◌++◌, codes, leb,
  ◌==◌, if◌then◌else◌, is_digit, to_string, read_digits, skip_spaces, span_word,
}
use seminars.Tg.{Status, success, exit, usage_error, Chat, Pid, pos, neg, send_msg}

unfoldable pub same_text : List ℕ → List ℕ → Bool
same_text [] [] = true
same_text [] (d ∷ ds) = false
same_text (c ∷ cs) [] = false
same_text (c ∷ cs) (d ∷ ds) = (c == d) && same_text cs ds

-- `input_stream >> token`, where the stream holds this text: the word and what is left, or `none`
-- when the extraction fails.
unfoldable pub read_word : List ℕ → Option (List ℕ × List ℕ)
unfolding skip_spaces span_word
read_word text = elim (skip_spaces text) [ [] ↦ none | c ∷ cs ↦ some (span_word (c ∷ cs)) ]

-- The digits of an int, at least one, whose value is at most `bound`.
unfoldable pub read_number : ℕ → List ℕ → Option (ℕ × List ℕ)
unfolding read_digits
read_number bound [] = none
read_number bound (c ∷ cs) =
    let read = read_digits 0 (c ∷ cs) in if is_digit c && leb read.0 bound then some read else none

-- A sign, if there is one, and the number: -1 is `neg 1`.
unfoldable pub read_signed : List ℕ → Option (Pid × List ℕ)
unfolding read_number
read_signed [] = none
read_signed (c ∷ cs) =
    if c == b'-'
    then elim (read_number (2 ^ 31) cs) [ none ↦ none | some read ↦ some (neg read.0, read.1) ]
    else elim (read_number (2 ^ 31 - 1) (if c == b'+' then cs else c ∷ cs)) [
      | none ↦ none
      | some read ↦ some (pos read.0, read.1)
    ]

-- `input_stream >> pid_to`
unfoldable pub read_pid : List ℕ → Option (Pid × List ℕ)
unfolding skip_spaces read_signed
read_pid text = read_signed (skip_spaces text)

-- `std::getline( input_stream, token)`: the line has no end of line in it, so what is left is
-- taken as it is; the stream is at its end, and the call fails, when nothing is left.
unfoldable pub get_line : List ℕ → Option (List ℕ)
get_line [] = none
get_line (c ∷ cs) = some (c ∷ cs)

-- The text that is sent: the sender's id in front, and a new prompt behind.
unfoldable pub dress : ℕ → List ℕ → List ℕ
unfolding skip_spaces to_string
dress self line =
    (8 ∷ 8 ∷ []) ++ (to_string self ++ (codes ": " ++ (skip_spaces line ++ codes "\n> ")))

-- The loop of "/say", over the table of users: `send_msg` does not write to that table.
unfoldable pub say_to : ℕ → List ℕ → List ℕ → Chat → Chat
unfolding send_msg
say_to self text [] chat = chat
say_to self text (user ∷ users) chat =
    say_to self text users
      (if not (user == 0) && not (user == self) then (send_msg (pos user) text chat).1 else chat)

-- What a command prints.
pub data Printed : Type 0 where
  nothing own_pid usage : Printed

pub record Done : Type 0 where
  pub status : Status
  pub printed : Printed
  pub chat : Chat

abbrev pub refuse : Chat → Done
refuse chat = record { status = usage_error; printed = usage; chat = chat }

unfoldable pub tell : ℕ → List ℕ → Chat → Done
unfolding read_pid get_line dress send_msg
tell self rest chat = elim (read_pid rest) [
  | none ↦ refuse chat
  | some read ↦ elim (get_line read.1) [
    | none ↦ refuse chat
    | some line ↦ record {
      status = success;
      printed = nothing;
      chat = (send_msg read.0 (dress self line) chat).1;
    }
  ]
]

unfoldable pub say : ℕ → List ℕ → Chat → Done
unfolding get_line dress say_to
say self rest chat = elim (get_line rest) [
  | none ↦ refuse chat
  | some line ↦ record {
    status = success;
    printed = nothing;
    chat = say_to self (dress self line) chat.shared.users chat;
  }
]

-- The commands by their first word.
unfoldable pub run_command : ℕ → List ℕ → List ℕ → Chat → Done
unfolding same_text tell say
run_command self token rest chat =
    if same_text token (codes "/me")
    then record { status = success; printed = own_pid; chat = chat }
    else if same_text token (codes "/tell")
    then tell self rest chat
    else if same_text token (codes "/say")
    then say self rest chat
    else if same_text token (codes "/help")
    then record { status = success; printed = usage; chat = chat }
    else if same_text token (codes "/exit")
    then record { status = exit; printed = nothing; chat = chat }
    else refuse chat

-- One line of input of the process `self`.
unfoldable pub handle_cmd : ℕ → List ℕ → Chat → Done
unfolding read_word run_command
handle_cmd self input chat = elim (read_word input) [
  | none ↦ refuse chat
  | some read ↦ run_command self read.0 read.1 chat
]
