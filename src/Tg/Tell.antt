-- ===== src/Tg/Tell.antt =====
-- "/tell": the process id that is read from the line.
use mathlib.Core.Path.{subst}
use seminars.Base.{
  ℕ, zero, suc, ◌+◌, ◌-◌, ◌^◌, ◌<◌, ◌≤◌, ◌/◌, ◌%◌, ◌≡◌, ap, ◌∙◌, none, some, List, [], ◌∷◌, ◌++◌,
  codes, arith, digits, to_string, read_digits, read_digits-to_string, skip_spaces, span_word,
  is_space, dec_lt,
}
use seminars.Tg.{success, usage_error, Chat, pos, send_msg}
use seminars.Tg.Command.{
  handle_cmd, run_command, tell, read_pid, read_signed, read_number, read_word, same_text, get_line,
  dress, Done, nothing, usage,
}

-- A text that begins with a digit.
data Numeral : List ℕ → Type 0 where
  numeral : (c : ℕ) (cs : List ℕ) → 48 ≤ c → c ≤ 57 → Numeral (c ∷ cs)

Numeral-append : (text rest : List ℕ) → Numeral text → Numeral (text ++ rest)
Numeral-append _ rest (numeral c cs lo hi) = numeral c (cs ++ rest) lo hi

digits-Numeral : (fuel n : ℕ) → n < fuel → Numeral (digits fuel n)
unfolding digits
digits-Numeral zero n h = absurd (omega arith)
digits-Numeral (suc fuel) n h = elim (dec_lt n 10) [
  | yes small ↦
      let one : (48 + n) ∷ [] ≡ digits (suc fuel) n = ground arith in
      subst Numeral one (numeral (48 + n) [] (omega arith) (omega arith))
  | no big ↦
      let more : digits fuel (n / 10) ++ ((48 + n % 10) ∷ []) ≡ digits (suc fuel) n =
        ground arith in
      subst Numeral more
        (Numeral-append (digits fuel (n / 10)) _ (digits-Numeral fuel (n / 10) (omega arith)))
]

skip_spaces-Numeral : (text : List ℕ) → Numeral text → skip_spaces text ≡ text
unfolding skip_spaces is_space
skip_spaces-Numeral _ (numeral c cs lo hi) = ground arith

read_signed-Numeral :
    (text rest : List ℕ) (n : ℕ)
    → Numeral text
    → read_digits 0 text ≡ (n, rest)
    → n ≤ 2 ^ 31 - 1
    → read_signed text ≡ some (pos n, rest)
unfolding read_signed read_number
read_signed-Numeral _ rest n (numeral c cs lo hi) read bound = ground (arith, read)

read_pid-to_string :
    (n : ℕ) (line : List ℕ)
    → n ≤ 2 ^ 31 - 1
    → read_pid (32 ∷ (to_string n ++ (32 ∷ line))) ≡ some (pos n, 32 ∷ line)
unfolding read_pid skip_spaces is_space to_string read_digits
read_pid-to_string n line bound =
    let text = to_string n ++ (32 ∷ line) in
    let starts : Numeral text =
      Numeral-append (to_string n) (32 ∷ line) (digits-Numeral (suc n) n (omega arith)) in
    ap read_signed (skip_spaces-Numeral text starts)
    ∙ read_signed-Numeral text (32 ∷ line) n starts (read_digits-to_string n (32 ∷ line)) bound

-- The line "/tell n text", where n is at most 2^31 - 1 and is written in decimal: HandleCmd sends
-- the text, with the sender's id in front, to the process n, and reports success whatever
-- `send_msg` answers.
pub handle_cmd-tells :
    (self n : ℕ) (line : List ℕ) (chat : Chat)
    → n ≤ 2 ^ 31 - 1
    → handle_cmd self (codes "/tell " ++ (to_string n ++ (32 ∷ line))) chat ≡ record {
      status = success;
      printed = nothing;
      chat = (send_msg (pos n) (dress self (32 ∷ line)) chat).1;
    }
unfolding handle_cmd read_word span_word skip_spaces is_space run_command same_text tell get_line
handle_cmd-tells self n line chat bound =
    ap
      (λ o. elim o as (λ o. Done) [
        | none ↦ record { status = usage_error; printed = usage; chat = chat }
        | some read ↦ elim (get_line read.1) as (λ o. Done) [
          | none ↦ record { status = usage_error; printed = usage; chat = chat }
          | some l ↦ record {
            status = success;
            printed = nothing;
            chat = (send_msg read.0 (dress self l) chat).1;
          }
        ]
      ])
      (read_pid-to_string n line bound)
