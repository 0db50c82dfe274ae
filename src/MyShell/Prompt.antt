-- ===== src/MyShell/Prompt.antt =====
-- myshell/myshell.c: `main`, from a line of input to the call of run_commands, and the loop over
-- the lines. System calls answer by the number of the line.
use seminars.Base.{
  ℕ, zero, suc, ◌+◌, ◌-◌, Bool, true, false, ◌||◌, Option, none, List, [], ◌∷◌, ◌++◌, length, codes,
  ◌==◌, if◌then◌else◌, drop,
}
use seminars.MyShell.Parse.{
  split, too_many, overrun, split_commands, files, syntax_error, lost, redirections, is_some,
}
use seminars.MyShell.Run.{
  Table, System, Status, success, pipe_error, parse_error, out_of_array, Ended, run_commands,
}

-- MAX_BUFFER_SIZE
abbrev pub max_buffer_size : ℕ
max_buffer_size = 1024

-- `fgets`: at most `n` bytes of the input, up to a newline, and the rest.
unfoldable pub fgets : ℕ → List ℕ → List ℕ × List ℕ
fgets zero input = ([], input)
fgets (suc n) [] = ([], [])
fgets (suc n) (c ∷ input) =
    let rest = fgets n input in if c == 10 then (c ∷ [], input) else (c ∷ rest.0, rest.1)

-- `buffer[strcspn(buffer, "\n")] = 0`: the string that is left in the buffer.
unfoldable pub line_text : List ℕ → List ℕ
line_text [] = []
line_text (c ∷ line) = let rest = line_text line in if c == 10 || c == 0 then [] else c ∷ rest

-- `strcmp(a, b) == 0`
unfoldable pub same_string : List ℕ → List ℕ → Bool
same_string [] [] = true
same_string [] (d ∷ b) = false
same_string (c ∷ a) [] = false
same_string (c ∷ a) (d ∷ b) = let rest = same_string a b in if c == d then rest else false

-- What a line comes to: the next prompt, the end of the shell, an error of its own, a scan that
-- leaves the buffer, or the redirections and the end of run_commands.
pub data Line : Type 0 where
  blank : Line
  leaves : Line
  unsupported_commands_num : Line
  line_syntax_error : Line
  outside : Line
  runs : Option ℕ → Option ℕ → Ended → Line

-- The commands as run_commands gets them.
abbrev pub commands_at : List ℕ → List ℕ → List (List ℕ)
commands_at bytes [] = []
commands_at bytes (offset ∷ offsets) = drop offset bytes ∷ commands_at bytes offsets

-- From the loop over the redirections on.
unfoldable pub run_split : System → Table → List ℕ → List ℕ → Line
unfolding redirections run_commands
run_split sys t bytes offsets = elim (redirections offsets 0 (length offsets) bytes none none) [
  | lost ↦ outside
  | syntax_error ↦ line_syntax_error
  | files buffer input output ↦ runs input output (
      run_commands sys (record { input = is_some input; output = is_some output })
        (commands_at buffer offsets) t)
]

-- One line; `behind` is what stands in the buffer behind its NUL.
unfoldable pub run_line : System → Table → List ℕ → List ℕ → Line
unfolding run_split split_commands same_string
run_line sys t [] behind = blank
run_line sys t (c ∷ text) behind =
    if same_string (c ∷ text) (codes "exit")
    then leaves
    else elim (split_commands (c ∷ text ++ 0 ∷ behind) 0 1) [
      | too_many ↦ unsupported_commands_num
      | overrun ↦ outside
      | split bytes offsets ↦ run_split sys t bytes (0 ∷ offsets)
    ]

-- What `main` returns; or a scan has left its array.
pub data Exit : Type 0 where
  exit_success : Exit
  error_reading_user_input : Exit
  exit_unsupported_commands_num : Exit
  exit_syntax_error : Exit
  exit_pipe_error : Exit
  exit_unsupported_argv : Exit
  exit_undefined : Exit
  exit_no_fuel : Exit

-- What `main` does after a line: it returns, or the prompt comes again with these descriptors.
pub data Next : Type 0 where
  returns : Exit → Next
  again : Table → Next

abbrev pub after_run : Status → Table → Next
after_run success t = again t
after_run pipe_error t = returns exit_pipe_error
after_run parse_error t = returns exit_unsupported_argv
after_run out_of_array t = returns exit_undefined

abbrev pub after_line : Line → Table → Next
after_line blank t = again t
after_line leaves t = returns exit_success
after_line unsupported_commands_num t = returns exit_unsupported_commands_num
after_line line_syntax_error t = returns exit_syntax_error
after_line outside t = returns exit_undefined
after_line (runs input output e) t = after_run e.status e.table

-- A session: what `main` returns, and the text of each line with what it came to.
pub record Session : Type 0 where
  pub exit : Exit
  pub lines : List (List ℕ × Line)

abbrev pub with_line : List ℕ → Line → Session → Session
with_line text l s = record s { lines = (text, l) ∷ s.lines }

-- The loop of `main`, from line `i` on.
unfoldable pub prompt : ℕ → (ℕ → System) → (ℕ → List ℕ) → ℕ → Table → List ℕ → Session
unfolding fgets line_text run_line
prompt zero sys behind i t input = record { exit = exit_no_fuel; lines = [] }
prompt (suc fuel) sys behind i t input =
    let (line, rest) = fgets (max_buffer_size - 1) input in
    elim line [
      | [] ↦ record { exit = error_reading_user_input; lines = [] }
      | c ∷ bytes ↦
          let text = line_text (c ∷ bytes) in
          let done = run_line (sys i) t text (behind i) in
          elim (after_line done t) [
            | returns e ↦ record { exit = e; lines = (text, done) ∷ [] }
            | again t' ↦ with_line text done (prompt fuel sys behind (i + 1) t' rest)
          ]
    ]
