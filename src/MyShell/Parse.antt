-- ===== src/MyShell/Parse.antt =====
-- myshell/myshell.c: the loop of `main` that cuts the line at `|`, `parse_argv` and
-- `get_redirection`. Each works on the bytes from its position to the end of the buffer.
use seminars.Base.{
  ℕ, zero, suc, ◌+◌, Bool, true, false, not, ◌&&◌, ◌||◌, Option, none, some, List, [], ◌∷◌, length,
  leb, ltb, ◌==◌, if◌then◌else◌, is_space, take, drop, rev_onto,
}

-- MAX_ARGV_SIZE and MAX_COMMANDS
abbrev pub max_argv_size : ℕ
max_argv_size = 64

abbrev pub max_commands : ℕ
max_commands = 16

-- The buffer as it is left, with the offsets of the commands found; MYSHELL_UNSUPPORTED_COMMANDS_NUM;
-- or a read outside the buffer.
pub data Split : Type 0 where
  split : List ℕ → List ℕ → Split
  too_many : Split
  overrun : Split

abbrev pub keep_byte : ℕ → Split → Split
keep_byte c (split bytes commands) = split (c ∷ bytes) commands
keep_byte c too_many = too_many
keep_byte c overrun = overrun

-- `*position = '\0'`, and a new command behind it
abbrev pub new_command : ℕ → Split → Split
new_command offset (split bytes commands) = split (0 ∷ bytes) (offset ∷ commands)
new_command offset too_many = too_many
new_command offset overrun = overrun

-- `while (*position != '\0')` of `main`: `offset` is that of `position`, and `commands_num`
-- commands have been found.
unfoldable pub split_commands : List ℕ → ℕ → ℕ → Split
split_commands [] offset commands_num = overrun
split_commands (c ∷ bytes) offset commands_num =
    let rest =
      split_commands bytes (offset + 1) (if c == b'|' then commands_num + 1 else commands_num) in
    if c == 0
    then split (c ∷ bytes) []
    else (if c == b'|'
        then (if leb max_commands commands_num then too_many else new_command (offset + 1) rest)
        else keep_byte c rest)

-- The buffer and `argv` without its NULL; MYSHELL_UNSUPPORTED_ARGV; a write of the NULL behind
-- the array; or a read outside the buffer.
pub data Argv : Type 0 where
  args : List ℕ → List ℕ → Argv
  unsupported_argv : Argv
  argv_overflow : Argv
  argv_overrun : Argv

abbrev pub argv_byte : ℕ → Argv → Argv
argv_byte c (args bytes argv) = args (c ∷ bytes) argv
argv_byte c unsupported_argv = unsupported_argv
argv_byte c argv_overflow = argv_overflow
argv_byte c argv_overrun = argv_overrun

abbrev pub argv_word : ℕ → ℕ → Argv → Argv
argv_word offset c (args bytes argv) = args (c ∷ bytes) (offset ∷ argv)
argv_word offset c unsupported_argv = unsupported_argv
argv_word offset c argv_overflow = argv_overflow
argv_word offset c argv_overrun = argv_overrun

unfoldable pub parse_argv : List ℕ → ℕ → Bool → ℕ → Argv
parse_argv [] offset in_word argv_index = argv_overrun
parse_argv (c ∷ bytes) offset in_word argv_index =
    let starts = not (is_space c) && not in_word in
    let rest =
      parse_argv bytes (offset + 1) (not (is_space c))
        (if starts then argv_index + 1 else argv_index) in
    if c == 0
    then (if ltb argv_index max_argv_size then args (c ∷ bytes) [] else argv_overflow)
    else (if is_space c
        then argv_byte 0 rest
        else (if in_word
            then argv_byte c rest
            else (if leb max_argv_size argv_index
                then unsupported_argv
                else argv_word offset c rest)))

-- The buffer, and the offsets of the paths found.
pub data Redirect : Type 0 where
  redirect : List ℕ → Option ℕ → Option ℕ → Redirect
  redirect_overrun : Redirect
  redirect_no_fuel : Redirect

-- A position in the buffer: the bytes before it, the nearest first, and those from it on.
pub record Cursor : Type 0 where
  pub before : List ℕ
  pub after : List ℕ

-- `while (isspace(*position)) { *position = '\0'; position++; }`
unfoldable pub blank_spaces : List ℕ → List ℕ → Cursor
blank_spaces before [] = record { before = before; after = [] }
blank_spaces before (c ∷ after) =
    let rest = blank_spaces (0 ∷ before) after in
    if is_space c then rest else record { before = before; after = c ∷ after }

-- `while (!isspace(*position) && *position != '\0' && *position != stop) position++;`
unfoldable pub skip_path : ℕ → List ℕ → List ℕ → Cursor
skip_path stop before [] = record { before = before; after = [] }
skip_path stop before (c ∷ after) =
    let rest = skip_path stop (c ∷ before) after in
    if is_space c || (c == 0 || c == stop)
    then record { before = before; after = c ∷ after }
    else rest

-- `if (*position != stop) { *position = '\0'; position++; }`
unfoldable pub end_path : ℕ → List ℕ → List ℕ → Option Cursor
end_path stop before [] = none
end_path stop before (c ∷ after) = some (
    if c == stop
    then record { before = before; after = c ∷ after }
    else record { before = 0 ∷ before; after = after })

-- One redirection, `position` being behind `<` or `>`: the offset of the path, and where it ends.
unfoldable pub take_path : ℕ → List ℕ → List ℕ → ℕ × Option Cursor
take_path stop before after =
    let start = blank_spaces before after in
    let stop_at = skip_path stop start.before start.after in
    (length start.before, end_path stop stop_at.before stop_at.after)

unfoldable pub get_redirection : ℕ → List ℕ → List ℕ → Option ℕ → Option ℕ → Redirect
get_redirection zero before after input output = redirect_no_fuel
get_redirection (suc fuel) before [] input output = redirect_overrun
get_redirection (suc fuel) before (c ∷ after) input output = elim (c == 0) [
  | true ↦ redirect (rev_onto before (c ∷ after)) input output
  | false ↦ elim (c == b'<') [
    | true ↦
        let (path, end) = take_path b'>' (0 ∷ before) after in
        elim end [
          | none ↦ redirect_overrun
          | some p ↦ get_redirection fuel p.before p.after (some path) output
        ]
    | false ↦ elim (c == b'>') [
      | true ↦
          let (path, end) = take_path b'<' (0 ∷ before) after in
          elim end [
            | none ↦ redirect_overrun
            | some p ↦ get_redirection fuel p.before p.after input (some path)
          ]
      | false ↦ get_redirection fuel (c ∷ before) after input output
    ]
  ]
]

-- What the loop over the commands of `main` leaves: the buffer and the two paths;
-- MYSHELL_SYNTAX_ERROR; or a scan that did not end inside the buffer.
pub data Redirections : Type 0 where
  files : List ℕ → Option ℕ → Option ℕ → Redirections
  syntax_error : Redirections
  lost : Redirections

abbrev pub is_some : Option ℕ → Bool
is_some none = false
is_some (some p) = true

abbrev pub or_else : Option ℕ → Option ℕ → Option ℕ
or_else none old = old
or_else (some p) old = some p

-- `get_redirection(commands[i], ...)` in a buffer whose scan takes a step for each byte at most.
unfoldable pub redirection_at : List ℕ → ℕ → Redirect
unfolding get_redirection
redirection_at buffer offset =
    get_redirection (length buffer + 1) (rev_onto (take offset buffer) []) (drop offset buffer) none
      none

-- The commands from number `i` on, of `commands_num`.
unfoldable pub redirections : List ℕ → ℕ → ℕ → List ℕ → Option ℕ → Option ℕ → Redirections
unfolding redirection_at
redirections [] i commands_num buffer input output = files buffer input output
redirections (offset ∷ offsets) i commands_num buffer input output =
    elim (redirection_at buffer offset) [
      | redirect_overrun ↦ lost
      | redirect_no_fuel ↦ lost
      | redirect bytes current_input current_output ↦
          let rest =
            redirections offsets (i + 1) commands_num bytes (or_else current_input input)
              (or_else current_output output) in
          if is_some current_input && not (i == 0)
          then syntax_error
          else (if is_some current_output && not (i + 1 == commands_num)
              then syntax_error
              else rest)
    ]
