-- ===== src/MyShell/Run.antt =====
-- myshell/myshell.c: run_commands. The table of open descriptors is a function; what pipe, open
-- and fork return is a record of functions.
use seminars.Base.{
  ℕ, ◌+◌, ◌≡◌, ◌≢◌, Bool, true, false, ◌&&◌, Option, none, some, List, [], ◌∷◌, ◌==◌, if◌then◌else◌,
  update,
}
use seminars.MyShell.Parse.{args, unsupported_argv, argv_overflow, argv_overrun, parse_argv}

-- What a descriptor stands for: what the shell was started with, one of the two redirections, or an
-- end of the pipe that follows a command.
pub data File : Type 0 where
  inherited : ℕ → File
  input_file : File
  output_file : File
  read_end : ℕ → File
  write_end : ℕ → File

abbrev pub Table : Type 0
Table = ℕ → Option File

-- `close`
abbrev pub close : ℕ → Table → Table
close fd t = update t fd none

-- `dup2`, which fails and changes nothing for a descriptor that is not open.
abbrev pub dup2 : ℕ → ℕ → Table → Table
dup2 fd target t = elim (t fd) [ none ↦ t | some f ↦ update t target (some f) ]

-- What the system answers: the descriptors of the pipe that follows a command, or of a redirection,
-- with what is documented of them; and whether the fork for a command succeeds.
pub record System : Type 0 where
  pub pipe : ℕ → Table → Option (ℕ × ℕ)
  pub open_file : File → Table → Option ℕ
  pub fork : ℕ → Bool
  pub pipe-new :
      (i : ℕ) (t : Table) (r w : ℕ) → pipe i t ≡ some (r, w) → (t r ≡ none) × (t w ≡ none) × (r ≢ w)
  pub open_file-new : (f : File) (t : Table) (fd : ℕ) → open_file f t ≡ some fd → t fd ≡ none

-- The end of a child: MYSHELL_OPEN_ERROR, or the call of execvp with its arguments and descriptors.
pub data Child : Type 0 where
  open_error : Child
  execs : List ℕ → List ℕ → Table → Child

-- `open`, `dup2` and `close` of a redirection, where there is one.
unfoldable pub redirect_to : System → Bool → File → ℕ → Table → Option Table
redirect_to sys wanted f target t = elim wanted [
  | false ↦ some t
  | true ↦ elim (sys.open_file f t) [
    | none ↦ none
    | some fd ↦ some (close fd (dup2 fd target (update t fd (some f))))
  ]
]

-- The end of the pipe from the command before becomes the standard input.
unfoldable pub take_prev : Option ℕ → Table → Table
take_prev none t = t
take_prev (some prev_out_fd) t = close prev_out_fd (dup2 prev_out_fd 0 t)

-- The pipe to the next command, if there is one, takes the standard output.
unfoldable pub give_pipe : Option (ℕ × ℕ) → Table → Table
give_pipe none t = t
give_pipe (some (r, w)) t = close w (close r (dup2 w 1 t))

-- The two redirections of a call of run_commands.
pub record HasFiles : Type 0 where
  pub input : Bool
  pub output : Bool

-- The test `i + 1 != commands_num`: a pipe is made for all commands but the last.
abbrev pub is_last : Option (ℕ × ℕ) → Bool
is_last none = true
is_last (some p) = false

-- The child for command `i`: `pipefds` is `none` for the last command.
unfoldable pub run_child :
    System → HasFiles → ℕ → List ℕ → List ℕ → Option ℕ → Option (ℕ × ℕ) → Table → Child
unfolding redirect_to take_prev give_pipe
run_child sys files i bytes argv prev pipefds t =
    elim (redirect_to sys (i == 0 && files.input) input_file 0 t) [
      | none ↦ open_error
      | some t' ↦ elim (redirect_to sys (is_last pipefds && files.output) output_file 1 t') [
        | none ↦ open_error
        | some t'' ↦ execs bytes argv (give_pipe pipefds (take_prev prev t''))
      ]
    ]

-- The shell's own part of a round: it closes the pipe from the command before, and the end of the
-- new one that is written to.
unfoldable pub close_prev : Option ℕ → Table → Table
close_prev none t = t
close_prev (some prev_out_fd) t = close prev_out_fd t

unfoldable pub keep_reading : Option (ℕ × ℕ) → Table → Table
keep_reading none t = t
keep_reading (some (r, w)) t = close w t

abbrev pub next_prev : Option (ℕ × ℕ) → Option ℕ
next_prev none = none
next_prev (some (r, w)) = some r

-- `pipe`, unless the command is the last: the descriptors and the table, or none on failure.
unfoldable pub make_pipe : System → List (List ℕ) → ℕ → Table → Option (Option (ℕ × ℕ) × Table)
make_pipe sys [] i t = some (none, t)
make_pipe sys (c ∷ commands) i t = elim (sys.pipe i t) [
  | none ↦ none
  | some (r, w) ↦ some (some (r, w), update (update t r (some (read_end i))) w (some (write_end i)))
]

-- What run_commands returns, or a write or read of parse_argv outside its arrays.
pub data Status : Type 0 where
  success : Status
  pipe_error : Status
  parse_error : Status
  out_of_array : Status

-- The end of run_commands: its status, the shell's descriptors, the number of waits, and each child
-- with the number of its command.
pub record Ended : Type 0 where
  pub status : Status
  pub table : Table
  pub children_num : ℕ
  pub children : List (ℕ × Child)

abbrev pub ended : Status → Table → ℕ → Ended
ended status t n = record { status = status; table = t; children_num = n; children = [] }

-- The child is there if the fork succeeds; a failing fork takes the branch of the parent.
abbrev pub add_child : Bool → ℕ → Child → Ended → Ended
add_child forked i child e = record e {
  children = if forked then (i, child) ∷ e.children else e.children;
}

-- The loop of run_commands, from command `i` on.
unfoldable pub run_from : System → HasFiles → List (List ℕ) → ℕ → Option ℕ → ℕ → Table → Ended
unfolding run_child make_pipe close_prev keep_reading
run_from sys files [] i prev children_num t = ended success t children_num
run_from sys files (command ∷ commands) i prev children_num t =
    elim (parse_argv command 0 false 0) [
      | unsupported_argv ↦ ended parse_error (close_prev prev t) children_num
      | argv_overflow ↦ ended out_of_array t children_num
      | argv_overrun ↦ ended out_of_array t children_num
      | args bytes argv ↦ elim (make_pipe sys commands i t) [
        | none ↦ ended pipe_error t children_num
        | some (pipefds, t') ↦
            add_child (sys.fork i) i (run_child sys files i bytes argv prev pipefds t') (
              run_from sys files commands (i + 1) (next_prev pipefds) (children_num + 1 + 1)
                (keep_reading pipefds (close_prev prev t')))
      ]
    ]

-- Its start: no pipe from a command before, and no children.
unfoldable pub run_commands : System → HasFiles → List (List ℕ) → Table → Ended
unfolding run_from
run_commands sys files commands t = run_from sys files commands 0 none 0 t
