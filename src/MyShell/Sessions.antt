-- ===== src/MyShell/Sessions.antt =====
-- The loop of `main` over the lines: how a session ends.
use mathlib.Core.Path.{subst}
use seminars.Base.{
  ℕ, zero, suc, ◌+◌, ◌-◌, ◌<◌, ◌≡◌, ◌⊎◌, inl, inr, refl, sym, ap, ◌∙◌, Option, none, ◌≢◌, ◌++◌,
  true, false, Bool-cases, codes, List, [], ◌∷◌, length, arith,
}
use seminars.MyShell.Run.{
  Table, System, Status, success, pipe_error, parse_error, out_of_array, Ended,
}
use seminars.MyShell.Parse.{
  Split, split, too_many, overrun, split_commands, redirections, lost, syntax_error, files, is_some,
}
use seminars.MyShell.Run.{run_commands}
use seminars.MyShell.Prompt.{
  max_buffer_size, fgets, line_text, Line, blank, leaves, unsupported_commands_num,
  line_syntax_error, outside, runs, run_line, run_split, same_string, commands_at, Exit,
  exit_success, error_reading_user_input, exit_unsupported_commands_num, exit_syntax_error,
  exit_pipe_error, exit_unsupported_argv, exit_undefined, Next, returns, again, after_run,
  after_line, with_line, prompt,
}

-- fgets takes bytes off the input.
fgets-length :
    (n : ℕ) (input : List ℕ) → length (fgets n input).0 + length (fgets n input).1 ≡ length input
unfolding fgets
fgets-length zero input = omega arith
fgets-length (suc n) [] = refl
fgets-length (suc n) (c ∷ input) = ground (arith, fgets-length n input)

-- It reads nothing only at the end of the input.
fgets-end : (n : ℕ) (input : List ℕ) → (fgets (suc n) input).0 ≡ [] → input ≡ []
unfolding fgets
fgets-end n [] e = refl
fgets-end n (c ∷ input) e = absurd (ground arith)

-- A line that has been cut into commands, being neither empty nor `exit`.
abbrev pub IsOther : List ℕ → Type 0
IsOther text = (text ≢ []) × (text ≢ codes "exit")

-- A line after which the prompt comes again: an empty one, or one whose run has succeeded.
abbrev pub Continues : List ℕ → Line → Type 0
Continues text blank = text ≡ []
Continues text (runs input output e) = (e.status ≡ success) × IsOther text
Continues text leaves = ⊥
Continues text unsupported_commands_num = ⊥
Continues text line_syntax_error = ⊥
Continues text outside = ⊥

-- The last line of a shell that ends in this way.
abbrev pub Stops : Exit → List ℕ → Line → Type 0
Stops exit_success text leaves = text ≡ codes "exit"
Stops exit_unsupported_commands_num text unsupported_commands_num = IsOther text
Stops exit_syntax_error text line_syntax_error = IsOther text
Stops exit_undefined text outside = IsOther text
Stops exit_undefined text (runs input output e) = (e.status ≡ out_of_array) × IsOther text
Stops exit_pipe_error text (runs input output e) = (e.status ≡ pipe_error) × IsOther text
Stops exit_unsupported_argv text (runs input output e) = (e.status ≡ parse_error) × IsOther text
Stops exit text line = ⊥

-- The lines are those that fgets reads from the input, one after the other. All but the last
-- continue the session, and the last one is the reason of its end; a session without a last line
-- has come to the end of its input.
abbrev pub IsOver : Exit → List (List ℕ × Line) → List ℕ → Type 0
IsOver exit [] input = (exit ≡ error_reading_user_input) × (input ≡ [])
IsOver exit ((text, line) ∷ lines) input =
    let (first, rest) = fgets (max_buffer_size - 1) input in
    (text ≡ line_text first)
    × ((Stops exit text line × (lines ≡ [])) ⊎ (Continues text line × IsOver exit lines rest))

abbrev Decided : List ℕ → Line → Next → Type 0
Decided text line (returns exit) = Stops exit text line
Decided text line (again t) = Continues text line

-- What the text says of what a line comes to.
abbrev IsOf : List ℕ → Line → Type 0
IsOf text blank = text ≡ []
IsOf text leaves = text ≡ codes "exit"
IsOf text line = IsOther text

after_run-Decided :
    (text : List ℕ) (input output : Option ℕ) (e : Ended) (status : Status)
    → e.status ≡ status
    → IsOther text
    → Decided text (runs input output e) (after_run status e.table)
after_run-Decided text input output e success h other = (h, other)
after_run-Decided text input output e pipe_error h other = (h, other)
after_run-Decided text input output e parse_error h other = (h, other)
after_run-Decided text input output e out_of_array h other = (h, other)

after_line-Decided :
    (text : List ℕ) (line : Line) (t : Table)
    → IsOf text line
    → Decided text line (after_line line t)
after_line-Decided text blank t h = h
after_line-Decided text leaves t h = h
after_line-Decided text unsupported_commands_num t h = h
after_line-Decided text line_syntax_error t h = h
after_line-Decided text outside t h = h
after_line-Decided text (runs input output e) t h =
    after_run-Decided text input output e e.status refl h

eq_of_same_string : (a b : List ℕ) → same_string a b ≡ true → a ≡ b
unfolding same_string
eq_of_same_string [] [] e = refl
eq_of_same_string [] (d ∷ b) e = absurd (ground arith)
eq_of_same_string (c ∷ a) [] e = absurd (ground arith)
eq_of_same_string (c ∷ a) (d ∷ b) e = ground (arith, eq_of_same_string a b)

same_string_self : (a : List ℕ) → same_string a a ≡ true
unfolding same_string
same_string_self [] = refl
same_string_self (c ∷ a) = ground (arith, same_string_self a)

run_split-IsOf :
    (sys : System) (t : Table) (text bytes offsets : List ℕ)
    → IsOther text
    → IsOf text (run_split sys t bytes offsets)
unfolding run_split
run_split-IsOf sys t text bytes offsets other =
    elim (redirections offsets 0 (length offsets) bytes none none)
      as (λ r. IsOf text (elim r as (λ r. Line) [
        | lost ↦ outside
        | syntax_error ↦ line_syntax_error
        | files buffer input output ↦ runs input output (
            run_commands sys (record { input = is_some input; output = is_some output })
              (commands_at buffer offsets) t)
      ])) [ lost ↦ other | syntax_error ↦ other | files buffer input output ↦ other ]

run_line-exits :
    (sys : System) (t : Table) (c : ℕ) (text behind : List ℕ)
    → same_string (c ∷ text) (codes "exit") ≡ true
    → run_line sys t (c ∷ text) behind ≡ leaves
unfolding run_line
run_line-exits sys t c text behind e = rw e refl

run_line-cut :
    (sys : System) (t : Table) (c : ℕ) (text behind : List ℕ) (s : Split)
    → same_string (c ∷ text) (codes "exit") ≡ false
    → split_commands (c ∷ text ++ 0 ∷ behind) 0 1 ≡ s
    → IsOther (c ∷ text)
    → IsOf (c ∷ text) (run_line sys t (c ∷ text) behind)
unfolding run_line
run_line-cut sys t c text behind (split bytes offsets) e cut other =
    rw (e, cut) (run_split-IsOf sys t (c ∷ text) bytes (0 ∷ offsets) other)
run_line-cut sys t c text behind too_many e cut other = rw (e, cut) other
run_line-cut sys t c text behind overrun e cut other = rw (e, cut) other

run_line-IsOf :
    (sys : System) (t : Table) (text behind : List ℕ) → IsOf text (run_line sys t text behind)
run_line-IsOf sys t [] behind = unfold run_line in refl
run_line-IsOf sys t (c ∷ text) behind = elim (Bool-cases (same_string (c ∷ text) (codes "exit"))) [
  | inl same ↦
      subst (IsOf (c ∷ text)) (sym (run_line-exits sys t c text behind same))
        (eq_of_same_string (c ∷ text) (codes "exit") same)
  | inr other ↦ run_line-cut sys t c text behind _ other refl (
    λ e. cc,
    λ e.
        let self = same_string_self (c ∷ text) in
        let not_self : same_string (c ∷ text) (c ∷ text) ≡ false =
          ap (same_string (c ∷ text)) e ∙ other in
        absurd (cc),
  )
]

Next-cases : (n : Next) → ((e : Exit) × (n ≡ returns e)) ⊎ ((t : Table) × (n ≡ again t))
Next-cases (returns e) = inl (e, refl)
Next-cases (again t) = inr (t, refl)

List-cases : (l : List ℕ) → (l ≡ []) ⊎ ((c : ℕ) × (bytes : List ℕ) × (l ≡ c ∷ bytes))
List-cases [] = inl refl
List-cases (c ∷ bytes) = inr (c, bytes, refl)

module _ (sys : ℕ → System) (behind : ℕ → List ℕ) where
  prompt-over :
      (fuel i : ℕ) (t : Table) (input : List ℕ)
      → (fgets (max_buffer_size - 1) input).0 ≡ []
      → prompt (suc fuel) sys behind i t input
        ≡ record { exit = error_reading_user_input; lines = [] }
  unfolding prompt
  prompt-over fuel i t input e = ground arith

  module _ (fuel i : ℕ) (t : Table) (input : List ℕ) (c : ℕ) (bytes : List ℕ)
      (e : (fgets (max_buffer_size - 1) input).0 ≡ c ∷ bytes) where
    abbrev done : Line
    done = run_line (sys i) t (line_text (c ∷ bytes)) (behind i)

    prompt-returns :
        (exit : Exit)
        → after_line done t ≡ returns exit
        → prompt (suc fuel) sys behind i t input
          ≡ record { exit = exit; lines = (line_text (c ∷ bytes), done) ∷ [] }
    unfolding prompt
    prompt-returns exit h = ground arith

    prompt-again :
        (t' : Table)
        → after_line done t ≡ again t'
        → prompt (suc fuel) sys behind i t input
          ≡ with_line
              (line_text (c ∷ bytes))
              done
              (prompt fuel sys behind (i + 1) t' (fgets (max_buffer_size - 1) input).1)
    unfolding prompt
    prompt-again t' h = ground arith

  -- Whatever its input, the shell's loop ends after at most as many rounds as the input has bytes,
  -- and one more, when all calls return. Its lines are those that fgets reads from the input, up to
  -- the last one. main returns success only for the line `exit`. It returns the error of reading at
  -- the end of the input, after lines that were all empty, or whose runs have succeeded. Otherwise
  -- the last line was not empty and not `exit`, and main has returned the error that it came to, or
  -- a scan of it has left its array, and all lines before were empty, or their runs have succeeded.
  pub prompt-IsOver :
      (fuel i : ℕ) (t : Table) (input : List ℕ)
      → length input < fuel
      → let s = prompt fuel sys behind i t input in IsOver s.exit s.lines input
  prompt-IsOver zero i t input h = absurd (omega arith)
  prompt-IsOver (suc fuel) i t input h =
      let size = fgets-length (max_buffer_size - 1) input in
      elim (List-cases (fgets (max_buffer_size - 1) input).0) [
        | inl e ↦
            subst (λ s. IsOver s.exit s.lines input) (sym (prompt-over fuel i t input e))
              (refl, fgets-end 1022 input e)
        | inr (c, bytes, e) ↦
            let line = done fuel i t input c bytes e in
            let text = line_text (c ∷ bytes) in
            let read : text ≡ line_text (fgets (max_buffer_size - 1) input).0 =
              ap line_text (sym e) in
            let decided =
              after_line-Decided text line t (run_line-IsOf (sys i) t text (behind i)) in
            elim (Next-cases (after_line line t)) [
              | inl (exit, stop) ↦
                  subst (λ s. IsOver s.exit s.lines input)
                    (sym (prompt-returns fuel i t input c bytes e exit stop))
                    (read, inl (subst (Decided text line) stop decided, refl))
              | inr (t', go) ↦
                  let shorter = ap length e in
                  subst (λ s. IsOver s.exit s.lines input)
                    (sym (prompt-again fuel i t input c bytes e t' go))
                    (
                      read,
                      inr (
                        subst (Decided text line) go decided,
                        prompt-IsOver fuel (i + 1) t' (fgets (max_buffer_size - 1) input).1
                            (omega (arith, size, shorter)),
                      ),
                    )
            ]
      ]
