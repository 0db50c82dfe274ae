-- ===== src/MyShell/Pipes.antt =====
-- Pipelines, on a system that hands out the lowest free descriptors.
use seminars.Base.{
  ℕ, zero, suc, ◌≤◌, ◌≡◌, ◌≢◌, inl, inr, refl, Bool, true, false, Option, Option-cases, none, some,
  List, [], ◌∷◌, ◌++◌, length, codes, if◌then◌else◌, arith, ltb, is_space,
}
use seminars.Base.{words, split_on, drop_empty}
use seminars.MyShell.Prompt.{
  exit_success, prompt, run_line, run_split, same_string, fgets, line_text,
}
use seminars.MyShell.Parse.{
  split_commands, redirections, redirection_at, blank_spaces, skip_path, end_path, take_path,
}
use seminars.MyShell.Commands.{pieces}
use seminars.MyShell.Redirection.{Plain}
use seminars.MyShell.Lines.{RunsPieces, run_line-RunsPieces}
use seminars.MyShell.Sessions.{IsOver, prompt-IsOver}
use seminars.MyShell.Parse.{parse_argv}
use seminars.MyShell.Run.{File, inherited, Table, System, HasFiles, success, run_commands}
use seminars.MyShell.Rounds.{RunIs, run_commands-RunIs}

abbrev is_free : Option File → Bool
is_free none = true
is_free (some f) = false

-- The first free descriptor from fd on, among n.
unfoldable lowest : ℕ → ℕ → Table → Option ℕ
lowest zero fd t = none
lowest (suc n) fd t = let rest = lowest n (suc fd) t in if is_free (t fd) then some fd else rest

lowest-IsFree : (n fd : ℕ) (t : Table) (x : ℕ) → lowest n fd t ≡ some x → (t x ≡ none) × (fd ≤ x)
unfolding lowest
lowest-IsFree zero fd t x e = ground arith
lowest-IsFree (suc n) fd t x e = elim (Option-cases (t fd)) [
  | inl free ↦ (ground arith, ground arith)
  | inr (f, used) ↦
      let later = lowest-IsFree n (suc fd) t x (ground arith) in (later.0, omega (arith, later.1))
]

unfoldable two_lowest : ℕ → Table → Option (ℕ × ℕ)
unfolding lowest
two_lowest i t = elim (lowest 8 0 t) [
  | none ↦ none
  | some r ↦ elim (lowest 8 (suc r) t) [ none ↦ none | some w ↦ some (r, w) ]
]

two_lowest-IsFree :
    (i : ℕ) (t : Table) (r w : ℕ)
    → two_lowest i t ≡ some (r, w)
    → (t r ≡ none) × (t w ≡ none) × (r ≢ w)
unfolding two_lowest
two_lowest-IsFree i t r w e = elim (Option-cases (lowest 8 0 t)) [
  | inl refused ↦ absurd (ground arith)
  | inr (a, first) ↦ elim (Option-cases (lowest 8 (suc a) t)) [
    | inl refused ↦ absurd (ground arith)
    | inr (b, second) ↦
        ground (arith, lowest-IsFree 8 0 t a first, lowest-IsFree 8 (suc a) t b second)
  ]
]

unfoldable small_system : System
unfolding two_lowest
small_system = record {
  pipe = two_lowest;
  open_file = λ f t. lowest 8 0 t;
  fork = λ i. true;
  pipe-new = two_lowest-IsFree;
  open_file-new = λ f t fd e. (lowest-IsFree 8 0 t fd e).0;
}

-- Descriptors 0 to 2 are open.
abbrev terminal : Table
terminal fd = if ltb fd 3 then some (inherited fd) else none

abbrev pipeline : List (List ℕ)
pipeline = (codes "ls -l" ++ 0 ∷ []) ∷ (codes "sort" ++ 0 ∷ []) ∷ (codes "wc" ++ 0 ∷ []) ∷ []

abbrev to_file : HasFiles
to_file = record { input = false; output = true }

three_children : length (run_commands small_system to_file pipeline terminal).children ≡ 3
unfolding small_system run_commands parse_argv is_space
three_children = refl

pipeline_succeeds : (run_commands small_system to_file pipeline terminal).status ≡ success
unfolding small_system run_commands parse_argv is_space
pipeline_succeeds = refl

run_commands-RunIs_example :
    RunIs terminal
      (inherited 0, refl)
      (inherited 1, refl)
      to_file
      small_system
      pipeline
      (run_commands small_system to_file pipeline terminal)
run_commands-RunIs_example =
    run_commands-RunIs terminal (inherited 0, refl) (inherited 1, refl) to_file small_system
      pipeline

-- A line for the prompt, and a dialogue.
abbrev typed : List ℕ
typed = codes "ls -l|sort|wc"

typed-Plain : Plain typed
typed-Plain = omega arith

run_line-RunsPieces_example :
    RunsPieces terminal
      (inherited 0, refl)
      (inherited 1, refl)
      small_system
      (pieces typed)
      (run_line small_system terminal typed [])
unfolding same_string words split_on drop_empty is_space
run_line-RunsPieces_example =
    run_line-RunsPieces terminal (inherited 0, refl) (inherited 1, refl) small_system b'l'
      (codes "s -l|sort|wc") [] refl typed-Plain (omega arith) (omega arith)

-- An empty line, a pipeline, and `exit`.
abbrev dialogue : List ℕ
dialogue = 10 ∷ typed ++ 10 ∷ codes "exit" ++ 10 ∷ []

dialogue_succeeds : (prompt 9 (λ i. small_system) (λ i. []) 0 terminal dialogue).exit ≡ exit_success
unfolding prompt small_system run_line run_split run_commands parse_argv is_space same_string
    split_commands redirections redirection_at blank_spaces skip_path end_path take_path fgets
    line_text
dialogue_succeeds = refl

prompt-IsOver_example :
    IsOver
      (prompt 64 (λ i. small_system) (λ i. []) 0 terminal dialogue).exit
      (prompt 64 (λ i. small_system) (λ i. []) 0 terminal dialogue).lines
      dialogue
prompt-IsOver_example =
    prompt-IsOver (λ i. small_system) (λ i. []) 64 0 terminal dialogue (omega arith)
