-- ===== src/Cp/Copy.antt =====
-- cp/cp.c: copy_file.
use seminars.Base.{
  ℕ, zero, suc, ◌+◌, Bool, true, false, not, ◌&&◌, ◌||◌, Option, none, some, List, [], ◌∷◌, length,
  ltb, ◌==◌, if◌then◌else◌,
}
use seminars.Kernel.{Kernel, got, read_failed, wrote, write_failed}
use seminars.Transfer.{Outcome, success, failure, no_fuel}
use seminars.Cp.{Mode}

-- BUFFER_SIZE
abbrev pub buffer_size : ℕ
buffer_size = 4

-- The loop of the writes: each call is given the whole buffer, whatever has been written of it.
unfoldable pub write_again : {S : Type 0} → Kernel S → ℕ → ℕ → List ℕ → ℕ → S → Outcome × S
write_again k zero to buffer written s = (no_fuel, s)
write_again k (suc fuel) to buffer written s = elim (ltb written (length buffer)) [
  | false ↦ (success, s)
  | true ↦
      let (r, s') = k.write s to buffer in
      elim r [
        | write_failed ↦ (failure, s')
        | wrote n ↦ write_again k fuel to buffer (written + n) s'
      ]
]

-- The loop of the reads.
unfoldable pub copy_loop : {S : Type 0} → Kernel S → ℕ → ℕ → ℕ → S → Outcome × S
copy_loop k zero from to s = (no_fuel, s)
copy_loop k (suc fuel) from to s =
    let (r, s') = k.read s from buffer_size in
    elim r [
      | read_failed ↦ (failure, s')
      | got [] ↦ (success, s')
      | got (b ∷ bs) ↦
          let (o, s'') = write_again k (suc buffer_size) to (b ∷ bs) 0 s' in
          elim o [
            | success ↦ copy_loop k fuel from to s''
            | failure ↦ (failure, s'')
            | no_fuel ↦ (no_fuel, s'')
          ]
    ]

-- `while ((c = getchar()) != '\n' && c != EOF);`: what is left of the standard input.
unfoldable pub skip_line : List ℕ → List ℕ
skip_line [] = []
skip_line (c ∷ input) = let rest = skip_line input in if c == 10 then input else rest

-- The answer of the user, and what is left of the standard input. At its end there is no answer.
unfoldable pub ask : List ℕ → Bool × List ℕ
unfolding skip_line
ask [] = (false, [])
ask (c ∷ input) = (c == b'Y' || c == b'y', skip_line input)

-- What stat and the two calls of open return: the descriptors, or `none` on failure.
pub record Files : Type 0 where
  pub src : Option ℕ
  pub dst_exists : Bool
  pub dst : Option ℕ

-- The end of a call: its state, the system, the standard input, and the descriptors left open.
pub record Copied (S : Type 0) : Type 0 where
  pub outcome : Outcome
  pub system : S
  pub input : List ℕ
  pub left_open : List ℕ

-- `close` of one descriptor
unfoldable pub close : ℕ → List ℕ → List ℕ
close fd [] = []
close fd (x ∷ fds) = let rest = close fd fds in if x == fd then fds else x ∷ rest

-- Whether the target may be written, and what is left of the standard input.
unfoldable pub may_write : Mode → Bool → List ℕ → Bool × List ℕ
unfolding ask
may_write mode dst_exists input =
    if not dst_exists
    then (true, input)
    else if not mode.force && not mode.interactive
    then (false, input)
    else if not mode.force && mode.interactive
    then ask input
    else (true, input)

-- What follows the check: opening the target, and the copy.
unfoldable pub copy_to : {S : Type 0} → Kernel S → ℕ → ℕ → Option ℕ → List ℕ → S → Copied S
unfolding copy_loop close
copy_to k fuel from dst input s = elim dst [
  | none ↦ record {
    outcome = failure;
    system = s;
    input = input;
    left_open = close from (from ∷ []);
  }
  | some to ↦
      let copied = copy_loop k fuel from to s in
      record {
        outcome = copied.0;
        system = copied.1;
        input = input;
        left_open = close to (close from (from ∷ to ∷ []));
      }
]

unfoldable pub copy_file : {S : Type 0} → Kernel S → ℕ → Mode → Files → List ℕ → S → Copied S
unfolding may_write copy_to
copy_file k fuel mode files input s = elim files.src [
  | none ↦ record { outcome = failure; system = s; input = input; left_open = [] }
  | some from ↦
      let checked = may_write mode files.dst_exists input in
      if checked.0 then copy_to k fuel from files.dst checked.1 s else record {
        outcome = success;
        system = s;
        input = checked.1;
        left_open = close from (from ∷ []);
      }
]
