-- ===== src/Ls/Tree.antt =====
-- ls/ls.c: print_dir_info, which lists a directory and those below it.
use seminars.Base.{
  ℕ, zero, suc, ◌+◌, ◌≡◌, refl, Bool, true, false, not, ◌&&◌, ◌||◌, Option, none, some, List, [],
  ◌∷◌, ◌++◌, ◌==◌, if◌then◌else◌, get_or, arith,
}
use seminars.Ls.{Ent, Mode, Kind, directory}
use seminars.Ls.Entries.{Library, filled, failure, null_read, overrun, create_ents_arr, file_name}
use seminars.Ls.Limits.{Tm, Limits, no_limits, get_limits, is_hidden}
use seminars.Ls.Print.{print_file_info}

-- What is printed on the standard output; a crash, that is an access outside an array or through
-- a null pointer; or directories nested deeper than the number of rounds given.
pub data Output : Type 0 where
  printed : List ℕ → Output
  crashed : Output
  no_fuel : Output

-- A text in front of what is printed next.
abbrev pub then_print : List ℕ → Output → Output
then_print text (printed more) = printed (text ++ more)
then_print text crashed = crashed
then_print text no_fuel = no_fuel

-- Two pieces of output, the first of which may end the program.
abbrev pub and_then : Output → Output → Output
and_then (printed text) more = then_print text more
and_then crashed more = crashed
and_then no_fuel more = no_fuel

abbrev pub is_directory : Kind → Bool
is_directory directory = true
is_directory _ = false

-- What the program does not compute itself.
pub record Environment : Type 0 where
  pub library : Library
  pub localtime : ℕ → Tm
  pub readlink : List ℕ → Option (List ℕ)
  pub stack : List ℕ

abbrev pub as_output : Option (List ℕ) → Output
as_output none = crashed
as_output (some text) = printed text

-- The loop over the entries, where `below` lists a directory one level deeper.
unfoldable pub print_ents :
    Environment → (List ℕ → Output) → Mode → Limits → List ℕ → List Ent → ℕ → Output
unfolding print_file_info file_name
print_ents env below mode limits dirname [] file_name_offset = printed []
print_ents env below mode limits dirname (ent ∷ ents) file_name_offset =
    let info =
      as_output
        (print_file_info env.localtime env.readlink env.stack mode limits file_name_offset ent) in
    let sub =
      if mode.flag_recursive && is_directory ent.st.kind && not (get_or ent.name 0 0 == b'.')
      then then_print (b':' ∷ []) (below (file_name dirname ent.name))
      else printed (32 ∷ []) in
    let on_lines = mode.flag_long || mode.flag_recursive in
    let rest =
      print_ents env below mode limits dirname ents (if on_lines then file_name_offset else 0) in
    and_then info (and_then sub (then_print (if on_lines then 10 ∷ [] else []) rest))

unfoldable pub print_dir_info : Environment → ℕ → Mode → List ℕ → ℕ → Output
print_dir_info env zero mode dirname depth = no_fuel
print_dir_info env (suc fuel) mode dirname depth = elim (create_ents_arr env.library dirname) [
  | failure ↦ printed []
  | null_read ↦ crashed
  | overrun ↦ crashed
  | filled ents capacity ↦
      print_ents env (λ path. print_dir_info env fuel mode path (depth + 1)) mode
        (get_limits env.localtime mode ents no_limits) dirname ents depth
]

-- The short listing: a space for each entry, with its name in front if it is shown.
pub short_listing : Mode → List Ent → List ℕ
short_listing mode [] = []
short_listing mode (ent ∷ ents) =
    (if is_hidden mode ent then [] else ent.name) ++ (32 ∷ short_listing mode ents)

print_ents-short :
    (env : Environment) (below : List ℕ → Output) (mode : Mode) (limits : Limits) (dirname : List ℕ)
    (ents : List Ent)
    → mode.flag_long ≡ false
    → mode.flag_recursive ≡ false
    → print_ents env below mode limits dirname ents 0 ≡ printed (short_listing mode ents)
unfolding print_ents short_listing print_file_info
print_ents-short env below mode limits dirname [] short flat = refl
print_ents-short env below mode limits dirname (ent ∷ ents) short flat =
    let ih = print_ents-short env below mode limits dirname ents short flat in ground (arith, ih)

-- Without the flags -l and -R the entries of a directory are printed on one line, and also those
-- that are not shown leave a space.
pub print_dir_info-short :
    (env : Environment) (fuel capacity : ℕ) (mode : Mode) (dirname : List ℕ) (ents : List Ent)
    → mode.flag_long ≡ false
    → mode.flag_recursive ≡ false
    → create_ents_arr env.library dirname ≡ filled ents capacity
    → print_dir_info env (suc fuel) mode dirname 0 ≡ printed (short_listing mode ents)
unfolding print_dir_info
print_dir_info-short env fuel capacity mode dirname ents short flat listed =
    rw (listed, print_dir_info)
      (print_ents-short env _ mode (get_limits env.localtime mode ents no_limits) dirname ents short
        flat)
