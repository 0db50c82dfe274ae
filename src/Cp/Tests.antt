-- ===== src/Cp/Tests.antt =====
-- Runs of cp's argument parser.
use seminars.Base.{ℕ, ◌≡◌, refl, some, true, false, List, [], ◌∷◌, ◌++◌, All, codes, arith}
use seminars.Cp.{
  Mode, parsed, outside, no_mode, cp_parse_arguments, take_options, find_dst, take_paths,
  scan_sources, make_dst, targets, folder_targets, put_base, write_at, get_base, base_from,
  before_dst,
}
use mathlib.Core.Path.{subst}
use seminars.Kernel.{IsApart}
use seminars.Kernel.Memory.{Memory, memory, file_memory, file_memory-IsApart, file_memory-wrote}
use seminars.Transfer.{success}
use seminars.Cp.Copy.{Files, copy_file, may_write, copy_to, copy_loop, write_again}
use seminars.Cp.Answer.{Copies, copy_file-Copies, write_again-repeats}
use seminars.Cp.Names.{NoNul, paths_in}
use seminars.Cp.Arguments.{slashed, targets-paths_in}

-- "cp -v a/b cd dir", where dir is a folder
abbrev argv : List (List ℕ)
argv = codes "cp" ∷ codes "-v" ∷ codes "a/b" ∷ codes "cd" ∷ codes "dir" ∷ []

abbrev mode : Mode
mode = record {
  verbose = true;
  force = false;
  interactive = false;
  dst = codes "dir/" ++ (0 ∷ 0 ∷ 0 ∷ 0 ∷ []);
  dst_sz = 8;
  is_dst_folder = true;
  folder_sz = 4;
  dst_argv_index = 4;
}

parses : cp_parse_arguments (b'v' ∷ []) argv true true ≡ parsed mode
unfolding cp_parse_arguments take_options find_dst take_paths scan_sources make_dst
parses = refl

copies_to : targets argv mode ≡ some (codes "dir/b" ∷ codes "dir/cd" ∷ [])
unfolding targets folder_targets put_base write_at get_base base_from
copies_to = refl

-- "cp a b ''" reads the byte in front of the buffer.
empty_target :
    cp_parse_arguments [] (codes "cp" ∷ codes "a" ∷ codes "b" ∷ [] ∷ []) false true ≡ outside
unfolding cp_parse_arguments take_options find_dst take_paths scan_sources make_dst
empty_target = refl

root_file : get_base (codes "/etc") ≡ codes "/etc"
unfolding get_base base_from
root_file = refl

argv-NoNul : All NoNul argv
argv-NoNul = omega arith

targets-paths_in_example :
    targets argv mode ≡ some (paths_in (slashed (codes "dir")) (before_dst argv 4))
targets-paths_in_example = targets-paths_in (b'v' ∷ []) argv true true mode argv-NoNul parses refl

-- Copying seven bytes to a new file.
abbrev seven_bytes : Memory
seven_bytes = record { input = 10 ∷ 20 ∷ 30 ∷ 40 ∷ 50 ∷ 60 ∷ 70 ∷ []; output = [] }

abbrev new_file : Files
new_file = record { src = some 0; dst_exists = false; dst = some 1 }

copies_all :
    (copy_file file_memory 8 no_mode new_file [] seven_bytes).system.output ≡ seven_bytes.input
unfolding copy_file may_write copy_to copy_loop write_again
copies_all = refl

-- A target that takes two bytes at a time gets some of them twice.
repeats :
    (copy_file memory 8 no_mode new_file []
      (record seven_bytes { input = 10 ∷ 20 ∷ 30 ∷ [] })).system.output
    ≡ 10 ∷ 20 ∷ 10 ∷ 20 ∷ []
unfolding copy_file may_write copy_to copy_loop write_again
repeats = refl

some_zero : (from : ℕ) → some 0 ≡ some from → 0 ≡ from
some_zero from e = cc

some_one : (to : ℕ) → some 1 ≡ some to → 1 ≡ to
some_one to e = cc

copy_file-Copies_example :
    Copies file_memory no_mode new_file [] seven_bytes
      (copy_file file_memory 8 no_mode new_file [] seven_bytes)
    × ((copy_file file_memory 8 no_mode new_file [] seven_bytes).left_open ≡ [])
copy_file-Copies_example =
    copy_file-Copies file_memory 8 no_mode new_file [] seven_bytes
      (λ from to e f.
        subst (λ i. IsApart file_memory i to) (some_zero from e)
          (subst (λ j. IsApart file_memory 0 j) (some_one to f) file_memory-IsApart))
      (λ to f s n bytes e. file_memory-wrote s to n bytes e) (λ from e. ground arith)

write_again-repeats_example :
    let r = write_again memory 3 1 (10 ∷ 20 ∷ 30 ∷ []) 0 seven_bytes in
    (r.0 ≡ success)
    × (memory.written r.1 1 ≡ memory.written seven_bytes 1 ++ (10 ∷ 20 ∷ []) ++ (10 ∷ 20 ∷ []))
write_again-repeats_example =
    write_again-repeats memory 0 1 2 2 (10 ∷ 20 ∷ 30 ∷ []) seven_bytes refl (omega arith) refl
      (omega arith)
