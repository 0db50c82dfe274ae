-- ===== src/Wc/Tests.antt =====
-- Runs of wc on a small system.
use seminars.Base.{true, false, none, some, ℕ, ◌≡◌, refl, List, [], ◌∷◌, arith}
use seminars.Kernel.Memory.{Memory, memory, memory-IsApart}
use seminars.Transfer.{success, failure, write_loop}
use seminars.Transfer.Write.{Delivered}
use seminars.Pcat
use seminars.Wc.{no_count, copy_file, count_read, count_buffer, count_byte}
use seminars.Wc.Main.{Calls, main, same_pid, all_well, Reports, main-Reports}
use seminars.Wc.Copy.{copy_file-passes}

-- "ab c\n\nde"
abbrev text : List ℕ
text = b'a' ∷ b'b' ∷ 32 ∷ b'c' ∷ 10 ∷ 10 ∷ b'd' ∷ b'e' ∷ []

abbrev two_lines : Memory
two_lines = record { input = text; output = [] }

wc_run :
    (copy_file memory 9 0 1 no_count two_lines).1.info ≡ record { bytes = 8; words = 3; lines = 2 }
unfolding copy_file count_read count_buffer count_byte write_loop
wc_run = refl

wc_succeeds : (copy_file memory 9 0 1 no_count two_lines).0 ≡ success
unfolding copy_file write_loop
wc_succeeds = refl

copy_file-passes_example :
    let (o, st', s') = copy_file memory 9 0 1 no_count two_lines in
    ((o, s') ≡ Pcat.copy_file memory 9 0 1 two_lines) × Delivered memory 1 text two_lines (o, s')
copy_file-passes_example = copy_file-passes memory memory-IsApart 9 no_count two_lines (omega arith)

-- A failing fork: the parent reads an empty pipe, wait fails too, and a report of zeros is made.
abbrev no_fork : Calls
no_fork = record { pipe = true; start_time = true; fork = none; wait = none; end_time = true }

abbrev nothing_read : Memory
nothing_read = record { input = []; output = [] }

fork_unnoticed :
    main memory 0 2 no_fork 1 nothing_read
    ≡ (success, some (record { bytes = 0; words = 0; lines = 0 }), nothing_read)
unfolding main same_pid copy_file
fork_unnoticed = refl

abbrev well : Calls
well = record { pipe = true; start_time = true; fork = some 7; wait = some 7; end_time = true }

main-Reports_example :
    let r = main memory 0 2 well 9 two_lines in
    (all_well 2 well ≡ true → Reports memory memory-IsApart 9 two_lines r)
    × (all_well 2 well ≡ false → (r.0 ≡ failure) × (r.1 ≡ none))
main-Reports_example = main-Reports memory memory-IsApart 2 well 9 two_lines (omega arith)
