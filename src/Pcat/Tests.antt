-- ===== src/Pcat/Tests.antt =====
-- Runs of pcat on a small system.
use mathlib.Core.Path.{subst}
use seminars.Base.{
  ℕ, ◌≡◌, ◌≢◌, refl, Bool, true, false, Option, none, some, List, [], ◌∷◌, codes, arith,
}
use seminars.Kernel.{IsApart}
use seminars.Kernel.Memory.{Memory, memory, memory-IsApart, mem_pending, mem_written}
use seminars.Transfer.{no_fuel, success, write_loop}
use seminars.Pcat.{copy_file}
use seminars.Pcat.Main.{Files, Parent, Ended, main}
use seminars.Pcat.Pipe.{IsPrinted, main-IsPrinted}

abbrev seven_bytes : Memory
seven_bytes = record { input = 10 ∷ 20 ∷ 30 ∷ 40 ∷ 50 ∷ 60 ∷ 70 ∷ []; output = 9 ∷ [] }

copy_file-run :
    copy_file memory 8 0 1 seven_bytes
    ≡ (success, record { input = []; output = 9 ∷ 10 ∷ 20 ∷ 30 ∷ 40 ∷ 50 ∷ 60 ∷ 70 ∷ [] })
unfolding copy_file write_loop
copy_file-run = refl

-- A process without a standard input of its own: files are opened as descriptor 0, a file holds its
-- own name, and the file without a name cannot be read.
abbrev open_named : Memory → List ℕ → Option ℕ × Memory
open_named m [] = (none, m)
open_named m (c ∷ path) = (some 0, record m { input = c ∷ path })

abbrev named_text : List ℕ → Option (List ℕ)
named_text [] = none
named_text (c ∷ path) = some (c ∷ path)

open_named-none :
    (m : Memory) (path : List ℕ) → (open_named m path).0 ≡ none → named_text path ≡ none
open_named-none m [] e = refl
open_named-none m (c ∷ path) e = absurd cc

open_named-some :
    (m : Memory) (path : List ℕ) (fd : ℕ)
    → (open_named m path).0 ≡ some fd
    → (named_text path ≡ some (memory.pending (open_named m path).1 fd)) × IsApart memory fd 1
open_named-some m [] fd e = absurd cc
open_named-some m (c ∷ path) fd e =
    let zero_fd : 0 ≡ fd = ground arith in
    subst
      (λ n.
        (some (c ∷ path) ≡ some (mem_pending (record m { input = c ∷ path }) n))
        × IsApart memory n 1)
      zero_fd (refl, memory-IsApart)

open_named-keeps :
    (m : Memory) (path : List ℕ) → mem_written (open_named m path).1 1 ≡ mem_written m 1
open_named-keeps m [] = refl
open_named-keeps m (c ∷ path) = refl

abbrev named_files : Files memory 1
named_files = record {
  open_file = open_named;
  close = λ m fd. m;
  text = named_text;
  open_file_none = open_named-none;
  open_file_some = open_named-some;
  open_file_keeps = open_named-keeps;
  close_keeps = λ m fd. refl;
  close_pending = λ m fd. refl;
}

abbrev reader : Parent memory 0 1
reader = record {
  connect = λ bytes. record { input = bytes; output = [] };
  close = λ m fd. m;
  wait = λ m. m;
  connect-written = λ bytes. refl;
  close-pending = λ bytes. refl;
  close-written = λ m fd. refl;
  wait-written = λ m. refl;
}

abbrev nothing_written : Memory
nothing_written = record { input = []; output = [] }

abbrev three_names : List (List ℕ)
three_names = codes "first" ∷ [] ∷ codes "second" ∷ []

main-IsPrinted_example :
    ((e : Ended Memory Memory) × (main memory memory named_files reader 12 true true three_names
          nothing_written
        ≡ some e)
      × IsPrinted memory memory named_files reader (codes "firstsecond") e)
    × ((e : Ended Memory Memory) × (main memory memory named_files reader 12 true false three_names
            nothing_written
          ≡ some e)
        × (e.child ≡ none)
        × (e.parent.0 ≢ no_fuel)
        × (mem_written e.parent.1 1 ≡ []))
    × ((forked : Bool)
        → main memory memory named_files reader 12 false forked three_names nothing_written ≡ none)
main-IsPrinted_example =
    main-IsPrinted memory memory named_files reader memory-IsApart memory-IsApart 12 three_names
      nothing_written refl (omega arith)
