-- ===== src/CpMmap/Tests.antt =====
-- Copies of a short file.
use seminars.Base.{ℕ, ◌≡◌, refl, true, false, some, [], ◌∷◌, List, codes}
use seminars.CpMmap.{Calls, main}
use seminars.CpMmap.Release.{Ends, main-Ends}

abbrev source : List ℕ
source = codes "abc"

abbrev all_succeed : Calls
all_succeed = record {
  stat = some 3;
  open_from = some 3;
  open_to = some 4;
  ftruncate = true;
  mmap_from = some 4096;
  mmap_to = some 8192;
  same_file = false;
}

copied_source : (main all_succeed 3 source).1.target ≡ some source
unfolding main
copied_source = refl

main-Ends_example : Ends all_succeed 3 source (main all_succeed 3 source)
main-Ends_example = main-Ends all_succeed 3 source (λ size e. cc)

-- A file that is copied onto itself: it is full of zeros, and the status is 0.
erased :
    main (record all_succeed { same_file = true }) 3 source
    ≡ (0, record { fds = []; maps = []; target = some (0 ∷ 0 ∷ 0 ∷ []) })
unfolding main
erased = refl
