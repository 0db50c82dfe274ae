-- ===== src/WcErr.antt =====
-- wc_err/wc_err.c: the word counter for the two outputs of a program, which it reads as they come.
pub mod Counts
pub mod Select
pub mod Streams
mod Tests
use seminars.Base.{
  ℕ, zero, suc, ◌+◌, ◌-◌, ◌%◌, ◌^◌, Bool, true, false, not, ◌&&◌, ◌||◌, Option, none, some, List,
  [], ◌∷◌, length, ◌==◌, if◌then◌else◌, is_space,
}

-- `size_t` addition
abbrev pub add_size : ℕ → ℕ → ℕ
add_size a b = (a + b) % 2 ^ 64

-- `mywc_info_t`
pub record Info : Type 0 where
  pub bytes : ℕ
  pub words : ℕ
  pub lines : ℕ
  pub in_word : Bool

abbrev pub no_info : Info
no_info = record { bytes = 0; words = 0; lines = 0; in_word = false }

-- The body of the loop of `count_info`.
unfoldable pub count_char : Info → ℕ → Info
unfolding is_space
count_char info c =
    let info' = if c == 10 then record info { lines = add_size info.lines 1 } else info in
    if not (is_space c)
    then (if not info'.in_word
        then record info' { words = add_size info'.words 1; in_word = true }
        else info')
    else record info' { in_word = false }

unfoldable pub count_chars : List ℕ → Info → Info
unfolding count_char
count_chars [] info = info
count_chars (c ∷ buffer) info = count_chars buffer (count_char info c)

unfoldable pub count_info : List ℕ → Info → Info
unfolding count_chars
count_info buffer info =
    count_chars buffer (record info { bytes = add_size info.bytes (length buffer) })

-- One of `fds_from`, which is -1 when it is closed, with its counters.
pub record File : Type 0 where
  pub is_open : Bool
  pub info : Info

-- What a round finds at a descriptor: nothing to read, the bytes that read returns (none at the
-- end of the file), or an error.
pub data Event : Type 0 where
  idle : Event
  got : List ℕ → Event
  read_failed : Event

unfoldable pub serve : Event → File → File
unfolding count_info
serve idle file = file
serve (got []) file = record file { is_open = false }
serve (got (b ∷ bs)) file = record file { info = count_info (b ∷ bs) file.info }
serve read_failed file = record file { is_open = false }

-- Whether the descriptor is closed, and `nfiles` is decremented.
unfoldable pub ends : Event → Bool
ends idle = false
ends (got []) = true
ends (got (b ∷ bs)) = false
ends read_failed = true

-- The loop over the descriptors in one round: the files, and by how much `nfiles` falls. A
-- descriptor without an event is not ready.
unfoldable pub serve_all : List Event → List File → List File × ℕ
unfolding serve ends
serve_all events [] = ([], 0)
serve_all [] (file ∷ files) = (file ∷ files, 0)
serve_all (event ∷ events) (file ∷ files) =
    let rest = serve_all events files in
    (serve event file ∷ rest.0, (if ends event then 1 else 0) + rest.1)

unfoldable pub any_closed : List File → Bool
any_closed [] = false
any_closed (file ∷ files) = not file.is_open || any_closed files

-- EXIT_SUCCESS; EXIT_FAILURE; FD_SET of the descriptor -1, which is undefined; or a loop that
-- waits in select.
pub data Outcome : Type 0 where
  success failure bad_set waiting : Outcome

-- The loop of `copy_files`. Each round is what select and the reads behind it find; `none` is an
-- error of select.
unfoldable pub copy_files : List (Option (List Event)) → List File → ℕ → Outcome × List File
unfolding serve_all any_closed
copy_files [] files nfiles =
    if nfiles == 0
    then (success, files)
    else if any_closed files
    then (bad_set, files)
    else (waiting, files)
copy_files (round ∷ rounds) files nfiles =
    let rest = elim round as (λ r. Outcome × List File) [
      | none ↦ (failure, files)
      | some events ↦
          let served = serve_all events files in copy_files rounds served.0 (nfiles - served.1)
    ] in
    if nfiles == 0 then (success, files) else if any_closed files then (bad_set, files) else rest
