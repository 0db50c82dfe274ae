-- ===== src/WcErr/Tests.antt =====
-- Runs of the two counters.
use seminars.Base.{
  ℕ, ◌-◌, ◌%◌, ◌^◌, ◌≡◌, refl, true, false, Option, get_elem?, some, List, [], ◌∷◌, codes, arith,
  length, words, split_on, ◌==◌, is_space,
}
use seminars.WcErr.Streams.{reads_at, copy_files-info}
use seminars.WcErr.{
  Info, no_info, File, Event, idle, got, copy_files, bad_set, success, serve_all, serve, ends,
  any_closed, count_info, count_chars, count_char,
}
use seminars.WcErr.Counts.{count_reads, joined}
use seminars.WcErr.Select.{copy_files-bad_set}

abbrev reads : List (List ℕ)
reads = codes "one tw" ∷ codes "o three" ∷ []

counted : count_reads reads no_info ≡ record { bytes = 13; words = 3; lines = 0; in_word = true }
unfolding count_reads count_info count_chars count_char is_space
counted = refl

abbrev files : List File
files = record { is_open = true; info = no_info } ∷ record { is_open = true; info = no_info } ∷ []

both_end :
    (copy_files (some (got (codes "a") ∷ idle ∷ []) ∷ some (got [] ∷ got [] ∷ []) ∷ []) files 2).0
    ≡ success
unfolding copy_files serve_all serve ends any_closed count_info count_chars count_char is_space
both_end = refl

-- Both streams are read in turn, and end in the same round.
abbrev talk : List (Option (List Event))
talk =
    some (got (codes "a b") ∷ idle ∷ [])
    ∷ some (idle ∷ got (codes "err") ∷ [])
    ∷ some (got (codes "c") ∷ [])
    ∷ some (got [] ∷ got [] ∷ [])
    ∷ []

talk_succeeds : (copy_files talk files 2).0 ≡ success
unfolding copy_files serve_all serve ends any_closed count_info count_chars count_char is_space
talk_succeeds = refl

copy_files-info_example :
    (info : Info) × (get_elem? (copy_files talk files 2).1 0
      ≡ some (record { is_open = false; info = info }))
    × (let text = joined (reads_at talk 0) in
        (info.bytes ≡ length text % 2 ^ 64)
        × (info.words ≡ length (words text) % 2 ^ 64)
        × (info.lines ≡ (length (split_on (λ c. c == 10) text) - 1) % 2 ^ 64))
unfolding any_closed
copy_files-info_example = copy_files-info talk files 0 refl refl talk_succeeds

abbrev errors_end_first : List Event
errors_end_first = idle ∷ got [] ∷ []

copy_files-bad_set_example :
    copy_files (some errors_end_first ∷ some (got (codes "a") ∷ []) ∷ []) files 2
    ≡ (bad_set, (serve_all errors_end_first files).0)
unfolding serve_all serve ends any_closed
copy_files-bad_set_example =
    copy_files-bad_set errors_end_first (some (got (codes "a") ∷ []) ∷ []) files 2 refl
      (omega arith) (omega arith)
