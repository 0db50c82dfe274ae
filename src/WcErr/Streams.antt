-- ===== src/WcErr/Streams.antt =====
-- The counters of each stream when the select loop ends well.
use seminars.Base.{
  ℕ, zero, suc, ◌-◌, ◌<◌, ◌≤◌, ◌≡◌, ◌≢◌, ◌%◌, ◌^◌, words, split_on, refl, sym, ap, ◌∙◌, true, false,
  Bool-cases, inl, inr, Option, none, some, List, [], ◌∷◌, length, get_elem?, ◌==◌, ℕ_discrete,
  arith,
}
use seminars.WcErr.{
  File, Info, no_info, Event, idle, got, read_failed, serve, ends, serve_all, any_closed,
  copy_files, success,
}
use seminars.WcErr.Select.{copy_files-bad_set}
use seminars.WcErr.Counts.{count_reads, joined, count_reads-info}

-- What a round has for a descriptor: none is ready behind the events.
abbrev pub event_at : List Event → ℕ → Event
event_at [] i = idle
event_at (event ∷ events) zero = event
event_at (event ∷ events) (suc i) = event_at events i

serve_all-length :
    (events : List Event) (files : List File) → length (serve_all events files).0 ≡ length files
unfolding serve_all
serve_all-length events [] = refl
serve_all-length [] (file ∷ files) = refl
serve_all-length (event ∷ events) (file ∷ files) = ap suc (serve_all-length events files)

serve_all-at :
    (events : List Event) (files : List File) (i : ℕ) (file : File)
    → get_elem? files i ≡ some file
    → get_elem? (serve_all events files).0 i ≡ some (serve (event_at events i) file)
unfolding serve_all serve
serve_all-at events [] i file e = absurd (ground arith)
serve_all-at [] (f ∷ files) i file e = e
serve_all-at (event ∷ events) (f ∷ files) zero file e = ground (arith, e)
serve_all-at (event ∷ events) (f ∷ files) (suc i) file e = serve_all-at events files i file e

serve_all-bound :
    (events : List Event) (files : List File) → (serve_all events files).1 ≤ length files
unfolding serve_all
serve_all-bound events [] = omega arith
serve_all-bound [] (file ∷ files) = omega arith
serve_all-bound (event ∷ events) (file ∷ files) = ground (arith, serve_all-bound events files)

-- A round that closes nothing leaves all open;
serve-open :
    (event : Event) (file : File) → ends event ≡ false → (serve event file).is_open ≡ file.is_open
unfolding ends serve
serve-open idle file e = refl
serve-open (got []) file e = cc
serve-open (got (b ∷ bs)) file e = refl
serve-open read_failed file e = cc

serve_all-open :
    (events : List Event) (files : List File)
    → any_closed files ≡ false
    → (serve_all events files).1 ≡ 0
    → any_closed (serve_all events files).0 ≡ false
unfolding serve_all any_closed
serve_all-open events [] o e = refl
serve_all-open [] (file ∷ files) o e = o
serve_all-open (event ∷ events) (file ∷ files) o e = elim (Bool-cases (ends event)) [
  | inl ended ↦ absurd (ground (arith, ended))
  | inr goes_on ↦ ground (arith, serve-open event file goes_on, serve_all-open events files)
]

ends-none :
    (events : List Event) (files : List File) (i : ℕ) (file : File)
    → get_elem? files i ≡ some file
    → (serve_all events files).1 ≡ 0
    → ends (event_at events i) ≡ false
unfolding serve_all ends
ends-none events [] i file at e = absurd (ground arith)
ends-none [] (f ∷ files) i file at e = refl
ends-none (event ∷ events) (f ∷ files) zero file at e = ground arith
ends-none (event ∷ events) (f ∷ files) (suc i) file at e =
    ends-none events files i file at (ground arith)

-- and one that closes as many as there are closes each.
ends-all :
    (events : List Event) (files : List File) (i : ℕ) (file : File)
    → get_elem? files i ≡ some file
    → (serve_all events files).1 ≡ length files
    → ends (event_at events i) ≡ true
unfolding serve_all
ends-all events [] i file at e = absurd (ground arith)
ends-all [] (f ∷ files) i file at e = absurd (omega arith)
ends-all (event ∷ events) (f ∷ files) zero file at e = ground (arith, serve_all-bound events files)
ends-all (event ∷ events) (f ∷ files) (suc i) file at e =
    ends-all events files i file at (ground (arith, serve_all-bound events files))

-- The bytes that the reads of a descriptor return, up to its end or a failed read.
abbrev pub onto_reads : Event → List (List ℕ) → List (List ℕ)
onto_reads idle rest = rest
onto_reads (got []) rest = []
onto_reads (got (b ∷ bs)) rest = (b ∷ bs) ∷ rest
onto_reads read_failed rest = []

abbrev pub reads_at : List (Option (List Event)) → ℕ → List (List ℕ)
reads_at [] i = []
reads_at (none ∷ rounds) i = []
reads_at (some events ∷ rounds) i = onto_reads (event_at events i) (reads_at rounds i)

-- A descriptor that is closed, with the counters of what has been read.
abbrev pub ended : List (List ℕ) → Info → File
ended reads info = record { is_open = false; info = count_reads reads info }

serve-ended :
    (event : Event) (file : File) (rest : List (List ℕ))
    → ends event ≡ true
    → serve event file ≡ ended (onto_reads event rest) file.info
unfolding ends serve count_reads
serve-ended idle file rest e = cc
serve-ended (got []) file rest e = refl
serve-ended (got (b ∷ bs)) file rest e = cc
serve-ended read_failed file rest e = refl

serve-goes_on :
    (event : Event) (file : File) (rest : List (List ℕ))
    → ends event ≡ false
    → ended rest (serve event file).info ≡ ended (onto_reads event rest) file.info
unfolding ends serve count_reads
serve-goes_on idle file rest e = refl
serve-goes_on (got []) file rest e = cc
serve-goes_on (got (b ∷ bs)) file rest e = refl
serve-goes_on read_failed file rest e = cc

-- One round of a loop that ends well.
copy_files-round :
    (events : List Event) (rounds : List (Option (List Event))) (files : List File)
    → any_closed files ≡ false
    → 0 < length files
    → copy_files (some events ∷ rounds) files (length files)
      ≡ copy_files rounds (serve_all events files).0 (length files - (serve_all events files).1)
unfolding copy_files
copy_files-round events rounds files o h = ground arith

copy_files-zero :
    (rounds : List (Option (List Event))) (files : List File)
    → copy_files rounds files 0 ≡ (success, files)
unfolding copy_files
copy_files-zero [] files = refl
copy_files-zero (round ∷ rounds) files = refl

copy_files-nothing :
    (files : List File) → 0 < length files → (copy_files [] files (length files)).0 ≢ success
unfolding copy_files
copy_files-nothing files h e = ground arith

copy_files-select_fails :
    (rounds : List (Option (List Event))) (files : List File)
    → 0 < length files
    → (copy_files (none ∷ rounds) files (length files)).0 ≢ success
unfolding copy_files
copy_files-select_fails rounds files h e = ground arith

get_elem?-length :
    (files : List File) (i : ℕ) (file : File) → get_elem? files i ≡ some file → 0 < length files
get_elem?-length [] i file e = absurd (ground arith)
get_elem?-length (f ∷ files) i file e = omega arith

copy_files-ended :
    (rounds : List (Option (List Event))) (files : List File) (i : ℕ) (file : File)
    → any_closed files ≡ false
    → get_elem? files i ≡ some file
    → (copy_files rounds files (length files)).0 ≡ success
    → get_elem? (copy_files rounds files (length files)).1 i
      ≡ some (ended (reads_at rounds i) file.info)
copy_files-ended [] files i file o at ok =
    absurd (copy_files-nothing files (get_elem?-length files i file at) ok)
copy_files-ended (none ∷ rounds) files i file o at ok =
    absurd (copy_files-select_fails rounds files (get_elem?-length files i file at) ok)
copy_files-ended (some events ∷ rounds) files i file o at ok =
    let some_file = get_elem?-length files i file at in
    let round = copy_files-round events rounds files o some_file in
    let served = serve_all events files in
    let event = event_at events i in
    let here = serve_all-at events files i file at in
    elim (ℕ_discrete served.1 (length files)) [
      | yes all ↦
          let none_left : length files - served.1 ≡ 0 = omega arith in
          let over : copy_files (some events ∷ rounds) files (length files) ≡ (success, served.0) =
            round ∙ ap (copy_files rounds served.0) none_left ∙ copy_files-zero rounds served.0 in
          ap (λ r. get_elem? r.1 i) over
          ∙ here
          ∙ ap some
              (serve-ended event file (reads_at rounds i) (ends-all events files i file at all))
      | no some_left ↦ elim (ℕ_discrete served.1 0) [
        | no some_end ↦
            let bad =
              copy_files-bad_set events rounds files (length files) o (omega arith)
                (omega (arith, serve_all-bound events files)) in
            absurd (ground (arith, bad, ok))
        | yes none_end ↦
            let same : length files - served.1 ≡ length served.0 =
              omega (arith, serve_all-length events files) in
            let next : copy_files (some events ∷ rounds) files (length files)
                ≡ copy_files rounds served.0 (length served.0) =
              round ∙ ap (copy_files rounds served.0) same in
            ap (λ r. get_elem? r.1 i) next
            ∙ copy_files-ended rounds served.0 i (serve event file)
                (serve_all-open events files o none_end) here (ap (λ r. r.0) (sym next) ∙ ok)
            ∙ ap some (
                serve-goes_on event file (reads_at rounds i)
                  (ends-none events files i file at none_end))
      ]
    ]

-- When copy_files of wc_err, started with open descriptors, one of them with zeros for counters,
-- succeeds, then that descriptor is closed, and its counters are the number of bytes, of words and
-- of line ends, modulo 2 ^ 64, of all that its reads have returned up to its end or a failed read.
pub copy_files-info :
    (rounds : List (Option (List Event))) (files : List File) (i : ℕ)
    → any_closed files ≡ false
    → get_elem? files i ≡ some (record { is_open = true; info = no_info })
    → (copy_files rounds files (length files)).0 ≡ success
    → (info : Info) × (get_elem? (copy_files rounds files (length files)).1 i
        ≡ some (record { is_open = false; info = info }))
      × (let text = joined (reads_at rounds i) in
          (info.bytes ≡ length text % 2 ^ 64)
          × (info.words ≡ length (words text) % 2 ^ 64)
          × (info.lines ≡ (length (split_on (λ c. c == 10) text) - 1) % 2 ^ 64))
copy_files-info rounds files i o at ok = (
  count_reads (reads_at rounds i) no_info,
  copy_files-ended rounds files i (record { is_open = true; info = no_info }) o at ok,
  count_reads-info (reads_at rounds i),
)
