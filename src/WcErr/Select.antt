-- ===== src/WcErr/Select.antt =====
-- The select loop when one stream ends before another.
use seminars.Base.{
  ℕ, ◌-◌, ◌<◌, ◌≡◌, refl, ◌∙◌, true, false, Bool-cases, inl, inr, Option, some, List, [], ◌∷◌,
  arith,
}
use seminars.WcErr.{
  File, Event, idle, got, read_failed, serve, ends, serve_all, any_closed, copy_files, bad_set,
}

serve-ends : (event : Event) (file : File) → ends event ≡ true → (serve event file).is_open ≡ false
unfolding ends serve
serve-ends idle file e = cc
serve-ends (got []) file e = refl
serve-ends (got (b ∷ bs)) file e = cc
serve-ends read_failed file e = refl

serve_all-closed :
    (events : List Event) (files : List File)
    → 0 < (serve_all events files).1
    → any_closed (serve_all events files).0 ≡ true
unfolding serve_all any_closed
serve_all-closed events [] h = absurd (omega arith)
serve_all-closed [] (file ∷ files) h = absurd (omega arith)
serve_all-closed (event ∷ events) (file ∷ files) h = elim (Bool-cases (ends event)) [
  | inl ended ↦ ground (arith, serve-ends event file ended)
  | inr goes_on ↦ ground (arith, serve_all-closed events files)
]

copy_files-closed :
    (rounds : List (Option (List Event))) (files : List File) (nfiles : ℕ)
    → 0 < nfiles
    → any_closed files ≡ true
    → copy_files rounds files nfiles ≡ (bad_set, files)
unfolding copy_files
copy_files-closed [] files nfiles left closed = ground arith
copy_files-closed (round ∷ rounds) files nfiles left closed = ground arith

-- When all descriptors are open and a round closes some of them but not as many as `nfiles`, the
-- next round begins with FD_SET of the descriptor -1, whatever it would find.
pub copy_files-bad_set :
    (events : List Event) (rounds : List (Option (List Event))) (files : List File) (nfiles : ℕ)
    → any_closed files ≡ false
    → 0 < (serve_all events files).1
    → (serve_all events files).1 < nfiles
    → copy_files (some events ∷ rounds) files nfiles ≡ (bad_set, (serve_all events files).0)
unfolding copy_files
copy_files-bad_set events rounds files nfiles all_open some_end some_left =
    let served = serve_all events files in
    let next : copy_files (some events ∷ rounds) files nfiles
        ≡ copy_files rounds served.0 (nfiles - served.1) =
      ground arith in
    next
    ∙ copy_files-closed rounds served.0 (nfiles - served.1) (omega arith)
        (serve_all-closed events files some_end)
