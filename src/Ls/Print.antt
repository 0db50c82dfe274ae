-- ===== src/Ls/Print.antt =====
-- ls/ls.c: print_file_info, as the bytes that it prints.
use seminars.Base.{
  ℕ, ◌+◌, ◌-◌, ◌/◌, ◌%◌, ◌^◌, not, Option, none, some, List, [], ◌∷◌, ◌++◌, codes, length, take,
  drop, replicate, c_string, ltb, ◌==◌, if◌then◌else◌, to_string,
}
use seminars.Ls.{Ent, Mode, Kind, regular, directory, link, other_kind}
use seminars.Ls.Limits.{Limits, Tm, two_digits, sym_of, is_hidden}

-- `%*d` and `%*s`: spaces on the left, up to the width.
unfoldable pub pad : ℕ → List ℕ → List ℕ
pad width text = replicate (width - length text) 32 ++ text

-- The type of the file
abbrev pub kind_text : Kind → List ℕ
kind_text regular = codes "-"
kind_text directory = codes "d"
kind_text link = codes "l"
kind_text other_kind = codes "(unexpected st.st_mode)"

-- One permission: `bit` is the value of its flag in st_mode.
abbrev pub permission : ℕ → ℕ → ℕ → ℕ
permission permissions bit letter = if permissions / bit % 2 == 1 then letter else b'-'

unfoldable pub permission_text : ℕ → List ℕ
permission_text p =
    permission p 256 b'r'
    ∷ permission p 128 b'w'
    ∷ permission p 64 b'x'
    ∷ permission p 32 b'r'
    ∷ permission p 16 b'w'
    ∷ permission p 8 b'x'
    ∷ permission p 4 b'r'
    ∷ permission p 2 b'w'
    ∷ permission p 1 b'x'
    ∷ []

-- `%d` of a value of 64 bits, of which it takes the lower 32 as a signed number.
unfoldable pub int_text : ℕ → List ℕ
int_text n =
    let low = n % 2 ^ 32 in
    if ltb low (2 ^ 31) then to_string low else b'-' ∷ to_string (2 ^ 32 - low)

-- The four columns between the permissions and the time.
unfoldable pub columns : Limits → Ent → List ℕ
unfolding int_text
columns limits ent =
    32
    ∷ (pad limits.max_sym_nlink (int_text ent.st.nlink)
        ++ (32
            ∷ (pad limits.max_sym_uname ent.user_name
                ++ (32
                    ∷ (pad limits.max_sym_gname ent.group_name
                        ++ (32 ∷ (pad limits.max_sym_size (int_text ent.st.size) ++ (32 ∷ []))))))))

-- strftime's %b in the C locale
unfoldable pub month_name : ℕ → List ℕ
month_name mon =
    if mon == 0
    then codes "Jan"
    else if mon == 1
    then codes "Feb"
    else if mon == 2
    then codes "Mar"
    else if mon == 3
    then codes "Apr"
    else if mon == 4
    then codes "May"
    else if mon == 5
    then codes "Jun"
    else if mon == 6
    then codes "Jul"
    else if mon == 7
    then codes "Aug"
    else if mon == 8
    then codes "Sep"
    else if mon == 9
    then codes "Oct"
    else if mon == 10
    then codes "Nov"
    else codes "Dec"

-- Bytes written over those of a buffer from an offset on.
abbrev pub overwrite : ℕ → List ℕ → List ℕ → List ℕ
overwrite offset bytes buffer = take offset buffer ++ (bytes ++ drop (offset + length bytes) buffer)

-- strftime's "%d %H:%M"
abbrev pub day_text : Tm → List ℕ
day_text tm = two_digits tm.mday ++ (32 ∷ (two_digits tm.hour ++ (b':' ∷ two_digits tm.min)))

-- The time, in the array `buffer` of 100 bytes, whose old content is `stack`: behind the month,
-- `memset(buffer + pos, limits->max_sym_day - mday_size, ' ')` writes 32 bytes of the value of
-- that difference, `gap`. `none` is a text that does not fit.
unfoldable pub place_time : List ℕ → ℕ → Tm → List ℕ → Option (List ℕ)
unfolding two_digits
place_time month gap tm stack =
    let pos = length month in
    let with_month = overwrite 0 (month ++ (0 ∷ [])) stack in
    let with_gap = overwrite pos (replicate 32 (gap % 256)) with_month in
    let whole = overwrite (pos + gap) (day_text tm ++ (0 ∷ [])) with_gap in
    if ltb 100 (pos + gap + 9) then none else some (c_string whole ++ (32 ∷ []))

unfoldable pub time_text : ℕ → Tm → List ℕ → Option (List ℕ)
unfolding place_time
time_text max_sym_day tm stack =
    place_time (month_name tm.mon ++ (32 ∷ [])) ((max_sym_day + 2 ^ 64 - sym_of tm.mday) % 2 ^ 64)
      tm stack

-- The target of a link. readlink gets the bare name, and 99 bytes at most.
unfoldable pub link_text : (List ℕ → Option (List ℕ)) → Ent → List ℕ
link_text readlink ent = elim ent.st.kind [
  | link ↦ elim (readlink ent.name) [
    | none ↦ []
    | some target ↦ codes " -> " ++ c_string (take 99 target ++ (0 ∷ []))
  ]
  | _ ↦ []
]

unfoldable pub print_long :
    (ℕ → Tm) → (List ℕ → Option (List ℕ)) → List ℕ → Limits → Ent → Option (List ℕ)
unfolding permission_text columns time_text link_text
print_long localtime readlink stack limits ent =
    elim (time_text limits.max_sym_day (localtime ent.st.mtime) stack) [
      | none ↦ none
      | some time ↦ some (
          kind_text ent.st.kind
          ++ (permission_text ent.st.permissions
              ++ (columns limits ent ++ (time ++ (ent.name ++ link_text readlink ent)))))
    ]

unfoldable pub print_file_info :
    (ℕ → Tm) → (List ℕ → Option (List ℕ)) → List ℕ → Mode → Limits → ℕ → Ent → Option (List ℕ)
unfolding print_long
print_file_info localtime readlink stack mode limits depth ent =
    let tabs = replicate depth 9 in
    if is_hidden mode ent
    then some []
    else if not mode.flag_long
    then some (tabs ++ ent.name)
    else elim (print_long localtime readlink stack limits ent) [
      | none ↦ none
      | some text ↦ some (tabs ++ text)
    ]
