-- ===== src/Ls/Listing.antt =====
-- What create_ents_arr lists.
use mathlib.Core.List.{Perm}
use mathlib.Core.Path.{subst}
use seminars.Base.{
  ℕ, ◌+◌, ◌*◌, ◌<◌, ◌≤◌, ◌≡◌, ◌⊎◌, inl, inr, refl, sym, ◌∙◌, Bool, true, false, Bool-cases, Option,
  Option-cases, none, some, List, [], ◌∷◌, ◌++◌, append-nil, append_assoc, length, length-append,
  take, if◌then◌else◌, arith,
}
use seminars.Ls.{Ent, Stat, compare_ents}
use seminars.Ls.Order.{compare_ents-IsOrder}
use seminars.Ls.Entries.{
  Dirent, IsSorted, Library, start_buffer_size, file_name, Filled, filled, failure, null_read,
  overrun, Found, skipped, found, unknown_owner, look_up, grow, fill, sort_filled, create_ents_arr,
}

-- The data of an entry, by its path cut at 255 bytes: of a link itself, and otherwise of the file it
-- leads to.
abbrev pub data_at : Library → List ℕ → Bool → Option Stat
data_at lib path true = lib.lstat path
data_at lib path false = lib.stat path

abbrev pub DataIs : Library → List ℕ → Dirent → Option Stat → Type 0
DataIs lib path d st = data_at lib (take 255 (path ++ (b'/' ∷ d.name))) d.is_link ≡ st

-- The entries of a directory whose data can be read, in the order of the directory, with the names
-- that calls number `call` and on have found.
pub data Listed (lib : Library) (path : List ℕ) : ℕ → List Dirent → List Ent → Type 0 where
  no_more : (call : ℕ) → Listed lib path call [] []
  no_data :
      (call : ℕ) (d : Dirent) (dirents : List Dirent) (ents : List Ent)
      → DataIs lib path d none
      → Listed lib path call dirents ents
      → Listed lib path call (d ∷ dirents) ents
  entry :
      (call : ℕ) (d : Dirent) (dirents : List Dirent) (ent : Ent) (ents : List Ent)
      → ent.name ≡ d.name
      → DataIs lib path d (some ent.st)
      → lib.getpwuid call ent.st.uid ≡ some ent.user_name
      → lib.getgrgid call ent.st.gid ≡ some ent.group_name
      → Listed lib path (call + 1) dirents ents
      → Listed lib path call (d ∷ dirents) (ent ∷ ents)

-- A file whose owner or group has no name.
abbrev pub HasNoOwner : Library → List ℕ → Type 0
HasNoOwner lib path =
    (d : Dirent) × (st : Stat) × (call : ℕ) × DataIs lib path d (some st)
    × ((lib.getpwuid call st.uid ≡ none) ⊎ (lib.getgrgid call st.gid ≡ none))

-- What look_up finds, by its outcome.
abbrev IsFound : Library → List ℕ → ℕ → Dirent → Found → Type 0
IsFound lib path call d skipped = DataIs lib path d none
IsFound lib path call d (found ent) =
    (ent.name ≡ d.name)
    × DataIs lib path d (some ent.st)
    × (lib.getpwuid call ent.st.uid ≡ some ent.user_name)
    × (lib.getgrgid call ent.st.gid ≡ some ent.group_name)
IsFound lib path call d unknown_owner = HasNoOwner lib path

module _ (lib : Library) (path : List ℕ) (call : ℕ) (d : Dirent) where
  abbrev data_of : Option Stat
  data_of =
      if d.is_link then lib.lstat (file_name path d.name) else lib.stat (file_name path d.name)

  data_of-DataIs : DataIs lib path d data_of
  unfolding file_name
  data_of-DataIs = by_kind d.is_link
    where
      by_kind :
          (b : Bool)
          → data_at lib (take 255 (path ++ (b'/' ∷ d.name))) b
            ≡ (if b then lib.lstat (file_name path d.name) else lib.stat (file_name path d.name))
      by_kind true = refl
      by_kind false = refl

  -- look_up, by what its calls return.
  look_up-skipped : data_of ≡ none → look_up lib path call d ≡ skipped
  unfolding look_up
  look_up-skipped e = ground arith

  look_up-no_group :
      (st : Stat)
      → data_of ≡ some st
      → lib.getgrgid call st.gid ≡ none
      → look_up lib path call d ≡ unknown_owner
  unfolding look_up
  look_up-no_group st e g = ground arith

  look_up-no_user :
      (st : Stat) (group : List ℕ)
      → data_of ≡ some st
      → lib.getgrgid call st.gid ≡ some group
      → lib.getpwuid call st.uid ≡ none
      → look_up lib path call d ≡ unknown_owner
  unfolding look_up
  look_up-no_user st group e g u = ground arith

  look_up-found :
      (st : Stat) (group user : List ℕ)
      → data_of ≡ some st
      → lib.getgrgid call st.gid ≡ some group
      → lib.getpwuid call st.uid ≡ some user
      → look_up lib path call d
        ≡ found (record { name = d.name; user_name = user; group_name = group; st = st })
  unfolding look_up
  look_up-found st group user e g u = ground arith

  look_up-IsFound : IsFound lib path call d (look_up lib path call d)
  look_up-IsFound = elim (Option-cases data_of) [
    | inl e ↦
        subst (IsFound lib path call d) (sym (look_up-skipped e))
          (subst (DataIs lib path d) e data_of-DataIs)
    | inr (st, e) ↦
        let here = subst (DataIs lib path d) e data_of-DataIs in
        elim (Option-cases (lib.getgrgid call st.gid)) [
          | inl g ↦
              subst (IsFound lib path call d) (sym (look_up-no_group st e g))
                (d, st, call, here, inr g)
          | inr (group, g) ↦ elim (Option-cases (lib.getpwuid call st.uid)) [
            | inl u ↦
                subst (IsFound lib path call d) (sym (look_up-no_user st group e g u))
                  (d, st, call, here, inl u)
            | inr (user, u) ↦
                subst (IsFound lib path call d) (sym (look_up-found st group user e g u))
                  (refl, here, u, g)
          ]
        ]
  ]

-- What the loop leaves, by its outcome: a write behind the array is none of them.
abbrev pub Fills : Library → List ℕ → List Dirent → List Ent → Filled → Type 0
Fills lib path dirents ents (filled result room) =
    ((rest : List Ent) × (result ≡ ents ++ rest) × Listed lib path (length ents) dirents rest)
    × (length result ≤ room)
Fills lib path dirents ents failure = (n : ℕ) × (lib.has_memory n ≡ false)
Fills lib path dirents ents null_read = HasNoOwner lib path
Fills lib path dirents ents overrun = ⊥

grow-room :
    (lib : Library) (size capacity room : ℕ)
    → 0 < capacity
    → size ≤ capacity
    → grow lib size capacity ≡ some room
    → (size < room) × (0 < room)
unfolding grow
grow-room lib size capacity room pos le e = ground arith

grow-fails :
    (lib : Library) (size capacity : ℕ)
    → grow lib size capacity ≡ none
    → (n : ℕ) × (lib.has_memory n ≡ false)
unfolding grow
grow-fails lib size capacity e = (2 * capacity, ground arith)

-- The outcome for the rest of the directory, seen from one entry before.
Fills-skip :
    (lib : Library) (path : List ℕ) (d : Dirent) (dirents : List Dirent) (ents : List Ent)
    (f : Filled)
    → DataIs lib path d none
    → Fills lib path dirents ents f
    → Fills lib path (d ∷ dirents) ents f
Fills-skip lib path d dirents ents (filled result room) e ((rest, same, listed), le) =
    ((rest, same, no_data (length ents) d dirents rest e listed), le)
Fills-skip lib path d dirents ents failure e h = h
Fills-skip lib path d dirents ents null_read e h = h
Fills-skip lib path d dirents ents overrun e h = h

Fills-found :
    (lib : Library) (path : List ℕ) (d : Dirent) (dirents : List Dirent) (ents : List Ent)
    (ent : Ent) (f : Filled)
    → IsFound lib path (length ents) d (found ent)
    → Fills lib path dirents (ents ++ (ent ∷ [])) f
    → Fills lib path (d ∷ dirents) ents f
Fills-found lib path d dirents ents ent (filled result room) (n, data_is, u, g)
      ((rest, same, listed), le) =
    let next : length (ents ++ (ent ∷ [])) ≡ length ents + 1 =
      omega (arith, length-append ents (ent ∷ [])) in
    (
      (
        ent ∷ rest,
        same ∙ append_assoc ents (ent ∷ []) rest,
        entry (length ents) d dirents ent rest n data_is u g
            (subst (λ call. Listed lib path call dirents rest) next listed),
      ),
      le,
    )
Fills-found lib path d dirents ents ent failure e h = h
Fills-found lib path d dirents ents ent null_read e h = h
Fills-found lib path d dirents ents ent overrun e h = h

Found-cases : (f : Found) → (f ≡ skipped) ⊎ (f ≡ unknown_owner) ⊎ ((ent : Ent) × (f ≡ found ent))
Found-cases skipped = inl refl
Found-cases unknown_owner = inr (inl refl)
Found-cases (found ent) = inr (inr (ent, refl))

fill-Fills :
    (lib : Library) (path : List ℕ) (dirents : List Dirent) (ents : List Ent) (capacity : ℕ)
    → 0 < capacity
    → length ents ≤ capacity
    → Fills lib path dirents ents (fill lib path dirents ents capacity)
unfolding fill
fill-Fills lib path [] ents capacity pos le =
    elim (Option-cases (grow lib (length ents) capacity)) [
      | inl full ↦
          let same : fill lib path [] ents capacity ≡ failure = cc in
          subst (Fills lib path [] ents) (sym same) (grow-fails lib (length ents) capacity full)
      | inr (room, grown) ↦
          let same : fill lib path [] ents capacity ≡ filled ents room = cc in
          let fits = grow-room lib (length ents) capacity room pos le grown in
          subst (Fills lib path [] ents) (sym same)
            (([], sym (append-nil ents), no_more (length ents)), omega (arith, fits.0))
    ]
fill-Fills lib path (d ∷ dirents) ents capacity pos le =
    elim (Option-cases (grow lib (length ents) capacity)) [
      | inl full ↦
          let same : fill lib path (d ∷ dirents) ents capacity ≡ failure = cc in
          subst (Fills lib path (d ∷ dirents) ents) (sym same)
            (grow-fails lib (length ents) capacity full)
      | inr (room, grown) ↦
          let fits = grow-room lib (length ents) capacity room pos le grown in
          let is = look_up-IsFound lib path (length ents) d in
          elim (Found-cases (look_up lib path (length ents) d)) [
            | inl nothing ↦
                let same : fill lib path (d ∷ dirents) ents capacity
                    ≡ fill lib path dirents ents room =
                  ground arith in
                subst (Fills lib path (d ∷ dirents) ents) (sym same) (
                  Fills-skip lib path d dirents ents _
                    (subst (IsFound lib path (length ents) d) nothing is)
                    (fill-Fills lib path dirents ents room fits.1 (omega (arith, fits.0))))
            | inr (inl nobody) ↦
                let same : fill lib path (d ∷ dirents) ents capacity ≡ null_read = ground arith in
                subst (Fills lib path (d ∷ dirents) ents) (sym same)
                  (subst (IsFound lib path (length ents) d) nobody is)
            | inr (inr (ent, one)) ↦
                let more = ents ++ (ent ∷ []) in
                let same : fill lib path (d ∷ dirents) ents capacity
                    ≡ fill lib path dirents more room =
                  ground arith in
                subst (Fills lib path (d ∷ dirents) ents) (sym same) (
                  Fills-found lib path d dirents ents ent _
                    (subst (IsFound lib path (length ents) d) one is)
                    (fill-Fills lib path dirents more room fits.1
                      (omega (arith, fits.0, length-append ents (ent ∷ [])))))
          ]
    ]

-- What create_ents_arr leaves, by its outcome.
abbrev pub Lists : Library → List ℕ → List Dirent → Filled → Type 0
Lists lib path dirents (filled ents room) =
    IsSorted compare_ents ents
    × ((found_ents : List Ent) × Listed lib path 0 dirents found_ents × Perm ents found_ents)
Lists lib path dirents failure = (n : ℕ) × (lib.has_memory n ≡ false)
Lists lib path dirents null_read = HasNoOwner lib path
Lists lib path dirents overrun = ⊥

sort_filled-Lists :
    (lib : Library) (path : List ℕ) (dirents : List Dirent) (f : Filled)
    → Fills lib path dirents [] f
    → Lists lib path dirents (sort_filled lib f)
sort_filled-Lists lib path dirents (filled ents room) ((rest, same, listed), le) = (
  lib.qsort-IsSorted compare_ents ents compare_ents-IsOrder.0,
  (
    rest,
    listed,
    subst (Perm (lib.qsort compare_ents ents)) same (lib.qsort-perm compare_ents ents),
  ),
)
sort_filled-Lists lib path dirents failure h = h
sort_filled-Lists lib path dirents null_read h = h
sort_filled-Lists lib path dirents overrun h = h

-- For a directory that can be opened, create_ents_arr never writes behind its array. It fails only
-- when memory is refused, and reads a null pointer only when the owner or the group of a file has no
-- name. Otherwise it lists just the entries whose data can be read, sorted by compare_ents: each with
-- its data, those of a link itself and else of the file, and with the names of its user and group
-- as the pointers from its own two calls show them when the array is complete.
pub create_ents_arr-Lists :
    (lib : Library) (path : List ℕ) (dirents : List Dirent)
    → lib.opendir path ≡ some dirents
    → Lists lib path dirents (create_ents_arr lib path)
unfolding create_ents_arr
create_ents_arr-Lists lib path dirents opened =
    elim (Bool-cases (lib.has_memory start_buffer_size)) [
      | inl has ↦
          let same : create_ents_arr lib path
              ≡ sort_filled lib (fill lib path dirents [] start_buffer_size) =
            cc in
          subst (Lists lib path dirents) (sym same) (
            sort_filled-Lists lib path dirents _
              (fill-Fills lib path dirents [] start_buffer_size (omega arith) (omega arith)))
      | inr none_left ↦
          let same : create_ents_arr lib path ≡ failure = cc in
          subst (Lists lib path dirents) (sym same) (start_buffer_size, none_left)
    ]
