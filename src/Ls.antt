-- ===== src/Ls.antt =====
-- ls/ls.c: the listing of a directory. A name or a path is the list of its bytes without the NUL.
pub mod Order
pub mod Entries
pub mod Listing
pub mod Sort
pub mod Limits
pub mod Print
pub mod Columns
pub mod Tree
mod Tests
use Prim.Native.Nat.{compare, Ordering, lt, eq, gt}
use seminars.Base.{
  ℕ, zero, suc, ◌+◌, Bool, true, false, Option, none, some, List, [], ◌∷◌, codes, drop, get_or,
  ◌==◌, if◌then◌else◌,
}

-- `ls_mode_t`, whose fields are 0 at first. `flag_directory` is never set.
pub record Mode : Type 0 where
  pub flag_all : Bool
  pub flag_long : Bool
  pub flag_inode : Bool
  pub flag_numeric : Bool
  pub flag_recursive : Bool

abbrev pub no_flags : Mode
no_flags = record {
  flag_all = false;
  flag_long = false;
  flag_inode = false;
  flag_numeric = false;
  flag_recursive = false;
}

-- One option that getopt_long finds; `none` is "getopt failed".
unfoldable pub take_flag : ℕ → Mode → Option Mode
take_flag opt mode =
    if opt == b'a'
    then some (record mode { flag_all = true })
    else if opt == b'l'
    then some (record mode { flag_long = true })
    else if opt == b'i'
    then some (record mode { flag_inode = true })
    else if opt == b'n'
    then some (record mode { flag_numeric = true })
    else if opt == b'R'
    then some (record mode { flag_recursive = true })
    else none

-- The loop over the options that getopt_long finds.
unfoldable pub get_flags : List ℕ → Mode → Option Mode
unfolding take_flag
get_flags [] mode = some mode
get_flags (opt ∷ opts) mode = elim (take_flag opt mode) [ none ↦ none | some m ↦ get_flags opts m ]

-- The kinds of file that the code tells apart.
pub data Kind : Type 0 where
  regular directory link other_kind : Kind

-- The fields of `struct stat` that the code reads; `permissions` are the low nine bits of st_mode.
pub record Stat : Type 0 where
  pub kind : Kind
  pub permissions : ℕ
  pub nlink : ℕ
  pub size : ℕ
  pub uid : ℕ
  pub gid : ℕ
  pub mtime : ℕ

-- `ent_info_t`
pub record Ent : Type 0 where
  pub name : List ℕ
  pub user_name : List ℕ
  pub group_name : List ℕ
  pub st : Stat

-- `strcmp`, by the sign of its result
unfoldable pub strcmp : List ℕ → List ℕ → Ordering
strcmp [] [] = eq
strcmp [] (d ∷ ds) = lt
strcmp (c ∷ cs) [] = gt
strcmp (c ∷ cs) (d ∷ ds) = elim (compare c d) [ lt ↦ lt | eq ↦ strcmp cs ds | gt ↦ gt ]

abbrev pub is_eq : Ordering → Bool
is_eq eq = true
is_eq _ = false

-- `a_is_special`: 1 for ".", 2 for "..".
unfoldable pub special : List ℕ → ℕ
unfolding strcmp
special name =
    if is_eq (strcmp name (codes ".")) then 1 else if is_eq (strcmp name (codes "..")) then 2 else 0

-- `d_name + offset`, past a leading dot.
unfoldable pub past_dot : List ℕ → List ℕ
past_dot name = if get_or name 0 0 == b'.' then drop 1 name else name

-- By the sign of the result, which is all that qsort uses.
unfoldable pub compare_ents : Ent → Ent → Ordering
unfolding special past_dot strcmp
compare_ents a b =
    let a_is_special = special a.name in
    let b_is_special = special b.name in
    if a_is_special == 0
    then (if b_is_special == 0 then strcmp (past_dot a.name) (past_dot b.name) else gt)
    else (if b_is_special == 0 then lt else compare a_is_special b_is_special)
