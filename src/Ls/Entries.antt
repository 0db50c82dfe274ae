-- ===== src/Ls/Entries.antt =====
-- ls/ls.c: create_ents_arr, which reads a directory into an array that grows.
use Prim.Native.Nat.{Ordering, gt}
use mathlib.Core.List.{Perm}
use seminars.Base.{
  ℕ, ◌*◌, ◌≢◌, Bool, true, false, Option, none, some, List, [], ◌∷◌, ◌++◌, length, take, ltb, ◌==◌,
  if◌then◌else◌,
}
use seminars.Ls.{Ent, Stat, compare_ents}
use seminars.Ls.Order.{IsOrder}

-- The fields of `struct dirent` that the code reads: `is_link` is d_type == DT_LNK.
pub record Dirent : Type 0 where
  pub name : List ℕ
  pub is_link : Bool

-- Each entry is not after the next.
abbrev pub IsSorted : {A : Type 0} → (A → A → Ordering) → List A → Type 0
IsSorted cmp [] = Unit
IsSorted cmp (x ∷ []) = Unit
IsSorted cmp (x ∷ y ∷ l) = (cmp x y ≢ gt) × IsSorted cmp (y ∷ l)

-- What the C library answers: the entries that readdir returns, the files' data, and whether there
-- is memory for so many entries. getpwuid and getgrgid return pointers into storage that a later
-- call may overwrite: they are given the number of the call besides the id, and the name is what
-- the pointer from that call shows when the array is complete. And qsort, which sorts by any comparison that is an
-- order.
pub record Library : Type 0 where
  pub opendir : List ℕ → Option (List Dirent)
  pub stat : List ℕ → Option Stat
  pub lstat : List ℕ → Option Stat
  pub getpwuid : ℕ → ℕ → Option (List ℕ)
  pub getgrgid : ℕ → ℕ → Option (List ℕ)
  pub has_memory : ℕ → Bool
  pub qsort : (Ent → Ent → Ordering) → List Ent → List Ent
  pub qsort-IsSorted :
      (cmp : Ent → Ent → Ordering) (ents : List Ent) → IsOrder cmp → IsSorted cmp (qsort cmp ents)
  pub qsort-perm : (cmp : Ent → Ent → Ordering) (ents : List Ent) → Perm (qsort cmp ents) ents

-- kStartBufferSize
abbrev pub start_buffer_size : ℕ
start_buffer_size = 4

-- `snprintf( filename_buffer, 256, "%s/%s", path, name)`
unfoldable pub file_name : List ℕ → List ℕ → List ℕ
file_name path name = take 255 (path ++ (b'/' ∷ name))

-- The array with its capacity; EXIT_FAILURE; a null pointer from getpwuid or getgrgid is read; or
-- an entry is written behind the array.
pub data Filled : Type 0 where
  filled : List Ent → ℕ → Filled
  failure : Filled
  null_read : Filled
  overrun : Filled

-- What a round finds of an entry: nothing when stat fails, which skips it. Its calls of getpwuid
-- and getgrgid have the number of the place that the entry would take.
pub data Found : Type 0 where
  skipped : Found
  found : Ent → Found
  unknown_owner : Found

unfoldable pub look_up : Library → List ℕ → ℕ → Dirent → Found
unfolding file_name
look_up lib path call d =
    elim (if d.is_link
      then lib.lstat (file_name path d.name)
      else lib.stat (file_name path d.name)) [
        | none ↦ skipped
        | some st ↦ elim (lib.getgrgid call st.gid) [
          | none ↦ unknown_owner
          | some group ↦ elim (lib.getpwuid call st.uid) [
            | none ↦ unknown_owner
            | some user ↦
                found (record { name = d.name; user_name = user; group_name = group; st = st })
          ]
        ]
      ]

-- The array doubles when it is full.
unfoldable pub grow : Library → ℕ → ℕ → Option ℕ
grow lib size capacity =
    if size == capacity
    then (if lib.has_memory (2 * capacity) then some (2 * capacity) else none)
    else some capacity

-- The loop over the directory. Each round makes room first, also the one that finds no entry.
unfoldable pub fill : Library → List ℕ → List Dirent → List Ent → ℕ → Filled
unfolding look_up grow
fill lib path [] ents capacity = elim (grow lib (length ents) capacity) [
  | none ↦ failure
  | some room ↦ filled ents room
]
fill lib path (d ∷ dirents) ents capacity = elim (grow lib (length ents) capacity) [
  | none ↦ failure
  | some room ↦ elim (ltb (length ents) room) [
    | false ↦ overrun
    | true ↦ elim (look_up lib path (length ents) d) [
      | skipped ↦ fill lib path dirents ents room
      | unknown_owner ↦ null_read
      | found ent ↦ fill lib path dirents (ents ++ (ent ∷ [])) room
    ]
  ]
]

-- The call of qsort
abbrev pub sort_filled : Library → Filled → Filled
sort_filled lib (filled ents capacity) = filled (lib.qsort compare_ents ents) capacity
sort_filled lib other = other

unfoldable pub create_ents_arr : Library → List ℕ → Filled
unfolding fill
create_ents_arr lib path = elim (lib.opendir path) [
  | none ↦ failure
  | some dirents ↦ elim (lib.has_memory start_buffer_size) [
    | false ↦ failure
    | true ↦ sort_filled lib (fill lib path dirents [] start_buffer_size)
  ]
]
