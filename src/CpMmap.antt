-- ===== src/CpMmap.antt =====
-- cp_mmap/cp_mmap.c: a copy by two mappings.
pub mod Release
mod Tests
use seminars.Base.{
  ℕ, zero, suc, ◌+◌, ◌≡◌, Bool, true, false, not, Option, none, some, List, [], ◌∷◌, length, take,
  replicate, ◌==◌, if◌then◌else◌,
}

-- What the calls return: the size that stat gives, the descriptors of the two opens, whether
-- ftruncate succeeds, and the addresses of the two mappings; and whether the two paths name one file.
pub record Calls : Type 0 where
  pub stat : Option ℕ
  pub open_from : Option ℕ
  pub open_to : Option ℕ
  pub ftruncate : Bool
  pub mmap_from : Option ℕ
  pub mmap_to : Option ℕ
  pub same_file : Bool

-- The descriptors that are open, the mappings with their lengths, and the bytes of the target, once
-- it has been opened.
pub record Process : Type 0 where
  pub fds : List ℕ
  pub maps : List (ℕ × ℕ)
  pub target : Option (List ℕ)

abbrev pub fresh : Process
fresh = record { fds = []; maps = []; target = none }

abbrev pub without : ℕ → List ℕ → List ℕ
without fd [] = []
without fd (x ∷ fds) = let rest = without fd fds in if x == fd then fds else x ∷ rest

-- munmap of an address and a length: a mapping of another length is not released by it.
abbrev pub unmapped : ℕ → ℕ → List (ℕ × ℕ) → List (ℕ × ℕ)
unmapped at size [] = []
unmapped at size (m ∷ maps) =
    let rest = unmapped at size maps in
    if m.0 == at then (if m.1 == size then maps else m ∷ rest) else m ∷ rest

unfoldable pub close : ℕ → Process → Process
close fd p = record p { fds = without fd p.fds }

unfoldable pub munmap : ℕ → ℕ → Process → Process
munmap at size p = record p { maps = unmapped at size p.maps }

-- The bytes of the first mapping: if the paths name one file, they are those of the target, which
-- O_TRUNC and ftruncate have changed.
abbrev pub mapped_bytes : Bool → List ℕ → Process → List ℕ
mapped_bytes false source p = source
mapped_bytes true source p = elim p.target [ none ↦ source | some bytes ↦ bytes ]

-- `memcpy` into the shared mapping writes the target.
unfoldable pub copy_mapped : ℕ → Bool → List ℕ → Process → Process
copy_mapped size same_file source p = record p {
  target = some (take size (mapped_bytes same_file source p));
}

-- From the second mapping on.
unfoldable pub with_source : Option ℕ → ℕ → Bool → List ℕ → ℕ → ℕ → ℕ → Process → ℕ × Process
unfolding close munmap copy_mapped
with_source mapped size same_file source from to mmaped_from p = elim mapped [
  | none ↦ (1, munmap mmaped_from size (close to (close from p)))
  | some mmaped_to ↦
      let p1 = record p { maps = (mmaped_to, size) ∷ p.maps } in
      let p2 =
        munmap mmaped_to size (munmap mmaped_from size (copy_mapped size same_file source p1)) in
      (0, close to (close from p2))
]

-- From ftruncate on, with both descriptors open.
unfoldable pub with_files : Calls → ℕ → List ℕ → ℕ → ℕ → Process → ℕ × Process
unfolding close with_source
with_files calls size source from to p =
    if not calls.ftruncate
    then (1, close to (close from p))
    else let p1 = record p { target = some (replicate size 0) } in
      elim calls.mmap_from [
        | none ↦ (1, close to (close from p1))
        | some mmaped_from ↦
            with_source calls.mmap_to size calls.same_file source from to mmaped_from
              (record p1 { maps = (mmaped_from, size) ∷ p1.maps })
      ]

-- `main` with `argc`: the exit status, and what is left.
unfoldable pub main : Calls → ℕ → List ℕ → ℕ × Process
unfolding close with_files
main calls argc source = if not (argc == 3) then (1, fresh) else elim calls.stat [
  | none ↦ (1, fresh)
  | some st_size ↦ elim calls.open_from [
    | none ↦ (1, fresh)
    | some from ↦
        let p = record fresh { fds = from ∷ [] } in
        elim calls.open_to [
          | none ↦ (1, close from p)
          | some to ↦
              with_files calls st_size source from to
                (record p { fds = to ∷ p.fds; target = some [] })
        ]
  ]
]
