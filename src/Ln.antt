-- ===== src/Ln.antt =====
-- ln/ln.c: symbolic links, made and read. A text is the list of its bytes without the NUL.
pub mod Link
mod Tests
use seminars.Base.{
  ℕ, zero, suc, ◌+◌, ◌-◌, ◌≡◌, ◌≢◌, Bool, true, false, not, ◌||◌, Option, none, some, List, [], ◌∷◌,
  ◌++◌, length, take, replicate, codes, ltb, ◌==◌, if◌then◌else◌,
}
use seminars.Ls.{strcmp, is_eq}

-- What a call returns: a value, or errno.
pub data Answer (A : Type 0) : Type 0 where
  gave : A → Answer A
  failed : ℕ → Answer A

-- The calls on the file system, over its states. `link` is the text of the link at a path. symlink
-- gives the state after it; lstat tells the length of a link's text; readlink stores as much of it
-- as there is room for. errno is not 0. A
-- call of perror or free may leave another errno, but no function of the library sets it to 0.
pub record System (S : Type 0) : Type 0 where
  pub link : S → List ℕ → Option (List ℕ)
  pub symlink : List ℕ → List ℕ → S → Answer S
  pub lstat : List ℕ → S → Answer ℕ
  pub readlink : List ℕ → ℕ → S → Answer (List ℕ)
  pub perror_errno : ℕ → ℕ
  pub free_errno : ℕ → ℕ
  pub perror_errno-nonzero : (e : ℕ) → e ≢ 0 → perror_errno e ≢ 0
  pub symlink-link :
      (value path : List ℕ) (s s' : S) → symlink value path s ≡ gave s' → link s' path ≡ some value
  pub symlink-failed :
      (value path : List ℕ) (s : S) (e : ℕ) → symlink value path s ≡ failed e → e ≢ 0
  pub lstat-link :
      (path value : List ℕ) (s : S) (size : ℕ)
      → lstat path s ≡ gave size
      → link s path ≡ some value
      → size ≡ length value
  pub readlink-link :
      (path bytes : List ℕ) (n : ℕ) (s : S)
      → readlink path n s ≡ gave bytes
      → (value : List ℕ) × (link s path ≡ some value) × (bytes ≡ take n value)

-- The end of the program: its status, what it has written, and the file system; or a read behind the
-- end of the buffer.
pub data Ended (S : Type 0) : Type 0 where
  exits : ℕ → List ℕ → S → Ended S
  overrun : Ended S

pub record Mode : Type 0 where
  pub flag_symbolic : Bool
  pub flag_read : Bool

-- The first argument.
unfoldable pub take_mode : List ℕ → Option Mode
unfolding strcmp
take_mode arg =
    if is_eq (strcmp arg (codes "-s")) || is_eq (strcmp arg (codes "--symbolic"))
    then some (record { flag_symbolic = true; flag_read = false })
    else if is_eq (strcmp arg (codes "-r")) || is_eq (strcmp arg (codes "--read"))
    then some (record { flag_symbolic = false; flag_read = true })
    else none

-- printf of `%s`: the bytes before the NUL, which may be missing in the buffer.
unfoldable pub text_in : List ℕ → Option (List ℕ)
text_in [] = none
text_in (c ∷ buffer) =
    let rest = text_in buffer in
    if c == 0 then some [] else elim rest [ none ↦ none | some text ↦ some (c ∷ text) ]

module _ {S : Type 0} (sys : System S) where
  unfoldable pub create_link : List ℕ → List ℕ → S → Ended S
  create_link value path s = elim (sys.symlink value path s) [
    | gave s' ↦ exits 0 [] s'
    | failed e ↦ exits (sys.perror_errno e) [] s
  ]

  -- What follows a readlink that has succeeded: the buffer was zero at first.
  unfoldable pub print_link : ℕ → List ℕ → S → Ended S
  unfolding text_in
  print_link st_size bytes s =
      if length bytes == st_size + 1
      then exits 1 [] s
      else elim (text_in (bytes ++ replicate (st_size + 1 - length bytes) 0)) [
        | none ↦ overrun
        | some text ↦ exits 0 (text ++ (10 ∷ [])) s
      ]

  -- The file system may change between the two calls: lstat sees `s`, and readlink `s'`. `memory`
  -- tells whether calloc succeeds.
  unfoldable pub read_link : Bool → List ℕ → S → S → Ended S
  unfolding print_link
  read_link memory path s s' = elim (sys.lstat path s) [
    | failed e ↦ exits (sys.perror_errno e) [] s'
    | gave st_size ↦
        if not memory then exits 1 [] s' else elim (sys.readlink path (st_size + 1) s') [
          | failed e ↦ exits (sys.perror_errno (sys.free_errno e)) [] s'
          | gave bytes ↦ print_link st_size bytes s'
        ]
  ]

  -- The two branches of `main`, which test the number of the arguments.
  unfoldable pub run_symbolic : List (List ℕ) → S → Ended S
  unfolding create_link
  run_symbolic (value ∷ path ∷ []) s = create_link value path s
  run_symbolic args s = exits 1 [] s

  unfoldable pub run_read : Bool → List (List ℕ) → S → S → Ended S
  unfolding read_link
  run_read memory (path ∷ []) s s' = read_link memory path s s'
  run_read memory args s s' = exits 1 [] s'

  -- `main` with its arguments, argv[0] among them; any other number of them is a usage error.
  unfoldable pub main : Bool → List (List ℕ) → S → S → Ended S
  unfolding run_symbolic run_read take_mode
  main memory (prog ∷ option ∷ args) s s' = elim (take_mode option) [
    | none ↦ exits 1 [] s'
    | some mode ↦
        if mode.flag_symbolic
        then run_symbolic args s'
        else if mode.flag_read
        then run_read memory args s s'
        else exits 0 [] s'
  ]
  main memory (prog ∷ []) s s' = exits 1 [] s'
  main memory [] s s' = exits 1 [] s'
