-- ===== src/Cp.antt =====
-- cp/cp.c: the arguments of cp, and the path that a source is copied to. A string of the program
-- is the list of its bytes without the closing NUL.
pub mod Base
pub mod Copy
pub mod Answer
pub mod Names
pub mod Arguments
mod Tests
use seminars.Base.{
  ℕ, zero, suc, ◌+◌, ◌-◌, Bool, true, false, not, ◌&&◌, Option, none, some, List, [], ◌∷◌, ◌++◌,
  length, take, drop, replicate, get_or, set, c_string, ltb, leb, ◌==◌, if◌then◌else◌,
}

-- `cp_mode_t`, whose fields are 0 at first.
pub record Mode : Type 0 where
  pub verbose : Bool
  pub force : Bool
  pub interactive : Bool
  pub dst : List ℕ
  pub dst_sz : ℕ
  pub is_dst_folder : Bool
  pub folder_sz : ℕ
  pub dst_argv_index : ℕ

abbrev pub no_mode : Mode
no_mode = record {
  verbose = false;
  force = false;
  interactive = false;
  dst = [];
  dst_sz = 0;
  is_dst_folder = false;
  folder_sz = 0;
  dst_argv_index = 0;
}

-- The loop over the options that getopt_long finds; any but three of them is refused.
unfoldable pub take_options : List ℕ → Mode → Option Mode
take_options [] mode = some mode
take_options (opt ∷ opts) mode =
    let verbose = take_options opts (record mode { verbose = true }) in
    let force = take_options opts (record mode { force = true }) in
    let interactive = take_options opts (record mode { interactive = true }) in
    if opt == b'v'
    then verbose
    else if opt == b'f'
    then force
    else if opt == b'i'
    then interactive
    else none

-- `argv[i][0] == '-'`; in an empty argument this reads its NUL.
abbrev pub is_option : List ℕ → Bool
is_option arg = get_or arg 0 0 == b'-'

-- The search for the target, down from this index; it starts at argc - 1, and argc is at least 1. `none` is a read in front of argv.
unfoldable pub find_dst : List (List ℕ) → ℕ → Option ℕ
find_dst argv zero = if is_option (get_or argv 0 []) then none else some 0
find_dst argv (suc i) =
    let lower = find_dst argv i in
    if is_option (get_or argv (suc i) []) then lower else some (suc i)

-- `max_length` and `sources_num`
pub record Sources : Type 0 where
  pub max_length : ℕ
  pub number : ℕ

unfoldable pub scan_sources : List (List ℕ) → Sources → Sources
scan_sources [] found = found
scan_sources (arg ∷ args) found =
    let skipped = scan_sources args found in
    let taken = scan_sources args (record {
      max_length = if ltb found.max_length (length arg) then length arg else found.max_length;
      number = found.number + 1;
    }) in
    if is_option arg then skipped else taken

-- The arguments from argv[1] up to the target.
abbrev pub before_dst : List (List ℕ) → ℕ → List (List ℕ)
before_dst argv dst_index = drop 1 (take dst_index argv)

pub data Parsed : Type 0 where
  parsed : Mode → Parsed
  parse_failed : Parsed
  -- A read or write outside an array.
  outside : Parsed

-- The buffer for the paths in a folder: the folder, a slash if it has none, and zeros.
unfoldable pub make_dst : List ℕ → ℕ → Mode → Parsed
make_dst folder max_length mode =
    let dst_sz = length folder + max_length + 2 in
    let dst = folder ++ replicate (max_length + 2) 0 in
    if length folder == 0
    then outside
    else if get_or dst (length folder - 1) 0 == b'/'
    then parsed (record mode { dst = dst; dst_sz = dst_sz; folder_sz = length folder })
    else parsed (record mode {
      dst = set dst (length folder) b'/';
      dst_sz = dst_sz;
      folder_sz = length folder + 1;
    })

-- What follows the options. `is_dir` is what stat says of the target.
unfoldable pub take_paths : List (List ℕ) → Bool → Bool → ℕ → Mode → Parsed
unfolding scan_sources make_dst
take_paths argv is_dir has_memory dst_index mode =
    let folder = get_or argv dst_index [] in
    let sources =
      scan_sources (before_dst argv dst_index) (record { max_length = 0; number = 0 }) in
    let as_file = record mode {
      is_dst_folder = false;
      folder_sz = length folder;
      dst_argv_index = dst_index;
    } in
    let as_folder = record as_file { is_dst_folder = true } in
    let with_dst = make_dst folder sources.max_length as_folder in
    if ltb sources.number 1
    then parse_failed
    else if (sources.number == 1) && not is_dir
    then parsed as_file
    else if has_memory
    then with_dst
    else parse_failed

-- `opts` are the options that getopt_long finds, which moves them to the front of `argv`.
unfoldable pub cp_parse_arguments : List ℕ → List (List ℕ) → Bool → Bool → Parsed
unfolding take_options find_dst take_paths
cp_parse_arguments opts argv is_dir has_memory = elim (take_options opts no_mode) [
  | none ↦ parse_failed
  | some mode ↦ elim (find_dst argv (length argv - 1)) [
    | none ↦ outside
    | some dst_index ↦ take_paths argv is_dir has_memory dst_index mode
  ]
]

-- The loop of `get_base`, from this position down: the offset of the name.
unfoldable pub base_from : List ℕ → ℕ → ℕ
base_from path zero = 0
base_from path (suc pos) =
    let lower = base_from path pos in if get_or path (suc pos) 0 == b'/' then suc pos + 1 else lower

unfoldable pub get_base : List ℕ → List ℕ
unfolding base_from
get_base path = drop (base_from path (length path)) path

-- The write of bytes into a buffer. `none` is a write behind its end.
unfoldable pub write_at : ℕ → List ℕ → List ℕ → Option (List ℕ)
write_at offset bytes buffer =
    if leb (offset + length bytes) (length buffer)
    then some (take offset buffer ++ (bytes ++ drop (offset + length bytes) buffer))
    else none

-- main: the path in the folder for a source, by memset and strcpy.
unfoldable pub put_base : Mode → List ℕ → Option (List ℕ)
unfolding get_base write_at
put_base mode src =
    elim (write_at mode.folder_sz (replicate (mode.dst_sz - mode.folder_sz) 0) mode.dst) [
      | none ↦ none
      | some dst ↦ write_at mode.folder_sz (get_base src ++ (0 ∷ [])) dst
    ]

-- main: the paths that copy_file is given for these arguments, in the buffer that all of them share.
unfoldable pub folder_targets : List (List ℕ) → Mode → Option (List (List ℕ))
unfolding put_base
folder_targets [] mode = some []
folder_targets (arg ∷ args) mode =
    let skipped = folder_targets args mode in
    let copied = elim (put_base mode arg) as (λ o. Option (List (List ℕ))) [
      | none ↦ none
      | some dst ↦ elim (folder_targets args (record mode { dst = dst })) [
        | none ↦ none
        | some targets ↦ some (c_string dst ∷ targets)
      ]
    ] in
    if is_option arg then skipped else copied

-- The same for a target that is no folder.
unfoldable pub file_targets : List ℕ → List (List ℕ) → List (List ℕ)
file_targets dst [] = []
file_targets dst (arg ∷ args) =
    let rest = file_targets dst args in if is_option arg then rest else dst ∷ rest

-- main's loop over argv: the target of each copy, as long as no copy fails.
unfoldable pub targets : List (List ℕ) → Mode → Option (List (List ℕ))
unfolding folder_targets file_targets
targets argv mode =
    let args = before_dst argv mode.dst_argv_index in
    if mode.is_dst_folder
    then folder_targets args mode
    else some (file_targets (get_or argv mode.dst_argv_index []) args)
