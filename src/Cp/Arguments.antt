-- ===== src/Cp/Arguments.antt =====
-- What cp_parse_arguments finds: the buffer is large enough for every source.
use mathlib.Core.Path.{subst}
use seminars.Base.{
  ℕ, zero, suc, ◌+◌, ◌-◌, ◌<◌, ◌≤◌, ◌≡◌, refl, ap, sym, ◌∙◌, inl, inr, Bool, true, Bool-cases,
  Option-cases, some, List, [], ◌∷◌, ◌++◌, All, length, length-append, length-replicate, length-set,
  take, drop, replicate, get_or, set, ltb, ◌==◌, if◌then◌else◌, arith, dec_lt,
}
use seminars.Cp.{
  Mode, parsed, Sources, scan_sources, make_dst, take_paths, cp_parse_arguments, find_dst,
  take_options, is_option, before_dst, targets, no_mode,
}
use seminars.Cp.Names.{
  NoNul, NoNul-append, IsShort, Ready, paths_in, folder_targets-paths_in, take-append,
}

-- Every source among the arguments is at most as long as the greatest length.
record Longest (args : List (List ℕ)) (found result : Sources) : Type 0 where
  grows : found.max_length ≤ result.max_length
  short : All (IsShort result.max_length) args

scan_sources-Longest :
    (args : List (List ℕ)) (found : Sources) → Longest args found (scan_sources args found)
unfolding scan_sources
scan_sources-Longest [] found = record { grows = omega arith; short = tt }
scan_sources-Longest (arg ∷ args) found = elim (Bool-cases (is_option arg)) [
  | inl yes_option ↦
      let ih = scan_sources-Longest args found in
      let same : scan_sources args found ≡ scan_sources (arg ∷ args) found = ground arith in
      subst (Longest (arg ∷ args) found) same
        (record { grows = ih.grows; short = (λ no_option. absurd (cc), ih.short) })
  | inr no_option ↦
      let next : Sources = record {
        max_length = if ltb found.max_length (length arg) then length arg else found.max_length;
        number = found.number + 1;
      } in
      let ih = scan_sources-Longest args next in
      let same : scan_sources args next ≡ scan_sources (arg ∷ args) found = ground arith in
      let longer : (found.max_length ≤ next.max_length) × (length arg ≤ next.max_length) =
        (ground arith, ground arith) in
      subst (Longest (arg ∷ args) found) same (record {
        grows = omega (arith, ih.grows, longer.0);
        short = (λ o. omega (arith, ih.grows, longer.1), ih.short);
      })
]

-- A folder with a slash at its end.
unfoldable pub slashed : List ℕ → List ℕ
slashed folder =
    if get_or folder (length folder - 1) 0 == b'/' then folder else folder ++ (b'/' ∷ [])

get_or-append : (xs ys : List ℕ) (i : ℕ) → i < length xs → get_or (xs ++ ys) i 0 ≡ get_or xs i 0
get_or-append [] ys i h = absurd (omega arith)
get_or-append (x ∷ xs) ys zero h = refl
get_or-append (x ∷ xs) ys (suc i) h = get_or-append xs ys i (omega arith)

set-append :
    (xs ys : List ℕ) (y v : ℕ) → set (xs ++ (y ∷ ys)) (length xs) v ≡ (xs ++ (v ∷ [])) ++ ys
set-append [] ys y v = refl
set-append (x ∷ xs) ys y v = ap (λ l. x ∷ l) (set-append xs ys y v)

-- The two outcomes of make_dst for a folder that is not empty.
record Made (folder : List ℕ) (longest : ℕ) (mode mode' : Mode) : Type 0 where
  ready : Ready (slashed folder) longest mode'
  same_folder : mode'.is_dst_folder ≡ mode.is_dst_folder
  same_index : mode'.dst_argv_index ≡ mode.dst_argv_index

make_dst-Made :
    (folder : List ℕ) (longest : ℕ) (mode mode' : Mode)
    → make_dst folder longest mode ≡ parsed mode'
    → Made folder longest mode mode'
unfolding make_dst slashed
make_dst-Made folder longest mode mode' e = elim (dec_lt 0 (length folder)) [
  | no empty ↦ ground arith
  | yes full ↦
      let zeros : List ℕ = replicate (longest + 2) 0 in
      let dst : List ℕ = folder ++ zeros in
      let zeros_length = length-replicate {A = ℕ} (longest + 2) 0 in
      let last = get_or-append folder zeros (length folder - 1) (omega arith) in
      elim (Bool-cases (get_or folder (length folder - 1) 0 == b'/')) [
        | inl slash ↦
            let made : Mode = record mode {
              dst = dst;
              dst_sz = length folder + longest + 2;
              folder_sz = length folder;
            } in
            let whole : folder ≡ slashed folder = ground arith in
            let same : made ≡ mode' = ground (arith, last) in
            subst (Made folder longest mode) same (record {
              ready = record {
                size = omega (arith, length-append folder zeros, zeros_length);
                room = omega arith;
                front = take-append (length folder) folder zeros refl ∙ whole;
              };
              same_folder = refl;
              same_index = refl;
            })
        | inr no_slash ↦
            let zs = replicate {A = ℕ} (longest + 1) 0 in
            let filled : List ℕ = set dst (length folder) b'/' in
            let made : Mode = record mode {
              dst = filled;
              dst_sz = length folder + longest + 2;
              folder_sz = length folder + 1;
            } in
            let whole : folder ++ (b'/' ∷ []) ≡ slashed folder = ground arith in
            let same : made ≡ mode' = ground (arith, last) in
            let count : longest + 2 ≡ suc (longest + 1) = omega arith in
            subst (Made folder longest mode) same (record {
              ready = record {
                size = omega (
                  arith,
                  length-set dst (length folder) b'/',
                  length-append folder zeros,
                  zeros_length,
                );
                room = omega arith;
                front =
                    ap
                      (λ n.
                        take (length folder + 1)
                          (set (folder ++ replicate n 0) (length folder) b'/'))
                      count
                    ∙ ap (take (length folder + 1)) (set-append folder zs 0 b'/')
                    ∙ take-append (length folder + 1) (folder ++ (b'/' ∷ [])) zs
                        (length-append folder (b'/' ∷ []))
                    ∙ whole;
              };
              same_folder = refl;
              same_index = refl;
            })
      ]
]

-- What cp_parse_arguments has found when the target is a folder.
record Folder (argv : List (List ℕ)) (mode : Mode) : Type 0 where
  longest : ℕ
  short : All (IsShort longest) (before_dst argv mode.dst_argv_index)
  ready : Ready (slashed (get_or argv mode.dst_argv_index [])) longest mode

take_paths-Folder :
    (argv : List (List ℕ)) (is_dir has_memory : Bool) (dst_index : ℕ) (mode mode' : Mode)
    → take_paths argv is_dir has_memory dst_index mode ≡ parsed mode'
    → mode'.is_dst_folder ≡ true
    → Folder argv mode'
unfolding take_paths
take_paths-Folder argv is_dir has_memory dst_index mode mode' e folder =
    let none_yet : Sources = record { max_length = 0; number = 0 } in
    let found = scan_sources (before_dst argv dst_index) none_yet in
    let scanned = scan_sources-Longest (before_dst argv dst_index) none_yet in
    let path = get_or argv dst_index [] in
    let as_folder : Mode = record mode {
      is_dst_folder = true;
      folder_sz = length path;
      dst_argv_index = dst_index;
    } in
    let made : make_dst path found.max_length as_folder ≡ parsed mode' = ground arith in
    let m = make_dst-Made path found.max_length as_folder mode' made in
    record {
      longest = found.max_length;
      short =
          subst (λ i. All (IsShort found.max_length) (before_dst argv i)) (sym m.same_index)
            scanned.short;
      ready =
          subst (λ i. Ready (slashed (get_or argv i [])) found.max_length mode') (sym m.same_index)
            m.ready;
    }

cp_parse_arguments-Folder :
    (opts : List ℕ) (argv : List (List ℕ)) (is_dir has_memory : Bool) (mode : Mode)
    → cp_parse_arguments opts argv is_dir has_memory ≡ parsed mode
    → mode.is_dst_folder ≡ true
    → Folder argv mode
unfolding cp_parse_arguments
cp_parse_arguments-Folder opts argv is_dir has_memory mode e folder =
    elim (Option-cases (take_options opts no_mode)) [
      | inl refused ↦ ground arith
      | inr (with_opts, opts_ok) ↦ elim (Option-cases (find_dst argv (length argv - 1))) [
        | inl no_dst ↦ ground arith
        | inr (dst_index, found) ↦
            let paths : take_paths argv is_dir has_memory dst_index with_opts ≡ parsed mode =
              ground arith in
            take_paths-Folder argv is_dir has_memory dst_index with_opts mode paths folder
      ]
    ]

NoNul-get : (args : List (List ℕ)) (i : ℕ) → All NoNul args → NoNul (get_or args i [])
NoNul-get [] i h = tt
NoNul-get (arg ∷ args) zero (a, h) = a
NoNul-get (arg ∷ args) (suc i) (a, h) = NoNul-get args i h

NoNul-take : (n : ℕ) (args : List (List ℕ)) → All NoNul args → All NoNul (take n args)
NoNul-take zero args h = tt
NoNul-take (suc n) [] h = tt
NoNul-take (suc n) (arg ∷ args) (a, h) = (a, NoNul-take n args h)

NoNul-tail : (args : List (List ℕ)) → All NoNul args → All NoNul (drop 1 args)
NoNul-tail [] h = tt
NoNul-tail (arg ∷ args) (a, h) = h

NoNul-slashed : (folder : List ℕ) → NoNul folder → NoNul (slashed folder)
unfolding slashed
NoNul-slashed folder h = elim (Bool-cases (get_or folder (length folder - 1) 0 == b'/')) [
  | inl slash ↦ let whole : folder ≡ slashed folder = ground arith in subst NoNul whole h
  | inr no_slash ↦
      let whole : folder ++ (b'/' ∷ []) ≡ slashed folder = ground arith in
      subst NoNul whole (NoNul-append folder (b'/' ∷ []) h (λ z. absurd (omega (arith, z)), tt))
]

-- For arguments without NUL, when cp_parse_arguments succeeds and finds that the target is a
-- folder, no path overruns the buffer that the sources share, and the paths that main puts into
-- it are, for each source, the folder with a slash at its end followed by what get_base returns.
pub targets-paths_in :
    (opts : List ℕ) (argv : List (List ℕ)) (is_dir has_memory : Bool) (mode : Mode)
    → All NoNul argv
    → cp_parse_arguments opts argv is_dir has_memory ≡ parsed mode
    → mode.is_dst_folder ≡ true
    → targets argv mode
      ≡ some (
          paths_in
            (slashed (get_or argv mode.dst_argv_index []))
            (before_dst argv mode.dst_argv_index))
unfolding targets
targets-paths_in opts argv is_dir has_memory mode no_nuls e folder =
    let f = cp_parse_arguments-Folder opts argv is_dir has_memory mode e folder in
    let path = get_or argv mode.dst_argv_index [] in
    let args = before_dst argv mode.dst_argv_index in
    let copied =
      folder_targets-paths_in (slashed path) f.longest args mode
        (NoNul-slashed path (NoNul-get argv mode.dst_argv_index no_nuls))
        (NoNul-tail (take mode.dst_argv_index argv) (NoNul-take mode.dst_argv_index argv no_nuls))
        f.short f.ready in
    ground (arith, copied)
