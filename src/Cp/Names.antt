-- ===== src/Cp/Names.antt =====
-- The path that each source is copied to, in the buffer that the sources share.
use seminars.Base.{
  ℕ, zero, suc, ◌+◌, ◌-◌, ◌≤◌, ◌≡◌, ◌≢◌, refl, ap, sym, ◌∙◌, inl, inr, false, Bool-cases, some,
  List, [], ◌∷◌, ◌++◌, append_assoc, All, length, length-append, length-take, length-drop,
  length-replicate, take, drop, replicate, c_string, if◌then◌else◌, arith,
}
use seminars.Cp.{Mode, is_option, base_from, get_base, write_at, put_base, folder_targets}

abbrev pub NoNul : List ℕ → Type 0
NoNul text = All (λ c. c ≢ 0) text

module _ {ℓ} {A : Type ℓ} where
  pub take-append : (n : ℕ) (xs ys : List A) → length xs ≡ n → take n (xs ++ ys) ≡ xs
  take-append zero [] ys e = refl
  take-append (suc n) [] ys e = absurd (omega (arith, e))
  take-append zero (x ∷ xs) ys e = absurd (omega (arith, e))
  take-append (suc n) (x ∷ xs) ys e = ap (λ l. x ∷ l) (take-append n xs ys (omega (arith, e)))

c_string-stop : (text rest : List ℕ) → NoNul text → c_string (text ++ (0 ∷ rest)) ≡ text
c_string-stop [] rest h = refl
c_string-stop (c ∷ text) rest (nz, h) = ground (arith, c_string-stop text rest h)

pub NoNul-append : (xs ys : List ℕ) → NoNul xs → NoNul ys → NoNul (xs ++ ys)
NoNul-append [] ys h k = k
NoNul-append (x ∷ xs) ys (nz, h) k = (nz, NoNul-append xs ys h k)

NoNul-drop : (n : ℕ) (xs : List ℕ) → NoNul xs → NoNul (drop n xs)
NoNul-drop zero xs h = h
NoNul-drop (suc n) [] h = tt
NoNul-drop (suc n) (x ∷ xs) (nz, h) = NoNul-drop n xs h

-- A buffer after bytes are written into it.
record Written (offset : ℕ) (bytes buffer after : List ℕ) : Type 0 where
  fits : write_at offset bytes buffer ≡ some after
  size : length after ≡ length buffer
  front : take offset after ≡ take offset buffer
  rest : List ℕ
  whole : after ≡ take offset buffer ++ (bytes ++ rest)

write_at-Written :
    (offset : ℕ) (bytes buffer : List ℕ)
    → offset + length bytes ≤ length buffer
    → Written offset bytes buffer
        (take offset buffer ++ (bytes ++ drop (offset + length bytes) buffer))
unfolding write_at
write_at-Written offset bytes buffer room =
    let front = take offset buffer in
    let rest = drop (offset + length bytes) buffer in
    let front_length : length front ≡ offset = omega (arith, length-take offset buffer) in
    record {
      fits = ground arith;
      size = omega (
        arith,
        length-append front (bytes ++ rest),
        length-append bytes rest,
        length-drop (offset + length bytes) buffer,
        front_length,
      );
      front = take-append offset front (bytes ++ rest) front_length;
      rest = rest;
      whole = refl;
    }

get_base-length : (path : List ℕ) → length (get_base path) ≤ length path
unfolding get_base
get_base-length path = omega (arith, length-drop (base_from path (length path)) path)

get_base-NoNul : (path : List ℕ) → NoNul path → NoNul (get_base path)
unfolding get_base
get_base-NoNul path h = NoNul-drop (base_from path (length path)) path h

put_base-some :
    (mode : Mode) (src cleared dst : List ℕ)
    → write_at mode.folder_sz (replicate (mode.dst_sz - mode.folder_sz) 0) mode.dst ≡ some cleared
    → write_at mode.folder_sz (get_base src ++ (0 ∷ [])) cleared ≡ some dst
    → put_base mode src ≡ some dst
unfolding put_base
put_base-some mode src cleared dst e e' = cc

nul_between :
    (front name rest : List ℕ)
    → front ++ ((name ++ (0 ∷ [])) ++ rest) ≡ (front ++ name) ++ (0 ∷ rest)
nul_between front name rest =
    ap (λ l. front ++ l) (append_assoc name (0 ∷ []) rest)
    ∙ sym (append_assoc front name (0 ∷ rest))

-- The buffer of a folder while the loop runs, for sources of at most `longest` bytes.
pub record Ready (folder : List ℕ) (longest : ℕ) (mode : Mode) : Type 0 where
  pub size : length mode.dst ≡ mode.dst_sz
  pub room : mode.folder_sz + longest + 1 ≤ mode.dst_sz
  pub front : take mode.folder_sz mode.dst ≡ folder

-- What the buffer holds after the name of a source is put into it.
record Holds (folder src : List ℕ) (longest : ℕ) (mode : Mode) : Type 0 where
  dst : List ℕ
  found : put_base mode src ≡ some dst
  text : c_string dst ≡ folder ++ get_base src
  ready : Ready folder longest (record mode { dst = dst })

put_base-Holds :
    (folder src : List ℕ) (longest : ℕ) (mode : Mode)
    → NoNul folder
    → NoNul src
    → length src ≤ longest
    → Ready folder longest mode
    → Holds folder src longest mode
put_base-Holds folder src longest mode no_nul src_no_nul short ready =
    let zeros = replicate (mode.dst_sz - mode.folder_sz) 0 in
    let name = get_base src ++ (0 ∷ []) in
    let first = write_at-Written mode.folder_sz zeros mode.dst (
      omega (
        arith,
        length-replicate {A = ℕ} (mode.dst_sz - mode.folder_sz) 0,
        ready.size,
        ready.room,
      )) in
    let cleared =
      take mode.folder_sz mode.dst ++ (zeros ++ drop (mode.folder_sz + length zeros) mode.dst) in
    let second = write_at-Written mode.folder_sz name cleared (
      omega (
        arith,
        first.size,
        ready.size,
        ready.room,
        length-append (get_base src) (0 ∷ []),
        get_base-length src,
      )) in
    record {
      dst = take mode.folder_sz cleared ++ (name ++ drop (mode.folder_sz + length name) cleared);
      found = put_base-some mode src cleared _ first.fits second.fits;
      text =
          ap (λ f. c_string (f ++ (name ++ drop (mode.folder_sz + length name) cleared)))
            (first.front ∙ ready.front)
          ∙ ap c_string
              (nul_between folder (get_base src) (drop (mode.folder_sz + length name) cleared))
          ∙ c_string-stop (folder ++ get_base src) _
              (NoNul-append folder (get_base src) no_nul (get_base-NoNul src src_no_nul));
      ready = record {
        size = second.size ∙ first.size ∙ ready.size;
        room = ready.room;
        front = second.front ∙ first.front ∙ ready.front;
      };
    }

-- The paths in a folder for those arguments that are no options.
unfoldable pub paths_in : List ℕ → List (List ℕ) → List (List ℕ)
paths_in folder [] = []
paths_in folder (arg ∷ args) =
    let rest = paths_in folder args in
    if is_option arg then rest else (folder ++ get_base arg) ∷ rest

-- A source is an argument that is no option.
abbrev pub IsShort : ℕ → List ℕ → Type 0
IsShort longest arg = is_option arg ≡ false → length arg ≤ longest

pub folder_targets-paths_in :
    (folder : List ℕ) (longest : ℕ) (args : List (List ℕ)) (mode : Mode)
    → NoNul folder
    → All NoNul args
    → All (IsShort longest) args
    → Ready folder longest mode
    → folder_targets args mode ≡ some (paths_in folder args)
unfolding folder_targets paths_in
folder_targets-paths_in folder longest [] mode no_nul no_nuls short ready = refl
folder_targets-paths_in folder longest (arg ∷ args) mode no_nul (arg_no_nul, no_nuls) (fits, short)
      ready =
    elim (Bool-cases (is_option arg)) [
      | inl yes_option ↦
          let rest = folder_targets-paths_in folder longest args mode no_nul no_nuls short ready in
          ground (arith, rest)
      | inr no_option ↦
          let held =
            put_base-Holds folder arg longest mode no_nul arg_no_nul (fits no_option) ready in
          let rest =
            folder_targets-paths_in folder longest args (record mode { dst = held.dst }) no_nul
              no_nuls short held.ready in
          ground (arith, held.found, held.text, rest)
    ]
