-- ===== src/MyShell/Redirection.antt =====
-- How `get_redirection` passes over a command, and over the end of one.
use seminars.Base.{
  ℕ, suc, ◌+◌, ◌≡◌, ◌≢◌, refl, ap, ◌∙◌, false, Option, some, List, [], ◌∷◌, ◌++◌, All, length,
  is_space, rev_onto, rev_onto-rev_onto, length-rev_onto, arith, ==_ne,
}
use seminars.MyShell.Parse.{
  redirect, Cursor, blank_spaces, skip_path, end_path, take_path, get_redirection,
}

-- Bytes of a command that are no redirection.
abbrev pub Plain : List ℕ → Type 0
Plain text = All (λ c. (c ≢ 0) × (c ≢ b'<') × (c ≢ b'>')) text

-- Bytes of a path.
abbrev pub PathByte : ℕ → ℕ → Type 0
PathByte stop c = (is_space c ≡ false) × (c ≢ 0) × (c ≢ stop)

get_redirection-byte :
    (fuel c : ℕ) (before after : List ℕ) (i o : Option ℕ)
    → c ≢ 0
    → c ≢ b'<'
    → c ≢ b'>'
    → get_redirection (suc fuel) before (c ∷ after) i o
      ≡ get_redirection fuel (c ∷ before) after i o
unfolding get_redirection
get_redirection-byte fuel c before after i o h k l = ground arith

-- A command is passed over up to its first redirection or its end.
get_redirection-skip :
    (text after before : List ℕ) (fuel : ℕ) (i o : Option ℕ)
    → Plain text
    → get_redirection (length text + fuel) before (text ++ after) i o
      ≡ get_redirection fuel (rev_onto text before) after i o
get_redirection-skip [] after before fuel i o h = let e : 0 + fuel ≡ fuel = omega arith in rw e
get_redirection-skip (c ∷ text) after before fuel i o ((nz, nl, ng), h) =
    let e : suc (length text) + fuel ≡ suc (length text + fuel) = omega arith in
    rw e (
      get_redirection-byte (length text + fuel) c before (text ++ after) i o nz nl ng
      ∙ get_redirection-skip text after (c ∷ before) fuel i o h)

skip_path-ends :
    (stop : ℕ) (path rest before : List ℕ)
    → All (PathByte stop) path
    → skip_path stop before (path ++ 0 ∷ rest)
      ≡ record { before = rev_onto path before; after = 0 ∷ rest }
unfolding skip_path
skip_path-ends stop [] rest before h = unfold is_space in refl
skip_path-ends stop (c ∷ path) rest before ((s, nz, ns), h) =
    rw (s, ==_ne c 0 nz, ==_ne c stop ns) (skip_path-ends stop path rest (c ∷ before) h)

-- The path that begins at once and runs to the end of the command: the NUL behind it is passed.
take_path-ends :
    (stop c : ℕ) (path rest before : List ℕ)
    → 0 ≢ stop
    → All (PathByte stop) (c ∷ path)
    → take_path stop before (c ∷ path ++ 0 ∷ rest)
      ≡ (length before, some (record { before = 0 ∷ rev_onto path (c ∷ before); after = rest }))
unfolding take_path blank_spaces end_path
take_path-ends stop c path rest before nz ((s, h, k), hs) =
    rw (s, skip_path-ends stop (c ∷ path) rest before ((s, h, k), hs), ==_ne 0 stop nz)

get_redirection-input :
    (fuel : ℕ) (before after : List ℕ) (i o : Option ℕ) (path : ℕ) (p : Cursor)
    → take_path b'>' (0 ∷ before) after ≡ (path, some p)
    → get_redirection (suc fuel) before (b'<' ∷ after) i o
      ≡ get_redirection fuel p.before p.after (some path) o
unfolding get_redirection
get_redirection-input fuel before after i o path p e = ground arith

get_redirection-end :
    (fuel : ℕ) (before after : List ℕ) (i o : Option ℕ)
    → get_redirection (suc fuel) before (0 ∷ after) i o ≡ redirect (rev_onto before (0 ∷ after)) i o
unfolding get_redirection
get_redirection-end fuel before after i o = refl

-- A command without `<` and `>` has no redirection, and its scan changes nothing.
pub get_redirection-none :
    (text rest before : List ℕ) (fuel : ℕ) (i o : Option ℕ)
    → Plain text
    → get_redirection (length text + suc fuel) before (text ++ 0 ∷ rest) i o
      ≡ redirect (rev_onto before (text ++ 0 ∷ rest)) i o
get_redirection-none text rest before fuel i o h =
    get_redirection-skip text (0 ∷ rest) before (suc fuel) i o h
    ∙ get_redirection-end fuel (rev_onto text before) rest i o
    ∙ ap (λ b. redirect b i o) (rev_onto-rev_onto text before (0 ∷ rest))

-- A command that ends in the path of its input redirection: the scan sets the path, and goes on
-- behind the NUL that ends the command, in whatever bytes follow.
pub get_redirection-passes_end :
    (text path rest before : List ℕ) (c fuel : ℕ) (i o : Option ℕ)
    → Plain text
    → All (PathByte b'>') (c ∷ path)
    → get_redirection (length text + suc fuel) before (text ++ (b'<' ∷ c ∷ path ++ 0 ∷ rest)) i o
      ≡ get_redirection fuel
          (0 ∷ rev_onto path (c ∷ 0 ∷ rev_onto text before))
          rest
          (some (length before + length text + 1))
          o
get_redirection-passes_end text path rest before c fuel i o h hp =
    get_redirection-skip text (b'<' ∷ c ∷ path ++ 0 ∷ rest) before (suc fuel) i o h
    ∙ get_redirection-input fuel (rev_onto text before) (c ∷ path ++ 0 ∷ rest) i o _ _
        (take_path-ends b'>' c path rest (0 ∷ rev_onto text before) (omega arith) hp)
    ∙ ap
        (λ n.
          get_redirection fuel (0 ∷ rev_onto path (c ∷ 0 ∷ rev_onto text before)) rest (some n) o)
        (omega (arith, length-rev_onto text before))
