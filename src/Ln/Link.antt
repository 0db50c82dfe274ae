-- ===== src/Ln/Link.antt =====
-- What read_link prints.
use seminars.Base.{
  ℕ, zero, suc, ◌+◌, ◌-◌, ◌<◌, ◌≤◌, ◌≡◌, ◌≢◌, ◌⊎◌, inl, inr, refl, ap, sym, ◌∙◌, Bool, true, false,
  some, List, [], ◌∷◌, ◌++◌, All, length, length-take, take, replicate, codes, arith, dec_lt,
}
use seminars.Ln.{
  Answer, gave, failed, System, Ended, exits, overrun, text_in, create_link, print_link, read_link,
  main,
}

abbrev pub NoNul : List ℕ → Type 0
NoNul text = All (λ c. c ≢ 0) text

text_in-NoNul : (text zeros : List ℕ) → NoNul text → text_in (text ++ (0 ∷ zeros)) ≡ some text
unfolding text_in
text_in-NoNul [] zeros h = refl
text_in-NoNul (c ∷ text) zeros (nz, h) = ground (arith, text_in-NoNul text zeros h)

take-all : {A : Type 0} (n : ℕ) (l : List A) → length l ≤ n → take n l ≡ l
take-all zero [] h = refl
take-all zero (x ∷ l) h = absurd (omega arith)
take-all (suc n) [] h = refl
take-all (suc n) (x ∷ l) h = ap (λ t. x ∷ t) (take-all n l (omega arith))

-- The buffer has a NUL behind a text that is not longer than st_size.
text_in-buffer :
    (size : ℕ) (value : List ℕ)
    → NoNul value
    → length value ≤ size
    → text_in (value ++ replicate (size + 1 - length value) 0) ≡ some value
text_in-buffer size value h le =
    let one_more : size + 1 - length value ≡ suc (size - length value) = omega arith in
    let zeros : replicate (size + 1 - length value) 0 ≡ 0 ∷ replicate (size - length value) 0 =
      ap (λ (n : ℕ). replicate n 0) one_more in
    ap (λ (z : List ℕ). text_in (value ++ z)) zeros
    ∙ text_in-NoNul value (replicate (size - length value) 0) h

Answer-cases : {A : Type 0} (a : Answer A) → ((v : A) × (a ≡ gave v)) ⊎ ((e : ℕ) × (a ≡ failed e))
Answer-cases (gave v) = inl (v, refl)
Answer-cases (failed e) = inr (e, refl)

module _ {S : Type 0} (sys : System S) where
  print_link-text :
      (size : ℕ) (bytes text : List ℕ) (s : S)
      → length bytes ≢ size + 1
      → text_in (bytes ++ replicate (size + 1 - length bytes) 0) ≡ some text
      → print_link sys size bytes s ≡ exits 0 (text ++ (10 ∷ [])) s
  unfolding print_link
  print_link-text size bytes text s other e = ground arith

  -- A text without NUL that is not longer than lstat has said is printed with a line's end; a longer
  -- one is refused.
  print_link-short :
      (size : ℕ) (value : List ℕ) (s : S)
      → NoNul value
      → length value ≤ size
      → print_link sys size (take (size + 1) value) s ≡ exits 0 (value ++ (10 ∷ [])) s
  unfolding print_link
  print_link-short size value s h le =
      let whole : take (size + 1) value ≡ value = take-all (size + 1) value (omega arith) in
      ap (λ bytes. print_link sys size bytes s) whole
      ∙ print_link-text size value value s (omega arith) (text_in-buffer size value h le)

  print_link-long :
      (size : ℕ) (value : List ℕ) (s : S)
      → size < length value
      → print_link sys size (take (size + 1) value) s ≡ exits 1 [] s
  unfolding print_link
  print_link-long size value s lt = ground (arith, length-take (size + 1) value)

  -- What read_link does when lstat sees the file system `s` and readlink `s'`.
  pub data Reads (memory : Bool) (path : List ℕ) (s s' : S) (r : Ended S) : Type 0 where
    no_file :
        (e : ℕ)
        → sys.lstat path s ≡ failed e
        → r ≡ exits (sys.perror_errno e) [] s'
        → Reads memory path s s' r
    no_memory : memory ≡ false → r ≡ exits 1 [] s' → Reads memory path s s' r
    not_read :
        (size e : ℕ)
        → sys.lstat path s ≡ gave size
        → sys.readlink path (size + 1) s' ≡ failed e
        → r ≡ exits (sys.perror_errno (sys.free_errno e)) [] s'
        → Reads memory path s s' r
    too_long :
        (size : ℕ) (value : List ℕ)
        → sys.lstat path s ≡ gave size
        → sys.link s' path ≡ some value
        → size < length value
        → r ≡ exits 1 [] s'
        → Reads memory path s s' r
    printed :
        (size : ℕ) (value : List ℕ)
        → sys.lstat path s ≡ gave size
        → sys.link s' path ≡ some value
        → length value ≤ size
        → r ≡ exits 0 (value ++ (10 ∷ [])) s'
        → Reads memory path s s' r

  read_link-failed :
      (path : List ℕ) (s s' : S) (size e : ℕ)
      → sys.lstat path s ≡ gave size
      → sys.readlink path (size + 1) s' ≡ failed e
      → read_link sys true path s s' ≡ exits (sys.perror_errno (sys.free_errno e)) [] s'
  unfolding read_link
  read_link-failed path s s' size e seen read = ground arith

  read_link-print_link :
      (path bytes : List ℕ) (s s' : S) (size : ℕ)
      → sys.lstat path s ≡ gave size
      → sys.readlink path (size + 1) s' ≡ gave bytes
      → read_link sys true path s s' ≡ print_link sys size bytes s'
  unfolding read_link
  read_link-print_link path bytes s s' size seen read = ground arith

  -- read_link never reads behind its buffer, whatever happens between lstat and readlink. When lstat
  -- fails, it ends with what perror leaves of errno, when readlink fails with what free and then
  -- perror leave of it, and with 1 without memory; it refuses a link whose text has
  -- become longer than lstat has said, and otherwise prints the whole text and a line's end. The
  -- text of a link has no NUL.
  pub read_link-Reads :
      (memory : Bool) (path : List ℕ) (s s' : S)
      → ((value : List ℕ) → sys.link s' path ≡ some value → NoNul value)
      → Reads memory path s s' (read_link sys memory path s s')
  unfolding read_link
  read_link-Reads false path s s' text = elim (Answer-cases (sys.lstat path s)) [
    | inr (e, none_seen) ↦ no_file e none_seen (ground arith)
    | inl (size, seen) ↦ no_memory refl (ground arith)
  ]
  read_link-Reads true path s s' text = elim (Answer-cases (sys.lstat path s)) [
    | inr (e, none_seen) ↦ no_file e none_seen (ground arith)
    | inl (size, seen) ↦ elim (Answer-cases (sys.readlink path (size + 1) s')) [
      | inr (e, read) ↦ not_read size e seen read (read_link-failed path s s' size e seen read)
      | inl (bytes, read) ↦
          let (value, there, part) = sys.readlink-link path bytes (size + 1) s' read in
          let run : read_link sys true path s s' ≡ print_link sys size (take (size + 1) value) s' =
            read_link-print_link path bytes s s' size seen read
            ∙ ap (λ b. print_link sys size b s') part in
          elim (dec_lt size (length value)) [
            | yes long ↦
                too_long size value seen there long (run ∙ print_link-long size value s' long)
            | no short ↦
                let fits : length value ≤ size = omega arith in
                printed size value seen there fits
                  (run ∙ print_link-short size value s' (text value there) fits)
          ]
    ]
  ]

  -- How a program ends, in numbers.
  abbrev status_of : Ended S → ℕ
  status_of (exits n out s) = n
  status_of overrun = 0

  abbrev left_by : Ended S → S → S
  left_by (exits n out s) d = s
  left_by overrun d = d

  create_link-gave :
      (value path : List ℕ) (s s' : S)
      → create_link sys value path s ≡ exits 0 [] s'
      → sys.link s' path ≡ some value
  unfolding create_link
  create_link-gave value path s s' e = elim (Answer-cases (sys.symlink value path s)) [
    | inl (made, ok) ↦
        let run : create_link sys value path s ≡ exits 0 [] made = ground arith in
        let same : made ≡ s' = ap (λ r. left_by r s) (sym run ∙ e) in
        sys.symlink-link value path s s' (ok ∙ ap gave same)
    | inr (errno, bad) ↦
        let run : create_link sys value path s ≡ exits (sys.perror_errno errno) [] s =
          ground arith in
        absurd (
          sys.perror_errno-nonzero errno (sys.symlink-failed value path s errno bad)
            (ap status_of (sym run ∙ e)))
  ]

  -- When `ln -s` has made a link with success, and neither lstat nor readlink fails on the file
  -- system that it has left, `ln -r` prints the text of the link and a line's end. The text has no
  -- NUL.
  pub main-reads_link :
      (prog value path : List ℕ) (memory : Bool) (s s' : S) (size : ℕ) (bytes : List ℕ)
      → NoNul value
      → main sys memory (prog ∷ codes "-s" ∷ value ∷ path ∷ []) s s ≡ exits 0 [] s'
      → sys.lstat path s' ≡ gave size
      → sys.readlink path (size + 1) s' ≡ gave bytes
      → main sys true (prog ∷ codes "-r" ∷ path ∷ []) s' s' ≡ exits 0 (value ++ (10 ∷ [])) s'
  unfolding main
  main-reads_link prog value path memory s s' size bytes h made seen read =
      let there = create_link-gave value path s s' made in
      let (value', there', part) = sys.readlink-link path bytes (size + 1) s' read in
      let fits = sys.lstat-link path value s' size seen there in
      let same : value' ≡ value = cc in
      read_link-print_link path bytes s' s' size seen read
      ∙ ap (λ b. print_link sys size b s') (part ∙ ap (λ v. take (size + 1) v) same)
      ∙ print_link-short size value s' h (omega arith)
