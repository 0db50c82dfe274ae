-- ===== src/Bogatirya/Schedule.antt =====
-- Steps of a run in which everybody reads his letters at once.
use mathlib.Core.Path.{subst, fun_ext}
use seminars.Base.{
  ℕ, zero, suc, ◌+◌, ◌-◌, ◌<◌, ◌≤◌, ◌≡◌, ◌≢◌, ◌⊎◌, inl, inr, sym, List, [], ◌∷◌, ◌++◌, append-nil,
  update, arith,
}
use seminars.Bogatirya.{bogatirs_num, symbol_of}
use seminars.Bogatirya.Printing.{
  Stage, listening, Main, sending, skips, sends, Move, ignores, Room, bogatir_moves, main_moves,
  Reach, later,
}

abbrev pub room : (ℕ → Stage) → (ℕ → List ℕ) → List (ℕ × ℕ) → Main → List ℕ → Room
room stage letters to_main main printed = record {
  stage = stage;
  letters = letters;
  to_main = to_main;
  main = main;
  printed = printed;
}

-- No letters.
abbrev pub none : ℕ → List ℕ
none k = []

module _ (my_id : ℕ → ℕ) (string : List ℕ) where
  abbrev R : Room → Type 0
  R = Reach my_id string

  -- A move of process k, with the state that follows it written out.
  pub acts :
      (k : ℕ) {g g' : Stage} {l l' : List ℕ} {sent : List (ℕ × ℕ)} {out : List ℕ}
      (stage stage' : ℕ → Stage) (letters letters' : ℕ → List ℕ) (mail mail' : List (ℕ × ℕ))
      (main : Main) (printed printed' : List ℕ)
      → k < bogatirs_num
      → Move k (symbol_of (my_id k)) g l g' l' sent out
      → stage k ≡ g
      → letters k ≡ l
      → ((x : ℕ) → update stage k g' x ≡ stage' x)
      → ((x : ℕ) → update letters k l' x ≡ letters' x)
      → mail ++ sent ≡ mail'
      → printed ++ out ≡ printed'
      → R (room stage letters mail main printed)
      → R (room stage' letters' mail' main printed')
  acts k {g} {g'} {l} {l'} {sent} {out} stage stage' letters letters' mail mail' main printed
        printed' lt mv at has stages lets mails prints r =
      let mv' =
        subst (λ g. Move k (symbol_of (my_id k)) g (letters k) g' l' sent out) (sym at)
          (subst (λ l. Move k (symbol_of (my_id k)) g l g' l' sent out) (sym has) mv) in
      let r' = later r (bogatir_moves k lt mv') in
      subst (λ (f : ℕ → Stage). R (room f letters' mail' main printed')) (fun_ext stages)
        (subst (λ (f : ℕ → List ℕ). R (room (update stage k g') f mail' main printed'))
          (fun_ext lets)
          (subst (λ m. R (room (update stage k g') (update letters k l') m main printed')) mails
            (subst (λ p. R (room (update stage k g') (update letters k l') (mail ++ sent) main p))
              prints r')))

  -- A letter reaches process i, who passes it over.
  abbrev pub Passes : (ℕ → Stage) → ℕ → ℕ → ℕ → Type 0
  Passes stage from v i =
      (i ≡ from) ⊎ ((i ≢ from) × (stage i ≡ listening) × (v ≢ symbol_of (my_id i)))

  pass :
      (stage : ℕ → Stage) (mail : List (ℕ × ℕ)) (printed : List ℕ) (from v i : ℕ)
      → v ≢ 0
      → i < bogatirs_num
      → Passes stage from v i
      → R (room stage none mail (sending from v i) printed)
      → R (room stage none mail (sending from v (i + 1)) printed)
  pass stage mail printed from v i nz lt (inl e) r =
      later r (main_moves (skips from v i mail none lt e))
  pass stage mail printed from v i nz lt (inr (ne, at, other)) r =
      let r' = later r (main_moves (sends from v i mail none lt ne)) in
      acts i stage stage (update none i (v ∷ [])) none mail mail (sending from v (i + 1)) printed
        printed lt (ignores v [] nz other) at (ground arith) (λ x. ground arith) (λ x. ground arith)
        (append-nil mail) (append-nil printed) r'

  -- Processes i to i + d pass it over.
  pass_all :
      (d i : ℕ) (stage : ℕ → Stage) (mail : List (ℕ × ℕ)) (printed : List ℕ) (from v : ℕ)
      → v ≢ 0
      → i + d ≤ bogatirs_num
      → ((k : ℕ) → i ≤ k → k < i + d → Passes stage from v k)
      → R (room stage none mail (sending from v i) printed)
      → R (room stage none mail (sending from v (i + d)) printed)
  pass_all zero i stage mail printed from v nz le all r =
      subst (λ n. R (room stage none mail (sending from v n) printed)) (omega arith) r
  pass_all (suc d) i stage mail printed from v nz le all r =
      subst (λ n. R (room stage none mail (sending from v n) printed)) (omega arith)
        (pass_all d (i + 1) stage mail printed from v nz (omega arith)
          (λ k lo hi. all k (omega arith) (omega arith))
          (pass stage mail printed from v i nz (omega arith) (all i (omega arith) (omega arith)) r))

  -- The same from number i to number j.
  pub pass_to :
      (i j : ℕ) (stage : ℕ → Stage) (mail : List (ℕ × ℕ)) (printed : List ℕ) (from v : ℕ)
      → v ≢ 0
      → i ≤ j
      → j ≤ bogatirs_num
      → ((k : ℕ) → i ≤ k → k < j → Passes stage from v k)
      → R (room stage none mail (sending from v i) printed)
      → R (room stage none mail (sending from v j) printed)
  pass_to i j stage mail printed from v nz le fits all r =
      let whole : i + (j - i) ≡ j = omega arith in
      subst (λ n. R (room stage none mail (sending from v n) printed)) whole
        (pass_all (j - i) i stage mail printed from v nz (omega arith)
          (λ k lo hi. all k lo (omega arith)) r)
