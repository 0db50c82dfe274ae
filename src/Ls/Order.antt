-- ===== src/Ls/Order.antt =====
-- compare_ents orders the entries by a key, as qsort needs it.
use Prim.Native.Nat.{compare, Ordering, lt, eq, gt}
use seminars.Base.{ℕ, ◌≤◌, ◌≡◌, ◌≢◌, refl, ◌∙◌, List, [], ◌∷◌, ◌==◌, if◌then◌else◌, arith}
use seminars.Ls.{Ent, strcmp, special, past_dot, compare_ents}

abbrev pub flip : Ordering → Ordering
flip lt = gt
flip eq = eq
flip gt = lt

-- The key of a name that begins with a dot.
past_leading_dot : List ℕ → List ℕ
past_leading_dot [] = 1 ∷ []
past_leading_dot (c ∷ []) = if c == b'.' then 2 ∷ [] else 3 ∷ c ∷ []
past_leading_dot (c ∷ d ∷ cs) = 3 ∷ c ∷ d ∷ cs

-- The sort key of a name: "." and ".." come first, then the names without their leading dot.
unfoldable pub key : List ℕ → List ℕ
unfolding past_leading_dot
key [] = 3 ∷ []
key (c ∷ cs) = if c == b'.' then past_leading_dot cs else 3 ∷ c ∷ cs

strcmp-flip : (s t : List ℕ) → strcmp t s ≡ flip (strcmp s t)
unfolding strcmp
strcmp-flip [] [] = refl
strcmp-flip [] (d ∷ t) = refl
strcmp-flip (c ∷ s) [] = refl
strcmp-flip (c ∷ s) (d ∷ t) = ground (arith, strcmp-flip s t)

strcmp_trans : (s t u : List ℕ) → strcmp s t ≢ gt → strcmp t u ≢ gt → strcmp s u ≢ gt
unfolding strcmp
strcmp_trans [] t [] h k = λ e. cc
strcmp_trans [] t (e ∷ u) h k = λ e. cc
strcmp_trans (c ∷ s) [] u h k = absurd (h refl)
strcmp_trans (c ∷ s) (d ∷ t) [] h k = absurd (k refl)
strcmp_trans (c ∷ s) (d ∷ t) (e ∷ u) h k = ground (arith, strcmp_trans s t u)

special-le : (name : List ℕ) → special name ≤ 2
unfolding special
special-le name = ground arith

-- The comparison of two entries by what is special of each.
strcmp-special :
    (x y : ℕ) (s t : List ℕ)
    → x ≤ 2
    → y ≤ 2
    → (if x == 0 then (if y == 0 then strcmp s t else gt) else (if y == 0 then lt else compare x y))
      ≡ strcmp (if x == 0 then 3 ∷ s else x ∷ []) (if y == 0 then 3 ∷ t else y ∷ [])
unfolding strcmp
strcmp-special x y s t h k = ground arith

key-special :
    (name : List ℕ)
    → (if special name == 0 then 3 ∷ past_dot name else special name ∷ []) ≡ key name
unfolding special past_dot key
key-special [] = refl
key-special (c ∷ []) = ground arith
key-special (c ∷ d ∷ []) = ground arith
key-special (c ∷ d ∷ e ∷ cs) = ground arith

compare_ents-key : (a b : Ent) → compare_ents a b ≡ strcmp (key a.name) (key b.name)
unfolding compare_ents
compare_ents-key a b =
    strcmp-special (special a.name) (special b.name) (past_dot a.name) (past_dot b.name)
      (special-le a.name) (special-le b.name)
    ∙ rw (key-special a.name, key-special b.name) refl

-- What qsort asks of a comparison.
pub record IsOrder {A : Type 0} (cmp : A → A → Ordering) : Type 0 where
  pub flips : (a b : A) → cmp b a ≡ flip (cmp a b)
  pub trans : (a b c : A) → cmp a b ≢ gt → cmp b c ≢ gt → cmp a c ≢ gt

-- compare_ents is a total order up to ties, and compares "." before ".." before all other names,
-- and these as strcmp does without a leading dot: it is strcmp of the keys.
pub compare_ents-IsOrder :
    IsOrder compare_ents × ((a b : Ent) → compare_ents a b ≡ strcmp (key a.name) (key b.name))
compare_ents-IsOrder = (
  record {
    flips = λ a b.
        rw (compare_ents-key a b, compare_ents-key b a) (strcmp-flip (key a.name) (key b.name));
    trans = λ a b c.
        rw (compare_ents-key a b, compare_ents-key b c, compare_ents-key a c)
          (strcmp_trans (key a.name) (key b.name) (key c.name));
  },
  compare_ents-key,
)
