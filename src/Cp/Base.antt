-- ===== src/Cp/Base.antt =====
-- get_base: the part of a path behind its last slash.
use mathlib.Core.Path.{subst}
use seminars.Base.{
  ℕ, ℕ_discrete, dec_lt, zero, suc, ◌+◌, ◌<◌, ◌≤◌, ◌≡◌, ◌≢◌, refl, ap, sym, ◌∙◌, List, [], ◌∷◌,
  ◌++◌, length, length-take, drop, take, get_or, arith,
}
use seminars.Cp.{base_from, get_base}

abbrev pub NoSlash : List ℕ → Type 0
NoSlash text = (j : ℕ) → get_or text j 0 ≢ b'/'

-- What the loop of get_base finds below a position n.
data Found (path : List ℕ) (n : ℕ) : ℕ → Type 0 where
  at_slash :
      (p : ℕ)
      → suc p ≤ n
      → get_or path (suc p) 0 ≡ b'/'
      → ((j : ℕ) → suc p < j → j ≤ n → get_or path j 0 ≢ b'/')
      → Found path n (suc p + 1)
  at_start : ((j : ℕ) → 0 < j → j ≤ n → get_or path j 0 ≢ b'/') → Found path n 0

Found-suc :
    (path : List ℕ) (n offset : ℕ)
    → get_or path (suc n) 0 ≢ b'/'
    → Found path n offset
    → Found path (suc n) offset
Found-suc path n _ ne (at_slash p le slash behind) = at_slash p (omega arith) slash (λ j lt l.
    elim (ℕ_discrete j (suc n)) [
      | yes e ↦ subst (λ k. get_or path k 0 ≢ b'/') (sym e) ne
      | no d ↦ behind j lt (omega arith)
    ])
Found-suc path n _ ne (at_start behind) = at_start (λ j lt l. elim (ℕ_discrete j (suc n)) [
  | yes e ↦ subst (λ k. get_or path k 0 ≢ b'/') (sym e) ne
  | no d ↦ behind j lt (omega arith)
])

base_from-Found : (path : List ℕ) (n : ℕ) → Found path n (base_from path n)
unfolding base_from
base_from-Found path zero = at_start (λ j lt l. absurd (omega arith))
base_from-Found path (suc n) = elim (ℕ_discrete (get_or path (suc n) 0) b'/') [
  | yes slash ↦
      let same : suc n + 1 ≡ base_from path (suc n) = ground arith in
      subst (Found path (suc n)) same
        (at_slash n (omega arith) slash (λ j lt l. absurd (omega arith)))
  | no ne ↦
      let same : base_from path n ≡ base_from path (suc n) = ground arith in
      subst (Found path (suc n)) same (Found-suc path n _ ne (base_from-Found path n))
]

get_or-drop : (n j : ℕ) (xs : List ℕ) → get_or (drop n xs) j 0 ≡ get_or xs (n + j) 0
get_or-drop zero j xs = ap (λ i. get_or xs i 0) (omega arith)
get_or-drop (suc n) j [] = refl
get_or-drop (suc n) j (x ∷ xs) =
    let e : suc (n + j) ≡ suc n + j = omega arith in
    get_or-drop n j xs ∙ ap (λ i. get_or (x ∷ xs) i 0) e

get_or-outside : (xs : List ℕ) (j : ℕ) → length xs ≤ j → get_or xs j 0 ≡ 0
get_or-outside [] j h = refl
get_or-outside (x ∷ xs) zero h = absurd (omega arith)
get_or-outside (x ∷ xs) (suc j) h = get_or-outside xs j (omega arith)

split_at :
    (q : ℕ) (xs : List ℕ) → q < length xs → xs ≡ take q xs ++ (get_or xs q 0 ∷ drop (q + 1) xs)
split_at q [] h = absurd (omega arith)
split_at zero (x ∷ xs) h = refl
split_at (suc q) (x ∷ xs) h =
    let e : suc (q + 1) ≡ suc q + 1 = omega arith in
    ap (λ l. x ∷ l) (split_at q xs (omega arith))
    ∙ ap (λ n. (x ∷ take q xs) ++ (get_or xs q 0 ∷ drop n (x ∷ xs))) e

not_a_slash :
    (path : List ℕ) (j : ℕ) → (j ≤ length path → get_or path j 0 ≢ b'/') → get_or path j 0 ≢ b'/'
not_a_slash path j h e = elim (dec_lt (length path) j) [
  | yes behind ↦ omega (arith, e, get_or-outside path j (omega arith))
  | no inside ↦ h (omega arith) e
]

-- The base name of a path: what stands behind its last slash, if that is not its first byte, and
-- otherwise the path itself.
pub data IsBase (path base : List ℕ) : Type 0 where
  behind_slash :
      (dir : List ℕ)
      → 0 < length dir
      → path ≡ dir ++ (b'/' ∷ base)
      → NoSlash base
      → IsBase path base
  whole_path : base ≡ path → NoSlash (drop 1 path) → IsBase path base

Found-IsBase :
    (path : List ℕ) (offset : ℕ) → Found path (length path) offset → IsBase path (drop offset path)
Found-IsBase path _ (at_slash p le slash behind) =
    let inside : suc p < length path = elim (dec_lt (suc p) (length path)) [
      | yes lt ↦ lt
      | no ge ↦ absurd (omega (arith, slash, get_or-outside path (suc p) (omega arith)))
    ] in
    behind_slash (take (suc p) path) (omega (arith, length-take (suc p) path))
      (split_at (suc p) path inside
        ∙ ap (λ c. take (suc p) path ++ (c ∷ drop (suc p + 1) path)) slash)
      (λ j e.
        not_a_slash path (suc p + 1 + j) (behind (suc p + 1 + j) (omega arith))
          (sym (get_or-drop (suc p + 1) j path) ∙ e))
Found-IsBase path _ (at_start behind) = whole_path refl (λ j e.
    not_a_slash path (1 + j) (behind (1 + j) (omega arith)) (sym (get_or-drop 1 j path) ∙ e))

-- get_base finds the base name of every path.
pub get_base-IsBase : (path : List ℕ) → IsBase path (get_base path)
unfolding get_base
get_base-IsBase path =
    Found-IsBase path (base_from path (length path)) (base_from-Found path (length path))
