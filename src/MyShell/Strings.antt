-- ===== src/MyShell/Strings.antt =====
-- The C strings that the offsets found by the parsers point to.
use seminars.Base.{ℕ, suc, ◌+◌, ◌-◌, ◌<◌, ◌≡◌, ◌≢◌, refl, List, [], ◌∷◌, All, drop, arith, ==_ne}
pub use seminars.Base.Text.{c_string}

-- The strings at some offsets, for a block whose first byte has offset `base`.
abbrev pub strings_at : ℕ → List ℕ → List ℕ → List (List ℕ)
strings_at base bytes [] = []
strings_at base bytes (offset ∷ offsets) =
    c_string (drop (offset - base) bytes) ∷ strings_at base bytes offsets

abbrev pub Above : ℕ → List ℕ → Type 0
Above base offsets = All (λ o. base < o) offsets

-- Offsets behind the first byte find the same strings in the rest of the block.
pub strings_at-cons :
    (base c : ℕ) (bytes offsets : List ℕ)
    → Above base offsets
    → strings_at base (c ∷ bytes) offsets ≡ strings_at (base + 1) bytes offsets
strings_at-cons base c bytes [] h = refl
strings_at-cons base c bytes (o ∷ offsets) (lt, h) =
    let e : o - base ≡ suc (o - (base + 1)) = omega arith in
    rw (e, strings_at-cons base c bytes offsets h)

pub Above-weaken : (base : ℕ) (offsets : List ℕ) → Above (base + 1) offsets → Above base offsets
Above-weaken base [] h = tt
Above-weaken base (o ∷ offsets) (lt, h) = (omega arith, Above-weaken base offsets h)

pub c_string-cons : (c : ℕ) (bytes : List ℕ) → c ≢ 0 → c_string (c ∷ bytes) ≡ c ∷ c_string bytes
c_string-cons c bytes h = rw (==_ne c 0 h)

abbrev pub NoNul : List ℕ → Type 0
NoNul text = All (λ c. c ≢ 0) text
