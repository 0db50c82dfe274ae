-- ===== src/Base/Decimal.antt =====
-- Numbers in decimal: what the C++ library writes for one, and what it reads as an int.
use Prim.Native.Nat.{ℕ, zero, suc, ◌+◌, ◌-◌, ◌*◌, ◌/◌, ◌%◌, ◌<◌, ◌≤◌}
use mathlib.Core.Path.{◌≡◌, ap, ◌∙◌}
use mathlib.Core.Bool.{Bool, ◌&&◌}
use mathlib.Core.List.{List, [], ◌∷◌, ◌++◌, append_assoc}
use native.Mathlib.Omega.{arith}
use native.Mathlib.Decide.{dec_lt}
use seminars.Base.Tests.{ltb, leb, if◌then◌else◌}
use seminars.Base.Text.{is_space}

abbrev pub is_digit : ℕ → Bool
is_digit c = leb 48 c && leb c 57

-- The digits of a number; its value is fuel enough, since each round divides by ten.
unfoldable pub digits : ℕ → ℕ → List ℕ
digits zero n = []
digits (suc fuel) n =
    let front = digits fuel (n / 10) in
    if ltb n 10 then (48 + n) ∷ [] else front ++ ((48 + n % 10) ∷ [])

unfoldable pub to_string : ℕ → List ℕ
unfolding digits
to_string n = digits (suc n) n

-- The number that the digits at the front of a text continue, and what follows them.
unfoldable pub read_digits : ℕ → List ℕ → ℕ × List ℕ
read_digits n [] = (n, [])
read_digits n (c ∷ cs) =
    let rest = read_digits (n * 10 + (c - 48)) cs in if is_digit c then rest else (n, c ∷ cs)

unfoldable pub skip_spaces : List ℕ → List ℕ
skip_spaces [] = []
skip_spaces (c ∷ cs) = let rest = skip_spaces cs in if is_space c then rest else c ∷ cs

-- What stands in front of the next blank, and the text from there on.
unfoldable pub span_word : List ℕ → List ℕ × List ℕ
span_word [] = ([], [])
span_word (c ∷ cs) =
    let rest = span_word cs in if is_space c then ([], c ∷ cs) else (c ∷ rest.0, rest.1)

read_digits-digit :
    (n d : ℕ) (rest : List ℕ)
    → d < 10
    → read_digits n ((48 + d) ∷ rest) ≡ read_digits (n * 10 + d) rest
unfolding read_digits
read_digits-digit n d rest h =
    let same : n * 10 + ((48 + d) - 48) ≡ n * 10 + d = omega arith in
    let read : read_digits n ((48 + d) ∷ rest) ≡ read_digits (n * 10 + ((48 + d) - 48)) rest =
      ground arith in
    read ∙ ap (λ k. read_digits k rest) same

digits-step :
    (fuel n : ℕ) → 10 ≤ n → digits (suc fuel) n ≡ digits fuel (n / 10) ++ ((48 + n % 10) ∷ [])
unfolding digits
digits-step fuel n h = ground arith

digits-small : (fuel n : ℕ) → n < 10 → digits (suc fuel) n ≡ (48 + n) ∷ []
unfolding digits
digits-small fuel n h = ground arith

read_digits-digits :
    (fuel n : ℕ) (rest : List ℕ)
    → n < fuel
    → read_digits 0 (digits fuel n ++ rest) ≡ read_digits n rest
read_digits-digits zero n rest h = absurd (omega arith)
read_digits-digits (suc fuel) n rest h = elim (dec_lt n 10) [
  | yes small ↦
      let same : 0 * 10 + n ≡ n = omega arith in
      ap (λ t. read_digits 0 (t ++ rest)) (digits-small fuel n small)
      ∙ read_digits-digit 0 n rest small
      ∙ ap (λ k. read_digits k rest) same
  | no big ↦
      let front = digits fuel (n / 10) in
      let same : n / 10 * 10 + n % 10 ≡ n = omega arith in
      ap (λ t. read_digits 0 (t ++ rest)) (digits-step fuel n (omega arith))
      ∙ ap (read_digits 0) (append_assoc front _ rest)
      ∙ read_digits-digits fuel (n / 10) ((48 + n % 10) ∷ rest) (omega arith)
      ∙ read_digits-digit (n / 10) (n % 10) rest (omega arith)
      ∙ ap (λ k. read_digits k rest) same
]

-- A number that is written in decimal is read again.
pub read_digits-to_string :
    (n : ℕ) (rest : List ℕ) → read_digits 0 (to_string n ++ rest) ≡ read_digits n rest
unfolding to_string
read_digits-to_string n rest = read_digits-digits (suc n) n rest (omega arith)
