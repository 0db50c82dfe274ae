-- ===== src/Bogatirya/Ranks.antt =====
-- The ranks of different bogatirs, and their symbols.
use mathlib.Core.Path.{subst}
use seminars.Base.{ℕ, ◌+◌, ◌<◌, ◌≤◌, ◌≡◌, Bool, some, List, [], ◌∷◌, length, ltb, arith}
use seminars.Bogatirya.{
  count_if, Sort, rank, decide, symbol_of, first_symbol, last_symbol, bogatirs_num,
}
use seminars.Bogatirya.Unique.{Decides, SameNumbers, decide-Decides}

count_if-le-length : (test : ℕ → Bool) (l : List ℕ) → count_if test l ≤ length l
count_if-le-length test [] = omega arith
count_if-le-length test (x ∷ l) = ground (arith, count_if-le-length test l)

-- A greater number has more numbers below it.
count_less-le :
    (v w : ℕ) (l : List ℕ) → v ≤ w → count_if (λ y. ltb y v) l ≤ count_if (λ y. ltb y w) l
count_less-le v w [] h = omega arith
count_less-le v w (x ∷ l) h = ground (arith, count_less-le v w l h)

count_less-lt :
    (v w : ℕ) (l : List ℕ)
    → v < w
    → count_if (λ y. ltb y v) (v ∷ l) < count_if (λ y. ltb y w) (v ∷ l)
count_less-lt v w l h = ground (arith, count_less-le v w l (omega arith))

module _ (std : Sort) (v : ℕ) (received : List ℕ) (beyond a : ℕ) where
  rank-count :
      decide std v received beyond ≡ rank (some a) → a ≡ count_if (λ y. ltb y v) (v ∷ received)
  rank-count e = (subst (Decides v received beyond) e (decide-Decides std v received beyond)).1

  rank-lt :
      decide std v received beyond ≡ rank (some a)
      → length received + 1 ≡ bogatirs_num
      → a < bogatirs_num
  rank-lt e size = ground (arith, rank-count e, count_if-le-length (λ y. ltb y v) received)

-- When two bogatirs have received each other's and the same other numbers and both are given a
-- rank, in a round of ninety-five, the one with the less number has the less symbol, and the
-- symbols are printable ASCII characters.
ranks_follow_numbers :
    (std : Sort) (v w : ℕ) (received received' : List ℕ) (beyond beyond' a b : ℕ)
    → SameNumbers (v ∷ received) (w ∷ received')
    → length received + 1 ≡ bogatirs_num
    → length received' + 1 ≡ bogatirs_num
    → decide std v received beyond ≡ rank (some a)
    → decide std w received' beyond' ≡ rank (some b)
    → v < w
    → (first_symbol ≤ symbol_of a) × (symbol_of a < symbol_of b) × (symbol_of b ≤ last_symbol)
ranks_follow_numbers std v w received received' beyond beyond' a b same size size' e f lt =
    let less = count_less-lt v w received lt in
    let first = rank-count std v received beyond a e in
    let second = rank-count std w received' beyond' b f in
    (
      omega arith,
      omega (arith, less, first, second, same (λ y. ltb y w)),
      omega (arith, rank-lt std w received' beyond' b f size'),
    )
