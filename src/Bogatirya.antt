-- ===== src/Bogatirya.antt =====
-- 33_bogatirya/33_bogatirya.c: processes that draw numbers until all are different, and each take
-- the symbol of their rank among them.
pub mod Unique
pub mod Ranks
pub mod Printing
pub mod Turns
pub mod Followers
pub mod Leader
pub mod Broadcast
pub mod Ending
pub mod Song
pub mod Schedule
pub mod Completes
mod Tests
mod Runs
use seminars.Base.{
  ℕ, zero, suc, ◌+◌, ◌≤◌, ◌≡◌, Bool, true, false, Option, none, some, List, [], ◌∷◌, length, ltb,
  ◌==◌, if◌then◌else◌,
}

-- kFirstSymbol, kLastSymbol, kBogatirsNum
abbrev pub first_symbol : ℕ
first_symbol = 32

abbrev pub last_symbol : ℕ
last_symbol = 126

abbrev pub bogatirs_num : ℕ
bogatirs_num = 95

abbrev pub count_if : (ℕ → Bool) → List ℕ → ℕ
count_if test [] = 0
count_if test (x ∷ xs) = (if test x then 1 else 0) + count_if test xs

-- Each number is at most the next.
abbrev pub IsSorted : List ℕ → Type 0
IsSorted [] = Unit
IsSorted (x ∷ []) = Unit
IsSorted (x ∷ y ∷ l) = (x ≤ y) × IsSorted (y ∷ l)

-- What std::sort is documented to do: the result is in order, and has the same numbers.
pub record Sort : Type 0 where
  pub sort : List ℕ → List ℕ
  pub sort-IsSorted : (l : List ℕ) → IsSorted (sort l)
  pub count_if-sort : (test : ℕ → Bool) (l : List ℕ) → count_if test (sort l) ≡ count_if test l

-- `do { myval = rand(); } while ( myval == 0 );` over what rand returns, and what is left of that.
unfoldable pub draw : List ℕ → Option (ℕ × List ℕ)
draw [] = none
draw (r ∷ rands) = let again = draw rands in if r == 0 then again else some (r, rands)

-- The test for equal neighbours. Its last round compares the last value with `beyond`, what lies
-- behind the array `values`.
unfoldable pub is_unique : List ℕ → ℕ → Bool
is_unique [] beyond = true
is_unique (x ∷ []) beyond = if x == beyond then false else true
is_unique (x ∷ y ∷ l) beyond = let rest = is_unique (y ∷ l) beyond in if x == y then false else rest

-- The loop that looks for `myval`; -1 is `none`.
unfoldable pub find_id : ℕ → List ℕ → Option ℕ
find_id myval [] = none
find_id myval (x ∷ values) =
    let later = find_id myval values in
    if x == myval then some 0 else elim later [ none ↦ none | some i ↦ some (suc i) ]

-- A round's end: another round, or the rank `my_id`.
pub data Verdict : Type 0 where
  again : Verdict
  rank : Option ℕ → Verdict

-- A round, after the values of all the others have been received.
unfoldable pub decide : Sort → ℕ → List ℕ → ℕ → Verdict
unfolding is_unique find_id
decide std myval received beyond =
    let values = std.sort (myval ∷ received) in
    if is_unique values beyond then rank (find_id myval values) else again

-- The symbol of a rank.
abbrev pub symbol_of : ℕ → ℕ
symbol_of my_id = first_symbol + my_id
