-- ===== src/Bogatirya/Tests.antt =====
-- Rounds with few and with ninety-five values.
use seminars.Base.{ℕ, zero, suc, ◌≡◌, refl, Bool, some, List, [], ◌∷◌, leb, if◌then◌else◌, arith}
use seminars.Bogatirya.{count_if, IsSorted, Sort, draw, decide, is_unique, find_id, again, rank}
use seminars.Bogatirya.Unique.{Decides, decide-Decides}

-- A sort that meets the contract.
insert_before : ℕ → List ℕ → List ℕ
insert_before x [] = x ∷ []
insert_before x (y ∷ l) = let later = insert_before x l in if leb x y then x ∷ y ∷ l else y ∷ later

insertion_sort : List ℕ → List ℕ
insertion_sort [] = []
insertion_sort (x ∷ l) = insert_before x (insertion_sort l)

insert_before-IsSorted : (x : ℕ) (l : List ℕ) → IsSorted l → IsSorted (insert_before x l)
unfolding insert_before
insert_before-IsSorted x [] s = tt
insert_before-IsSorted x (y ∷ []) s = ground arith
insert_before-IsSorted x (y ∷ z ∷ l) (le, s) = ground (arith, insert_before-IsSorted x (z ∷ l) s)

insertion_sort-IsSorted : (l : List ℕ) → IsSorted (insertion_sort l)
unfolding insertion_sort
insertion_sort-IsSorted [] = tt
insertion_sort-IsSorted (x ∷ l) =
    insert_before-IsSorted x (insertion_sort l) (insertion_sort-IsSorted l)

count_if-insert_before :
    (test : ℕ → Bool) (x : ℕ) (l : List ℕ)
    → count_if test (insert_before x l) ≡ count_if test (x ∷ l)
unfolding insert_before
count_if-insert_before test x [] = refl
count_if-insert_before test x (y ∷ l) = ground (arith, count_if-insert_before test x l)

count_if-insertion_sort :
    (test : ℕ → Bool) (l : List ℕ) → count_if test (insertion_sort l) ≡ count_if test l
unfolding insertion_sort
count_if-insertion_sort test [] = refl
count_if-insertion_sort test (x ∷ l) =
    omega (arith, count_if-insert_before test x (insertion_sort l), count_if-insertion_sort test l)

abbrev std : Sort
std = record {
  sort = insertion_sort;
  sort-IsSorted = insertion_sort-IsSorted;
  count_if-sort = count_if-insertion_sort;
}

draws_again : draw (0 ∷ 0 ∷ 7 ∷ 8 ∷ []) ≡ some (7, 8 ∷ [])
unfolding draw
draws_again = refl

second_of_three : decide std 5 (9 ∷ 3 ∷ []) 0 ≡ rank (some 1)
unfolding decide is_unique find_id insertion_sort insert_before
second_of_three = refl

-- The numbers are different, but the greatest lies behind the array as well.
another_round : decide std 5 (9 ∷ 3 ∷ []) 9 ≡ again
unfolding decide is_unique find_id insertion_sort insert_before
another_round = refl

decide-Decides_example : Decides 5 (9 ∷ 3 ∷ []) 0 (decide std 5 (9 ∷ 3 ∷ []) 0)
decide-Decides_example = decide-Decides std 5 (9 ∷ 3 ∷ []) 0

-- The numbers from n down to 1, without the first.
abbrev down_from : ℕ → List ℕ
down_from zero = []
down_from (suc n) = suc n ∷ down_from n
