-- ===== src/Bogatirya/Unique.antt =====
-- The test for different values, and the rank of a value among them.
use seminars.Base.{
  ℕ, ◌<◌, ◌≤◌, ◌≡◌, ◌⊎◌, inl, inr, refl, Bool, true, false, Bool-cases, none, some, List, [], ◌∷◌,
  ltb, ◌==◌, if◌then◌else◌, arith, ℕ_discrete,
}
use seminars.Bogatirya.{count_if, IsSorted, Sort, is_unique, find_id, Verdict, again, rank, decide}

-- No number occurs twice.
abbrev pub AllDistinct : List ℕ → Type 0
AllDistinct l = (x : ℕ) → count_if (λ y. y == x) l ≤ 1

-- Each number is less than the next.
abbrev pub IsIncreasing : List ℕ → Type 0
IsIncreasing [] = Unit
IsIncreasing (x ∷ []) = Unit
IsIncreasing (x ∷ y ∷ l) = (x < y) × IsIncreasing (y ∷ l)

abbrev pub last_or : List ℕ → ℕ → ℕ
last_or [] d = d
last_or (x ∷ l) d = last_or l x

-- What the test finds of a list in order.
is_unique-IsIncreasing :
    (l : List ℕ) (beyond : ℕ) → IsSorted l → is_unique l beyond ≡ true → IsIncreasing l
unfolding is_unique
is_unique-IsIncreasing [] beyond s e = tt
is_unique-IsIncreasing (x ∷ []) beyond s e = tt
is_unique-IsIncreasing (x ∷ y ∷ l) beyond (le, s) e =
    (ground arith, is_unique-IsIncreasing (y ∷ l) beyond s (ground arith))

-- Why the test fails: a number is there twice, or the greatest one lies behind the array as well.
abbrev pub Repeats : List ℕ → ℕ → Type 0
Repeats l beyond =
    ((v : ℕ) × (1 < count_if (λ y. y == v) l))
    ⊎ ((0 < count_if (λ y. y == beyond) l) × (count_if (λ y. ltb beyond y) l ≡ 0))

Repeats-cons :
    (x y beyond : ℕ) (l : List ℕ) → x ≤ y → Repeats (y ∷ l) beyond → Repeats (x ∷ y ∷ l) beyond
Repeats-cons x y beyond l le (inl (v, twice)) = inl (v, ground arith)
Repeats-cons x y beyond l le (inr (there, greatest)) = inr (ground arith, ground arith)

is_unique-Repeats :
    (x : ℕ) (l : List ℕ) (beyond : ℕ)
    → IsSorted (x ∷ l)
    → is_unique (x ∷ l) beyond ≡ false
    → Repeats (x ∷ l) beyond
unfolding is_unique
is_unique-Repeats x [] beyond s e = inr (ground arith, ground arith)
is_unique-Repeats x (y ∷ l) beyond (le, s) e = elim (ℕ_discrete x y) [
  | yes same ↦ inl (x, ground arith)
  | no other ↦ Repeats-cons x y beyond l le (is_unique-Repeats y l beyond s (ground arith))
]

count_above : (x v : ℕ) (l : List ℕ) → IsIncreasing (x ∷ l) → v ≤ x → count_if (λ y. y == v) l ≡ 0
count_above x v [] inc le = refl
count_above x v (y ∷ l) (lt, inc) le = ground (arith, count_above y v l inc)

IsIncreasing-AllDistinct : (l : List ℕ) → IsIncreasing l → AllDistinct l
IsIncreasing-AllDistinct [] inc v = omega arith
IsIncreasing-AllDistinct (x ∷ []) inc v = ground arith
IsIncreasing-AllDistinct (x ∷ y ∷ l) (lt, inc) v =
    ground (arith, IsIncreasing-AllDistinct (y ∷ l) inc v, count_above x v (y ∷ l) (lt, inc))

-- In a list in order where no number is twice, each is less than the next.
AllDistinct-IsIncreasing : (l : List ℕ) → IsSorted l → AllDistinct l → IsIncreasing l
AllDistinct-IsIncreasing [] s d = tt
AllDistinct-IsIncreasing (x ∷ []) s d = tt
AllDistinct-IsIncreasing (x ∷ y ∷ l) (le, s) d =
    (ground (arith, d x), AllDistinct-IsIncreasing (y ∷ l) s (λ v. ground (arith, d v)))

-- The loop finds how many values are less.
count_less-zero :
    (x v : ℕ) (l : List ℕ) → IsIncreasing (x ∷ l) → v ≤ x → count_if (λ y. ltb y v) (x ∷ l) ≡ 0
count_less-zero x v [] inc le = ground arith
count_less-zero x v (y ∷ l) (lt, inc) le = ground (arith, count_less-zero y v l inc)

find_id-count :
    (v : ℕ) (l : List ℕ)
    → IsIncreasing l
    → 0 < count_if (λ y. y == v) l
    → find_id v l ≡ some (count_if (λ y. ltb y v) l)
unfolding find_id
find_id-count v [] inc there = absurd (omega arith)
find_id-count v (x ∷ []) inc there = ground arith
find_id-count v (x ∷ y ∷ l) (lt, inc) there = elim (ℕ_discrete x v) [
  | yes same ↦ ground (arith, count_less-zero x v (y ∷ l) (lt, inc))
  | no other ↦
      let ih = find_id-count v (y ∷ l) inc in ground (arith, ih, count_above x v (y ∷ l) (lt, inc))
]

-- What `decide` finds, by its verdict, for the values of all.
abbrev pub Decides : ℕ → List ℕ → ℕ → Verdict → Type 0
Decides myval received beyond (rank none) = ⊥
Decides myval received beyond (rank (some my_id)) =
    AllDistinct (myval ∷ received) × (my_id ≡ count_if (λ y. ltb y myval) (myval ∷ received))
Decides myval received beyond again = Repeats (myval ∷ received) beyond

-- The same numbers in another order.
abbrev pub SameNumbers : List ℕ → List ℕ → Type 0
SameNumbers l m = (test : ℕ → Bool) → count_if test l ≡ count_if test m

SameNumbers-Repeats :
    (l m : List ℕ) (beyond : ℕ) → SameNumbers l m → Repeats l beyond → Repeats m beyond
SameNumbers-Repeats l m beyond same (inl (v, twice)) =
    inl (v, omega (arith, twice, same (λ y. y == v)))
SameNumbers-Repeats l m beyond same (inr (there, greatest)) = inr (
  omega (arith, there, same (λ y. y == beyond)),
  omega (arith, greatest, same (λ y. ltb beyond y)),
)

-- For values in order that have the numbers of the round.
decide_sorted :
    (myval : ℕ) (received values : List ℕ) (beyond : ℕ)
    → IsSorted values
    → SameNumbers values (myval ∷ received)
    → Decides myval received beyond
        (if is_unique values beyond then rank (find_id myval values) else again)
decide_sorted myval received [] beyond s same = absurd (omega (arith, same (λ y. true)))
decide_sorted myval received (x ∷ values) beyond s same =
    elim (Bool-cases (is_unique (x ∷ values) beyond)) [
      | inr repeated ↦ rw repeated (
          SameNumbers-Repeats (x ∷ values) (myval ∷ received) beyond same
            (is_unique-Repeats x values beyond s repeated))
      | inl unique ↦
          let inc = is_unique-IsIncreasing (x ∷ values) beyond s unique in
          let there : 0 < count_if (λ y. y == myval) (x ∷ values) =
            ground (arith, same (λ y. y == myval)) in
          let found = find_id-count myval (x ∷ values) inc there in
          rw (unique, found)
            (
              (λ v. omega (arith, same (λ y. y == v), IsIncreasing-AllDistinct (x ∷ values) inc v)),
              same (λ y. ltb y myval),
            )
    ]

-- A round's verdict: a rank is given only when the numbers of all are different, and is then how
-- many of them are less; another round follows only when a number is there twice, or when what
-- lies behind the array equals the greatest number. The rank is always found.
pub decide-Decides :
    (std : Sort) (myval : ℕ) (received : List ℕ) (beyond : ℕ)
    → Decides myval received beyond (decide std myval received beyond)
unfolding decide
decide-Decides std myval received beyond =
    decide_sorted myval received (std.sort (myval ∷ received)) beyond
      (std.sort-IsSorted (myval ∷ received)) (λ test. std.count_if-sort test (myval ∷ received))
