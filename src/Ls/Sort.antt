-- ===== src/Ls/Sort.antt =====
-- A sort that does what qsort is documented to do, for concrete runs.
use Prim.Native.Nat.{Ordering, lt, eq, gt}
use mathlib.Core.List.{Perm}
use mathlib.Core.List.Perm
use seminars.Base.{◌≡◌, ◌≢◌, refl, List, [], ◌∷◌}
use seminars.Ls.Order.{IsOrder}
use seminars.Ls.Entries.{IsSorted}

module _ {A : Type 0} (cmp : A → A → Ordering) where
  insert_before : A → List A → List A
  insert_before x [] = x ∷ []
  insert_before x (y ∷ l) =
      let later = y ∷ insert_before x l in
      elim (cmp x y) [ gt ↦ later | lt ↦ x ∷ y ∷ l | eq ↦ x ∷ y ∷ l ]

  unfoldable pub insertion_sort : List A → List A
  unfolding insert_before
  insertion_sort [] = []
  insertion_sort (x ∷ l) = insert_before x (insertion_sort l)

  insert_before-perm : (x : A) (l : List A) → Perm (insert_before x l) (x ∷ l)
  unfolding insert_before
  insert_before-perm x [] = Perm.rfl
  insert_before-perm x (y ∷ l) = branch (insert_before-perm x l) (cmp x y)
    where
      branch :
          Perm (insert_before x l) (x ∷ l)
          → (o : Ordering)
          → Perm
              (elim o as (λ o. List A) [
                | gt ↦ y ∷ insert_before x l
                | lt ↦ x ∷ y ∷ l
                | eq ↦ x ∷ y ∷ l
              ])
              (x ∷ y ∷ l)
      branch before gt = Perm.trans (Perm.cons y before) (Perm.swap x y l)
      branch before lt = Perm.rfl
      branch before eq = Perm.rfl

  pub insertion_sort-perm : (l : List A) → Perm (insertion_sort l) l
  unfolding insertion_sort
  insertion_sort-perm [] = Perm.rfl
  insertion_sort-perm (x ∷ l) =
      Perm.trans (insert_before-perm x (insertion_sort l)) (Perm.cons x (insertion_sort-perm l))

  after_gt : IsOrder cmp → (x y : A) → cmp x y ≡ gt → cmp y x ≢ gt
  after_gt o x y e = rw (o.flips x y, e) (λ z. cc)

  -- A list that begins with y stays sorted when x, which is not before y, is put behind y.
  insert_behind :
      IsOrder cmp
      → (x y : A) (l : List A) → cmp y x ≢ gt
      → IsSorted cmp (y ∷ l)
      → IsSorted cmp (y ∷ insert_before x l)
  unfolding insert_before
  insert_behind o x y [] h s = (h, tt)
  insert_behind o x y (z ∷ l) h (yz, s) = branch (cmp x z) refl (λ zx. insert_behind o x z l zx s)
    where
      branch :
          (c : Ordering)
          → cmp x z ≡ c
          → (cmp z x ≢ gt → IsSorted cmp (z ∷ insert_before x l))
          → IsSorted cmp (
              y ∷ (elim c as (λ o. List A) [
                | gt ↦ z ∷ insert_before x l
                | lt ↦ x ∷ z ∷ l
                | eq ↦ x ∷ z ∷ l
              ]))
      branch gt e later = (yz, later (after_gt o x z e))
      branch lt e later = (h, (rw e (λ z. cc), s))
      branch eq e later = (h, (rw e (λ z. cc), s))

  insert_before-IsSorted :
      IsOrder cmp → (x : A) (l : List A) → IsSorted cmp l → IsSorted cmp (insert_before x l)
  unfolding insert_before
  insert_before-IsSorted o x [] s = tt
  insert_before-IsSorted o x (y ∷ l) s = branch (cmp x y) refl
    where
      branch :
          (c : Ordering)
          → cmp x y ≡ c
          → IsSorted cmp (elim c as (λ o. List A) [
            | gt ↦ y ∷ insert_before x l
            | lt ↦ x ∷ y ∷ l
            | eq ↦ x ∷ y ∷ l
          ])
      branch gt e = insert_behind o x y l (after_gt o x y e) s
      branch lt e = (rw e (λ z. cc), s)
      branch eq e = (rw e (λ z. cc), s)

  pub insertion_sort-IsSorted : IsOrder cmp → (l : List A) → IsSorted cmp (insertion_sort l)
  unfolding insertion_sort
  insertion_sort-IsSorted o [] = tt
  insertion_sort-IsSorted o (x ∷ l) =
      insert_before-IsSorted o x (insertion_sort l) (insertion_sort-IsSorted o l)
