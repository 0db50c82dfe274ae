-- ===== src/Tg/Users.antt =====
-- The table of users.
use mathlib.Core.Path.{subst}
use seminars.Base.{
  ℕ_discrete, ◌+◌, ℕ, ◌≡◌, ◌≢◌, refl, inl, inr, Option, Option-cases, none, some, List, [], ◌∷◌,
  All, length, ◌==◌, if◌then◌else◌, arith,
}
use seminars.Tg.{
  Status, success, no_space_for_user, Shared, take_entry, add_user, free_entry, destroy,
}

-- No entry of the table has this value.
abbrev pub Lacks : ℕ → List ℕ → Type 0
Lacks pid users = All (λ u. u ≢ pid) users

-- The entry that is taken is the first free one, and is freed again by the same process.
free_entry-take_entry :
    (pid : ℕ) (users taken : List ℕ)
    → Lacks pid users
    → take_entry pid users ≡ some taken
    → free_entry pid taken ≡ users
unfolding take_entry free_entry
free_entry-take_entry pid [] taken h e = cc
free_entry-take_entry pid (user ∷ users) taken (ne, h) e =
    elim (Option-cases (take_entry pid users)) [
      | inl full ↦ ground arith
      | inr (us, more) ↦ ground (arith, free_entry-take_entry pid users us h more)
    ]

-- Who joins and leaves again leaves the table as it was.
pub destroy-add_user :
    (pid : ℕ) (shared shared' : Shared)
    → Lacks pid shared.users
    → add_user pid shared ≡ (success, shared')
    → destroy pid shared' ≡ shared
unfolding add_user destroy
destroy-add_user pid shared shared' h e = elim (Option-cases (take_entry pid shared.users)) [
  | inl full ↦ ground arith
  | inr (us, more) ↦ ground (arith, free_entry-take_entry pid shared.users us h more)
]

-- How many free entries a table has, and how many of a process.
pub entries_of : ℕ → List ℕ → ℕ
entries_of pid [] = 0
entries_of pid (user ∷ users) = (if user == pid then 1 else 0) + entries_of pid users

take_entry-full : (pid : ℕ) (users : List ℕ) → take_entry pid users ≡ none → entries_of 0 users ≡ 0
unfolding take_entry entries_of
take_entry-full pid [] e = refl
take_entry-full pid (user ∷ users) e = ground (arith, take_entry-full pid users)

-- A table after one more entry of a process.
pub record Joined (pid : ℕ) (users taken : List ℕ) : Type 0 where
  pub own : entries_of pid taken ≡ entries_of pid users + 1
  pub free : entries_of 0 taken + 1 ≡ entries_of 0 users
  pub size : length taken ≡ length users
  pub others : (q : ℕ) → q ≢ pid → q ≢ 0 → entries_of q taken ≡ entries_of q users

Joined-cons :
    (pid user : ℕ) (users taken : List ℕ)
    → Joined pid users taken
    → Joined pid (user ∷ users) (user ∷ taken)
unfolding entries_of
Joined-cons pid user users taken j = record {
  own = omega (arith, j.own);
  free = omega (arith, j.free);
  size = omega (arith, j.size);
  others = λ q ne nz. omega (arith, j.others q ne nz);
}

Joined-free :
    (pid user : ℕ) (users : List ℕ) → pid ≢ 0 → user ≡ 0 → Joined pid (user ∷ users) (pid ∷ users)
unfolding entries_of
Joined-free pid user users nz e = record {
  own = ground arith;
  free = ground arith;
  size = refl;
  others = λ q ne qz. ground arith;
}

take_entry-Joined :
    (pid : ℕ) (users taken : List ℕ)
    → pid ≢ 0
    → take_entry pid users ≡ some taken
    → Joined pid users taken
unfolding take_entry
take_entry-Joined pid [] taken nz e = cc
take_entry-Joined pid (user ∷ users) taken nz e = elim (ℕ_discrete user 0) [
  | yes free ↦
      let same : pid ∷ users ≡ taken = ground arith in
      subst (Joined pid (user ∷ users)) same (Joined-free pid user users nz free)
  | no busy ↦ elim (Option-cases (take_entry pid users)) [
    | inl full ↦ ground arith
    | inr (us, more) ↦
        let same : user ∷ us ≡ taken = ground arith in
        subst (Joined pid (user ∷ users)) same
          (Joined-cons pid user users us (take_entry-Joined pid users us nz more))
  ]
]

-- What `add_user` does to the table, by its result.
abbrev pub AddsUser : ℕ → Shared → Status × Shared → Type 0
AddsUser pid shared (success, shared') =
    Joined pid shared.users shared'.users × (shared'.messages ≡ shared.messages)
AddsUser pid shared (no_space_for_user, shared') =
    (entries_of 0 shared.users ≡ 0) × (shared' ≡ shared)
AddsUser pid shared (_, shared') = ⊥

-- `add_user` gives a process one of the free entries and changes nothing else, or reports that
-- there is none.
pub add_user-AddsUser :
    (pid : ℕ) (shared : Shared) → pid ≢ 0 → AddsUser pid shared (add_user pid shared)
unfolding add_user
add_user-AddsUser pid shared nz = table (take_entry pid shared.users) refl
  where
    table :
        (o : Option (List ℕ))
        → take_entry pid shared.users ≡ o
        → AddsUser pid shared (elim o [
          | none ↦ (no_space_for_user, shared)
          | some users ↦ (success, record shared { users = users })
        ])
    table none e = (take_entry-full pid shared.users e, refl)
    table (some users) e = (take_entry-Joined pid shared.users users nz e, refl)
