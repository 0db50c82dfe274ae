-- ===== src/Tg/Founding.antt =====
-- A founder, and the first who joins him.
use mathlib.Core.Path.{subst}
use seminars.Base.{
  ℕ, ◌+◌, ◌≡◌, ◌≢◌, inl, inr, refl, sym, ap, ◌∙◌, true, Bool-cases, Option-cases, some, List, ◌∷◌,
  update, replicate, arith,
}
use seminars.Tg.{Status, success, Shared, fresh_memory, take_entry, add_user}
use seminars.Tg.Join.{
  System, Calls, Joined, init_signals, write_memory, no_bytes, shm_open, sem_open, fails,
  map_shared, init_shared, enter, Wait, approved, wait_for_approval, init_founder, init_joining,
}

-- The memory of a chat with one user.
abbrev pub alone : ℕ → Shared
alone f = record fresh_memory { users = f ∷ replicate 9 0 }

add_user-fresh : (f : ℕ) → add_user f fresh_memory ≡ (success, alone f)
unfolding add_user take_entry
add_user-fresh f = refl

add_user-alone :
    (f p : ℕ)
    → f ≢ 0
    → add_user p (alone f) ≡ (success, record fresh_memory { users = f ∷ p ∷ replicate 8 0 })
unfolding add_user take_entry
add_user-alone f p nz = ground arith

-- How a chat is founded.
pub data Founds (f : ℕ) (j : Joined) : Type 0 where
  failed : j.status ≢ success → Founds f j
  founded :
      (o : ℕ)
      → j.status ≡ success
      → j.member ≡ some (record { self = f; shm_and_sem_id = f; shared = o })
      → j.system.shm f ≡ some o
      → j.system.mutex f ≡ true
      → j.system.memory o ≡ alone f
      → Founds f j

module _ (calls : Calls) (f : ℕ) where
  map_shared-Founds :
      (o : ℕ) (sys : System)
      → sys.shm f ≡ some o
      → sys.memory o ≡ fresh_memory
      → Founds f (enter (map_shared calls f f true o sys))
  unfolding map_shared enter
  map_shared-Founds o sys there fresh = elim (Bool-cases calls.mmap) [
    | inr broken ↦ failed (ground arith)
    | inl maps ↦ elim (Bool-cases calls.sem_open) [
      | inr broken ↦ failed (ground arith)
      | inl opens ↦ elim (Bool-cases (sys.mutex f)) [
        | inr new ↦
            let add = ap (λ m. add_user f m) fresh ∙ add_user-fresh f in
            founded o (ground (arith, add)) (ground (arith, add)) (ground (arith, add))
              (ground (arith, add)) (ground (arith, add))
        | inl old ↦ failed (ground arith)
      ]
    ]
  ]

  init_shared-Founds : (sys : System) → Founds f (enter (init_shared calls f f true sys))
  unfolding init_shared shm_open enter
  init_shared-Founds sys = elim (Bool-cases calls.shm_open) [
    | inr broken ↦ failed (ground arith)
    | inl opens ↦ elim (Bool-cases calls.ftruncate) [
      | inr broken ↦ elim (Option-cases (sys.shm f)) [
        | inl new ↦ failed (ground arith)
        | inr (o, old) ↦ failed (ground arith)
      ]
      | inl sized ↦ elim (Option-cases (sys.shm f)) [
        | inl new ↦
            let made = write_memory sys.memories fresh_memory (
              write_memory sys.memories no_bytes (record sys {
                shm = update sys.shm f (some sys.memories);
                memories = sys.memories + 1;
              })) in
            let run : enter (init_shared calls f f true sys)
                ≡ enter (map_shared calls f f true sys.memories made) =
              ground arith in
            subst (Founds f) (sym run)
              (map_shared-Founds sys.memories made (ground arith) (ground arith))
        | inr (o, old) ↦
            let emptied = write_memory o fresh_memory (write_memory o no_bytes sys) in
            let run : enter (init_shared calls f f true sys)
                ≡ enter (map_shared calls f f true o emptied) =
              ground arith in
            subst (Founds f) (sym run) (map_shared-Founds o emptied old (ground arith))
      ]
    ]
  ]

  init_founder-Founds : (sys : System) → Founds f (init_founder calls f sys)
  unfolding init_founder
  init_founder-Founds sys = cases (init_signals calls)
    where
      cases :
          (st : Status)
          → Founds f (elim st as (λ s. Joined) [
            | success ↦ enter (init_shared calls f f true sys)
            | other ↦ fails other sys
          ])
      cases success = init_shared-Founds sys
      cases _ = failed (cc)

lets_in :
    (calls' : Calls) (f p : ℕ) (j : Joined) (waits : List Wait)
    → f ≢ 0
    → j.status ≡ success
    → init_signals calls' ≡ success
    → calls'.sigaddset_approved ≡ true
    → calls'.shm_open ≡ true
    → calls'.mmap ≡ true
    → calls'.sem_open ≡ true
    → wait_for_approval waits ≡ some (approved f)
    → Founds f j
    → (o : ℕ) × (sys' : System) × (j.member
        ≡ some (record { self = f; shm_and_sem_id = f; shared = o }))
      × (j.system.memory o ≡ alone f)
      × (init_joining calls' p waits j.system
          ≡ some (record {
            status = success;
            member = some (record { self = p; shm_and_sem_id = f; shared = o });
            system = sys';
          }))
      × ((sys'.memory o).users ≡ f ∷ p ∷ replicate 8 0)
unfolding init_joining init_shared shm_open map_shared sem_open enter
lets_in calls' f p j waits nz begun signals added opens maps opens_sem wait (failed no_success) =
    absurd (no_success begun)
lets_in calls' f p j waits nz begun signals added opens maps opens_sem wait
      (founded o status member shm mutex memory) =
    let two : Shared = record fresh_memory { users = f ∷ p ∷ replicate 8 0 } in
    let add = ap (λ m. add_user p m) memory ∙ add_user-alone f p nz in
    (o, write_memory o two j.system, member, memory, ground (arith, add), ground arith)

-- A process that founds a chat with success is its only user. Whoever he approves then joins him, in
-- the same memory, when his own calls succeed.
pub founder-lets_in :
    (calls calls' : Calls) (f p : ℕ) (sys : System) (waits : List Wait)
    → f ≢ 0
    → (init_founder calls f sys).status ≡ success
    → init_signals calls' ≡ success
    → calls'.sigaddset_approved ≡ true
    → calls'.shm_open ≡ true
    → calls'.mmap ≡ true
    → calls'.sem_open ≡ true
    → wait_for_approval waits ≡ some (approved f)
    → (o : ℕ) × (sys' : System) × ((init_founder calls f sys).member
        ≡ some (record { self = f; shm_and_sem_id = f; shared = o }))
      × ((init_founder calls f sys).system.memory o ≡ alone f)
      × (init_joining calls' p waits (init_founder calls f sys).system
          ≡ some (record {
            status = success;
            member = some (record { self = p; shm_and_sem_id = f; shared = o });
            system = sys';
          }))
      × ((sys'.memory o).users ≡ f ∷ p ∷ replicate 8 0)
founder-lets_in calls calls' f p sys waits nz begun signals added opens maps opens_sem wait =
    lets_in calls' f p (init_founder calls f sys) waits nz begun signals added opens maps opens_sem
      wait (init_founder-Founds calls f sys)
