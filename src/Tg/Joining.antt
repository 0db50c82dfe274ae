-- ===== src/Tg/Joining.antt =====
-- Who can join a chat, and who cannot.
use mathlib.Core.Path.{subst}
use seminars.Base.{
  ℕ, ◌≡◌, ◌≢◌, ◌⊎◌, inl, inr, refl, sym, ap, ◌∙◌, true, false, Bool-cases, Option-cases, none, some,
  List, arith,
}
use seminars.Tg.{Status, success, shared_error, no_space_for_user, Shared, add_user}
use seminars.Tg.Users.{AddsUser, add_user-AddsUser, entries_of}
use seminars.Tg.Users
use seminars.Tg.Join.{
  System, Calls, Member, Joined, init_signals, write_memory, shm_unlink, fails, init_shared,
  leave_chat, entered, enter, Wait, approved, wait_for_approval, init_joining, join_request_handler,
}

-- How joining by the name of a process ends, when the signals are set up.
pub data JoinsBy (calls : Calls) (self from : ℕ) (sys : System) (j : Joined) : Type 0 where
  not_found :
      (sys.shm from ≡ none) ⊎ (calls.shm_open ≡ false)
      → j ≡ fails shared_error sys
      → JoinsBy calls self from sys j
  not_mapped :
      (calls.mmap ≡ false) ⊎ ((calls.sem_open ≡ false) ⊎ (sys.mutex from ≡ false))
      → j ≡ fails shared_error (shm_unlink from sys)
      → JoinsBy calls self from sys j
  full :
      (o : ℕ)
      → sys.shm from ≡ some o
      → entries_of 0 (sys.memory o).users ≡ 0
      → j.status ≡ no_space_for_user
      → j.member ≡ none
      → j.system.shm from ≡ none
      → j.system.mutex from ≡ false
      → JoinsBy calls self from sys j
  joined :
      (o : ℕ) (m : Shared)
      → sys.shm from ≡ some o
      → add_user self (sys.memory o) ≡ (success, m)
      → Users.Joined self (sys.memory o).users m.users
      → m.messages ≡ (sys.memory o).messages
      → j.status ≡ success
      → j.member ≡ some (record { self = self; shm_and_sem_id = from; shared = o })
      → j.system ≡ write_memory o m sys
      → JoinsBy calls self from sys j

module _ (calls : Calls) (self from : ℕ) (sys : System) where
  -- A process that has the memory.
  abbrev in_memory : ℕ → Joined
  in_memory o = record {
    status = success;
    member = some (record { self = self; shm_and_sem_id = from; shared = o });
    system = sys;
  }

  abbrev member : ℕ → Member
  member o = record { self = self; shm_and_sem_id = from; shared = o }

  entered-JoinsBy :
      (o : ℕ) (r : Status × Shared)
      → sys.shm from ≡ some o
      → add_user self (sys.memory o) ≡ r
      → AddsUser self (sys.memory o) r
      → JoinsBy calls self from sys (entered (member o) (in_memory o) r)
  unfolding entered leave_chat
  entered-JoinsBy o (success, m) there e adds = joined o m there e adds.0 adds.1 refl refl refl
  entered-JoinsBy o (no_space_for_user, m) there e adds =
      full o there adds.0 refl refl (ground arith) (ground arith)
  entered-JoinsBy o (_, m) there e adds = absurd adds

  -- The calls of init_shared for one who joins.
  init_shared-JoinsBy :
      self ≢ 0 → JoinsBy calls self from sys (enter (init_shared calls self from false sys))
  unfolding init_shared enter
  init_shared-JoinsBy nz = elim (Bool-cases calls.shm_open) [
    | inr broken ↦ not_found (inr broken) (ground arith)
    | inl opens ↦ elim (Option-cases (sys.shm from)) [
      | inl none_there ↦ not_found (inl none_there) (ground arith)
      | inr (o, there) ↦ elim (Bool-cases calls.mmap) [
        | inr broken ↦ not_mapped (inl broken) (ground arith)
        | inl maps ↦ elim (Bool-cases calls.sem_open) [
          | inr broken ↦ not_mapped (inr (inl broken)) (ground arith)
          | inl opens_sem ↦ elim (Bool-cases (sys.mutex from)) [
            | inr no_mutex ↦ not_mapped (inr (inr no_mutex)) (ground arith)
            | inl mutex ↦
                let run : enter (init_shared calls self from false sys)
                    ≡ entered (member o) (in_memory o) (add_user self (sys.memory o)) =
                  ground arith in
                subst (JoinsBy calls self from sys) (sym run) (
                  entered-JoinsBy o (add_user self (sys.memory o)) there refl
                    (add_user-AddsUser self (sys.memory o) nz))
          ]
        ]
      ]
    ]
  ]

  -- Joining with an approval. When the signals can be set up and a process approves, joining ends,
  -- in one of these ways. It fails and changes nothing when the memory named after the process that
  -- approves is not there or cannot be opened; it fails and takes the memory's name away from
  -- everybody when mmap or sem_open fails or the mutex is not there; when the table of users is full
  -- it fails and takes both names away; and otherwise the process has one of the free entries of the
  -- table in the memory of that name, and nothing else has changed.
  pub init_joining-JoinsBy :
      (waits : List Wait)
      → self ≢ 0
      → init_signals calls ≡ success
      → calls.sigaddset_approved ≡ true
      → wait_for_approval waits ≡ some (approved from)
      → (j : Joined) × (init_joining calls self waits sys ≡ some j) × JoinsBy calls self from sys j
  unfolding init_joining
  init_joining-JoinsBy waits nz signals added wait =
      (enter (init_shared calls self from false sys), ground arith, init_shared-JoinsBy nz)

  -- Where there is no memory of that name, joining fails.
  no_name :
      (waits : List Wait)
      → sys.shm from ≡ none
      → init_signals calls ≡ success
      → calls.sigaddset_approved ≡ true
      → wait_for_approval waits ≡ some (approved from)
      → init_joining calls self waits sys ≡ some (fails shared_error sys)
  unfolding init_joining init_shared enter
  no_name waits missing signals added wait = elim (Bool-cases calls.shm_open) [
    | inr broken ↦ ground arith
    | inl opens ↦ ground arith
  ]

-- When any member of a chat has left, everybody who is approved by the founder fails to join, though
-- others are still in the chat.
pub leave_chat-closes :
    (calls : Calls) (self : ℕ) (m : Member) (sys : System) (waits : List Wait)
    → init_signals calls ≡ success
    → calls.sigaddset_approved ≡ true
    → wait_for_approval waits ≡ some (approved m.shm_and_sem_id)
    → init_joining calls self waits (leave_chat m sys)
      ≡ some (fails shared_error (leave_chat m sys))
unfolding leave_chat
leave_chat-closes calls self m sys waits signals added wait =
    no_name calls self m.shm_and_sem_id (leave_chat m sys) waits (ground arith) signals added wait

-- Who has joined has the number of the chat, and joining makes no name.
JoinsBy-member :
    (calls : Calls) (self from : ℕ) (sys : System) (j : Joined) (m : Member)
    → j.member ≡ some m
    → JoinsBy calls self from sys j
    → (m.self ≡ self) × (m.shm_and_sem_id ≡ from) × ((p : ℕ) → j.system.shm p ≡ sys.shm p)
JoinsBy-member calls self from sys j m is_in (not_found why e) = absurd (ground arith)
JoinsBy-member calls self from sys j m is_in (not_mapped why e) = absurd (ground arith)
JoinsBy-member calls self from sys j m is_in (full o there none_free status out shm mutex) =
    absurd (ground arith)
JoinsBy-member calls self from sys j m is_in
      (joined o mem there added one same status member system) =
    let me : m ≡ record { self = self; shm_and_sem_id = from; shared = o } = ground arith in
    (ap (λ x. x.self) me, ap (λ x. x.shm_and_sem_id) me, λ p. ap (λ x. x.shm p) system)

-- A process that has joined a chat, and not founded one, approves in vain: its approval carries the
-- number of the chat, but whoever it approves looks for a memory named after the process, and fails
-- to join.
pub joined-approves_in_vain :
    (calls calls' : Calls) (p q founder : ℕ) (m : Member) (sys : System) (j : Joined)
    (waits waits' : List Wait)
    → p ≢ 0
    → sys.shm p ≡ none
    → init_signals calls ≡ success
    → calls.sigaddset_approved ≡ true
    → wait_for_approval waits ≡ some (approved founder)
    → init_joining calls p waits sys ≡ some j
    → j.member ≡ some m
    → init_signals calls' ≡ success
    → calls'.sigaddset_approved ≡ true
    → wait_for_approval waits' ≡ some (approved (join_request_handler m).0)
    → ((join_request_handler m).1 ≡ founder)
      × (init_joining calls' q waits' j.system ≡ some (fails shared_error j.system))
unfolding join_request_handler
joined-approves_in_vain calls calls' p q founder m sys j waits waits' nz missing signals added wait
      joins is_in signals' added' wait' =
    let (ended, run, how) = init_joining-JoinsBy calls p founder sys waits nz signals added wait in
    let same : ended ≡ j = ground arith in
    let (me, chat, names) =
      JoinsBy-member calls p founder sys j m is_in (subst (JoinsBy calls p founder sys) same how) in
    let nameless : j.system.shm m.self ≡ none = ap (λ x. j.system.shm x) me ∙ (names p ∙ missing) in
    (chat, no_name calls' q m.self j.system waits' nameless signals' added' wait')
