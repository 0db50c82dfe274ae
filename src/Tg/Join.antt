-- ===== src/Tg/Join.antt =====
-- tg/tg.c: how a process founds a chat or joins one: `init_signals`, `init_shared`, the two `Init`,
-- and all of `Destroy`.
use seminars.Base.{
  ℕ, ◌+◌, Bool, true, false, not, Option, none, some, List, [], ◌∷◌, if◌then◌else◌, update,
}
use seminars.Tg.{
  Status, success, shared_error, signal_error, Shared, fresh_memory, add_user, destroy,
}

-- The names of the shared memories and of the mutexes, by the number in them, and the memories,
-- which stay with those who have mapped them when the name is gone.
pub record System : Type 0 where
  pub shm : ℕ → Option ℕ
  pub mutex : ℕ → Bool
  pub memory : ℕ → Shared
  pub memories : ℕ

-- Which calls succeed, as far as the names allow it.
pub record Calls : Type 0 where
  pub sigemptyset : Bool
  pub sigaction_request : Bool
  pub sigaction_approve : Bool
  pub sigaddset_int : Bool
  pub sigaction_msg : Bool
  pub sigaddset_approved : Bool
  pub shm_open : Bool
  pub ftruncate : Bool
  pub mmap : Bool
  pub sem_open : Bool

-- What `chat` keeps once it is valid: the process, `shm_and_sem_id`, and the memory.
pub record Member : Type 0 where
  pub self : ℕ
  pub shm_and_sem_id : ℕ
  pub shared : ℕ

-- The end of `Init`.
pub record Joined : Type 0 where
  pub status : Status
  pub member : Option Member
  pub system : System

unfoldable pub init_signals : Calls → Status
init_signals calls =
    if not calls.sigemptyset
    then signal_error
    else if not calls.sigaction_request
    then signal_error
    else if not calls.sigaction_approve
    then signal_error
    else if not calls.sigaddset_int
    then signal_error
    else if not calls.sigaction_msg
    then signal_error
    else success

-- A memory without bytes, after O_TRUNC or when it is new.
abbrev pub no_bytes : Shared
no_bytes = record { users = []; messages = [] }

abbrev pub write_memory : ℕ → Shared → System → System
write_memory o m sys = record sys { memory = update sys.memory o m }

abbrev pub shm_unlink : ℕ → System → System
shm_unlink pid sys = record sys { shm = update sys.shm pid none }

abbrev pub sem_unlink : ℕ → System → System
sem_unlink pid sys = record sys { mutex = update sys.mutex pid false }

-- shm_open without O_CREAT finds a memory by its name; with it and O_TRUNC it also empties it, or
-- makes a new one.
unfoldable pub shm_open : Bool → ℕ → System → Option (ℕ × System)
shm_open create pid sys = elim (sys.shm pid) [
  | some o ↦ some (o, if create then write_memory o no_bytes sys else sys)
  | none ↦
      if create
      then some (
        sys.memories,
        write_memory sys.memories no_bytes (record sys {
          shm = update sys.shm pid (some sys.memories);
          memories = sys.memories + 1;
        }),
      )
      else none
]

-- sem_open finds a mutex by its name, or with O_CREAT and O_EXCL makes it if it is not there.
unfoldable pub sem_open : Bool → ℕ → System → Option System
sem_open create pid sys =
    if create
    then (if sys.mutex pid then none else some (record sys { mutex = update sys.mutex pid true }))
    else (if sys.mutex pid then some sys else none)

abbrev pub fails : Status → System → Joined
fails status sys = record { status = status; member = none; system = sys }

-- From mmap on.
unfoldable pub map_shared : Calls → ℕ → ℕ → Bool → ℕ → System → Joined
unfolding sem_open
map_shared calls self first_pid create o sys =
    if not calls.mmap
    then fails shared_error (shm_unlink first_pid sys)
    else elim (if calls.sem_open then sem_open create first_pid sys else none) [
      | none ↦ fails shared_error (shm_unlink first_pid sys)
      | some sys' ↦ record {
        status = success;
        member = some (record { self = self; shm_and_sem_id = first_pid; shared = o });
        system = sys';
      }
    ]

unfoldable pub init_shared : Calls → ℕ → ℕ → Bool → System → Joined
unfolding shm_open map_shared
init_shared calls self first_pid create sys =
    elim (if calls.shm_open then shm_open create first_pid sys else none) [
      | none ↦ fails shared_error sys
      | some (o, sys') ↦
          if not create
          then map_shared calls self first_pid create o sys'
          else if not calls.ftruncate
          then fails shared_error (shm_unlink first_pid sys')
          else map_shared calls self first_pid create o (write_memory o fresh_memory sys')
    ]

-- `Destroy`
unfoldable pub leave_chat : Member → System → System
leave_chat m sys =
    sem_unlink m.shm_and_sem_id (
      shm_unlink m.shm_and_sem_id
        (write_memory m.shared (destroy m.self (sys.memory m.shared)) sys))

-- The test of what add_user returns, and `Destroy` if it has failed.
unfoldable pub entered : Member → Joined → Status × Shared → Joined
unfolding leave_chat
entered m j (success, shared) = record j { system = write_memory m.shared shared j.system }
entered m j (status, shared) = record {
  status = status;
  member = none;
  system = leave_chat m (write_memory m.shared shared j.system);
}

-- What follows init_shared in both `Init`.
unfoldable pub enter : Joined → Joined
unfolding entered
enter j = elim j.member [
  | none ↦ j
  | some m ↦ entered m j (add_user m.self (j.system.memory m.shared))
]

-- `Init()`
unfoldable pub init_founder : Calls → ℕ → System → Joined
unfolding init_signals init_shared enter
init_founder calls self sys = elim (init_signals calls) [
  | success ↦ enter (init_shared calls self self true sys)
  | other ↦ fails other sys
]

-- What a call of sigwaitinfo returns: -1 with EINTR or another errno, or the sender.
pub data Wait : Type 0 where
  interrupted : Wait
  wait_failed : Wait
  approved : ℕ → Wait

-- The loop of the calls; without another one it waits for ever.
unfoldable pub wait_for_approval : List Wait → Option Wait
wait_for_approval [] = none
wait_for_approval (interrupted ∷ waits) = wait_for_approval waits
wait_for_approval (wait_failed ∷ waits) = some wait_failed
wait_for_approval (approved pid ∷ waits) = some (approved pid)

-- `Init( join_pid)`
unfoldable pub init_joining : Calls → ℕ → List Wait → System → Option Joined
unfolding init_signals init_shared enter wait_for_approval
init_joining calls self waits sys = elim (init_signals calls) [
  | success ↦
      if not calls.sigaddset_approved
      then some (fails signal_error sys)
      else elim (wait_for_approval waits) [
        | none ↦ none
        | some interrupted ↦ none
        | some wait_failed ↦ some (fails signal_error sys)
        | some (approved si_pid) ↦ some (enter (init_shared calls self si_pid false sys))
      ]
  | other ↦ some (fails other sys)
]

-- `join_request_handler` of a member: the sender of the approval, and its value.
unfoldable pub join_request_handler : Member → ℕ × ℕ
join_request_handler m = (m.self, m.shm_and_sem_id)
