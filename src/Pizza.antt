-- ===== src/Pizza.antt =====
-- pizza/pizza.c: chiefs who put pizzas on a round table of five places and couriers who take them
-- away, processes over shared memory and three semaphores.
pub mod Balance
pub mod Safety
pub mod Deadlock
mod Tests
use seminars.Base.{
  ℕ, ◌+◌, ◌-◌, ◌%◌, ◌^◌, ◌<◌, ◌≡◌, ◌≢◌, List, codes, replicate, update, ltb, ◌==◌, if◌then◌else◌,
}

-- MAX_PIZZA_COUNT, PIZZA_SIZE, MAX_CHIEF_WORK
abbrev pub max_pizza_count : ℕ
max_pizza_count = 5

abbrev pub pizza_size : ℕ
pizza_size = 5

abbrev pub max_chief_work : ℕ
max_chief_work = 10

abbrev pub pizza_string : List ℕ
pizza_string = codes "pizza"

-- What memset leaves.
abbrev pub no_pizza : List ℕ
no_pizza = replicate pizza_size 0

-- `++` and `--` of an int
abbrev pub incr : ℕ → ℕ
incr n = (n + 1) % 2 ^ 32

abbrev pub decr : ℕ → ℕ
decr n = (n + (2 ^ 32 - 1)) % 2 ^ 32

-- `shared_table_t`. All accesses to `buffer` are to the bytes of one place, which are kept as a
-- list by the number of the place.
pub record Table : Type 0 where
  pub buffer : ℕ → List ℕ
  pub head : ℕ
  pub tail : ℕ
  pub chiefs_count : ℕ
  pub pizza_count : ℕ

-- The shared memory and the values of the three semaphores.
pub record Shared : Type 0 where
  pub table_data : Table
  pub table : ℕ
  pub ready : ℕ
  pub empty : ℕ

-- Before each call on a semaphore, or inside the table's lock, with the number of the round.
pub data Chief : Type 0 where
  arriving entering entered : Chief
  waiting free cooking cooked serving : ℕ → Chief
  leaving going gone finished : Chief

-- What follows round `i` of the loop.
abbrev pub next_round : ℕ → Chief
next_round i = if ltb (i + 1) max_chief_work then waiting (i + 1) else leaving

-- memcpy, `head`, and `pizza_count++`
abbrev pub put_pizza : Table → Table
put_pizza t = record t {
  buffer = update t.buffer t.head pizza_string;
  head = (t.head + 1) % max_pizza_count;
  pizza_count = incr t.pizza_count;
}

-- memset, `tail`, and `pizza_count--`
abbrev pub take_pizza : Table → Table
take_pizza t = record t {
  buffer = update t.buffer t.tail no_pizza;
  tail = (t.tail + 1) % max_pizza_count;
  pizza_count = decr t.pizza_count;
}

-- `run_chief`, a step at a time. What stands between taking the table's semaphore and posting it
-- is one step, since nobody else writes to the table meanwhile.
pub data ChiefMove (s : Shared) : Chief → Shared → Chief → Type 0 where
  arrives : 0 < s.table → ChiefMove s arriving (record s { table = s.table - 1 }) entering
  is_counted :
      ChiefMove s entering
        (record s {
          table_data = record s.table_data { chiefs_count = incr s.table_data.chiefs_count };
        })
        entered
  starts_work : ChiefMove s entered (record s { table = s.table + 1 }) (waiting 0)
  gets_place :
      (i : ℕ) → 0 < s.empty → ChiefMove s (waiting i) (record s { empty = s.empty - 1 }) (free i)
  gets_table :
      (i : ℕ) → 0 < s.table → ChiefMove s (free i) (record s { table = s.table - 1 }) (cooking i)
  cooks :
      (i : ℕ)
      → ChiefMove s (cooking i) (record s { table_data = put_pizza s.table_data }) (cooked i)
  frees_table : (i : ℕ) → ChiefMove s (cooked i) (record s { table = s.table + 1 }) (serving i)
  serves : (i : ℕ) → ChiefMove s (serving i) (record s { ready = s.ready + 1 }) (next_round i)
  prepares_to_leave : 0 < s.table → ChiefMove s leaving (record s { table = s.table - 1 }) going
  leaves :
      ChiefMove s going
        (record s {
          table_data = record s.table_data { chiefs_count = decr s.table_data.chiefs_count };
        })
        gone
  goes : ChiefMove s gone (record s { table = s.table + 1 }) finished

-- Before reading `chiefs_count`, before reading `pizza_count`, before each call on a semaphore, or
-- inside the table's lock.
pub data Courier : Type 0 where
  looking no_chiefs trying has_ready giving_back taking bad bad_freed taken freeing : Courier
  ended failed : Courier

-- `run_courier`. The two reads of the loop's test are not protected by the lock.
pub data CourierMove (s : Shared) : Courier → Shared → Courier → Type 0 where
  sees_chiefs : s.table_data.chiefs_count ≢ 0 → CourierMove s looking s trying
  sees_no_chiefs : s.table_data.chiefs_count ≡ 0 → CourierMove s looking s no_chiefs
  sees_pizzas : s.table_data.pizza_count ≢ 0 → CourierMove s no_chiefs s trying
  sees_nothing : s.table_data.pizza_count ≡ 0 → CourierMove s no_chiefs s ended
  tries_again : s.ready ≡ 0 → CourierMove s trying s looking
  gets_ready : 0 < s.ready → CourierMove s trying (record s { ready = s.ready - 1 }) has_ready
  table_busy : s.table ≡ 0 → CourierMove s has_ready s giving_back
  gives_back : CourierMove s giving_back (record s { ready = s.ready + 1 }) looking
  locks_table : 0 < s.table → CourierMove s has_ready (record s { table = s.table - 1 }) taking
  finds_bad : s.table_data.buffer s.table_data.tail ≢ pizza_string → CourierMove s taking s bad
  restores_table : CourierMove s bad (record s { table = s.table + 1 }) bad_freed
  restores_ready : CourierMove s bad_freed (record s { ready = s.ready + 1 }) failed
  takes :
      s.table_data.buffer s.table_data.tail ≡ pizza_string
      → CourierMove s taking (record s { table_data = take_pizza s.table_data }) taken
  unlocks_table : CourierMove s taken (record s { table = s.table + 1 }) freeing
  frees_place : CourierMove s freeing (record s { empty = s.empty + 1 }) looking

-- All processes, by the number that `main` gives them.
pub record Pizzeria : Type 0 where
  pub shared : Shared
  pub chief : ℕ → Chief
  pub courier : ℕ → Courier

-- After the forks of `main`.
abbrev pub start : Pizzeria
start = record {
  shared = record {
    table_data = record {
      buffer = λ i. no_pizza;
      head = 0;
      tail = 0;
      chiefs_count = 0;
      pizza_count = 0;
    };
    table = 1;
    ready = 0;
    empty = max_pizza_count;
  };
  chief = λ i. arriving;
  courier = λ i. looking;
}

-- One of `n` chiefs or of `m` couriers moves. A process whose fork failed never does.
pub data Step (n m : ℕ) (p : Pizzeria) : Pizzeria → Type 0 where
  chief_moves :
      (i : ℕ) {s : Shared} {c : Chief}
      → i < n
      → ChiefMove p.shared (p.chief i) s c
      → Step n m p (record p { shared = s; chief = update p.chief i c })
  courier_moves :
      (i : ℕ) {s : Shared} {c : Courier}
      → i < m
      → CourierMove p.shared (p.courier i) s c
      → Step n m p (record p { shared = s; courier = update p.courier i c })

pub data Reach (n m : ℕ) : Pizzeria → Type 0 where
  here : Reach n m start
  later : {p q : Pizzeria} → Reach n m p → Step n m p q → Reach n m q
