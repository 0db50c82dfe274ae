-- ===== src/Pizza/Balance.antt =====
-- What the semaphores and the counters of the table say of the processes, at all times.
use seminars.Base.{
  ℕ, ◌+◌, ◌-◌, ◌%◌, ◌^◌, ◌<◌, ◌≤◌, ◌≡◌, ltb, if◌then◌else◌, arith, sum_of, sum_of-le,
}
use seminars.Pizza.{
  Table, Shared, Chief, arriving, entering, entered, free, cooking, cooked, serving, going, gone,
  finished, ChiefMove, arrives, is_counted, starts_work, gets_place, gets_table, cooks, frees_table,
  serves, prepares_to_leave, leaves, goes, Courier, has_ready, giving_back, taking, bad, bad_freed,
  taken, freeing, CourierMove, sees_chiefs, sees_no_chiefs, sees_pizzas, sees_nothing, tries_again,
  gets_ready, table_busy, gives_back, locks_table, finds_bad, restores_table, restores_ready, takes,
  unlocks_table, frees_place, pizza_string, no_pizza, put_pizza, take_pizza, max_pizza_count,
}

-- Who is inside the table's lock.
abbrev pub chief_at_table : Chief → ℕ
chief_at_table entering = 1
chief_at_table entered = 1
chief_at_table (cooking i) = 1
chief_at_table (cooked i) = 1
chief_at_table going = 1
chief_at_table gone = 1
chief_at_table _ = 0

abbrev pub courier_at_table : Courier → ℕ
courier_at_table taking = 1
courier_at_table bad = 1
courier_at_table taken = 1
courier_at_table _ = 0

-- Who has taken one from a semaphore and not yet posted its counterpart.
abbrev pub chief_has_place : Chief → ℕ
chief_has_place (free i) = 1
chief_has_place (cooking i) = 1
chief_has_place (cooked i) = 1
chief_has_place (serving i) = 1
chief_has_place _ = 0

abbrev pub courier_has_place : Courier → ℕ
courier_has_place has_ready = 1
courier_has_place giving_back = 1
courier_has_place taking = 1
courier_has_place bad = 1
courier_has_place bad_freed = 1
courier_has_place taken = 1
courier_has_place freeing = 1
courier_has_place _ = 0

-- Who stands for a pizza on the table that the semaphore does not count.
abbrev pub chief_has_cooked : Chief → ℕ
chief_has_cooked (cooked i) = 1
chief_has_cooked (serving i) = 1
chief_has_cooked _ = 0

abbrev pub courier_is_promised : Courier → ℕ
courier_is_promised has_ready = 1
courier_is_promised giving_back = 1
courier_is_promised taking = 1
courier_is_promised bad = 1
courier_is_promised bad_freed = 1
courier_is_promised _ = 0

abbrev pub chief_is_present : Chief → ℕ
chief_is_present arriving = 0
chief_is_present entering = 0
chief_is_present gone = 0
chief_is_present finished = 0
chief_is_present _ = 1

-- Sums over the chiefs and the couriers.
pub record Sums : Type 0 where
  pub chiefs_at_table : ℕ
  pub couriers_at_table : ℕ
  pub chiefs_places : ℕ
  pub couriers_places : ℕ
  pub cooked_pizzas : ℕ
  pub promised_pizzas : ℕ
  pub present_chiefs : ℕ

abbrev pub sums : (n m : ℕ) → (ℕ → Chief) → (ℕ → Courier) → Sums
sums n m chief courier = record {
  chiefs_at_table = sum_of chief_at_table n chief;
  couriers_at_table = sum_of courier_at_table m courier;
  chiefs_places = sum_of chief_has_place n chief;
  couriers_places = sum_of courier_has_place m courier;
  cooked_pizzas = sum_of chief_has_cooked n chief;
  promised_pizzas = sum_of courier_is_promised m courier;
  present_chiefs = sum_of chief_is_present n chief;
}

-- The equations between the shared memory and these sums.
pub record IsBalanced (s : Shared) (c : Sums) : Type 0 where
  -- one process at most is inside the lock
  pub lock : s.table + c.chiefs_at_table + c.couriers_at_table ≡ 1
  -- there are five places
  pub places : s.empty + s.ready + c.chiefs_places + c.couriers_places ≡ max_pizza_count
  pub stock : s.table_data.pizza_count ≡ s.ready + c.cooked_pizzas + c.promised_pizzas
  pub present : s.table_data.chiefs_count ≡ c.present_chiefs

-- A chief goes from `p` to `q`.
pub record ChiefSums (p q : Chief) (c d : Sums) : Type 0 where
  pub at_table : d.chiefs_at_table + chief_at_table p ≡ c.chiefs_at_table + chief_at_table q
  pub places : d.chiefs_places + chief_has_place p ≡ c.chiefs_places + chief_has_place q
  pub cooked_pizzas : d.cooked_pizzas + chief_has_cooked p ≡ c.cooked_pizzas + chief_has_cooked q
  pub present : d.present_chiefs + chief_is_present p ≡ c.present_chiefs + chief_is_present q
  pub couriers :
      (d.couriers_at_table ≡ c.couriers_at_table)
      × (d.couriers_places ≡ c.couriers_places)
      × (d.promised_pizzas ≡ c.promised_pizzas)
  -- he counts in the sums himself
  pub cooked_le : c.cooked_pizzas + c.promised_pizzas ≤ c.chiefs_places + c.couriers_places
  pub few : d.present_chiefs < 2 ^ 31

pub ChiefMove-IsBalanced :
    {s t : Shared} {p q : Chief} {c d : Sums}
    → ChiefMove s p t q
    → ChiefSums p q c d
    → IsBalanced s c
    → IsBalanced t d
ChiefMove-IsBalanced (arrives h) k b = ground arith
ChiefMove-IsBalanced is_counted k b = ground arith
ChiefMove-IsBalanced starts_work k b = ground arith
ChiefMove-IsBalanced (gets_place i h) k b = ground arith
ChiefMove-IsBalanced (gets_table i h) k b = ground arith
ChiefMove-IsBalanced (cooks i) k b = ground arith
ChiefMove-IsBalanced (frees_table i) k b = ground arith
ChiefMove-IsBalanced (serves i) k b = ground arith
ChiefMove-IsBalanced (prepares_to_leave h) k b = ground arith
ChiefMove-IsBalanced leaves k b = ground arith
ChiefMove-IsBalanced goes k b = ground arith

-- A courier goes from `p` to `q`.
pub record CourierSums (p q : Courier) (c d : Sums) : Type 0 where
  pub at_table : d.couriers_at_table + courier_at_table p ≡ c.couriers_at_table + courier_at_table q
  pub places : d.couriers_places + courier_has_place p ≡ c.couriers_places + courier_has_place q
  pub promised :
      d.promised_pizzas + courier_is_promised p ≡ c.promised_pizzas + courier_is_promised q
  pub chiefs :
      (d.chiefs_at_table ≡ c.chiefs_at_table)
      × (d.chiefs_places ≡ c.chiefs_places)
      × (d.cooked_pizzas ≡ c.cooked_pizzas)
      × (d.present_chiefs ≡ c.present_chiefs)
  pub cooked_le : c.cooked_pizzas + c.promised_pizzas ≤ c.chiefs_places + c.couriers_places
  pub own : courier_is_promised p ≤ c.promised_pizzas

pub CourierMove-IsBalanced :
    {s t : Shared} {p q : Courier} {c d : Sums}
    → CourierMove s p t q
    → CourierSums p q c d
    → IsBalanced s c
    → IsBalanced t d
CourierMove-IsBalanced (sees_chiefs h) k b = ground arith
CourierMove-IsBalanced (sees_no_chiefs h) k b = ground arith
CourierMove-IsBalanced (sees_pizzas h) k b = ground arith
CourierMove-IsBalanced (sees_nothing h) k b = ground arith
CourierMove-IsBalanced (tries_again h) k b = ground arith
CourierMove-IsBalanced (gets_ready h) k b = ground arith
CourierMove-IsBalanced (table_busy h) k b = ground arith
CourierMove-IsBalanced gives_back k b = ground arith
CourierMove-IsBalanced (locks_table h) k b = ground arith
CourierMove-IsBalanced (finds_bad h) k b = ground arith
CourierMove-IsBalanced restores_table k b = ground arith
CourierMove-IsBalanced restores_ready k b = ground arith
CourierMove-IsBalanced (takes h) k b = ground arith
CourierMove-IsBalanced unlocks_table k b = ground arith
CourierMove-IsBalanced frees_place k b = ground arith

pub cooked-le-places :
    (n m : ℕ) (chief : ℕ → Chief) (courier : ℕ → Courier)
    → sum_of chief_has_cooked n chief + sum_of courier_is_promised m courier
      ≤ sum_of chief_has_place n chief + sum_of courier_has_place m courier
cooked-le-places n m chief courier = omega (
  arith,
  sum_of-le chief_has_cooked chief_has_place n chief (λ c. ground arith),
  sum_of-le courier_is_promised courier_has_place m courier (λ c. ground arith),
)

-- The places that hold a pizza are those from `tail` on, as many as `pizza_count`.
pub record IsRing (t : Table) : Type 0 where
  pub tail_lt : t.tail < max_pizza_count
  pub count_le : t.pizza_count ≤ max_pizza_count
  pub head_lem : t.head ≡ (t.tail + t.pizza_count) % max_pizza_count
  pub places :
      (j : ℕ)
      → j < max_pizza_count
      → t.buffer j ≡ (
          if ltb ((j + max_pizza_count - t.tail) % max_pizza_count) t.pizza_count
          then pizza_string
          else no_pizza)

pub put_pizza-IsRing :
    (t : Table) → t.pizza_count < max_pizza_count → IsRing t → IsRing (put_pizza t)
put_pizza-IsRing t room r = record {
  tail_lt = r.tail_lt;
  count_le = omega (arith, r.count_le);
  head_lem = omega (arith, r.head_lem, r.tail_lt);
  places = λ j lt. ground (arith, r.places j lt, r.head_lem, r.tail_lt);
}

pub take_pizza-IsRing : (t : Table) → 0 < t.pizza_count → IsRing t → IsRing (take_pizza t)
take_pizza-IsRing t some_pizza r = record {
  tail_lt = omega arith;
  count_le = omega (arith, r.count_le);
  head_lem = omega (arith, r.head_lem, r.tail_lt, r.count_le);
  places = λ j lt. ground (arith, r.places j lt, r.tail_lt, r.count_le);
}
