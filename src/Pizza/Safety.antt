-- ===== src/Pizza/Safety.antt =====
-- No pizza is laid on another, and no courier finds a place without a pizza.
use seminars.Base.{
  ℕ, ◌^◌, ◌<◌, ◌≡◌, refl, ap, Bool, true, false, arith, update, sum_of-update, weight-le-sum_of,
  sum_of-zero, sum_of-le_size, sum_of-le, sum_of-lt,
}
use seminars.Pizza.{
  Table, Shared, Chief, cooking, ChiefMove, is_counted, cooks, leaves, Courier, taking, bad,
  bad_freed, failed, CourierMove, finds_bad, restores_table, restores_ready, takes, pizza_string,
  no_pizza, Pizzeria, start, Step, chief_moves, courier_moves, Reach, here, later, max_pizza_count,
}
use seminars.Pizza.Balance.{
  chief_at_table, courier_at_table, chief_has_place, courier_has_place, chief_has_cooked,
  courier_is_promised, chief_is_present, sums, IsBalanced, ChiefSums, ChiefMove-IsBalanced,
  CourierSums, CourierMove-IsBalanced, cooked-le-places, IsRing, put_pizza-IsRing,
  take_pizza-IsRing,
}

-- A courier who has not met a bad pizza.
abbrev pub is_well : Courier → Bool
is_well bad = false
is_well bad_freed = false
is_well failed = false
is_well _ = true

pub record Inv (n m : ℕ) (p : Pizzeria) : Type 0 where
  pub balance : IsBalanced p.shared (sums n m p.chief p.courier)
  pub ring : IsRing p.shared.table_data
  pub well : (i : ℕ) → is_well (p.courier i) ≡ true

-- A chief at the table has a place for his pizza.
cooking-has_room :
    (n m i j : ℕ) (p : Pizzeria)
    → i < n
    → p.chief i ≡ cooking j
    → IsBalanced p.shared (sums n m p.chief p.courier)
    → p.shared.table_data.pizza_count < max_pizza_count
cooking-has_room n m i j p lt at b = omega (
  arith,
  b.stock,
  b.places,
  sum_of-lt chief_has_cooked chief_has_place n i p.chief lt (ground arith) (λ c. ground arith),
  sum_of-le courier_is_promised courier_has_place m p.courier (λ c. ground arith),
)

taking-has_pizza :
    (n m i : ℕ) (p : Pizzeria)
    → i < m
    → p.courier i ≡ taking
    → IsBalanced p.shared (sums n m p.chief p.courier)
    → 0 < p.shared.table_data.pizza_count
taking-has_pizza n m i p lt at b = omega (
  arith,
  b.stock,
  weight-le-sum_of courier_is_promised m i p.courier lt,
  ap courier_is_promised at,
)

-- The place that the couriers take next holds a pizza, and the chiefs' next place none.
ring-tail : (t : Table) → IsRing t → 0 < t.pizza_count → t.buffer t.tail ≡ pizza_string
ring-tail t r some_pizza = ground (arith, r.places t.tail r.tail_lt)

ring-head : (t : Table) → IsRing t → t.pizza_count < max_pizza_count → t.buffer t.head ≡ no_pizza
ring-head t r room =
    ground (arith, r.places t.head (omega (arith, r.head_lem)), r.head_lem, r.tail_lt)

-- The sums after a chief or a courier has moved.
chief-ChiefSums :
    (n m i : ℕ) (p : Pizzeria) (q : Chief)
    → i < n
    → n < 2 ^ 31
    → ChiefSums (p.chief i) q (sums n m p.chief p.courier) (sums n m (update p.chief i q) p.courier)
chief-ChiefSums n m i p q lt few = record {
  at_table = sum_of-update chief_at_table n i p.chief q lt;
  places = sum_of-update chief_has_place n i p.chief q lt;
  cooked_pizzas = sum_of-update chief_has_cooked n i p.chief q lt;
  present = sum_of-update chief_is_present n i p.chief q lt;
  couriers = (refl, refl, refl);
  cooked_le = cooked-le-places n m p.chief p.courier;
  few = omega (arith, sum_of-le_size chief_is_present n (update p.chief i q) (λ c. ground arith));
}

courier-CourierSums :
    (n m i : ℕ) (p : Pizzeria) (q : Courier)
    → i < m
    → CourierSums
        (p.courier i)
        q
        (sums n m p.chief p.courier)
        (sums n m p.chief (update p.courier i q))
courier-CourierSums n m i p q lt = record {
  at_table = sum_of-update courier_at_table m i p.courier q lt;
  places = sum_of-update courier_has_place m i p.courier q lt;
  promised = sum_of-update courier_is_promised m i p.courier q lt;
  chiefs = (refl, refl, refl, refl);
  cooked_le = cooked-le-places n m p.chief p.courier;
  own = weight-le-sum_of courier_is_promised m i p.courier lt;
}

counted : {t : Table} → IsRing t → (count : ℕ) → IsRing (record t { chiefs_count = count })
counted r count = record {
  tail_lt = r.tail_lt;
  count_le = r.count_le;
  head_lem = r.head_lem;
  places = r.places;
}

-- What a move does to the ring; only two moves change it.
ChiefMove-IsRing :
    {s t : Shared} {p q : Chief}
    → ChiefMove s p t q
    → ((j : ℕ) → p ≡ cooking j → s.table_data.pizza_count < max_pizza_count)
    → IsRing s.table_data
    → IsRing t.table_data
ChiefMove-IsRing {s} (cooks i) room r = put_pizza-IsRing s.table_data (room i refl) r
ChiefMove-IsRing is_counted room r = counted r _
ChiefMove-IsRing leaves room r = counted r _
ChiefMove-IsRing mv room r = r

CourierMove-IsRing :
    {s t : Shared} {p q : Courier}
    → CourierMove s p t q
    → (p ≡ taking → 0 < s.table_data.pizza_count)
    → IsRing s.table_data
    → IsRing t.table_data
CourierMove-IsRing {s} (takes h) some_pizza r = take_pizza-IsRing s.table_data (some_pizza refl) r
CourierMove-IsRing mv some_pizza r = r

CourierMove-is_well :
    {s t : Shared} {p q : Courier}
    → CourierMove s p t q
    → (p ≡ taking → 0 < s.table_data.pizza_count)
    → IsRing s.table_data
    → is_well p ≡ true
    → is_well q ≡ true
CourierMove-is_well {s} (finds_bad h) some_pizza r w =
    absurd (h (ring-tail s.table_data r (some_pizza refl)))
CourierMove-is_well restores_table some_pizza r w = w
CourierMove-is_well restores_ready some_pizza r w = w
CourierMove-is_well mv some_pizza r w = refl

Step-Inv : {n m : ℕ} {p q : Pizzeria} → n < 2 ^ 31 → Step n m p q → Inv n m p → Inv n m q
Step-Inv {n} {m} {p} few (chief_moves i {c} lt mv) inv = record {
  balance = ChiefMove-IsBalanced mv (chief-ChiefSums n m i p c lt few) inv.balance;
  ring = ChiefMove-IsRing mv (λ j at. cooking-has_room n m i j p lt at inv.balance) inv.ring;
  well = inv.well;
}
Step-Inv {n} {m} {p} few (courier_moves i {c} lt mv) inv =
    let some_pizza = λ (at : p.courier i ≡ taking). taking-has_pizza n m i p lt at inv.balance in
    let well : is_well c ≡ true = CourierMove-is_well mv some_pizza inv.ring (inv.well i) in
    record {
      balance = CourierMove-IsBalanced mv (courier-CourierSums n m i p c lt) inv.balance;
      ring = CourierMove-IsRing mv some_pizza inv.ring;
      well = λ j. ground (arith, well, inv.well j);
    }

start-Inv : (n m : ℕ) → Inv n m start
start-Inv n m = record {
  balance = record {
    lock = omega (
      arith,
      sum_of-zero chief_at_table n start.chief (λ i. refl),
      sum_of-zero courier_at_table m start.courier (λ i. refl),
    );
    places = omega (
      arith,
      sum_of-zero chief_has_place n start.chief (λ i. refl),
      sum_of-zero courier_has_place m start.courier (λ i. refl),
    );
    stock = omega (
      arith,
      sum_of-zero chief_has_cooked n start.chief (λ i. refl),
      sum_of-zero courier_is_promised m start.courier (λ i. refl),
    );
    present = omega (arith, sum_of-zero chief_is_present n start.chief (λ i. refl));
  };
  ring = record {
    tail_lt = omega arith;
    count_le = omega arith;
    head_lem = refl;
    places = λ j lt. ground arith;
  };
  well = λ i. refl;
}

Reach-Inv : {n m : ℕ} {p : Pizzeria} → n < 2 ^ 31 → Reach n m p → Inv n m p
Reach-Inv {n} {m} few here = start-Inv n m
Reach-Inv few (later r st) = Step-Inv few st (Reach-Inv few r)

-- With less than 2^31 chiefs, in every reachable state, a chief who is about to lay a pizza on the
-- table finds the place at the head blank, and there are less than five pizzas.
cooks_on_free_place :
    {n m : ℕ} {p : Pizzeria}
    → n < 2 ^ 31
    → Reach n m p
    → (i j : ℕ) → i < n
    → p.chief i ≡ cooking j
    → (p.shared.table_data.buffer p.shared.table_data.head ≡ no_pizza)
      × (p.shared.table_data.pizza_count < max_pizza_count)
cooks_on_free_place {n} {m} {p} few r i j lt at =
    let inv = Reach-Inv few r in
    let room = cooking-has_room n m i j p lt at inv.balance in
    (ring-head p.shared.table_data inv.ring room, room)

-- With less than 2^31 chiefs, in every reachable state, a courier who looks at the place at the
-- tail finds a pizza there, and no courier has failed or is about to.
pub couriers_find_pizzas :
    {n m : ℕ} {p : Pizzeria}
    → n < 2 ^ 31
    → Reach n m p
    → (i : ℕ) → i < m
    → (p.courier i ≡ taking → p.shared.table_data.buffer p.shared.table_data.tail ≡ pizza_string)
      × (is_well (p.courier i) ≡ true)
couriers_find_pizzas {n} {m} {p} few r i lt =
    let inv = Reach-Inv few r in
    (
      λ at. ring-tail p.shared.table_data inv.ring (taking-has_pizza n m i p lt at inv.balance),
      inv.well i,
    )

-- With less than 2^31 chiefs, in every reachable state: the table's semaphore and the processes
-- inside its lock are one together; the free places, the ready pizzas and those who hold one of
-- them are five together; `pizza_count` is what `ready` counts and the pizzas on their way between
-- the table and the semaphore; `chiefs_count` is the number of the chiefs who have arrived and not left.
pub semaphores-IsBalanced :
    {n m : ℕ} {p : Pizzeria}
    → n < 2 ^ 31
    → Reach n m p
    → IsBalanced p.shared (sums n m p.chief p.courier)
semaphores-IsBalanced few r = (Reach-Inv few r).balance
