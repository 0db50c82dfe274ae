-- ===== src/Pizza/Deadlock.antt =====
-- Couriers who look in before the chiefs have come go home, and leave a chief waiting for a place.
use mathlib.Core.Path.{subst}
use seminars.Base.{ℕ, zero, suc, ◌+◌, ◌-◌, ◌<◌, ◌≤◌, ◌≡◌, refl, ap, sym, arith, update, ℕ_discrete}
use seminars.Pizza.{
  Shared, Chief, waiting, ChiefMove, arrives, is_counted, starts_work, gets_place, gets_table,
  cooks, frees_table, serves, incr, put_pizza, Courier, looking, no_chiefs, ended, CourierMove,
  sees_no_chiefs, sees_nothing, Pizzeria, start, Step, chief_moves, courier_moves, Reach, here,
  later,
}

-- Nobody can move: each chief waits for a place and there is none, and each courier is gone.
pub record IsStuck (n m : ℕ) (p : Pizzeria) : Type 0 where
  pub chiefs : (i : ℕ) → i < n → (j : ℕ) × (p.chief i ≡ waiting j)
  pub no_place : p.shared.empty ≡ 0
  pub couriers : (i : ℕ) → i < m → p.courier i ≡ ended

waiting-blocked :
    {s t : Shared} {c d : Chief} (j : ℕ) → ChiefMove s c t d → c ≡ waiting j → s.empty ≡ 0 → ⊥
waiting-blocked j (gets_place i h) e z = omega arith
waiting-blocked j mv e z = cc

ended-blocked : {s t : Shared} {c d : Courier} → CourierMove s c t d → c ≡ ended → ⊥
ended-blocked (sees_no_chiefs h) e = cc
ended-blocked mv e = cc

-- There is no step from such a state.
pub IsStuck-Step : {n m : ℕ} {p q : Pizzeria} → IsStuck n m p → Step n m p q → ⊥
IsStuck-Step k (chief_moves i lt mv) =
    let (j, at) = k.chiefs i lt in waiting-blocked j mv at k.no_place
IsStuck-Step k (courier_moves i lt mv) = ended-blocked mv (k.couriers i lt)

-- The first `k` couriers have gone and nothing else has happened.
record Gone (m k : ℕ) : Type 0 where
  state : Pizzeria
  reach : Reach 1 m state
  shared : state.shared ≡ start.shared
  chief : state.chief ≡ start.chief
  gone : (i : ℕ) → i < k → state.courier i ≡ ended
  others : (i : ℕ) → k ≤ i → state.courier i ≡ looking

courier_goes :
    {m k : ℕ} (p : Pizzeria)
    → k < m
    → Reach 1 m p
    → p.shared ≡ start.shared
    → p.courier k ≡ looking
    → Reach 1 m (record p { courier = update (update p.courier k no_chiefs) k ended })
courier_goes {m} {k} p lt r same at =
    let no_chief : CourierMove p.shared (p.courier k) p.shared no_chiefs =
      subst (λ c. CourierMove p.shared c p.shared no_chiefs) (sym at)
        (sees_no_chiefs (ap (λ s. s.table_data.chiefs_count) same)) in
    let mid : Pizzeria = record p { courier = update p.courier k no_chiefs } in
    let now : mid.courier k ≡ no_chiefs = ground arith in
    let nothing : CourierMove p.shared (mid.courier k) p.shared ended =
      subst (λ c. CourierMove p.shared c p.shared ended) (sym now)
        (sees_nothing (ap (λ s. s.table_data.pizza_count) same)) in
    later (later r (courier_moves k lt no_chief)) (courier_moves k lt nothing)

couriers_go : (m k : ℕ) → k ≤ m → Gone m k
couriers_go m zero h = record {
  state = start;
  reach = here;
  shared = refl;
  chief = refl;
  gone = λ i lt. absurd (omega arith);
  others = λ i le. refl;
}
couriers_go m (suc k) h =
    let g = couriers_go m k (omega arith) in
    record {
      state = record g.state { courier = update (update g.state.courier k no_chiefs) k ended };
      reach = courier_goes g.state (omega arith) g.reach g.shared (g.others k (omega arith));
      shared = g.shared;
      chief = g.chief;
      gone = λ i lt. elim (ℕ_discrete i k) [
        | yes e ↦ ground arith
        | no ne ↦ ground (arith, g.gone i (omega arith))
      ];
      others = λ i le. ground (arith, g.others i (omega arith));
    }

-- The chief waits for a place for pizza `j`, and all couriers have gone.
record Waits (m j places : ℕ) : Type 0 where
  state : Pizzeria
  reach : Reach 1 m state
  at : state.chief 0 ≡ waiting j
  table_free : state.shared.table ≡ 1
  places_left : state.shared.empty ≡ places
  couriers : (i : ℕ) → i < m → state.courier i ≡ ended

-- One move of the only chief.
chief_moved :
    {m : ℕ} {p : Pizzeria} {c d : Chief} (s : Shared)
    → Reach 1 m p
    → p.chief 0 ≡ c
    → ChiefMove p.shared c s d
    → Reach 1 m (record p { shared = s; chief = update p.chief 0 d })
chief_moved {p} {d} s r at mv =
    later r (chief_moves 0 (omega arith) (subst (λ x. ChiefMove p.shared x s d) (sym at) mv))

chief_arrives : (m : ℕ) → Waits m 0 5
chief_arrives m =
    let g = couriers_go m m (omega arith) in
    let s0 = g.state.shared in
    let s1 : Shared = record s0 { table = s0.table - 1 } in
    let t = s1.table_data in
    let s2 : Shared = record s1 { table_data = record t { chiefs_count = incr t.chiefs_count } } in
    let s3 : Shared = record s2 { table = s2.table + 1 } in
    let open_table : 0 < s0.table = omega (arith, ap (λ s. s.table) g.shared) in
    let r1 = chief_moved s1 g.reach (ap (λ f. f 0) g.chief) (arrives open_table) in
    let r2 = chief_moved s2 r1 refl is_counted in
    let r3 = chief_moved s3 r2 refl starts_work in
    record {
      state = _;
      reach = r3;
      at = refl;
      table_free = omega (arith, ap (λ s. s.table) g.shared);
      places_left = ap (λ s. s.empty) g.shared;
      couriers = g.gone;
    }

chief_cooks : (m j k : ℕ) → j < 9 → Waits m j (suc k) → Waits m (suc j) k
chief_cooks m j k lt w =
    let s0 = w.state.shared in
    let s1 : Shared = record s0 { empty = s0.empty - 1 } in
    let s2 : Shared = record s1 { table = s1.table - 1 } in
    let s3 : Shared = record s2 { table_data = put_pizza s2.table_data } in
    let s4 : Shared = record s3 { table = s3.table + 1 } in
    let s5 : Shared = record s4 { ready = s4.ready + 1 } in
    let r1 = chief_moved s1 w.reach w.at (gets_place j (omega (arith, w.places_left))) in
    let r2 = chief_moved s2 r1 refl (gets_table j (omega (arith, w.table_free))) in
    let r3 = chief_moved s3 r2 refl (cooks j) in
    let r4 = chief_moved s4 r3 refl (frees_table j) in
    let r5 = chief_moved s5 r4 refl (serves j) in
    record {
      state = _;
      reach = r5;
      at = ground arith;
      table_free = omega (arith, w.table_free);
      places_left = omega (arith, w.places_left);
      couriers = w.couriers;
    }

-- With any number of couriers, a chief may be left alone with five pizzas made and five to make:
-- there is a reachable state in which he waits for a place, there is none, all couriers are gone,
-- and no process can take a step.
pub couriers_gone-IsStuck :
    (m : ℕ)
    → (p : Pizzeria) × Reach 1 m p
      × IsStuck 1 m p
      × (p.chief 0 ≡ waiting 5)
      × ((q : Pizzeria) → Step 1 m p q → ⊥)
couriers_gone-IsStuck m =
    let round : (j k : ℕ) → j < 9 → Waits m j (suc k) → Waits m (suc j) k = chief_cooks m in
    let one = round 0 4 (omega arith) (chief_arrives m) in
    let three = round 2 2 (omega arith) (round 1 3 (omega arith) one) in
    let w = round 4 0 (omega arith) (round 3 1 (omega arith) three) in
    let stuck : IsStuck 1 m w.state = record {
      chiefs = λ i lt. (5, only_one w.state i lt w.at);
      no_place = w.places_left;
      couriers = w.couriers;
    } in
    (w.state, w.reach, stuck, w.at, λ q step. IsStuck-Step stuck step)
  where
    only_one : (p : Pizzeria) (i : ℕ) → i < 1 → p.chief 0 ≡ waiting 5 → p.chief i ≡ waiting 5
    only_one p zero lt at = at
    only_one p (suc i) lt at = absurd (omega arith)
