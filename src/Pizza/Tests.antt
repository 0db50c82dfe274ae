-- ===== src/Pizza/Tests.antt =====
-- One chief and one courier.
use seminars.Base.{◌≡◌, true, arith}
use seminars.Pizza.{
  Step, Pizzeria, Reach, here, later, chief_moves, courier_moves, arrives, is_counted, starts_work,
  gets_place, gets_table, cooks, waiting, frees_table, serves, taking, sees_chiefs, gets_ready,
  locks_table, pizza_string,
}
use seminars.Pizza.Balance.{IsBalanced, sums}
use seminars.Pizza.Safety.{is_well, couriers_find_pizzas, semaphores-IsBalanced}
use seminars.Pizza.Deadlock.{IsStuck, couriers_gone-IsStuck}

-- A state together with the steps that lead to it.
abbrev At : Type 0
At = (p : Pizzeria) × Reach 1 1 p

abbrev at_work : At
at_work = (
  _,
  later
      (later (later here (chief_moves 0 (omega arith) (arrives (omega arith))))
        (chief_moves 0 (omega arith) is_counted))
      (chief_moves 0 (omega arith) starts_work),
)

abbrev at_table : At
at_table = (
  _,
  later (later at_work.1 (chief_moves 0 (omega arith) (gets_place 0 (omega arith))))
      (chief_moves 0 (omega arith) (gets_table 0 (omega arith))),
)

abbrev served : At
served = (
  _,
  later
      (later (later at_table.1 (chief_moves 0 (omega arith) (cooks 0)))
        (chief_moves 0 (omega arith) (frees_table 0)))
      (chief_moves 0 (omega arith) (serves 0)),
)

abbrev at_pizza : At
at_pizza = (
  _,
  later
      (later (later served.1 (courier_moves 0 (omega arith) (sees_chiefs (λ e. omega (arith, e)))))
        (courier_moves 0 (omega arith) (gets_ready (omega arith))))
      (courier_moves 0 (omega arith) (locks_table (omega arith))),
)

couriers_find_pizzas_example :
    (at_pizza.0.courier 0 ≡ taking
      → at_pizza.0.shared.table_data.buffer at_pizza.0.shared.table_data.tail ≡ pizza_string)
    × (is_well (at_pizza.0.courier 0) ≡ true)
couriers_find_pizzas_example = couriers_find_pizzas (omega arith) at_pizza.1 0 (omega arith)

semaphores-IsBalanced_example :
    IsBalanced at_pizza.0.shared (sums 1 1 at_pizza.0.chief at_pizza.0.courier)
semaphores-IsBalanced_example = semaphores-IsBalanced (omega arith) at_pizza.1

couriers_gone-IsStuck_example :
    (p : Pizzeria) × Reach 1 2 p
    × IsStuck 1 2 p
    × (p.chief 0 ≡ waiting 5)
    × ((q : Pizzeria) → Step 1 2 p q → ⊥)
couriers_gone-IsStuck_example = couriers_gone-IsStuck 2
