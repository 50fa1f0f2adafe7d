-- ===== src/Examples/Pool.antt =====
-- A PriorityThreadPool with one worker.
use ncaf.Common.{
  ℕ, ◌+◌, ◌*◌, ◌≤◌, ◌≡◌, arith, length, refl, List, [], ◌∷◌, true, false, none, some, ok,
}
use ncaf.Common.Totals.{occurrences, sum_of}
use ncaf.Pool.{
  Env, Element, start_element, less, looping, stopped, pop, leave, Cells, System, Reach, begin,
  later, enqueue, schedule_env, connect_union,
}
use ncaf.Pool.Once.{carried, queued, executed_once}
use ncaf.Pool.Order.{Drains, next, empty, IsSorted, drained_in_order}
use ncaf.Pool.Progress.{Run, stay, goes, steps}
use ncaf.Pool.Served.{all_can_be_served}
use ncaf.Pool.Routes.{schedule_routes}
use ncaf.Examples.Registry.{config}

abbrev env : Env
env = record { priority = some 3; scheduler_index = none; stop_token = none }

abbrev first : Element
first = record { operation = 8; priority = 3 }

abbrev second : Element
second = record { operation = 9; priority = 7 }

abbrev queued_one : System
queued_one = record {
  cells = record {
    queue = start_element true 8 env ∷ [];
    stop_requested = false;
    enqueued = 8 ∷ [];
    executed = [];
  };
  workers = looping ∷ [];
}

queued_one-Reach : Reach true 1 queued_one
queued_one-Reach = later begin (enqueue 8 env refl refl)

executed_once_example :
    occurrences 8 queued_one.cells.enqueued
    ≡ occurrences 8 queued_one.cells.executed
      + sum_of (queued 8) queued_one.cells.queue
      + sum_of (carried 8) queued_one.workers
executed_once_example = executed_once 8 queued_one-Reach

abbrev queue_of : List Element → Cells
queue_of q = record { queue = q; stop_requested = false; enqueued = 9 ∷ 8 ∷ []; executed = [] }

drains : Drains (queue_of (second ∷ first ∷ [])) (first ∷ second ∷ [])
unfolding less
drains = next (pop (second ∷ []) [] refl (refl, tt)) (next (pop [] [] refl tt) (empty refl))

drained_in_order_example :
    IsSorted (first ∷ second ∷ [])
    × ((o : ℕ) → sum_of (queued o) (first ∷ second ∷ []) ≡ sum_of (queued o) (second ∷ first ∷ []))
drained_in_order_example = drained_in_order drains

abbrev schedulers : List ℕ
schedulers = 20 ∷ 21 ∷ []

schedule_routes_example :
    (connect_union schedulers (schedule_env config env) ≡ ok 20)
    × (start_element true 8 (schedule_env config env) ≡ record { operation = 8; priority = 0 })
schedule_routes_example = schedule_routes schedulers config env 8

all_can_be_served_example :
    (t : System) × (r : Run true queued_one t) × (steps r
      ≤ 4 * length queued_one.cells.queue + 3 * length queued_one.workers)
    × (t.cells.queue ≡ [])
    × ((o : ℕ) → occurrences o t.cells.executed ≡ occurrences o queued_one.cells.enqueued)
all_can_be_served_example = all_can_be_served (omega arith) queued_one-Reach refl

abbrev asked : Cells
asked = record {
  queue = start_element true 8 env ∷ [];
  stop_requested = true;
  enqueued = 8 ∷ [];
  executed = [];
}

-- Of two workers, the second has left.
abbrev one_left : System
one_left = record { cells = asked; workers = looping ∷ stopped ∷ [] }

abbrev none_left : System
none_left = record { cells = asked; workers = stopped ∷ stopped ∷ [] }

abbrev leaves : Run true one_left none_left
leaves = goes [] (stopped ∷ []) refl (leave refl) refl stay
