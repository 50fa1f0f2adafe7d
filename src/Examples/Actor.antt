-- ===== src/Examples/Actor.antt =====
-- An actor with a budget of one message per activation: a message is executed, and an actor is
-- destroyed.
use ncaf.Common.{◌+◌, ◌*◌, ◌≤◌, ◌≡◌, refl, List, [], ◌∷◌, ◌++◌, true, false, bit, length, arith}
use ncaf.Actor.{
  Cells, Point, Move, System, Reach, start, later, push_message, move, executing, count, cas_win,
  schedule, check_instance, enter_loop, pop,
}
use ncaf.Actor.Tally.{total, inside, in_flight}
use ncaf.Actor.Delivery.{one_at_a_time, in_push_order}
use ncaf.Actor.Executes.{pull_executes}
use ncaf.Actor.Activation.{pull_mailbox_and_run}
use ncaf.Actor.Rest.{Moves, steps, comes_to_rest}

abbrev pub one_call : Cells → Point → System
one_call c p = record { cells = c; points = p ∷ [] }

-- The only call on the actor moves.
moves :
    {c c' : Cells} {p : Point} {ps : List Point}
    → Reach 1 (one_call c p)
    → Move 1 c p c' ps
    → Reach 1 (record { cells = c'; points = ps ++ [] })
moves r mv = later r (move [] [] refl mv refl)

abbrev pub running_cells : Cells
running_cells = record {
  mailbox = [];
  pending_message_count = 1;
  user_class_instance = true;
  activated = true;
  pending_to_be_destroyed = false;
  executed = [];
  pushed = 7 ∷ [];
}

abbrev pub running : System
running = one_call running_cells (executing 7 0)

running-Reach : Reach 1 running
running-Reach =
    moves
      (moves
        (moves
          (moves (moves (moves (later start (push_message 7 refl refl)) count) (cas_win refl))
            schedule)
          (check_instance refl))
        (enter_loop refl))
      (pop refl)

one_at_a_time_example : total inside running.points ≤ bit running.cells.user_class_instance
one_at_a_time_example = one_at_a_time (omega arith) running-Reach

in_push_order_example :
    running.cells.executed ++ (in_flight running.points ++ running.cells.mailbox)
    ≡ running.cells.pushed
in_push_order_example = in_push_order (omega arith) running-Reach

abbrev two_waiting : Cells
two_waiting = record {
  mailbox = 7 ∷ 8 ∷ [];
  pending_message_count = 2;
  user_class_instance = true;
  activated = true;
  pending_to_be_destroyed = false;
  executed = [];
  pushed = 7 ∷ 8 ∷ [];
}

pull_executes_example : pull_mailbox_and_run 1 two_waiting ≡ (
  record two_waiting {
    mailbox = 8 ∷ [];
    pending_message_count = 1;
    activated = false;
    executed = 7 ∷ [];
  },
  true,
)
pull_executes_example = pull_executes 1 two_waiting refl refl

comes_to_rest_example :
    (t : System) × (r : Moves 1 running t) × (steps r
      ≤ 20 * length running.cells.mailbox + 16 * length running.points)
    × (t.points ≡ [])
    × (t.cells.user_class_instance ≡ true → t.cells.executed ≡ running.cells.pushed)
    × (running.cells.pending_to_be_destroyed ≡ false → t.cells.user_class_instance ≡ true)
    × (running.cells.pending_to_be_destroyed ≡ true → t.cells.user_class_instance ≡ false)
comes_to_rest_example = comes_to_rest (omega arith) running-Reach
