-- ===== src/Examples/Util.antt =====
-- A semaphore with count 1: an operation waits, and an Acquire completes it.
use ncaf.Common.{◌+◌, ◌≡◌, refl, List, [], ◌∷◌, ◌++◌, false}
use ncaf.Common.Int.{pos}
use ncaf.Common.Totals.{occurrences, sum_of}
use ncaf.Util.Semaphore.{
  Cells, Point, Move, System, Reach, begin, later, start, acquire, move, load, wait, take_waiters,
  complete, acquired,
}
use ncaf.Util.Semaphore.Drained.{carried, none_forgotten_when_drained, completed_once}

abbrev one_call : Cells → Point → System
one_call c p = record { cells = c; points = p ∷ [] }

-- The only call moves.
moves :
    {c c' : Cells} {p : Point} {ps : List Point}
    → Reach 1 (one_call c p)
    → Move c p c' ps
    → Reach 1 (record { cells = c'; points = ps ++ [] })
moves r mv = later r (move [] [] refl mv refl)

abbrev waiting : System
waiting = record {
  cells = record {
    count = pos 1;
    locked = false;
    waiters = 5 ∷ [];
    started = 5 ∷ [];
    completed = [];
  };
  points = [];
}

waiting-Reach : Reach 1 waiting
waiting-Reach = moves (moves (later begin (start 5 refl refl)) (load refl refl)) wait

abbrev drained_cells : Cells
drained_cells = record {
  count = pos 0;
  locked = false;
  waiters = [];
  started = 5 ∷ [];
  completed = 5 ∷ [];
}

abbrev done : System
done = record { cells = drained_cells; points = [] }

done-Reach : Reach 1 done
done-Reach =
    moves (moves (moves (later waiting-Reach (acquire 1 refl refl)) (take_waiters refl)) complete)
      acquired

none_forgotten_when_drained_example : done.cells.waiters ≡ []
none_forgotten_when_drained_example = none_forgotten_when_drained done-Reach refl refl

completed_once_example :
    occurrences 5 waiting.cells.started
    ≡ occurrences 5 waiting.cells.completed
      + occurrences 5 waiting.cells.waiters
      + sum_of (carried 5) waiting.points
completed_once_example = completed_once 5 waiting-Reach
