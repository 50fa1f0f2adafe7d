-- ===== src/Examples/Calls.antt =====
-- An actor whose object is a number: a message adds itself to the number and returns what it was.
use ncaf.Common.{ℕ, ◌+◌, ◌≡◌, refl, List, [], ◌∷◌, ◌++◌, map, false, some, ok, nat_eq, arith}
use ncaf.Actor.{
  Cells, Point, Move, System, init, push_message, move, push_cells, executing, count, cas_win,
  schedule, check_instance, enter_loop, pop, execute_last,
}
use ncaf.Actor
use ncaf.Actor.Tally.{in_flight}
use ncaf.Actor.Calls.{
  set_value, plain, Submission, Object, Reach, start, later, stand, enter, finish,
  execute_submission, call_method,
}
use ncaf.Actor.Calls.Sequential.{sequential, calls_in_sequence}
use ncaf.Examples.Actor.{one_call, running_cells, running}

abbrev submissions : ℕ → Submission ℕ ℕ
submissions msg = record {
  unstoppable = false;
  method = plain (λ object. (object + msg, ok object));
}

abbrev not_begun : System → Object ℕ ℕ
not_begun s = record { system = s; user = 3; copies = []; calls = []; completions = [] }

stands :
    {s t : System}
    → Reach 1 submissions 3 (not_begun s)
    → Actor.Step 1 s t
    → t.cells.executed ≡ s.cells.executed
    → Reach 1 submissions 3 (not_begun t)
stands r st e = later r (stand st e refl refl refl refl)

-- The only call on the actor moves, and executes nothing.
moves :
    {c c' : Cells} {p : Point} {ps : List Point}
    → Reach 1 submissions 3 (not_begun (one_call c p))
    → Move 1 c p c' ps
    → c'.executed ≡ c.executed
    → Reach 1 submissions 3 (not_begun (record { cells = c'; points = ps ++ [] }))
moves r mv e = stands r (move [] [] refl mv refl) e

running-Reach : Reach 1 submissions 3 (not_begun running)
running-Reach =
    moves
      (moves
        (moves
          (moves
            (moves (moves (stands start (push_message 7 refl refl) refl) count refl) (cas_win refl)
              refl)
            schedule refl)
          (check_instance refl) refl)
        (enter_loop refl) refl)
      (pop refl) refl

abbrev entered : Object ℕ ℕ
entered = record (not_begun running) { copies = (7, 3) ∷ [] }

abbrev served : Object ℕ ℕ
served = record {
  system = record {
    cells = record running_cells { executed = 7 ∷ [] };
    points = Point.finished 1 ∷ [];
  };
  user = 10;
  copies = [];
  calls = (7, false) ∷ [];
  completions = some (set_value 3) ∷ [];
}

served-Reach : Reach 1 submissions 3 served
unfolding execute_submission call_method
served-Reach =
    later
      (later {t = entered} running-Reach
        (enter [] [] 7 0 refl (omega arith) refl refl refl refl refl))
      (finish false [] [] [] [] 3 refl (execute_last (omega arith)) refl refl refl refl refl refl)

calls_in_sequence_example :
    (sequential submissions 3 served.calls ≡ (served.user, served.completions))
    × (map (λ call. call.0) served.calls
          ++ (in_flight served.system.points ++ served.system.cells.mailbox)
        ≡ served.system.cells.pushed)
calls_in_sequence_example = calls_in_sequence 1 submissions 3 (omega arith) served-Reach
