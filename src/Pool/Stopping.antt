-- ===== src/Pool/Stopping.antt =====
-- include/ncaf/internal/scheduler.h, WorkSharingThreadPoolBase: the workers once a stop is requested,
-- as its destructor does, which joins them.
use ncaf.Common.{ℕ, ◌+◌, ◌≤◌, ◌≡◌, Bool, true, List, [], ◌∷◌, length}
use ncaf.Pool.{Cells, Worker, looping, popping, holding, stopped, System}
use ncaf.Pool.Progress.{Run, steps}

-- The moves that a worker has left.
abbrev moves_left : Worker → ℕ
moves_left popping = 3
moves_left (holding e) = 2
moves_left looping = 1
moves_left stopped = 0

-- The operations that it can still execute.
abbrev executions_left : Worker → ℕ
executions_left popping = 1
executions_left (holding e) = 1
executions_left looping = 0
executions_left stopped = 0

abbrev pub AllStopped : List Worker → Type 0
AllStopped [] = Unit {0}
AllStopped (w ∷ ws) = (w ≡ stopped) × AllStopped ws

record Fewer (c c' : Cells) (w w' : Worker) : Type 0 where
  asked : c'.stop_requested ≡ true
  moves : moves_left w' + 1 ≤ moves_left w
  executions : length c'.executed + executions_left w' ≤ length c.executed + executions_left w

-- One more step of the workers.
abbrev pub CanMove : Bool → System → Type 0
CanMove by_priority s = (t : System) × (r : Run by_priority s t) × (steps r ≡ 1)
