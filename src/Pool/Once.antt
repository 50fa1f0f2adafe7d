-- ===== src/Pool/Once.antt =====
-- scheduler.h, WorkSharingThreadPoolBase: how often an operation is executed.
use ncaf.Common.{ℕ, zero, suc, ◌+◌, ◌≡◌, refl, ap, [], ◌∷◌, Bool, arith}
use ncaf.Common.Totals.{sum_of, sum_of-append, is_one, occurrences}
use ncaf.Pool.{
  Env, Element, start_element, Cells, Worker, holding, Move, go_on, leave, pop, time_out, execute,
  System, start_workers, enqueue, request_stop, move, Reach, begin, later,
}

-- How often operation `o` is in the hands of a worker.
abbrev pub carried : ℕ → Worker → ℕ
carried o (holding e) = is_one o e.operation
carried o _ = 0

abbrev pub queued : ℕ → Element → ℕ
queued o e = is_one o e.operation

start-operation :
    (by_priority : Bool) (o : ℕ) (env : Env) → (start_element by_priority o env).operation ≡ o
unfolding start_element
start-operation by_priority o env = ground arith

pub Move-account :
    {by_priority : Bool} {c c' : Cells} {w w' : Worker} (o : ℕ)
    → Move by_priority c w c' w'
    → (c'.enqueued ≡ c.enqueued)
      × (occurrences o c'.executed + sum_of (queued o) c'.queue + carried o w'
          ≡ occurrences o c.executed + sum_of (queued o) c.queue + carried o w)
Move-account o (go_on h) = (refl, refl)
Move-account o (leave h) = (refl, refl)
Move-account o (pop before after {e} there top) = (
  refl,
  omega (
    arith,
    ap (sum_of (queued o)) there,
    sum_of-append (queued o) before (e ∷ after),
    sum_of-append (queued o) before after,
  ),
)
Move-account o (time_out h) = (refl, refl)
Move-account {c} o (execute {e}) =
    (refl, omega (arith, sum_of-append (is_one o) c.executed (e.operation ∷ [])))

none_carried : (o n : ℕ) → sum_of (carried o) (start_workers n) ≡ 0
none_carried o zero = refl
none_carried o (suc n) = omega (arith, none_carried o n)

-- In every reachable state of a pool, with any number of workers, each operation was started as often
-- as it was executed, is queued, or is in the hands of a worker: none is lost and none is executed
-- more often than it was started.
pub executed_once :
    {by_priority : Bool} {thread_count : ℕ} {s : System} (o : ℕ)
    → Reach by_priority thread_count s
    → occurrences o s.cells.enqueued
      ≡ occurrences o s.cells.executed
        + sum_of (queued o) s.cells.queue
        + sum_of (carried o) s.workers
executed_once {thread_count} o begin = omega (arith, none_carried o thread_count)
executed_once {by_priority} o (later {s} r (enqueue operation env cells workers)) =
    rw (cells, workers)
      (omega (
        arith,
        executed_once o r,
        sum_of-append (is_one o) s.cells.enqueued (operation ∷ []),
        sum_of-append (queued o) s.cells.queue (start_element by_priority operation env ∷ []),
        ap (is_one o) (start-operation by_priority operation env),
      ))
executed_once o (later r (request_stop cells workers)) = rw (cells, workers) (executed_once o r)
executed_once o (later {s} {t} r (move before after {w} {w'} from mv to)) = omega (
  arith,
  executed_once o r,
  ap (sum_of (carried o)) from,
  ap (sum_of (carried o)) to,
  sum_of-append (carried o) before (w ∷ after),
  sum_of-append (carried o) before (w' ∷ after),
  ap (occurrences o) (Move-account o mv).0,
  (Move-account o mv).1,
)
