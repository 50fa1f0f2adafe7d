-- ===== src/Pool.antt =====
-- include/ncaf/internal/scheduler.h, `WorkSharingThreadPoolBase` and `SchedulerUnion`, with the queues
-- of util.h that the pools use; actor_config.h, the queries of a receiver's environment; and actor.h,
-- `AnyStdExecScheduler::Schedule`, which fills that environment.
pub mod Once
pub mod Order
pub mod Routes
pub mod Progress
pub mod Served
pub mod Stopping
use ncaf.Common.{
  ℕ, zero, suc, ◌-◌, ◌^◌, ◌<◌, ◌≤◌, ◌≡◌, Bool, true, false, List, [], ◌∷◌, ◌++◌, length, get_elem?,
  ltb, Option, none, some, Result, ok, err, ◌>>=◌, ◌>>◌, check, or_throw, no_scheduler,
  scheduler_index_out_of_range, out_of_bounds,
}
use ncaf.Registry.{ActorConfig}

-- What an operation reads of its receiver's environment; `stop_token` is `none` if it is unstoppable,
-- else whether a stop was requested.
pub record Env : Type 0 where
  pub priority : Option ℕ
  pub scheduler_index : Option ℕ
  pub stop_token : Option Bool

abbrev pub uint32_max : ℕ
uint32_max = 2 ^ 32 - 1

abbrev pub value_or : ℕ → Option ℕ → ℕ
value_or default none = default
value_or default (some n) = n

-- get_priority_t and get_scheduler_index_t
unfoldable pub get_priority : Env → ℕ
get_priority env = value_or uint32_max env.priority

unfoldable pub get_scheduler_index : Env → ℕ
get_scheduler_index env = value_or 0 env.scheduler_index

-- AnyStdExecScheduler::Schedule: what its sender writes to the environment.
unfoldable pub schedule_env : ActorConfig → Env → Env
schedule_env config env = record env {
  priority = some config.priority;
  scheduler_index = some config.scheduler_index;
}

-- The signal that Operation::Execute completes its receiver with.
pub data Signal : Type 0 where
  set_value set_stopped : Signal

unfoldable pub execute_signal : Env → Signal
execute_signal env = elim env.stop_token [ some true ↦ set_stopped | _ ↦ set_value ]

-- An operation in a queue; UnboundedBlockingQueue keeps no priority.
pub record Element : Type 0 where
  pub operation : ℕ
  pub priority : ℕ

-- Operation::start; `by_priority` tells that the pool is a PriorityThreadPool.
unfoldable pub start_element : Bool → ℕ → Env → Element
unfolding get_priority
start_element true operation env = record { operation = operation; priority = get_priority env }
start_element false operation env = record { operation = operation; priority = uint32_max }

-- Element's operator<
unfoldable pub less : Element → Element → Bool
less lhs rhs = ltb rhs.priority lhs.priority

-- No element of the list is above `e`.
abbrev pub IsTop : Element → List Element → Type 0
IsTop e [] = Unit {0}
IsTop e (x ∷ xs) = (less e x ≡ false) × IsTop e xs

-- What a queue may pop: std::priority_queue an element that no other is above, the blocking queue of
-- several producers any that it holds.
abbrev pub Poppable : Bool → Element → List Element → Type 0
Poppable true e others = IsTop e others
Poppable false e others = Unit {0}

pub record Cells : Type 0 where
  pub queue : List Element
  pub stop_requested : Bool
  pub enqueued : List ℕ  -- no member: the operations that were started
  pub executed : List ℕ  -- no member: those that were executed, oldest first

-- Where a worker stands in WorkerThreadLoop.
pub data Worker : Type 0 where
  looping : Worker  -- before stop_requested()
  popping : Worker  -- in queue_.Pop
  holding : (e : Element) → Worker  -- before Execute()
  stopped : Worker

-- A worker moves. A pop may time out; the priority queue's does so only when it is empty.
pub data Move (by_priority : Bool) (c : Cells) : Worker → Cells → Worker → Type 0 where
  go_on : c.stop_requested ≡ false → Move by_priority c looping c popping
  leave : c.stop_requested ≡ true → Move by_priority c looping c stopped
  pop :
      (before after : List Element) {e : Element}
      → c.queue ≡ before ++ (e ∷ after)
      → Poppable by_priority e (before ++ after)
      → Move by_priority c popping (record c { queue = before ++ after }) (holding e)
  time_out : (by_priority ≡ true → c.queue ≡ []) → Move by_priority c popping c looping
  execute :
      {e : Element}
      → Move by_priority c
          (holding e)
          (record c { executed = c.executed ++ (e.operation ∷ []) })
          looping

pub record System : Type 0 where
  pub cells : Cells
  pub workers : List Worker

-- StartWorkers
abbrev pub start_workers : ℕ → List Worker
start_workers zero = []
start_workers (suc n) = looping ∷ start_workers n

abbrev pub init : ℕ → System
init thread_count = record {
  cells = record { queue = []; stop_requested = false; enqueued = []; executed = [] };
  workers = start_workers thread_count;
}

pub data Step (by_priority : Bool) (s t : System) : Type 0 where
  enqueue :
      (operation : ℕ) (env : Env)
      → t.cells ≡ record (s.cells) {
        queue = s.cells.queue ++ (start_element by_priority operation env ∷ []);
        enqueued = s.cells.enqueued ++ (operation ∷ []);
      }
      → t.workers ≡ s.workers
      → Step by_priority s t
  request_stop :
      t.cells ≡ record (s.cells) { stop_requested = true }
      → t.workers ≡ s.workers
      → Step by_priority s t
  move :
      (before after : List Worker) {w w' : Worker}
      → s.workers ≡ before ++ (w ∷ after)
      → Move by_priority s.cells w t.cells w'
      → t.workers ≡ before ++ (w' ∷ after)
      → Step by_priority s t

pub data Reach (by_priority : Bool) (thread_count : ℕ) : System → Type 0 where
  begin : Reach by_priority thread_count (init thread_count)
  later :
      {s t : System}
      → Reach by_priority thread_count s
      → Step by_priority s t
      → Reach by_priority thread_count t

-- SchedulerUnion
unfoldable pub make_union : {S : Type 0} → List S → Result (List S)
make_union schedulers = do check (ltb 0 (length schedulers)) no_scheduler; ok schedulers

-- Its Sender::connect, up to the connect of the scheduler that it chooses. An index that is out of
-- range would be undefined behaviour.
unfoldable pub connect_union : {S : Type 0} → List S → Env → Result S
unfolding get_scheduler_index
connect_union schedulers env = do
  check (ltb (get_scheduler_index env) (length schedulers)) scheduler_index_out_of_range
  or_throw (get_elem? schedulers (get_scheduler_index env)) out_of_bounds
