-- ===== src/Lifecycle.antt =====
-- src/ncaf/internal/actor_registry.cc: `ActorRegistry` from its construction to its destruction, and
-- the global default registry with Init, HoldResource and Shutdown.
pub mod Tables
pub mod Global
pub mod Calls
pub mod Starting
use ncaf.Common.{
  ℕ, zero, suc, ◌+◌, ◌-◌, ◌^◌, List, [], ◌∷◌, ◌++◌, Bool, true, false, not, Option, none, some,
  Result, ok, err, ◌>>=◌, ◌>>◌, check, Exception, if◌then◌else◌, already_initialized,
  not_initialized,
}
use ncaf.Common.Dict.{is_some}
use ncaf.Network.{NodeInfo, Zmq, HeartbeatConfig, Broker, make_broker}
use ncaf.Registry.{ActorRef, Processor, is_empty_list, make_processor}

-- The scheduler that a registry hands out: the user's, or its own pool's.
pub data SchedulerChoice : Type 0 where
  custom : (scheduler : ℕ) → SchedulerChoice
  default_pool : (thread_count : ℕ) → SchedulerChoice

pub record ActorRegistry : Type 0 where
  pub is_distributed_mode : Bool
  pub this_node_id : ℕ
  pub scheduler : SchedulerChoice
  pub message_broker : Option Broker
  pub processor : Processor
  pub processor_actor_ref : ActorRef

abbrev pub choose_scheduler : ℕ → Option ℕ → SchedulerChoice
choose_scheduler thread_pool_size none = default_pool thread_pool_size
choose_scheduler thread_pool_size (some scheduler) = custom scheduler

abbrev pub uint64_max : ℕ
uint64_max = 2 ^ 64 - 1

unfoldable pub make_message_broker :
    Zmq → ℕ → List NodeInfo → HeartbeatConfig → ℕ → Result (Option Broker)
make_message_broker zmq this [] config now = ok none
make_message_broker zmq this (node ∷ nodes) config now = do
  b ← make_broker zmq (node ∷ nodes) this config now
  ok (some b)

-- ActorRegistry::ActorRegistry. `processor_address` is where processor_actor_ stands, `now` the
-- clock, `random` what the seeded generator will return.
unfoldable pub make_registry :
    (zmq : Zmq) (thread_pool_size : ℕ) (scheduler : Option ℕ) (this : ℕ) (nodes : List NodeInfo)
    (config : HeartbeatConfig) (now : ℕ) (random : ℕ → ℕ) (processor_address : ℕ)
    → Result ActorRegistry
unfolding make_message_broker
make_registry zmq thread_pool_size scheduler this nodes config now random processor_address = do
  b ← make_message_broker zmq this nodes config now
  p ← make_processor random this nodes
  ok (record {
    is_distributed_mode = not (is_empty_list nodes);
    this_node_id = this;
    scheduler = choose_scheduler thread_pool_size scheduler;
    message_broker = b;
    processor = p;
    processor_actor_ref = record {
      is_empty = false;
      this_node_id = this;
      node_id = this;
      actor_id = uint64_max;
      actor = some processor_address;
    };
  })

-- What ~ActorRegistry does, in order; each waits for its end.
pub data Action : Type 0 where
  cluster_aligned_stop async_destroy_all_actors async_destroy_processor wait_for_tasks : Action

unfoldable pub destroy_registry : ActorRegistry → List Action
destroy_registry r =
    let rest = async_destroy_all_actors ∷ async_destroy_processor ∷ wait_for_tasks ∷ [] in
    if r.is_distributed_mode then cluster_aligned_stop ∷ rest else rest

-- The globals, and at_exit_cleanup_registered. `at_exit_handlers` counts the calls of std::atexit,
-- `actions` and `released` record what was done and the resources that were let go, oldest first.
pub record Globals : Type 0 where
  pub global_default_registry : Option ActorRegistry
  pub resource_holder : List ℕ
  pub at_exit_cleanup_registered : Bool
  pub at_exit_handlers : ℕ
  pub actions : List Action
  pub released : List ℕ

abbrev pub at_start : Globals
at_start = record {
  global_default_registry = none;
  resource_holder = [];
  at_exit_cleanup_registered = false;
  at_exit_handlers = 0;
  actions = [];
  released = [];
}

-- IsGlobalDefaultRegistryInitialized and GetGlobalDefaultRegistry
unfoldable pub is_initialized : Globals → Bool
is_initialized g = is_some g.global_default_registry

unfoldable pub get_global : Globals → Result ActorRegistry
get_global g = elim g.global_default_registry [ none ↦ err not_initialized | some r ↦ ok r ]

-- RegisterAtExitCleanup
unfoldable pub register_at_exit_cleanup : Globals → Globals
register_at_exit_cleanup g =
    if g.at_exit_cleanup_registered
    then g
    else record g { at_exit_cleanup_registered = true; at_exit_handlers = g.at_exit_handlers + 1 }

-- All four of Init; `made` is what the registry's constructor gives.
unfoldable pub init : Result ActorRegistry → Globals → Result Globals
unfolding is_initialized register_at_exit_cleanup
init made g = do
  check (not (is_initialized g)) already_initialized
  r ← made
  ok (register_at_exit_cleanup (record g { global_default_registry = some r }))

unfoldable pub hold_resource : ℕ → Globals → Globals
hold_resource resource g = record g { resource_holder = g.resource_holder ++ (resource ∷ []) }

unfoldable pub shutdown : Globals → Result Globals
unfolding get_global destroy_registry
shutdown g = do
  r ← get_global g
  ok (record g {
    global_default_registry = none;
    actions = g.actions ++ destroy_registry r;
    resource_holder = [];
    released = g.released ++ g.resource_holder;
  })

-- The handler of std::atexit: whether it ends the process by std::quick_exit.
unfoldable pub at_exit : Globals → Bool
unfolding is_initialized
at_exit g = is_initialized g

-- A program's calls, in order. A call that throws leaves the globals as they were.
pub data Call : Type 0 where
  call_init : Result ActorRegistry → Call
  call_hold_resource : ℕ → Call
  call_shutdown : Call

abbrev or_unchanged : Globals → Result Globals → Globals × Bool
or_unchanged g (ok g') = (g', true)
or_unchanged g (err e) = (g, false)

-- The globals after a call, and whether it returned.
unfoldable pub perform : Call → Globals → Globals × Bool
unfolding init hold_resource shutdown
perform (call_init made) g = or_unchanged g (init made g)
perform (call_hold_resource resource) g = (hold_resource resource g, true)
perform call_shutdown g = or_unchanged g (shutdown g)
