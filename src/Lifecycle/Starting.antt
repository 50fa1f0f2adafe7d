-- ===== src/Lifecycle/Starting.antt =====
-- include/ncaf/internal/actor_registry.h and src/ncaf/internal/actor_registry.cc: the four public
-- constructors of ActorRegistry, and the four forms of Init, which call them.
use ncaf.Common.{
  ℕ, ◌≡◌, refl, ap, ◌∙◌, List, [], ◌∷◌, Bool, true, false, not, ◌&&◌, nat_beq_iff, Option, none,
  some, Result, ok, err, already_initialized, nat_eq, arith,
}
use ncaf.Common.Dict.{Dict, find, put, empty, is_some, find-put, find-empty}
use ncaf.Network.{NodeInfo, HeartbeatConfig, default_heartbeat, Zmq, make_broker}
use ncaf.Network.Connections.{found_local_address, Usable, distinct, establish_connections_returns}
use ncaf.Registry.{validate_node_info, make_processor}
use ncaf.Lifecycle.{
  SchedulerChoice, custom, default_pool, ActorRegistry, choose_scheduler, make_message_broker,
  make_registry, Globals, is_initialized, register_at_exit_cleanup, init,
}
use ncaf.Lifecycle.Calls.{
  call_processor, call_global, call_global_there, call_processor-make_registry,
}

-- The arguments: the size of the pool or the user's scheduler, and of a cluster this node's id and
-- the nodes.
pub data Start : Type 0 where
  with_pool : (thread_pool_size : ℕ) → Start
  with_scheduler : (scheduler : ℕ) → Start
  cluster_with_pool : (thread_pool_size this : ℕ) (nodes : List NodeInfo) → Start
  cluster_with_scheduler : (scheduler this : ℕ) (nodes : List NodeInfo) → Start

-- The constructors; the single node's pass `{}` for the heartbeats.
unfoldable pub construct :
    Zmq
    → Start
    → HeartbeatConfig
    → (now : ℕ) (random : ℕ → ℕ) (processor_address : ℕ) → Result ActorRegistry
construct zmq (with_pool n) config = make_registry zmq n none 0 [] default_heartbeat
construct zmq (with_scheduler s) config = make_registry zmq 0 (some s) 0 [] default_heartbeat
construct zmq (cluster_with_pool n this nodes) config = make_registry zmq n none this nodes config
construct zmq (cluster_with_scheduler s this nodes) config =
    make_registry zmq 0 (some s) this nodes config

-- Init, which leaves the heartbeats at their default.
unfoldable pub start_global :
    Zmq → Start → (now : ℕ) (random : ℕ → ℕ) (processor_address : ℕ) → Globals → Result Globals
unfolding construct
start_global zmq start now random processor_address =
    init (construct zmq start default_heartbeat now random processor_address)

abbrev pub all_apart : List NodeInfo → Bool
all_apart [] = true
all_apart (node ∷ nodes) = not (found_local_address node.node_id nodes) && all_apart nodes

-- A cluster has this node, and no id twice, and zmq can use the addresses.
abbrev pub IsSound : Zmq → Start → Type 0
IsSound zmq (with_pool n) = Unit {0}
IsSound zmq (with_scheduler s) = Unit {0}
IsSound zmq (cluster_with_pool n this nodes) =
    (found_local_address this nodes ≡ true) × (all_apart nodes ≡ true) × Usable zmq this nodes
IsSound zmq (cluster_with_scheduler s this nodes) =
    (found_local_address this nodes ≡ true) × (all_apart nodes ≡ true) × Usable zmq this nodes

abbrev scheduler_of : Start → SchedulerChoice
scheduler_of (with_pool n) = default_pool n
scheduler_of (with_scheduler s) = custom s
scheduler_of (cluster_with_pool n this nodes) = default_pool n
scheduler_of (cluster_with_scheduler s this nodes) = custom s

abbrev node_of : Start → ℕ
node_of (with_pool n) = 0
node_of (with_scheduler s) = 0
node_of (cluster_with_pool n this nodes) = this
node_of (cluster_with_scheduler s this nodes) = this

abbrev is_cluster : Start → Bool
is_cluster (with_pool n) = false
is_cluster (with_scheduler s) = false
is_cluster (cluster_with_pool n this nodes) = true
is_cluster (cluster_with_scheduler s this nodes) = true

all_apart-distinct :
    (this : ℕ) (nodes : List NodeInfo) → all_apart nodes ≡ true → distinct this nodes ≡ true
all_apart-distinct this [] apart = refl
all_apart-distinct this (node ∷ nodes) apart = ground (arith, all_apart-distinct this nodes)

validate_node_info_returns :
    (nodes : List NodeInfo) (known : Dict ℕ (List ℕ))
    → all_apart nodes ≡ true
    → ((j : ℕ) → found_local_address j nodes ≡ true → find j known ≡ none)
    → (d : Dict ℕ (List ℕ)) × (validate_node_info nodes known ≡ ok d)
unfolding validate_node_info found_local_address
validate_node_info_returns [] known apart free = (known, refl)
validate_node_info_returns (node ∷ nodes) known apart free =
    let new : find node.node_id known ≡ none = free node.node_id (ground arith) in
    let (d, done) =
      validate_node_info_returns nodes (put node.node_id node.address known) (ground arith)
        (λ j there. ground (
          arith,
          find-put node.node_id j node.address known,
          free j,
          nat_beq_iff node.node_id j,
        )) in
    (d, ground arith)

-- The constructor gave a registry with this scheduler, node and mode.
abbrev IsMade : Result ActorRegistry → SchedulerChoice → ℕ → Bool → Type 0
IsMade made scheduler this cluster =
    (r : ActorRegistry) × (made ≡ ok r)
    × (r.scheduler ≡ scheduler)
    × (r.this_node_id ≡ this)
    × (r.is_distributed_mode ≡ cluster)
    × (is_some r.message_broker ≡ cluster)

module _ (zmq : Zmq) (n : ℕ) (scheduler : Option ℕ) (this : ℕ) (config : HeartbeatConfig) (now : ℕ)
    (random : ℕ → ℕ) (address : ℕ) where
  single_returns :
      IsMade
        (make_registry zmq n scheduler this [] config now random address)
        (choose_scheduler n scheduler)
        this
        false
  unfolding make_registry make_message_broker make_processor validate_node_info
  single_returns = (_, refl, refl, refl, refl, refl)

  cluster_returns :
      (nodes : List NodeInfo)
      → found_local_address this nodes ≡ true
      → all_apart nodes ≡ true
      → Usable zmq this nodes
      → IsMade
          (make_registry zmq n scheduler this nodes config now random address)
          (choose_scheduler n scheduler)
          this
          true
  unfolding make_registry make_message_broker make_broker make_processor found_local_address
  cluster_returns [] found apart usable = absurd (ground arith)
  cluster_returns (node ∷ nodes) found apart usable =
      let (sockets, connected) =
        establish_connections_returns zmq this (node ∷ nodes) found
          (all_apart-distinct this (node ∷ nodes) apart) usable in
      let (known, valid) =
        validate_node_info_returns (node ∷ nodes) empty apart (λ j there. find-empty j) in
      rw (connected, valid) (_, refl, refl, refl, refl, refl)

construct-IsMade :
    (zmq : Zmq) (start : Start) (now : ℕ) (random : ℕ → ℕ) (address : ℕ)
    → IsSound zmq start
    → IsMade
        (construct zmq start default_heartbeat now random address)
        (scheduler_of start)
        (node_of start)
        (is_cluster start)
unfolding construct
construct-IsMade zmq (with_pool n) now random address sound =
    single_returns zmq n none 0 default_heartbeat now random address
construct-IsMade zmq (with_scheduler s) now random address sound =
    single_returns zmq 0 (some s) 0 default_heartbeat now random address
construct-IsMade zmq (cluster_with_pool n this nodes) now random address (found, apart, usable) =
    cluster_returns zmq n none this default_heartbeat now random address nodes found apart usable
construct-IsMade zmq (cluster_with_scheduler s this nodes) now random address
      (found, apart, usable) =
    cluster_returns zmq 0 (some s) this default_heartbeat now random address nodes found apart
      usable

construct-call_processor :
    (zmq : Zmq) (start : Start) (now : ℕ) (random : ℕ → ℕ) (address : ℕ) (r : ActorRegistry)
    → construct zmq start default_heartbeat now random address ≡ ok r
    → call_processor r ≡ ok address
unfolding construct
construct-call_processor zmq (with_pool n) now random address =
    call_processor-make_registry zmq n none 0 [] default_heartbeat now random address
construct-call_processor zmq (with_scheduler s) now random address =
    call_processor-make_registry zmq 0 (some s) 0 [] default_heartbeat now random address
construct-call_processor zmq (cluster_with_pool n this nodes) now random address =
    call_processor-make_registry zmq n none this nodes default_heartbeat now random address
construct-call_processor zmq (cluster_with_scheduler s this nodes) now random address =
    call_processor-make_registry zmq 0 (some s) this nodes default_heartbeat now random address

init_returns :
    (r : ActorRegistry) (g : Globals)
    → is_initialized g ≡ false
    → (g' : Globals) × (init (ok r) g ≡ ok g') × (g'.global_default_registry ≡ some r)
unfolding init register_at_exit_cleanup
init_returns r g fresh = (
  register_at_exit_cleanup (record g { global_default_registry = some r }),
  ground arith,
  ground arith,
)

init_again :
    (made : Result ActorRegistry) (g : Globals) (r : ActorRegistry)
    → g.global_default_registry ≡ some r
    → init made g ≡ err already_initialized
unfolding init is_initialized
init_again made g r there = ground arith

-- Each form of Init returns when the registry is not there, and a cluster's list has this node and no
-- id twice, and zmq can bind and connect to its addresses: then the registry is there, with the pool's size or the scheduler that was given, on node
-- 0 in single-node mode without a broker, or on this node in distributed mode with one; the global
-- functions reach its processor, and each form of Init throws that it is already initialized.
pub init_starts :
    (zmq : Zmq) (start : Start) (now : ℕ) (random : ℕ → ℕ) (address : ℕ) (g : Globals)
    → is_initialized g ≡ false
    → IsSound zmq start
    → (r : ActorRegistry) × (g' : Globals) × (start_global zmq start now random address g ≡ ok g')
      × (g'.global_default_registry ≡ some r)
      × (r.scheduler ≡ scheduler_of start)
      × (r.this_node_id ≡ node_of start)
      × (r.is_distributed_mode ≡ is_cluster start)
      × (is_some r.message_broker ≡ is_cluster start)
      × (call_global g' ≡ ok address)
      × ((again : Start) (later : ℕ)
          → start_global zmq again later random address g' ≡ err already_initialized)
unfolding start_global
init_starts zmq start now random address g fresh sound =
    let (r, made, scheduler, node, mode, broker) =
      construct-IsMade zmq start now random address sound in
    let (g', done, there) = init_returns r g fresh in
    (
      r,
      g',
      ap (λ m. init m g) made ∙ done,
      there,
      scheduler,
      node,
      mode,
      broker,
      call_global_there g' r there ∙ construct-call_processor zmq start now random address r made,
      λ again later.
          init_again (construct zmq again default_heartbeat later random address) g' r there,
    )
