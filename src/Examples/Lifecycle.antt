-- ===== src/Examples/Lifecycle.antt =====
-- The registry of a cluster of two nodes, and a program's life.
use ncaf.Common.{
  ℕ, ◌+◌, ◌≤◌, ◌≡◌, refl, List, [], ◌∷◌, ◌++◌, true, false, bit, none, some, ok, err, if◌then◌else◌,
  ap, already_initialized, nat_beq, nat_eq,
}
use ncaf.Common.Dict.{is_some, find, put, empty}
use ncaf.Util.LockGuarded.{insert}
use ncaf.Network.{NodeInfo, Broker, default_heartbeat, make_broker, establish_connections}
use ncaf.Network.Connections.{found_local_address}
use ncaf.Registry.{Processor, make_processor, validate_node_info}
use ncaf.Lifecycle.{
  ActorRegistry, default_pool, uint64_max, make_registry, at_exit, call_init, call_hold_resource,
  call_shutdown, Call, Globals, at_start, init, is_initialized, register_at_exit_cleanup,
}
use ncaf.Lifecycle.Global.{run, no_calls, lifecycle}
use ncaf.Lifecycle.Calls.{call_global}
use ncaf.Lifecycle.Tables.{tables_agree}
use ncaf.Lifecycle.Starting.{Start, cluster_with_pool, start_global, all_apart, init_starts}
use ncaf.Examples.Network.{zmq, nodes, broker}
use ncaf.Examples.Registry.{random}

abbrev cluster_processor : Processor
cluster_processor = record {
  is_distributed_mode = true;
  random_num_generator = random;
  this_node_id = 1;
  node_id_to_address = put 2 (20 ∷ []) (put 1 (10 ∷ []) empty);
  actor_id_to_actor = empty;
  actor_name_to_id = empty;
}

abbrev cluster_broker : Broker
cluster_broker = record (broker 1 2) { last_seen = put 2 0 empty }

abbrev cluster : ActorRegistry
cluster = record {
  is_distributed_mode = true;
  this_node_id = 1;
  scheduler = default_pool 4;
  message_broker = some cluster_broker;
  processor = cluster_processor;
  processor_actor_ref = record {
    is_empty = false;
    this_node_id = 1;
    node_id = 1;
    actor_id = uint64_max;
    actor = some 3000;
  };
}

cluster_made : make_registry zmq 4 none 1 nodes default_heartbeat 0 random 3000 ≡ ok cluster
unfolding make_registry establish_connections insert find put validate_node_info make_broker
    make_processor
cluster_made = refl

abbrev other_nodes : List NodeInfo
other_nodes = record { node_id = 2; address = 20 ∷ [] } ∷ []

tables_agree_example :
    (cluster.is_distributed_mode ≡ true)
    × (b : Broker) × (cluster.message_broker ≡ some b)
    × ((j : ℕ)
        → find j b.node_id_to_send_socket
          ≡ (if nat_beq j 1 then none else find j cluster.processor.node_id_to_address))
tables_agree_example =
    tables_agree zmq 4 none 1 (record { node_id = 1; address = 10 ∷ [] }) other_nodes
      default_heartbeat 0 random 3000 {r = cluster} cluster_made

abbrev calls : List Call
calls = call_init (ok cluster) ∷ call_hold_resource 6 ∷ call_shutdown ∷ call_init (ok cluster) ∷ []

lifecycle_example :
    ((run calls no_calls).inits
      ≡ (run calls no_calls).shutdowns + bit (at_exit (run calls no_calls).globals))
    × ((run calls no_calls).globals.released ++ (run calls no_calls).globals.resource_holder
        ≡ (run calls no_calls).held)
    × ((run calls no_calls).globals.at_exit_handlers ≤ 1)
    × (bit (at_exit (run calls no_calls).globals) ≤ (run calls no_calls).globals.at_exit_handlers)
lifecycle_example = lifecycle calls

abbrev running : Globals
running = record at_start {
  global_default_registry = some cluster;
  at_exit_cleanup_registered = true;
  at_exit_handlers = 1;
}

running_started :
    init (make_registry zmq 4 none 1 nodes default_heartbeat 0 random 3000) at_start ≡ ok running
unfolding init is_initialized register_at_exit_cleanup
running_started = ap (λ made. init made at_start) cluster_made

has_1 : found_local_address 1 nodes ≡ true
unfolding found_local_address
has_1 = refl

no_id_twice : all_apart nodes ≡ true
unfolding found_local_address
no_id_twice = refl

init_starts_example :
    let start = cluster_with_pool 4 1 nodes in
    (r : ActorRegistry) × (g' : Globals) × (start_global zmq start 0 random 3000 at_start ≡ ok g')
    × (g'.global_default_registry ≡ some r)
    × (r.scheduler ≡ default_pool 4)
    × (r.this_node_id ≡ 1)
    × (r.is_distributed_mode ≡ true)
    × (is_some r.message_broker ≡ true)
    × (call_global g' ≡ ok 3000)
    × ((again : Start) (later : ℕ)
        → start_global zmq again later random 3000 g' ≡ err already_initialized)
unfolding is_initialized
init_starts_example =
    init_starts zmq (cluster_with_pool 4 1 nodes) 0 random 3000 at_start refl
      (has_1, no_id_twice, (refl, (refl, tt)))
