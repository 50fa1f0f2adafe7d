-- ===== src/Examples/Ending.antt =====
-- Node 1 of two stops, after node 2 asked it to quit.
use ncaf.Common.{ℕ, ◌≡◌, refl, List, [], ◌∷◌, Bool, true, false, ok, nat_eq}
use ncaf.Common.Totals.{sum_of}
use ncaf.Common.Dict.{find, put, empty}
use ncaf.Util.LockGuarded.{at, insert}
use ncaf.Network.{
  MessageFlag, quit, heartbeat, Operation, Broker, default_heartbeat, make_broker,
  establish_connections, send_request, push_operation,
}
use ncaf.Network.Loops.{
  count_down, check_heartbeat, complete_sent, transmit, dispatch, handle_received_message,
}
use ncaf.Network.Ending.{
  waiting, returned, beating, Sender, Receiver, System, in_scope, call, spawn_quit, skip_this,
  all_asked, count, wake, store, on_empty, stop_send, stop_recv, join_send, join_recv, end_send,
  go_on_send, pop, send, drained, replied, beat, skip_beat, spawn_heartbeat, all_beaten, end_recv,
  go_on_recv, handle, begin, Reach, start, later,
}
use ncaf.Network.Ending.Asked.{quit_to, others}
use ncaf.Network.Ending.Returned.{stop_returns_clean}
use ncaf.Network.Ending.Ready.{Run, BeatsTo}
use ncaf.Network.Sockets.{HasSocket}
use ncaf.Network.Ending.Liveness.{stop_can_return}
use ncaf.Examples.Network.{zmq, codec, nodes, broker}

abbrev fresh : Broker
fresh = record (broker 1 2) { last_seen = put 2 0 empty }

abbrev accepts : ℕ → Bool
accepts node = true

fresh_made : make_broker zmq nodes 1 default_heartbeat 0 ≡ ok fresh
unfolding make_broker establish_connections insert find put
fresh_made = refl

-- The quit of node 2.
abbrev asks_to_quit : List (List ℕ)
asks_to_quit =
    codec.serialize
      (record { request_node_id = 2; response_node_id = 1; request_id_in_node = 0; flag = quit })
    ∷ []
    ∷ []

abbrev asked : ℕ → MessageFlag → Operation
asked id flag = record {
  identifier = record {
    request_node_id = 1;
    response_node_id = 2;
    request_id_in_node = id;
    flag = flag;
  };
  payload = [];
}

-- The quit is sent, and node 2 has asked to quit.
abbrev after_quits : Broker
after_quits = record fresh {
  send_request_id_counter = 1;
  send_request_id_to_operation = put 0 (asked 0 quit) empty;
  quit_latch = 0;
  last_heartbeat = 5;
  last_seen = put 2 0 (put 2 0 empty);
  sent = (2, codec.serialize (asked 0 quit).identifier ∷ [] ∷ []) ∷ [];
  completed = (asked 0 quit, []) ∷ [];
}

-- The sending thread has found that a heartbeat is due and that the broker is not stopped.
abbrev waits : System
waits = record {
  broker = after_quits;
  scope = 0;
  send_stop = false;
  recv_stop = false;
  main = waiting;
  sender = beating nodes;
  receiver = Receiver.at_top;
  transmitted = asked 0 quit ∷ [];
}

-- The heartbeat was spawned when the stop was at its join.
abbrev over : System
over = record {
  broker = record after_quits {
    send_request_id_counter = 2;
    pending_send_operations = asked 1 heartbeat ∷ [];
    send_request_id_to_operation = put 1 (asked 1 heartbeat) (put 0 (asked 0 quit) empty);
    last_heartbeat = 1000;
    stopped = true;
  };
  scope = 1;
  send_stop = true;
  recv_stop = true;
  main = returned;
  sender = Sender.ended;
  receiver = Receiver.ended;
  transmitted = asked 0 quit ∷ [];
}

waits-Reach : Reach codec accepts nodes 1 waits
unfolding send_request push_operation transmit at find put complete_sent count_down check_heartbeat
    insert handle_received_message dispatch
waits-Reach =
    let r₀ : Reach codec accepts nodes 1 (begin fresh) = start zmq default_heartbeat 0 fresh_made in
    let r₁ =
      later (later (later r₀ (call refl)) (skip_this refl refl)) (spawn_quit refl refl refl) in
    let r₂ = later (later (later r₁ (all_asked refl)) (go_on_send refl refl)) (pop refl refl) in
    let r₃ = later (later (later r₂ (send 5 refl refl)) (drained refl)) (replied refl) in
    let r₄ = later (later r₃ (beat 1000 refl refl)) (count refl refl) in
    later (later r₄ (go_on_recv 0 refl refl refl)) (handle 0 asks_to_quit refl refl)

over-Reach : Reach codec accepts nodes 1 over
unfolding send_request push_operation insert find put
over-Reach =
    let r₁ = later (later (later waits-Reach (wake refl refl)) (store refl)) (on_empty refl refl) in
    let r₂ = later (later r₁ (stop_send refl)) (stop_recv refl) in
    let r₃ = later (later r₂ (skip_beat refl refl)) (spawn_heartbeat 1000 refl refl refl) in
    let r₄ = later (later (later r₃ (all_beaten refl)) (end_send refl refl)) (end_recv refl refl) in
    later (later r₄ (join_send refl refl)) (join_recv refl refl)

stop_returns_clean_example :
    (over.sender ≡ Sender.ended)
    × (over.receiver ≡ Receiver.ended)
    × (over.broker.quit_latch ≡ 0)
    × (over.broker.stopped ≡ true)
    × ((j : ℕ) → sum_of (quit_to j) over.transmitted ≡ others 1 j nodes)
    × (over.scope ≡ sum_of in_scope over.broker.pending_send_operations)
    × ((j : ℕ) → sum_of (quit_to j) over.broker.pending_send_operations ≡ 0)
stop_returns_clean_example = stop_returns_clean codec accepts nodes 1 over-Reach refl

socket_2 : HasSocket fresh.node_id_to_send_socket 2
unfolding find put
socket_2 = (20 ∷ [], refl)

BeatsTo-2 : BeatsTo fresh.node_id_to_send_socket 1 nodes
BeatsTo-2 = ((λ h. cc), ((λ h. socket_2), tt))

stop_can_return_example : (t : System) × Run codec accepts waits t × (t.main ≡ returned)
stop_can_return_example =
    stop_can_return codec accepts nodes 1 (λ node. refl) waits-Reach refl refl tt tt BeatsTo-2
