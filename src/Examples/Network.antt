-- ===== src/Examples/Network.antt =====
-- Two nodes, 1 and 2, with one request from node 1 to node 2.
use ncaf.Common.{
  ℕ, zero, suc, ◌≡◌, refl, ap, List, [], ◌∷◌, ◌++◌, true, false, nat_beq, if◌then◌else◌, Option,
  none, some, ok, err, key_not_found, nat_eq, arith,
}
use ncaf.Common.Dict.{Dict, find, put, empty, find-empty, contains}
use ncaf.Util.LockGuarded.{insert}
use ncaf.Serde.Codec.{Codec}
use ncaf.Network.{
  NodeInfo, MessageFlag, normal, quit, heartbeat, Identifier, Operation, Broker, default_heartbeat,
  push_operation, reply_request, Zmq, establish_connections,
}
use ncaf.Network.Loops.{handle_received_message, send_round}
use ncaf.Network.Requests.{CountersAhead, request_operation, counted, remote_call}
use ncaf.Network.Sending.{send_round_lem, send_wires, reply_wires, completed_by}
use ncaf.Network.Heartbeats.{seen_at}
use ncaf.Network.Receiving.{Heard, heard_rounds, any_silent, receive_loop, receive_loop_lem}

abbrev pub flag_byte : MessageFlag → ℕ
flag_byte normal = 0
flag_byte quit = 1
flag_byte heartbeat = 2

abbrev pub byte_flag : ℕ → MessageFlag
byte_flag zero = normal
byte_flag (suc zero) = quit
byte_flag (suc (suc n)) = heartbeat

abbrev pub write_identifier : Identifier → List ℕ
write_identifier i =
    i.request_node_id ∷ i.response_node_id ∷ i.request_id_in_node ∷ flag_byte i.flag ∷ []

abbrev pub read_identifier : List ℕ → Option Identifier
read_identifier (from ∷ to ∷ id ∷ flag ∷ behind) = some (record {
  request_node_id = from;
  response_node_id = to;
  request_id_in_node = id;
  flag = byte_flag flag;
})
read_identifier bytes = none

pub byte_flag-flag_byte : (f : MessageFlag) → byte_flag (flag_byte f) ≡ f
byte_flag-flag_byte normal = refl
byte_flag-flag_byte quit = refl
byte_flag-flag_byte heartbeat = refl

abbrev pub codec : Codec Identifier
codec = record {
  serialize = write_identifier;
  deserialize = read_identifier;
  deserialize-serialize =
      λ i behind. ap (λ f. some (record i { flag = f })) (byte_flag-flag_byte i.flag);
}

abbrev pub nodes : List NodeInfo
nodes = record { node_id = 1; address = 10 ∷ [] } ∷ record { node_id = 2; address = 20 ∷ [] } ∷ []

-- The broker of node `this`, with a socket for node `other`.
abbrev pub broker : ℕ → ℕ → Broker
broker this other = record {
  node_list = nodes;
  this_node_id = this;
  config = default_heartbeat;
  send_request_id_counter = 0;
  received_request_id_counter = 0;
  node_id_to_send_socket = put other (20 ∷ []) empty;
  pending_send_operations = [];
  send_request_id_to_operation = empty;
  pending_reply_operations = [];
  received_request_id_to_identifier = empty;
  stopped = false;
  quit_latch = 2;
  last_heartbeat = 0;
  last_seen = empty;
  sent = [];
  completed = [];
  handled = [];
}

broker-CountersAhead : (this other : ℕ) → CountersAhead (broker this other)
broker-CountersAhead this other = record {
  send_ahead = λ k h. find-empty k;
  receive_ahead = λ k h. find-empty k;
}

abbrev pub op : Operation
op = request_operation (broker 1 2) 2 (5 ∷ []) normal

abbrev pub requesting : Broker
requesting = push_operation op (counted (broker 1 2))

registered : find 0 requesting.send_request_id_to_operation ≡ some op
unfolding push_operation insert find put
registered = refl

remote_call_example :
    (b₁ b₂ a₁ : Broker) × (handle_received_message codec 3
        (codec.serialize op.identifier ∷ op.payload ∷ [])
        (broker 2 1)
      ≡ ok b₁)
    × (b₁.handled ≡ [] ++ ((0, op.payload) ∷ []))
    × (reply_request 0 (6 ∷ []) b₁ ≡ ok b₂)
    × (b₂.pending_reply_operations
        ≡ [] ++ (record { identifier = op.identifier; payload = 6 ∷ [] } ∷ []))
    × (reply_request 0 (6 ∷ []) b₂ ≡ err key_not_found)
    × (handle_received_message codec 4 (codec.serialize op.identifier ∷ (6 ∷ []) ∷ []) requesting
        ≡ ok a₁)
    × (a₁.completed ≡ [] ++ ((op, 6 ∷ []) ∷ []))
    × ((k : ℕ)
        → find k a₁.send_request_id_to_operation
          ≡ (if nat_beq 0 k then none else find k requesting.send_request_id_to_operation))
unfolding push_operation
remote_call_example =
    remote_call codec requesting (broker 2 1) op (6 ∷ []) 3 4 (broker-CountersAhead 2 1)
      (omega arith) refl refl refl registered

reaches_2 : contains 2 requesting.node_id_to_send_socket ≡ true
unfolding find put push_operation
reaches_2 = refl

send_round_lem_example :
    (b' : Broker) × (send_round codec (λ n. true) 3 requesting ≡ ok b')
    × (b'.sent
        ≡ ([] ++ send_wires codec requesting.pending_send_operations)
          ++ reply_wires codec requesting.pending_reply_operations)
    × (b'.pending_send_operations ≡ [])
    × (b'.pending_reply_operations ≡ [])
    × (b'.completed ≡ [] ++ completed_by requesting.pending_send_operations)
    × (b'.send_request_id_to_operation ≡ requesting.send_request_id_to_operation)
unfolding push_operation
send_round_lem_example =
    send_round_lem codec (λ n. true) 3 requesting (reaches_2, refl, tt) tt (omega arith)

abbrev heard_once : List Heard
heard_once =
    (
      100,
      some (
        150,
        record {
          request_node_id = 2;
          response_node_id = 1;
          request_id_in_node = 4;
          flag = heartbeat;
        },
      ),
    )
    ∷ (6000, none)
    ∷ []

receive_loop_lem_example :
    (b' : Broker) × (receive_loop codec (heard_rounds codec heard_once) (broker 1 2)
      ≡ ok (b', any_silent 1 5000 nodes (seen_at (broker 1 2)) heard_once))
receive_loop_lem_example = receive_loop_lem codec heard_once (broker 1 2)

abbrev pub sockets : Dict ℕ (List ℕ)
sockets = (insert 2 (20 ∷ []) empty).0

abbrev pub zmq : Zmq
zmq = record { binds = λ address. true; connects = λ address. true }

established : establish_connections zmq 1 nodes ≡ ok sockets
unfolding establish_connections insert find
established = refl
