-- ===== src/Network.antt =====
-- include/ncaf/internal/network.h and src/ncaf/internal/network.cc, `MessageBroker`. A zmq socket is
-- named by the node that it is connected to; what is sent is recorded, in order, in `sent`. Times
-- are milliseconds of the steady clock, an argument `now` of each operation that reads it.
pub mod Loops
pub mod Requests
pub mod Sending
pub mod Heartbeats
pub mod Stopping
pub mod Ending
pub mod Sockets
pub mod Sender
pub mod Receiving
pub mod Cluster
pub mod Connections
use ncaf.Common.{
  ℕ, suc, ◌+◌, ◌-◌, ◌%◌, ◌^◌, ◌≡◌, List, [], ◌∷◌, ◌++◌, Bool, true, false, not, ◌&&◌, ◌||◌, length,
  nat_beq, leb, if◌then◌else◌, Option, none, some, Result, ok, err, ◌>>=◌, ◌>>◌, check, or_throw,
  send_failed, latch_underflow, self_send, no_local_address, bind_failed, connect_failed,
  socket_exists, not_two_parts, quit_with_data, invalid_identifier, decode_error, ◌==◌, nat_eq,
}
use ncaf.Common.Dict.{Dict, find, put, erase, empty}
use ncaf.Util.LockGuarded.{insert, at}
use ncaf.Serde.Codec.{Codec}

pub record NodeInfo : Type 0 where
  pub node_id : ℕ
  pub address : List ℕ

pub data MessageFlag : Type 0 where
  normal quit heartbeat : MessageFlag

abbrev pub is_quit : MessageFlag → Bool
is_quit quit = true
is_quit _ = false

abbrev pub is_heartbeat : MessageFlag → Bool
is_heartbeat heartbeat = true
is_heartbeat _ = false

pub record Identifier : Type 0 where
  pub request_node_id : ℕ
  pub response_node_id : ℕ
  pub request_id_in_node : ℕ
  pub flag : MessageFlag

pub record HeartbeatConfig : Type 0 where
  pub heartbeat_timeout : ℕ
  pub heartbeat_interval : ℕ

-- constants.h
abbrev pub default_heartbeat : HeartbeatConfig
default_heartbeat = record { heartbeat_timeout = 5000; heartbeat_interval = 500 }

-- TypeErasedSendOperation and ReplyOperation: an operation is known by its identifier.
pub record Operation : Type 0 where
  pub identifier : Identifier
  pub payload : List ℕ

-- `completed` records the calls of Complete, and `handled` those of request_handler_.
pub record Broker : Type 0 where
  pub node_list : List NodeInfo
  pub this_node_id : ℕ
  pub config : HeartbeatConfig
  pub send_request_id_counter : ℕ
  pub received_request_id_counter : ℕ
  pub node_id_to_send_socket : Dict ℕ (List ℕ)
  pub pending_send_operations : List Operation
  pub send_request_id_to_operation : Dict ℕ Operation
  pub pending_reply_operations : List Operation
  pub received_request_id_to_identifier : Dict ℕ Identifier
  pub stopped : Bool
  pub quit_latch : ℕ
  pub last_heartbeat : ℕ
  pub last_seen : Dict ℕ ℕ
  pub sent : List (ℕ × List (List ℕ))
  pub completed : List (Operation × List ℕ)
  pub handled : List (ℕ × List ℕ)

abbrev pub u64_mod : ℕ
u64_mod = 2 ^ 64

-- Whether zmq can bind a socket to an address, and connect one to it. If not, it throws.
pub record Zmq : Type 0 where
  pub binds : List ℕ → Bool
  pub connects : List ℕ → Bool

-- EstablishConnections: the first loop, with found_local_address.
unfoldable pub bind_local : Zmq → ℕ → List NodeInfo → Result Bool
bind_local zmq this [] = ok false
bind_local zmq this (node ∷ nodes) = elim (nat_beq node.node_id this) [
  | true ↦ do check (zmq.binds node.address) bind_failed; ok true
  | false ↦ bind_local zmq this nodes
]

-- EstablishConnections: the second loop.
unfoldable pub connect_all : Zmq → ℕ → List NodeInfo → Dict ℕ (List ℕ) → Result (Dict ℕ (List ℕ))
connect_all zmq this [] sockets = ok sockets
connect_all zmq this (node ∷ nodes) sockets = elim (nat_beq node.node_id this) [
  | true ↦ connect_all zmq this nodes sockets
  | false ↦ do
    let (sockets', inserted) = insert node.node_id node.address sockets
    check inserted socket_exists
    check (zmq.connects node.address) connect_failed
    connect_all zmq this nodes sockets'
]

unfoldable pub establish_connections : Zmq → ℕ → List NodeInfo → Result (Dict ℕ (List ℕ))
unfolding bind_local connect_all
establish_connections zmq this nodes = do
  found ← bind_local zmq this nodes
  check found no_local_address
  connect_all zmq this nodes empty

-- The constructor's loop over last_seen_: emplace keeps an entry that is there.
unfoldable pub see_all : ℕ → ℕ → List NodeInfo → Dict ℕ ℕ → Dict ℕ ℕ
see_all this now [] seen = seen
see_all this now (node ∷ nodes) seen =
    see_all this now nodes
      (if nat_beq node.node_id this then seen else (insert node.node_id now seen).0)

-- The constructor, up to the start of the threads.
unfoldable pub make_broker : Zmq → List NodeInfo → ℕ → HeartbeatConfig → ℕ → Result Broker
unfolding establish_connections see_all
make_broker zmq nodes this config now = do
  sockets ← establish_connections zmq this nodes
  ok (record {
    node_list = nodes;
    this_node_id = this;
    config = config;
    send_request_id_counter = 0;
    received_request_id_counter = 0;
    node_id_to_send_socket = sockets;
    pending_send_operations = [];
    send_request_id_to_operation = empty;
    pending_reply_operations = [];
    received_request_id_to_identifier = empty;
    stopped = false;
    quit_latch = length nodes;
    last_heartbeat = now;
    last_seen = see_all this now nodes empty;
    sent = [];
    completed = [];
    handled = [];
  })

-- SendRequest: the sender's operation, and the counter moved on.
unfoldable pub send_request : ℕ → List ℕ → MessageFlag → Broker → Result (Operation × Broker)
send_request to payload flag b = do
  check (not (nat_beq to b.this_node_id)) self_send
  ok (
    record {
      identifier = record {
        request_node_id = b.this_node_id;
        response_node_id = to;
        request_id_in_node = b.send_request_id_counter;
        flag = flag;
      };
      payload = payload;
    },
    record b { send_request_id_counter = (b.send_request_id_counter + 1) % u64_mod },
  )

-- PushOperation, which `start` of the operation calls once. The result of Insert is not looked at.
unfoldable pub push_operation : Operation → Broker → Broker
push_operation op b = record b {
  send_request_id_to_operation =
      (insert op.identifier.request_id_in_node op b.send_request_id_to_operation).0;
  pending_send_operations = b.pending_send_operations ++ (op ∷ []);
}

unfoldable pub reply_request : ℕ → List ℕ → Broker → Result Broker
reply_request received_request_id payload b = do
  identifier ← at received_request_id b.received_request_id_to_identifier
  ok (record b {
    received_request_id_to_identifier =
        erase received_request_id b.received_request_id_to_identifier;
    pending_reply_operations =
        b.pending_reply_operations ++ (record { identifier = identifier; payload = payload } ∷ []);
  })
