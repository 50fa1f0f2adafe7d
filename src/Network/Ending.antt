-- ===== src/Network/Ending.antt =====
-- src/ncaf/internal/network.cc: ClusterAlignedStop beside the broker's two threads, each of their
-- accesses to what they share a step, and other threads that ask and reply meanwhile. A throw in one
-- of the broker's threads ends the process, so such a step is not there.
pub mod Kept
pub mod Invariant
pub mod Asked
pub mod Returned
pub mod Ready
pub mod Progress
pub mod Liveness
use ncaf.Common.{
  ℕ, ◌+◌, ◌-◌, ◌≡◌, List, [], ◌∷◌, ◌++◌, Bool, true, false, not, ◌&&◌, ◌||◌, nat_beq, leb,
  if◌then◌else◌, ok, nat_eq,
}
use ncaf.Serde.Codec.{Codec}
use ncaf.Network.{
  NodeInfo, normal, quit, heartbeat, is_quit, is_heartbeat, Identifier, Operation, Broker,
  send_request, push_operation, reply_request, HeartbeatConfig, Zmq, make_broker,
}
use ncaf.Network.Heartbeats.{is_due}
use ncaf.Network.Loops.{
  count_down, check_heartbeat, complete_sent, transmit, handle_received_message,
}

-- Where the thread that calls ClusterAlignedStop, or ~MessageBroker, stands.
pub data Main : Type 0 where
  running : Main  -- before the call
  quitting : (left : List NodeInfo) → Main  -- in the loop
  counting waiting : Main  -- before count_down, and in wait
  storing : Main  -- before stopped_.store(true)
  emptying : Main  -- before on_empty
  stopping_send stopping_recv : Main  -- before the requests
  joining_send joining_recv returned : Main

-- Where SendProcessLoop stands.
pub data Sender : Type 0 where
  at_top draining : Sender
  sending : (operation : Operation) → Sender
  replying : Sender
  sending_reply : (operation : Operation) → Sender
  checking : Sender  -- before the test of SendHeartbeat
  beating : (left : List NodeInfo) → Sender  -- in its loop
  ended : Sender

-- Where ReceiveProcessLoop stands.
pub data Receiver : Type 0 where
  at_top receiving ended : Receiver

-- `scope` counts what async_scope_ has spawned and is not completed. `transmitted` is no member: it
-- records what SendProcessLoop took from its first queue and handed to zmq, oldest first.
pub record System : Type 0 where
  pub broker : Broker
  pub scope : ℕ
  pub send_stop : Bool
  pub recv_stop : Bool
  pub main : Main
  pub sender : Sender
  pub receiver : Receiver
  pub transmitted : List Operation

abbrev pub in_scope : Operation → ℕ
in_scope op = if is_quit op.identifier.flag || is_heartbeat op.identifier.flag then 1 else 0

pub data Step (codec : Codec Identifier) (accepts : ℕ → Bool) (s : System) : System → Type 0 where
  call : s.main ≡ running → Step codec accepts s (record s { main = quitting s.broker.node_list })
  spawn_quit :
      {node : NodeInfo} {nodes : List NodeInfo} {op : Operation} {b : Broker}
      → s.main ≡ quitting (node ∷ nodes)
      → nat_beq node.node_id s.broker.this_node_id ≡ false
      → send_request node.node_id [] quit s.broker ≡ ok (op, b)
      → Step codec accepts s
          (record s { broker = push_operation op b; scope = s.scope + 1; main = quitting nodes })
  skip_this :
      {node : NodeInfo} {nodes : List NodeInfo}
      → s.main ≡ quitting (node ∷ nodes)
      → nat_beq node.node_id s.broker.this_node_id ≡ true
      → Step codec accepts s (record s { main = quitting nodes })
  all_asked : s.main ≡ quitting [] → Step codec accepts s (record s { main = counting })
  count :
      {b : Broker}
      → s.main ≡ counting
      → count_down s.broker ≡ ok b
      → Step codec accepts s (record s { broker = b; main = waiting })
  wake :
      s.main ≡ waiting
      → s.broker.quit_latch ≡ 0
      → Step codec accepts s (record s { main = storing })
  store :
      s.main ≡ storing
      → Step codec accepts s
          (record s { broker = record (s.broker) { stopped = true }; main = emptying })
  on_empty :
      s.main ≡ emptying → s.scope ≡ 0 → Step codec accepts s (record s { main = stopping_send })
  stop_send :
      s.main ≡ stopping_send
      → Step codec accepts s (record s { send_stop = true; main = stopping_recv })
  stop_recv :
      s.main ≡ stopping_recv
      → Step codec accepts s (record s { recv_stop = true; main = joining_send })
  join_send :
      s.main ≡ joining_send
      → s.sender ≡ ended
      → Step codec accepts s (record s { main = joining_recv })
  join_recv :
      s.main ≡ joining_recv
      → s.receiver ≡ ended
      → Step codec accepts s (record s { main = returned })
  -- ~MessageBroker after a call has returned.
  call_again :
      s.main ≡ returned
      → s.broker.stopped ≡ false
      → Step codec accepts s (record s { main = quitting s.broker.node_list })
  -- SendProcessLoop. A queue may report that it is empty while a push is under way.
  end_send :
      s.sender ≡ at_top → s.send_stop ≡ true → Step codec accepts s (record s { sender = ended })
  go_on_send :
      s.sender ≡ at_top
      → s.send_stop ≡ false
      → Step codec accepts s (record s { sender = draining })
  pop :
      {op : Operation} {ops : List Operation}
      → s.sender ≡ draining
      → s.broker.pending_send_operations ≡ op ∷ ops
      → Step codec accepts s (record s {
        broker = record (s.broker) { pending_send_operations = ops };
        sender = sending op;
      })
  send :
      (now : ℕ) {op : Operation} {b : Broker}
      → s.sender ≡ sending op
      → transmit codec accepts now op.identifier.response_node_id op s.broker ≡ ok b
      → Step codec accepts s (record s {
        broker = complete_sent op b;
        scope = s.scope - in_scope op;
        sender = draining;
        transmitted = s.transmitted ++ (op ∷ []);
      })
  drained : s.sender ≡ draining → Step codec accepts s (record s { sender = replying })
  pop_reply :
      {op : Operation} {ops : List Operation}
      → s.sender ≡ replying
      → s.broker.pending_reply_operations ≡ op ∷ ops
      → Step codec accepts s (record s {
        broker = record (s.broker) { pending_reply_operations = ops };
        sender = sending_reply op;
      })
  send_reply :
      (now : ℕ) {op : Operation} {b : Broker}
      → s.sender ≡ sending_reply op
      → transmit codec accepts now op.identifier.request_node_id op s.broker ≡ ok b
      → Step codec accepts s (record s { broker = b; sender = replying })
  replied : s.sender ≡ replying → Step codec accepts s (record s { sender = checking })
  no_beat :
      (now : ℕ)
      → s.sender ≡ checking
      → is_due now s.broker ≡ false
      → Step codec accepts s (record s { sender = at_top })
  beat :
      (now : ℕ)
      → s.sender ≡ checking
      → is_due now s.broker ≡ true
      → Step codec accepts s (record s { sender = beating s.broker.node_list })
  skip_beat :
      {node : NodeInfo} {nodes : List NodeInfo}
      → s.sender ≡ beating (node ∷ nodes)
      → nat_beq node.node_id s.broker.this_node_id ≡ true
      → Step codec accepts s (record s { sender = beating nodes })
  spawn_heartbeat :
      (now : ℕ) {node : NodeInfo} {nodes : List NodeInfo} {op : Operation} {b : Broker}
      → s.sender ≡ beating (node ∷ nodes)
      → nat_beq node.node_id s.broker.this_node_id ≡ false
      → send_request node.node_id [] heartbeat s.broker ≡ ok (op, b)
      → Step codec accepts s (record s {
        broker = push_operation op (record b { last_heartbeat = now });
        scope = s.scope + 1;
        sender = beating nodes;
      })
  all_beaten : s.sender ≡ beating [] → Step codec accepts s (record s { sender = at_top })
  -- ReceiveProcessLoop
  end_recv :
      s.receiver ≡ at_top
      → s.recv_stop ≡ true
      → Step codec accepts s (record s { receiver = ended })
  go_on_recv :
      (now : ℕ) {b : Broker}
      → s.receiver ≡ at_top
      → s.recv_stop ≡ false
      → check_heartbeat now s.broker.node_list s.broker ≡ (b, false)
      → Step codec accepts s (record s { broker = b; receiver = receiving })
  time_out : s.receiver ≡ receiving → Step codec accepts s (record s { receiver = at_top })
  handle :
      (now : ℕ) (parts : List (List ℕ)) {b : Broker}
      → s.receiver ≡ receiving
      → handle_received_message codec now parts s.broker ≡ ok b
      → Step codec accepts s (record s { broker = b; receiver = at_top })
  -- Other threads.
  request :
      (to : ℕ) (payload : List ℕ) {op : Operation} {b : Broker}
      → send_request to payload normal s.broker ≡ ok (op, b)
      → Step codec accepts s (record s { broker = push_operation op b })
  reply :
      (id : ℕ) (payload : List ℕ) {b : Broker}
      → reply_request id payload s.broker ≡ ok b
      → Step codec accepts s (record s { broker = b })

-- The constructor has started the threads.
abbrev pub begin : Broker → System
begin b = record {
  broker = b;
  scope = 0;
  send_stop = false;
  recv_stop = false;
  main = running;
  sender = at_top;
  receiver = at_top;
  transmitted = [];
}

pub data Reach (codec : Codec Identifier) (accepts : ℕ → Bool) (nodes : List NodeInfo) (this : ℕ)
    : System → Type 0 where
  start :
      (zmq : Zmq) (config : HeartbeatConfig) (now : ℕ) {b : Broker}
      → make_broker zmq nodes this config now ≡ ok b
      → Reach codec accepts nodes this (begin b)
  later :
      {s t : System}
      → Reach codec accepts nodes this s
      → Step codec accepts s t
      → Reach codec accepts nodes this t
