-- ===== src/Network/Loops.antt =====
-- src/ncaf/internal/network.cc: what the broker's two threads do, and ClusterAlignedStop. A round of
-- SendProcessLoop is its outer loop's body; operations that other threads push meanwhile are taken
-- in the next round. `accepts` tells whether zmq takes a message for a node's socket.
use ncaf.Common.{
  ℕ, ◌+◌, ◌-◌, ◌%◌, List, [], ◌∷◌, ◌++◌, Bool, true, false, not, ◌&&◌, ◌||◌, length, nat_beq, leb,
  if◌then◌else◌, Option, none, some, Result, ok, err, ◌>>=◌, ◌>>◌, check, or_throw, send_failed,
  latch_underflow, not_two_parts, quit_with_data, invalid_identifier, decode_error, nat_eq,
}
use ncaf.Common.Dict.{find, put, erase}
use ncaf.Util.LockGuarded.{insert, at}
use ncaf.Serde.Codec.{Codec}
use ncaf.Network.{
  NodeInfo, MessageFlag, is_quit, is_heartbeat, normal, quit, heartbeat, Identifier, Operation,
  Broker, u64_mod, send_request, push_operation,
}

-- std::latch::count_down; below zero is undefined behaviour.
unfoldable pub count_down : Broker → Result Broker
count_down b = do
  check (leb 1 b.quit_latch) latch_underflow
  ok (record b { quit_latch = b.quit_latch - 1 })

-- SendHeartbeat, its loop: spawn starts the operation at once.
unfoldable pub heartbeat_all : ℕ → List NodeInfo → Broker → Result Broker
heartbeat_all now [] b = ok b
heartbeat_all now (node ∷ nodes) b = elim (nat_beq node.node_id b.this_node_id) [
  | true ↦ heartbeat_all now nodes b
  | false ↦ do
    (op, b') ← send_request node.node_id [] heartbeat b
    heartbeat_all now nodes (push_operation op (record b' { last_heartbeat = now }))
]

unfoldable pub send_heartbeat : ℕ → Broker → Result Broker
unfolding heartbeat_all
send_heartbeat now b =
    if not b.stopped && leb b.config.heartbeat_interval (now - b.last_heartbeat)
    then heartbeat_all now b.node_list b
    else ok b

-- CheckHeartbeat: whether the process exits. `last_seen_[id]` adds the clock's epoch, 0, for a node
-- that is not there.
unfoldable pub check_heartbeat : ℕ → List NodeInfo → Broker → Broker × Bool
check_heartbeat now [] b = (b, false)
check_heartbeat now (node ∷ nodes) b = elim (nat_beq node.node_id b.this_node_id) [
  | true ↦ check_heartbeat now nodes b
  | false ↦
      let b' : Broker = record b { last_seen = (insert node.node_id 0 b.last_seen).0 } in
      let seen : ℕ = elim (find node.node_id b'.last_seen) [ none ↦ 0 | some t ↦ t ] in
      elim (leb b.config.heartbeat_timeout (now - seen)) [
        | true ↦ (b', true)
        | false ↦ check_heartbeat now nodes b'
      ]
]

-- ClusterAlignedStop, its loop.
unfoldable pub quit_all : List NodeInfo → Broker → Result Broker
quit_all [] b = ok b
quit_all (node ∷ nodes) b = elim (nat_beq node.node_id b.this_node_id) [
  | true ↦ quit_all nodes b
  | false ↦ do (op, b') ← send_request node.node_id [] quit b; quit_all nodes (push_operation op b')
]

-- ClusterAlignedStop up to its wait on the latch, and what follows when the latch is at zero.
unfoldable pub begin_stop : Broker → Result Broker
unfolding quit_all count_down
begin_stop b = do b' ← quit_all b.node_list b; count_down b'

unfoldable pub finish_stop : Broker → Option Broker
finish_stop b = if nat_beq b.quit_latch 0 then some (record b { stopped = true }) else none

-- Quit and heartbeat operations are completed at once.
unfoldable pub complete_sent : Operation → Broker → Broker
complete_sent op b =
    if is_quit op.identifier.flag || is_heartbeat op.identifier.flag
    then record b { completed = b.completed ++ ((op, []) ∷ []) }
    else b

module _ (codec : Codec Identifier) (accepts : ℕ → Bool) where
  -- One message of SendProcessLoop to the socket of `node`.
  unfoldable pub transmit : ℕ → ℕ → Operation → Broker → Result Broker
  transmit now node op b = do
    socket ← at node b.node_id_to_send_socket
    check (accepts node) send_failed
    ok (record b {
      last_heartbeat = now;
      sent = b.sent ++ ((node, codec.serialize op.identifier ∷ op.payload ∷ []) ∷ []);
    })

  -- SendProcessLoop, its first inner loop.
  unfoldable pub drain_sends : ℕ → List Operation → Broker → Result Broker
  unfolding transmit complete_sent
  drain_sends now [] b = ok b
  drain_sends now (op ∷ ops) b = do
    b' ← transmit now op.identifier.response_node_id op b
    drain_sends now ops (complete_sent op b')

  -- SendProcessLoop, its second inner loop.
  unfoldable pub drain_replies : ℕ → List Operation → Broker → Result Broker
  unfolding transmit
  drain_replies now [] b = ok b
  drain_replies now (op ∷ ops) b = do
    b' ← transmit now op.identifier.request_node_id op b
    drain_replies now ops b'

  unfoldable pub send_round : ℕ → Broker → Result Broker
  send_round now b = do
    b₁ ← drain_sends now b.pending_send_operations (record b { pending_send_operations = [] })
    b₂ ← drain_replies now b₁.pending_reply_operations (record b₁ { pending_reply_operations = [] })
    send_heartbeat now b₂

module _ (codec : Codec Identifier) where
  -- HandleReceivedMessage when the flag is kNormal.
  unfoldable pub handle_normal : Identifier → List ℕ → Broker → Result Broker
  handle_normal identifier payload b =
      if nat_beq identifier.request_node_id b.this_node_id
      then (do
        operation ← at identifier.request_id_in_node b.send_request_id_to_operation
        ok (record b {
          send_request_id_to_operation =
              erase identifier.request_id_in_node b.send_request_id_to_operation;
          completed = b.completed ++ ((operation, payload) ∷ []);
        }))
      else if nat_beq identifier.response_node_id b.this_node_id
      then ok (record b {
        received_request_id_counter = (b.received_request_id_counter + 1) % u64_mod;
        received_request_id_to_identifier =
            (insert b.received_request_id_counter identifier b.received_request_id_to_identifier).0;
        handled = b.handled ++ ((b.received_request_id_counter, payload) ∷ []);
      })
      else err invalid_identifier

  unfoldable pub dispatch : MessageFlag → Identifier → List ℕ → Broker → Result Broker
  unfolding count_down handle_normal
  dispatch quit identifier payload b = do
    check (nat_beq (length payload) 0) quit_with_data
    count_down b
  dispatch heartbeat identifier payload b = ok b
  dispatch normal identifier payload b = handle_normal identifier payload b

  unfoldable pub handle_received_message : ℕ → List (List ℕ) → Broker → Result Broker
  unfolding dispatch
  handle_received_message now (identifier_bytes ∷ payload ∷ []) b = do
    identifier ← or_throw (codec.deserialize identifier_bytes) decode_error
    dispatch identifier.flag identifier payload
        (record b { last_seen = put identifier.request_node_id now b.last_seen })
  handle_received_message now parts b = err not_two_parts
