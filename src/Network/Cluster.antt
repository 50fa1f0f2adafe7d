-- ===== src/Network/Cluster.antt =====
-- src/ncaf/internal/network.cc: the brokers of a cluster and the messages between them. Each
-- node's threads take one operation from a queue, or handle one message, at a time, in any order; a
-- message that zmq has taken may reach its node at any time. No counter of a broker wraps. Taking an
-- operation, sending it and looking at its flag afterwards are one step: the runs are left out in which
-- the reply is handled before that look, at an operation that is destroyed then.
pub mod Count
pub mod Places
pub mod Counts
pub mod Conserved
pub mod Balances
pub mod Arrivals
pub mod Queued
pub mod Preserved
pub mod Received
pub mod Delivery
pub mod Sendings
pub mod Found
pub mod Answered
pub mod Liveness
use ncaf.Common.{
  ℕ, ◌+◌, ◌<◌, ◌≡◌, List, [], ◌∷◌, ◌++◌, Bool, true, false, nat_beq, if◌then◌else◌, Option, none,
  some, ok, nat_eq,
}
use ncaf.Common.Dict.{empty}
use ncaf.Serde.Codec.{Codec}
use ncaf.Network.{
  MessageFlag, Identifier, Operation, Broker, u64_mod, send_request, push_operation, reply_request,
}
use ncaf.Network.Loops.{complete_sent, transmit, handle_received_message}

-- A message is its identifier and payload, with the node that it goes to. `started` is no member: it
-- records the requests that were started, oldest first.
pub record Cluster : Type 0 where
  pub node : ℕ → Broker
  pub wire : List (ℕ × Operation)
  pub started : List Identifier

abbrev pub with_node : (ℕ → Broker) → ℕ → Broker → ℕ → Broker
with_node node i b j = if nat_beq i j then b else node j

abbrev pub parts : Codec Identifier → Operation → List (List ℕ)
parts codec op = codec.serialize op.identifier ∷ op.payload ∷ []

pub data Step (codec : Codec Identifier) (accepts : ℕ → Bool) (s t : Cluster) : Type 0 where
  -- SendRequest and the start of its operation, on node `i`.
  request :
      (i to : ℕ) (payload : List ℕ) (flag : MessageFlag) {op : Operation} {b : Broker}
      → (s.node i).send_request_id_counter + 1 < u64_mod
      → send_request to payload flag (s.node i) ≡ ok (op, b)
      → t.node ≡ with_node s.node i (push_operation op b)
      → t.wire ≡ s.wire
      → t.started ≡ s.started ++ (op.identifier ∷ [])
      → Step codec accepts s t
  -- SendProcessLoop on node `i`, an operation that it pops.
  send :
      (i now : ℕ) {op : Operation} {ops : List Operation} {b : Broker}
      → (s.node i).pending_send_operations ≡ op ∷ ops
      → transmit codec accepts now op.identifier.response_node_id op
          (record (s.node i) { pending_send_operations = ops })
        ≡ ok b
      → t.node ≡ with_node s.node i (complete_sent op b)
      → t.wire ≡ s.wire ++ ((op.identifier.response_node_id, op) ∷ [])
      → t.started ≡ s.started
      → Step codec accepts s t
  -- The same, a reply that it pops.
  send_reply :
      (i now : ℕ) {op : Operation} {ops : List Operation} {b : Broker}
      → (s.node i).pending_reply_operations ≡ op ∷ ops
      → transmit codec accepts now op.identifier.request_node_id op
          (record (s.node i) { pending_reply_operations = ops })
        ≡ ok b
      → t.node ≡ with_node s.node i b
      → t.wire ≡ s.wire ++ ((op.identifier.request_node_id, op) ∷ [])
      → t.started ≡ s.started
      → Step codec accepts s t
  -- ReceiveProcessLoop on node `j`.
  receive :
      (before after : List (ℕ × Operation)) (j now : ℕ) (op : Operation) {b : Broker}
      → s.wire ≡ before ++ ((j, op) ∷ after)
      → (s.node j).received_request_id_counter + 1 < u64_mod
      → handle_received_message codec now (parts codec op) (s.node j) ≡ ok b
      → t.node ≡ with_node s.node j b
      → t.wire ≡ before ++ after
      → t.started ≡ s.started
      → Step codec accepts s t
  -- ReplyRequest on node `j`.
  reply :
      (j id : ℕ) (payload : List ℕ) {b : Broker}
      → reply_request id payload (s.node j) ≡ ok b
      → t.node ≡ with_node s.node j b
      → t.wire ≡ s.wire
      → t.started ≡ s.started
      → Step codec accepts s t

-- A broker as its constructor leaves it, with what the messages do not touch left open.
pub record IsFresh (i : ℕ) (b : Broker) : Type 0 where
  pub this : b.this_node_id ≡ i
  pub no_sends : b.pending_send_operations ≡ []
  pub no_replies : b.pending_reply_operations ≡ []
  pub no_operations : b.send_request_id_to_operation ≡ empty
  pub no_identifiers : b.received_request_id_to_identifier ≡ empty
  pub none_completed : b.completed ≡ []

pub data Reach (codec : Codec Identifier) (accepts : ℕ → Bool) : Cluster → Type 0 where
  begin :
      {s : Cluster}
      → ((i : ℕ) → IsFresh i (s.node i))
      → s.wire ≡ []
      → s.started ≡ []
      → Reach codec accepts s
  later : {s t : Cluster} → Reach codec accepts s → Step codec accepts s t → Reach codec accepts t
