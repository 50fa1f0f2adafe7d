-- ===== src/Network/Cluster/Count.antt =====
-- Where a request stands: at the node that asks, on the way, at the node that is asked, or answered.
use ncaf.Common.{ℕ, ◌+◌, ◌≡◌, List, Bool, true, false, ◌&&◌, nat_beq, if◌then◌else◌, arith}
use ncaf.Common.Totals.{sum_of}
use ncaf.Common.Dict.Keys.{sum_in}
use ncaf.Network.{MessageFlag, normal, Identifier, Operation, Broker}
use ncaf.Network.Cluster.{Cluster}

abbrev is_normal : MessageFlag → Bool
is_normal normal = true
is_normal _ = false

-- The identifier is `x`, whose flag is kNormal.
abbrev pub is_for : Identifier → Identifier → Bool
is_for x i =
    nat_beq i.request_node_id x.request_node_id
    && nat_beq i.response_node_id x.response_node_id
    && nat_beq i.request_id_in_node x.request_id_in_node
    && is_normal i.flag

abbrev pub one_for : Identifier → Identifier → ℕ
one_for x i = if is_for x i then 1 else 0

pub is_for-true : (x i : Identifier) → x.flag ≡ normal → is_for x i ≡ true → i ≡ x
is_for-true x i n h = ground arith

pub one_for_self : (x : Identifier) → x.flag ≡ normal → one_for x x ≡ 1
one_for_self x n = ground arith

abbrev pub op_for : Identifier → Operation → ℕ
op_for x op = one_for x op.identifier

abbrev pub answered_for : Identifier → Operation × List ℕ → ℕ
answered_for x answer = op_for x answer.0

abbrev pub message_for : Identifier → ℕ × Operation → ℕ
message_for x message = op_for x message.1

-- How often the request is in a broker's hands without an answer, and how often answered there.
abbrev pub open_in : Identifier → Broker → ℕ
open_in x b =
    sum_of (op_for x) b.pending_send_operations
    + sum_in (one_for x) b.received_request_id_to_identifier.entries
    + sum_of (op_for x) b.pending_reply_operations

abbrev pub answers_in : Identifier → Broker → ℕ
answers_in x b = sum_of (answered_for x) b.completed

-- In all of the cluster: at its two nodes and on the way; answered at the node that asked.
abbrev pub opens : Identifier → Cluster → ℕ
opens x c =
    open_in x (c.node x.request_node_id)
    + open_in x (c.node x.response_node_id)
    + sum_of (message_for x) c.wire

abbrev pub answers : Identifier → Cluster → ℕ
answers x c = answers_in x (c.node x.request_node_id)

abbrev pub starts : Identifier → Cluster → ℕ
starts x c = sum_of (one_for x) c.started
