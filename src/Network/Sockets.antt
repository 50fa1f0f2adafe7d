-- ===== src/Network/Sockets.antt =====
-- What has a socket can be sent.
use ncaf.Common.{ℕ, ◌≡◌, List, Bool, true, some, ok, nat_eq, arith}
use ncaf.Common.Dict.{Dict, find}
use ncaf.Util.LockGuarded.{at}
use ncaf.Serde.Codec.{Codec}
use ncaf.Network.{Identifier, Operation, Broker}
use ncaf.Network.Loops.{transmit}
use ncaf.Network.Cluster.Counts.{handed}

abbrev pub HasSocket : Dict ℕ (List ℕ) → ℕ → Type 0
HasSocket d node = (socket : List ℕ) × (find node d ≡ some socket)

abbrev pub SendsTo : Dict ℕ (List ℕ) → Operation → Type 0
SendsTo d op = HasSocket d op.identifier.response_node_id

abbrev pub RepliesTo : Dict ℕ (List ℕ) → Operation → Type 0
RepliesTo d op = HasSocket d op.identifier.request_node_id

pub transmit_ok :
    (codec : Codec Identifier) (accepts : ℕ → Bool) (now node : ℕ) (op : Operation) (b : Broker)
    → accepts node ≡ true
    → HasSocket b.node_id_to_send_socket node
    → transmit codec accepts now node op b ≡ ok (handed codec now node op b)
unfolding transmit at
transmit_ok codec accepts now node op b yes_sent (socket, there) = ground arith
