-- ===== src/Registry/Asking/Sends.antt =====
-- A request to another node up to the wait for its reply.
use ncaf.Common.{ℕ, ◌≡◌, List, false, ok, nat_beq}
use ncaf.Network.{push_operation, normal, send_request}
use ncaf.Network.Requests.{request_operation, counted}
use ncaf.Registry.Serving.{Node}
use ncaf.Registry.Asking.{asking, ask}

-- The node once it waits: the operation is started.
abbrev pub asked : Node → ℕ → List ℕ → Node
asked node to payload = record node {
  broker = push_operation (request_operation node.broker to payload normal) (counted node.broker);
}

pub asks :
    {A : Type 0} (to : ℕ) (payload : List ℕ) (node : Node)
    → nat_beq to node.broker.this_node_id ≡ false
    → ask {A = A} to payload node
      ≡ ok (asking (request_operation node.broker to payload normal) (asked node to payload))
unfolding ask send_request
asks to payload node other =
    rw other
      (λ i. ok (asking (request_operation node.broker to payload normal) (asked node to payload)))
