-- ===== src/Lifecycle/Tables.antt =====
-- The tables of a cluster that a registry's broker and its processor keep.
use ncaf.Common.{
  ℕ, ◌≡◌, ◌∙◌, sym, ap, List, [], ◌∷◌, true, nat_beq, nat_beq_iff, Option, none, some, Result-cases,
  ok, inl, inr, nat_eq, if◌then◌else◌, arith,
}
use ncaf.Common.Dict.{Dict, find, put, empty, find-put, find-empty}
use ncaf.Network.{NodeInfo, Zmq, HeartbeatConfig, Broker, make_broker, establish_connections}
use ncaf.Network.Connections.{address_of, or_else, establish_connections_lem}
use ncaf.Registry.{Processor, validate_node_info, make_processor}
use ncaf.Lifecycle.{ActorRegistry, make_message_broker, make_registry}

validate_node_info_lem :
    (nodes : List NodeInfo) (known : Dict ℕ (List ℕ)) {d : Dict ℕ (List ℕ)} (j : ℕ)
    → validate_node_info nodes known ≡ ok d
    → find j d ≡ or_else (find j known) (address_of j nodes)
unfolding validate_node_info
validate_node_info_lem [] known j h = ground arith
validate_node_info_lem (node ∷ nodes) known {d} j h = ground (
  arith,
  validate_node_info_lem nodes (put node.node_id node.address known) {d = d} j,
  find-put node.node_id j node.address known,
  nat_beq_iff node.node_id j,
)

processor_table :
    (random : ℕ → ℕ) (this : ℕ) (nodes : List NodeInfo) (j : ℕ) {p : Processor}
    → make_processor random this nodes ≡ ok p
    → find j p.node_id_to_address ≡ address_of j nodes
unfolding make_processor
processor_table random this nodes j {p} h = elim (Result-cases (validate_node_info nodes empty)) [
  | inr (e, failed) ↦ absurd (ground arith)
  | inl (d, known) ↦
      ground (arith, validate_node_info_lem nodes empty {d = d} j known, find-empty {V = List ℕ} j)
]

broker_table :
    (zmq : Zmq) (nodes : List NodeInfo) (this : ℕ) (config : HeartbeatConfig) (now j : ℕ)
    {b : Broker}
    → make_broker zmq nodes this config now ≡ ok b
    → find j b.node_id_to_send_socket ≡ (if nat_beq j this then none else address_of j nodes)
unfolding make_broker
broker_table zmq nodes this config now j {b} h =
    elim (Result-cases (establish_connections zmq this nodes)) [
      | inr (e, failed) ↦ absurd (ground arith)
      | inl (sockets, done) ↦
          ground (arith, (establish_connections_lem zmq this nodes {d = sockets} done).1 j)
    ]

-- In a registry that was constructed for a cluster there is a broker, whose sockets lead to the same
-- addresses as the processor's table of nodes, but for this node, which has none: every other node
-- for which CreateActor passes its check has a socket.
pub tables_agree :
    (zmq : Zmq) (thread_pool_size : ℕ) (scheduler : Option ℕ) (this : ℕ) (node : NodeInfo)
    (nodes : List NodeInfo) (config : HeartbeatConfig) (now : ℕ) (random : ℕ → ℕ)
    (processor_address : ℕ) {r : ActorRegistry}
    → make_registry zmq thread_pool_size scheduler this
        (node ∷ nodes)
        config
        now
        random
        processor_address
      ≡ ok r
    → (r.is_distributed_mode ≡ true)
      × (b : Broker) × (r.message_broker ≡ some b)
      × ((j : ℕ)
          → find j b.node_id_to_send_socket
            ≡ (if nat_beq j this then none else find j r.processor.node_id_to_address))
unfolding make_registry make_message_broker
tables_agree zmq thread_pool_size scheduler this node nodes config now random processor_address {r}
      h =
    elim (Result-cases (make_broker zmq (node ∷ nodes) this config now)) [
      | inr (e, failed) ↦ absurd (ground arith)
      | inl (b, connected) ↦ elim (Result-cases (make_processor random this (node ∷ nodes))) [
        | inr (e, failed) ↦ absurd (ground arith)
        | inl (p, made) ↦
            let same : r.processor ≡ p = ground arith in
            (
              ground arith,
              b,
              ground arith,
              λ j.
                  broker_table zmq (node ∷ nodes) this config now j connected
                  ∙ ap (λ o. if nat_beq j this then none else o)
                      (sym (processor_table random this (node ∷ nodes) j made)
                        ∙ ap (λ q. find j q.node_id_to_address) (sym same)),
            )
      ]
    ]
