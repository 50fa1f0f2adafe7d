-- ===== src/Examples/Cluster.antt =====
-- A cluster of the nodes 1 and 2: node 1 starts a request to node 2, and sends it.
use ncaf.Common.{
  ℕ, ◌+◌, ◌≤◌, ◌≡◌, ◌⊎◌, refl, [], ◌∷◌, ◌++◌, Bool, true, nat_beq, if◌then◌else◌, ok, nat_eq, arith,
}
use ncaf.Common.Dict.{find, put}
use ncaf.Util.LockGuarded.{at}
use ncaf.Network.{normal, Operation, Broker, send_request, push_operation}
use ncaf.Network.Loops.{complete_sent, transmit, handle_received_message}
use ncaf.Network.Requests.{request_operation, counted}
use ncaf.Network.Cluster.{Cluster, with_node, parts, request, send, Reach, begin, later}
use ncaf.Network.Cluster.Count.{opens, answers, starts}
use ncaf.Network.Cluster.Counts.{handed}
use ncaf.Network.Cluster.Delivery.{each_request_in_one_place, every_message_is_handled}
use ncaf.Network.Sockets.{HasSocket, SendsTo}
use ncaf.Network.Cluster.Places.{All}
use ncaf.Network.Cluster.Sendings.{Run}
use ncaf.Network.Cluster.Liveness.{can_be_answered}
use ncaf.Examples.Network.{codec, broker}

abbrev fresh : ℕ → Broker
fresh i = broker i (if nat_beq i 1 then 2 else 1)

abbrev accepts : ℕ → Bool
accepts node = true

abbrev operation : Operation
operation = request_operation (fresh 1) 2 (7 ∷ []) normal

abbrev at_first : Cluster
at_first = record { node = fresh; wire = []; started = [] }

abbrev requested : Cluster
requested = record {
  node = with_node fresh 1 (push_operation operation (counted (fresh 1)));
  wire = [];
  started = operation.identifier ∷ [];
}

abbrev sent : Cluster
sent = record {
  node = with_node requested.node 1 (
      complete_sent operation
        (handed codec 5 2 operation (record (requested.node 1) { pending_send_operations = [] })));
  wire = (2, operation) ∷ [];
  started = operation.identifier ∷ [];
}

at_first-Reach : Reach codec accepts at_first
at_first-Reach =
    begin
      (λ i. record {
        this = refl;
        no_sends = refl;
        no_replies = refl;
        no_operations = refl;
        no_identifiers = refl;
        none_completed = refl;
      })
      refl refl

requested-Reach : Reach codec accepts requested
unfolding send_request
requested-Reach =
    later at_first-Reach (request 1 2 (7 ∷ []) normal (ground arith) refl refl refl refl)

sent-Reach : Reach codec accepts sent
unfolding push_operation transmit at find put
sent-Reach = later requested-Reach (send 1 5 refl refl refl refl refl)

each_request_in_one_place_example :
    (starts operation.identifier sent
      ≡ opens operation.identifier sent + answers operation.identifier sent)
    × (starts operation.identifier sent ≤ 1)
each_request_in_one_place_example =
    each_request_in_one_place codec accepts sent-Reach operation.identifier refl (ground arith)

every_message_is_handled_example :
    let a = sent.node 2 in
    (b : Broker) × (handle_received_message codec 6 (parts codec operation) a ≡ ok b)
    × (((2 ≡ operation.identifier.response_node_id)
          × (b.handled ≡ a.handled ++ ((a.received_request_id_counter, operation.payload) ∷ [])))
        ⊎ ((2 ≡ operation.identifier.request_node_id)
            × (o : Operation) × (o.identifier ≡ operation.identifier)
            × (b.completed ≡ a.completed ++ ((o, operation.payload) ∷ []))))
every_message_is_handled_example =
    every_message_is_handled codec accepts sent-Reach [] [] 2 6 operation refl refl

way_back : HasSocket (sent.node 2).node_id_to_send_socket 1
unfolding find put
way_back = (20 ∷ [], refl)

nothing_queued :
    All (SendsTo (sent.node 1).node_id_to_send_socket) (sent.node 1).pending_send_operations
unfolding complete_sent
nothing_queued = tt

can_be_answered_example :
    (t : Cluster) × Run codec accepts sent t × (answers operation.identifier t ≡ 1)
unfolding complete_sent push_operation
can_be_answered_example =
    can_be_answered codec accepts (λ node. refl) operation.identifier refl (ground arith) sent-Reach
      (omega arith) nothing_queued tt way_back (omega arith) (omega arith)
