-- ===== src/Network/Cluster/Received.antt =====
-- The receipt of a message keeps the invariant of a cluster, and does not fail.
use ncaf.Common.{
  ℕ, ◌+◌, ◌<◌, ◌≡◌, ◌≢◌, ◌⊎◌, inl, inr, refl, sym, ap, ◌∙◌, subst, List, [], ◌∷◌, ◌++◌, some, ok,
  nat_eq, arith,
}
use ncaf.Common.Totals.{sum_of, sum_of-append}
use ncaf.Common.Dict.{Dict, find}
use ncaf.Serde.Codec.{Codec}
use ncaf.Network.{normal, Identifier, Operation, Broker, u64_mod}
use ncaf.Network.Loops.{handle_received_message}
use ncaf.Network.Requests.{received, answered, handles_request, handles_response}
use ncaf.Network.Cluster.{Cluster, with_node, parts}
use ncaf.Network.Cluster.Count.{message_for, one_for_self}
use ncaf.Network.Cluster.Places.{To, received-NodeInv, answered-NodeInv}
use ncaf.Network.Cluster.Counts.{seen-NodeInv}
use ncaf.Network.Cluster.Conserved.{IsBound, AllBound, IsRegistered, Inv}
use ncaf.Network.Cluster.Queued.{AllBound-take}
use ncaf.Network.Cluster.Arrivals.{
  receive_request-Balance, receive_other-Balance, receive_response-Balance,
}
use ncaf.Network.Cluster.Preserved.{same_started}

module _ (s : Cluster) (v : Inv s) (i : ℕ) where
  module _ (codec : Codec Identifier) (before after : List (ℕ × Operation)) (now : ℕ)
      (op : Operation) (there : s.wire ≡ before ++ ((i, op) ∷ after)) where
    bound : IsBound (i, op) × AllBound (before ++ after)
    bound = AllBound-take before (i, op) after (subst AllBound there v.bound)

    -- The answer to a request of this node finds its operation.
    response_found :
        op.identifier.flag ≡ normal
        → i ≡ op.identifier.request_node_id
        → IsRegistered op.identifier (s.node i)
    response_found n mine =
        subst (λ k. IsRegistered op.identifier (s.node k)) (sym mine)
          (v.registered op.identifier n bound.0.0 (
            omega (
              arith,
              one_for_self op.identifier n,
              ap (sum_of (message_for op.identifier)) there,
              sum_of-append (message_for op.identifier) before ((i, op) ∷ after),
            )))

    receive_request-Inv :
        op.identifier.flag ≡ normal
        → i ≡ op.identifier.response_node_id
        → (s.node i).received_request_id_counter + 1 < u64_mod
        → Inv (record {
          node = with_node s.node i (received now op.identifier op.payload (s.node i));
          wire = before ++ after;
          started = s.started;
        })
    receive_request-Inv n mine small =
        let to_here : To i op.identifier = (λ e. bound.0.0 (e ∙ mine), sym mine) in
        same_started s v i _ _ refl
          (received-NodeInv (s.node i) (v.nodes i) now op.identifier op.payload to_here small)
          bound.1
          (λ x n apart.
            receive_request-Balance s i x n before after op there now (v.nodes i) to_here)

    pub receive_other-Inv :
        (last_seen : Dict ℕ ℕ) (quit_latch : ℕ)
        → op.identifier.flag ≢ normal
        → Inv (record {
          node =
              with_node s.node i
                (record (s.node i) { last_seen = last_seen; quit_latch = quit_latch });
          wire = before ++ after;
          started = s.started;
        })
    receive_other-Inv last_seen quit_latch other =
        same_started s v i _ _ refl (seen-NodeInv codec (s.node i) (v.nodes i) last_seen quit_latch)
          bound.1
          (λ x n apart.
            receive_other-Balance s i x n before after op there last_seen quit_latch other)

    receive_response-Inv :
        (o : Operation)
        → i ≡ op.identifier.request_node_id
        → find op.identifier.request_id_in_node (s.node i).send_request_id_to_operation ≡ some o
        → o.identifier ≡ op.identifier
        → Inv (record {
          node = with_node s.node i (answered now o op.payload (s.node i));
          wire = before ++ after;
          started = s.started;
        })
    receive_response-Inv o mine found is =
        same_started s v i _ _ refl (answered-NodeInv (s.node i) (v.nodes i) now o op.payload)
          bound.1
          (λ x n apart.
            receive_response-Balance s i x n before after op there now o v apart mine found is)

    -- No message fails.
    pub handles_any :
        op.identifier.flag ≡ normal
        → (b : Broker) × (handle_received_message codec now (parts codec op) (s.node i) ≡ ok b)
          × (((i ≡ op.identifier.response_node_id)
                × (b ≡ received now op.identifier op.payload (s.node i)))
              ⊎ ((i ≡ op.identifier.request_node_id)
                  × (o : Operation) × (find op.identifier.request_id_in_node
                        (s.node i).send_request_id_to_operation
                      ≡ some o)
                  × (o.identifier ≡ op.identifier)
                  × (b ≡ answered now o op.payload (s.node i))))
    handles_any n = elim bound.0.1 [
      | inl mine ↦ (
        received now op.identifier op.payload (s.node i),
        handles_request codec now op.identifier op.payload (s.node i) n
            (λ e. bound.0.0 (e ∙ (v.nodes i).this ∙ mine)) (sym mine ∙ sym (v.nodes i).this),
        inl (mine, refl),
      )
      | inr mine ↦
          let (o, found, is) = response_found n mine in
          (
            answered now o op.payload (s.node i),
            subst
                (λ y.
                  handle_received_message codec now (codec.serialize y ∷ op.payload ∷ []) (s.node i)
                  ≡ ok (answered now o op.payload (s.node i)))
                is
                (handles_response codec now o op.payload (s.node i) (ap (λ y. y.flag) is ∙ n)
                  (ap (λ y. y.request_node_id) is ∙ sym mine ∙ sym (v.nodes i).this)
                  (ap (λ y. find y.request_id_in_node (s.node i).send_request_id_to_operation) is
                    ∙ found)),
            inr (mine, o, found, is, refl),
          )
    ]

    pub receive-Inv :
        (s.node i).received_request_id_counter + 1 < u64_mod
        → op.identifier.flag ≡ normal
        → (b : Broker) × (handle_received_message codec now (parts codec op) (s.node i) ≡ ok b)
          × Inv
              (record { node = with_node s.node i b; wire = before ++ after; started = s.started })
    receive-Inv small n =
        let (b, ok_b, done) = handles_any n in
        (
          b,
          ok_b,
          elim done [
            | inl (mine, is_b) ↦ subst after_it (sym is_b) (receive_request-Inv n mine small)
            | inr (mine, o, found, is, is_b) ↦
                subst after_it (sym is_b) (receive_response-Inv o mine found is)
          ],
        )
      where
        after_it : Broker → Type 0
        after_it c =
            Inv
              (record { node = with_node s.node i c; wire = before ++ after; started = s.started })
