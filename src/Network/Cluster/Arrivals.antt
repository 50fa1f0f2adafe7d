-- ===== src/Network/Cluster/Arrivals.antt =====
-- A message that is received moves its request from the network to its node.
use ncaf.Common.{
  ℕ, ◌+◌, ◌≡◌, ◌≢◌, inl, inr, refl, sym, ap, ◌∙◌, List, ◌∷◌, ◌++◌, Bool-cases, some, nat_eq, arith,
}
use ncaf.Common.Totals.{sum_of, sum_of-append}
use ncaf.Common.Dict.{Dict, find, find-erase}
use ncaf.Network.{normal, Identifier, Operation}
use ncaf.Network.Requests.{received, answered}
use ncaf.Network.Cluster.{Cluster}
use ncaf.Network.Cluster.Count.{is_for, one_for, op_for, message_for, open_in}
use ncaf.Network.Cluster.Places.{To, NodeInv}
use ncaf.Network.Cluster.Counts.{open_in-received, answers_in-answered}
use ncaf.Network.Cluster.Conserved.{Inv, Balance}
use ncaf.Network.Cluster.Balances.{
  one_for_none, one_for_request, one_for_response, one_for_flag, one_for_some, keys_differ,
  same_map,
}

module _ (s : Cluster) (i : ℕ) (x : Identifier) (n : x.flag ≡ normal) where
  module _ (before after : List (ℕ × Operation)) (op : Operation)
      (there : s.wire ≡ before ++ ((i, op) ∷ after)) where
    unwired : sum_of (message_for x) s.wire ≡ sum_of (message_for x) (before ++ after) + op_for x op
    unwired = omega (
      arith,
      ap (sum_of (message_for x)) there,
      sum_of-append (message_for x) before ((i, op) ∷ after),
      sum_of-append (message_for x) before after,
    )

    pub receive_request-Balance :
        (now : ℕ)
        → NodeInv i (s.node i)
        → To i op.identifier
        → Balance s i
            (received now op.identifier op.payload (s.node i))
            (before ++ after)
            s.started
            x
    receive_request-Balance now v to_here =
        let more = open_in-received x (s.node i) now op.identifier op.payload v in
        record {
          total = omega (arith, more, unwired);
          elsewhere = λ h k.
              omega (arith, unwired, one_for_response x op.identifier (λ e. k (sym to_here.1 ∙ e)));
          asked_here = λ h. (refl, refl);
          registered_still = λ e positive old.
              same_map s i x n (received now op.identifier op.payload (s.node i)) (before ++ after)
                refl (omega (arith, more, unwired)) e positive old;
        }

    pub receive_other-Balance :
        (last_seen : Dict ℕ ℕ) (quit_latch : ℕ)
        → op.identifier.flag ≢ normal
        → Balance s i
            (record (s.node i) { last_seen = last_seen; quit_latch = quit_latch })
            (before ++ after)
            s.started
            x
    receive_other-Balance last_seen quit_latch other =
        let none_lost = one_for_flag x op.identifier other in
        record {
          total = omega (arith, unwired, none_lost);
          elsewhere = λ h k. omega (arith, unwired, none_lost);
          asked_here = λ h. (refl, refl);
          registered_still = λ e positive old.
              same_map s i x n
                (record (s.node i) { last_seen = last_seen; quit_latch = quit_latch })
                (before ++ after) refl (omega (arith, unwired, none_lost)) e positive old;
        }

    -- `o` is the operation that the node has registered for the response.
    pub receive_response-Balance :
        (now : ℕ) (o : Operation)
        → Inv s
        → x.request_node_id ≢ x.response_node_id
        → i ≡ op.identifier.request_node_id
        → find op.identifier.request_id_in_node (s.node i).send_request_id_to_operation ≡ some o
        → o.identifier ≡ op.identifier
        → Balance s i (answered now o op.payload (s.node i)) (before ++ after) s.started x
    receive_response-Balance now o v apart mine found is =
        let b = s.node i in
        let more = answers_in-answered x b now o op.payload in
        let same = ap (one_for x) is in
        record {
          total = omega (arith, more, unwired, same);
          elsewhere =
              λ h k. omega (arith, unwired, one_for_request x op.identifier (λ e. h (mine ∙ e)));
          asked_here = λ h. (
            omega (arith, more, same, one_for_request x op.identifier (λ e. h (mine ∙ e))),
            refl,
          );
          registered_still = λ e positive old. elim (Bool-cases (is_for x op.identifier)) [
            | inl this ↦ absurd (
                omega (
                  arith,
                  positive,
                  unwired,
                  one_for_some x op.identifier this,
                  v.conserved x n apart,
                  v.once x n,
                  ap (λ k. open_in x (s.node k)) e,
                ))
            | inr another ↦
                let (o', found', is') = old (
                  omega (
                    arith,
                    positive,
                    unwired,
                    one_for_none x op.identifier another,
                    ap (λ k. open_in x (s.node k)) e,
                  )) in
                (
                  o',
                  find-erase o.identifier.request_id_in_node x.request_id_in_node
                        b.send_request_id_to_operation
                      ∙ ground (
                        arith,
                        keys_differ b.send_request_id_to_operation x op.identifier o o' n another
                            found is found' is',
                        found',
                        ap (λ y. y.request_id_in_node) is,
                      ),
                  is',
                )
          ];
        }
