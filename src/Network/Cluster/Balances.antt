-- ===== src/Network/Cluster/Balances.antt =====
-- Each step of a cluster moves a request from one place to the next.
use ncaf.Common.{
  ℕ, ◌+◌, ◌<◌, ◌≡◌, ◌≢◌, inl, inr, refl, sym, ap, ◌∙◌, List, [], ◌∷◌, ◌++◌, true, false, Bool-cases,
  nat_beq, nat_beq_iff, some, nat_eq, arith,
}
use ncaf.Common.Totals.{sum_of, sum_of-append}
use ncaf.Common.Dict.{Dict, find}
use ncaf.Serde.Codec.{Codec}
use ncaf.Network.{MessageFlag, normal, Identifier, Operation, Broker, u64_mod, push_operation}
use ncaf.Network.Loops.{complete_sent}
use ncaf.Network.Requests.{request_operation, counted, request_is_registered, replied}
use ncaf.Network.Cluster.{Cluster}
use ncaf.Network.Cluster.Count.{is_for, one_for, op_for, message_for, open_in, opens, is_for-true}
use ncaf.Network.Cluster.Places.{From, To, NodeInv}
use ncaf.Network.Cluster.Counts.{
  handed, open_in-request, answers_in-request, open_in-sent, open_in-replied, complete_sent_keeps,
}
use ncaf.Network.Cluster.Conserved.{IsRegistered, Balance}

pub one_for_none : (x y : Identifier) → is_for x y ≡ false → one_for x y ≡ 0
one_for_none x y h = ground arith

pub one_for_request : (x y : Identifier) → y.request_node_id ≢ x.request_node_id → one_for x y ≡ 0
one_for_request x y n = ground arith

pub one_for_response :
    (x y : Identifier) → y.response_node_id ≢ x.response_node_id → one_for x y ≡ 0
one_for_response x y n = ground arith

pub one_for_flag : (x y : Identifier) → y.flag ≢ normal → one_for x y ≡ 0
one_for_flag x y n = ground arith

pub one_for_some : (x y : Identifier) → is_for x y ≡ true → one_for x y ≡ 1
one_for_some x y h = ground arith

pub is_for_self : (x : Identifier) → x.flag ≡ normal → is_for x x ≡ true
is_for_self x n = ground arith

pub of_some : {o o' : Operation} → some o ≡ some o' → o ≡ o'
of_some h = cc

-- Two operations of one map with different identifiers have different keys.
pub keys_differ :
    (d : Dict ℕ Operation) (x y : Identifier) (o o' : Operation)
    → x.flag ≡ normal
    → is_for x y ≡ false
    → find y.request_id_in_node d ≡ some o
    → o.identifier ≡ y
    → find x.request_id_in_node d ≡ some o'
    → o'.identifier ≡ x
    → nat_beq y.request_id_in_node x.request_id_in_node ≡ false
keys_differ d x y o o' n other found is found' is' =
    elim (Bool-cases (nat_beq y.request_id_in_node x.request_id_in_node)) [
      | inr apart ↦ apart
      | inl same ↦
          let one_key = (nat_beq_iff y.request_id_in_node x.request_id_in_node).0 same in
          let one_op : some o ≡ some o' = sym found ∙ (ap (λ k. find k d) one_key ∙ found') in
          let one : x ≡ y = sym is' ∙ (ap (λ p. p.identifier) (sym (of_some one_op)) ∙ is) in
          cc (is_for_self x n, ap (is_for x) one)
    ]

module _ (s : Cluster) (i : ℕ) (x : Identifier) (n : x.flag ≡ normal) where
  -- A step that leaves the map of operations alone.
  pub same_map :
      (b : Broker) (wire : List (ℕ × Operation))
      → b.send_request_id_to_operation ≡ (s.node i).send_request_id_to_operation
      → open_in x b + sum_of (message_for x) wire
        ≡ open_in x (s.node i) + sum_of (message_for x) s.wire
      → i ≡ x.request_node_id
      → 0 < open_in x b + open_in x (s.node x.response_node_id) + sum_of (message_for x) wire
      → (0 < opens x s → IsRegistered x (s.node i))
      → IsRegistered x b
  same_map b wire same total e positive before =
      let (op, there, is) =
        before (omega (arith, positive, total, ap (λ k. open_in x (s.node k)) e)) in
      (op, ap (find x.request_id_in_node) same ∙ there, is)

  pub request-Balance :
      (to : ℕ) (payload : List ℕ) (flag : MessageFlag)
      → NodeInv i (s.node i)
      → to ≢ (s.node i).this_node_id
      → (s.node i).send_request_id_counter + 1 < u64_mod
      → let op = request_operation (s.node i) to payload flag in
        Balance s i
          (push_operation op (counted (s.node i)))
          s.wire
          (s.started ++ (op.identifier ∷ []))
          x
  request-Balance to payload flag v other small =
      let b = s.node i in
      let op = request_operation b to payload flag in
      let registered = (request_is_registered b to payload flag v.ahead other small).1 in
      record {
        total = omega (
          arith,
          open_in-request x b op,
          answers_in-request x b op,
          sum_of-append (one_for x) s.started (op.identifier ∷ []),
        );
        elsewhere = λ h k. refl;
        asked_here = λ h. (
          answers_in-request x b op,
          omega (
            arith,
            sum_of-append (one_for x) s.started (op.identifier ∷ []),
            one_for_request x op.identifier (λ e. h (sym v.this ∙ e)),
          ),
        );
        registered_still = λ e positive before. elim (Bool-cases (is_for x op.identifier)) [
          | inl same ↦
              let is = is_for-true x op.identifier n same in
              (
                op,
                ground (arith, registered x.request_id_in_node, ap (λ y. y.request_id_in_node) is),
                is,
              )
          | inr another ↦
              let (o, there, is) = before (
                omega (
                  arith,
                  positive,
                  open_in-request x b op,
                  one_for_none x op.identifier another,
                  ap (λ k. open_in x (s.node k)) e,
                )) in
              (
                o,
                ground (
                  arith,
                  registered x.request_id_in_node,
                  there,
                  v.ahead.send_ahead x.request_id_in_node,
                ),
                is,
              )
        ];
      }

  pub send-Balance :
      (codec : Codec Identifier) (now : ℕ) (op : Operation) (ops : List Operation)
      → (s.node i).pending_send_operations ≡ op ∷ ops
      → From i op.identifier
      → Balance s i
          (complete_sent op (
            handed codec now op.identifier.response_node_id op
              (record (s.node i) { pending_send_operations = ops })))
          (s.wire ++ ((op.identifier.response_node_id, op) ∷ []))
          s.started
          x
  send-Balance codec now op ops there from =
      let to = op.identifier.response_node_id in
      let b = handed codec now to op (record (s.node i) { pending_send_operations = ops }) in
      let wired = sum_of-append (message_for x) s.wire ((to, op) ∷ []) in
      let popped = ap (sum_of (op_for x)) there in
      let (same_open, same_answers) = open_in-sent x b op in
      record {
        total = omega (arith, same_open, same_answers, wired, popped);
        elsewhere =
            λ h k. omega (arith, wired, one_for_request x op.identifier (λ e. h (sym from.0 ∙ e)));
        asked_here = λ h. (same_answers, refl);
        registered_still = λ e positive before.
            same_map (complete_sent op b) (s.wire ++ ((to, op) ∷ []))
              (ap (λ c. c.send_request_id_to_operation) (complete_sent_keeps op b))
              (omega (arith, same_open, wired, popped)) e positive before;
      }

  pub send_reply-Balance :
      (codec : Codec Identifier) (now : ℕ) (op : Operation) (ops : List Operation)
      → (s.node i).pending_reply_operations ≡ op ∷ ops
      → To i op.identifier
      → Balance s i
          (handed codec now op.identifier.request_node_id op
            (record (s.node i) { pending_reply_operations = ops }))
          (s.wire ++ ((op.identifier.request_node_id, op) ∷ []))
          s.started
          x
  send_reply-Balance codec now op ops there to_here =
      let to = op.identifier.request_node_id in
      let b = handed codec now to op (record (s.node i) { pending_reply_operations = ops }) in
      let wired = sum_of-append (message_for x) s.wire ((to, op) ∷ []) in
      let popped = ap (sum_of (op_for x)) there in
      record {
        total = omega (arith, wired, popped);
        elsewhere = λ h k.
            omega (arith, wired, one_for_response x op.identifier (λ e. k (sym to_here.1 ∙ e)));
        asked_here = λ h. (refl, refl);
        registered_still = λ e positive before.
            same_map b (s.wire ++ ((to, op) ∷ [])) refl (omega (arith, wired, popped)) e positive
              before;
      }

  pub reply-Balance :
      (id : ℕ) (y : Identifier) (payload : List ℕ)
      → NodeInv i (s.node i)
      → find id (s.node i).received_request_id_to_identifier ≡ some y
      → Balance s i
          (replied id (record { identifier = y; payload = payload }) (s.node i))
          s.wire
          s.started
          x
  reply-Balance id y payload v there =
      let same = open_in-replied x (s.node i) id y payload v there in
      record {
        total = omega (arith, same);
        elsewhere = λ h k. refl;
        asked_here = λ h. (refl, refl);
        registered_still = λ e positive before.
            same_map (replied id (record { identifier = y; payload = payload }) (s.node i)) s.wire
              refl (omega (arith, same)) e positive before;
      }
