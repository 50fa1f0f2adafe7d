-- ===== src/Network/Cluster/Preserved.antt =====
-- Each step of a cluster keeps its invariant.
use ncaf.Common.{
  ℕ, ◌+◌, ◌≤◌, ◌<◌, ◌≡◌, ◌≢◌, ◌⊎◌, inl, inr, refl, sym, ap, ◌∙◌, subst, List, [], ◌∷◌, ◌++◌,
  Bool-cases, nat_beq, nat_beq_iff, some, Result, ok, nat_eq, arith,
}
use ncaf.Common.Totals.{sum_of, sum_of-append}
use ncaf.Common.Dict.{find}
use ncaf.Serde.Codec.{Codec}
use ncaf.Network.{
  MessageFlag, normal, quit, heartbeat, Identifier, Operation, Broker, u64_mod, push_operation,
}
use ncaf.Network.Loops.{complete_sent}
use ncaf.Network.Requests.{request_operation, counted, replied}
use ncaf.Network.Cluster.{Cluster, with_node}
use ncaf.Network.Cluster.Count.{is_for, one_for, is_for-true}
use ncaf.Network.Cluster.Places.{NodeInv, request-NodeInv, replied-NodeInv}
use ncaf.Network.Cluster.Counts.{complete_sent_keeps, handed, sent-NodeInv, sent_reply-NodeInv}
use ncaf.Network.Cluster.Conserved.{AllBound, Inv, Balance, next-Inv}
use ncaf.Network.Cluster.Balances.{
  one_for_none, one_for_some, request-Balance, send-Balance, send_reply-Balance, reply-Balance,
}
use ncaf.Network.Cluster.Queued.{
  AllBound-append, AllHandedOut-mono, AllHandedOut-append, not_started,
}

pub flag_cases : (f : MessageFlag) → (f ≡ normal) ⊎ (f ≢ normal)
flag_cases normal = inl refl
flag_cases quit = inr (λ e. cc)
flag_cases heartbeat = inr (λ e. cc)

pub ok_unique : {m : Result Broker} {a b : Broker} → m ≡ ok a → m ≡ ok b → a ≡ b
ok_unique h k = cc

module _ (s : Cluster) (v : Inv s) (i : ℕ) where
  -- A step that starts no request.
  pub same_started :
      (b : Broker) (wire : List (ℕ × Operation))
      → b.send_request_id_counter ≡ (s.node i).send_request_id_counter
      → NodeInv i b
      → AllBound wire
      → ((x : Identifier)
          → x.flag ≡ normal
          → x.request_node_id ≢ x.response_node_id
          → Balance s i b wire s.started x)
      → Inv (record { node = with_node s.node i b; wire = wire; started = s.started })
  same_started b wire same node bound balance =
      next-Inv s i b wire s.started v node bound
        (AllHandedOut-mono s.node (with_node s.node i b) s.started kept v.handed_out) v.once balance
    where
      kept :
          (j : ℕ)
          → (s.node j).send_request_id_counter ≤ (with_node s.node i b j).send_request_id_counter
      kept j = elim (Bool-cases (nat_beq i j)) [
        | inl at_i ↦ rw at_i (
            omega (
              arith,
              same,
              ap (λ k. (s.node k).send_request_id_counter) ((nat_beq_iff i j).0 at_i),
            ))
        | inr other ↦ rw other (omega arith)
      ]

  once_with :
      (op : Operation)
      → (s.node op.identifier.request_node_id).send_request_id_counter
        ≤ op.identifier.request_id_in_node
      → (x : Identifier) → x.flag ≡ normal
      → sum_of (one_for x) (s.started ++ (op.identifier ∷ [])) ≤ 1
  once_with op fresh x n = elim (Bool-cases (is_for x op.identifier)) [
    | inl this ↦
        let is = is_for-true x op.identifier n this in
        let none_yet = not_started s.node x s.started n v.handed_out (
          subst (λ y. (s.node y.request_node_id).send_request_id_counter ≤ y.request_id_in_node) is
            fresh) in
        omega (
          arith,
          sum_of-append (one_for x) s.started (op.identifier ∷ []),
          none_yet,
          one_for_some x op.identifier this,
        )
    | inr another ↦ omega (
      arith,
      sum_of-append (one_for x) s.started (op.identifier ∷ []),
      v.once x n,
      one_for_none x op.identifier another,
    )
  ]

  pub request-Inv :
      (to : ℕ) (payload : List ℕ) (flag : MessageFlag)
      → to ≢ (s.node i).this_node_id
      → (s.node i).send_request_id_counter + 1 < u64_mod
      → let op = request_operation (s.node i) to payload flag in
        Inv (record {
          node = with_node s.node i (push_operation op (counted (s.node i)));
          wire = s.wire;
          started = s.started ++ (op.identifier ∷ []);
        })
  unfolding push_operation
  request-Inv to payload flag other small =
      let b = s.node i in
      let op = request_operation b to payload flag in
      let node = v.nodes i in
      next-Inv s i (push_operation op (counted b)) s.wire (s.started ++ (op.identifier ∷ [])) v
        (request-NodeInv b node to payload flag (λ e. other (e ∙ sym node.this)) small) v.bound
        (AllHandedOut-append (with_node s.node i (push_operation op (counted b))) s.started
          op.identifier
          (AllHandedOut-mono s.node (with_node s.node i (push_operation op (counted b))) s.started
            (λ j. ground (arith, small)) v.handed_out)
          (ground (arith, node.this, small)))
        (once_with op (ground (arith, node.this)))
        (λ x n apart. request-Balance s i x n to payload flag node other small)

  pub send-Inv :
      (codec : Codec Identifier) (now : ℕ) (op : Operation) (ops : List Operation)
      → (s.node i).pending_send_operations ≡ op ∷ ops
      → Inv (record {
        node = with_node s.node i (
            complete_sent op (
              handed codec now op.identifier.response_node_id op
                (record (s.node i) { pending_send_operations = ops })));
        wire = s.wire ++ ((op.identifier.response_node_id, op) ∷ []);
        started = s.started;
      })
  send-Inv codec now op ops there =
      let (from, node) = sent-NodeInv codec (s.node i) (v.nodes i) now op ops there in
      same_started _ _ (ap (λ c. c.send_request_id_counter) (complete_sent_keeps op _)) node
        (AllBound-append s.wire _ v.bound (λ e. from.1 (sym e ∙ from.0), inl refl))
        (λ x n apart. send-Balance s i x n codec now op ops there from)

  pub send_reply-Inv :
      (codec : Codec Identifier) (now : ℕ) (op : Operation) (ops : List Operation)
      → (s.node i).pending_reply_operations ≡ op ∷ ops
      → Inv (record {
        node = with_node s.node i (
            handed codec now op.identifier.request_node_id op
              (record (s.node i) { pending_reply_operations = ops }));
        wire = s.wire ++ ((op.identifier.request_node_id, op) ∷ []);
        started = s.started;
      })
  send_reply-Inv codec now op ops there =
      let (to_here, node) = sent_reply-NodeInv codec (s.node i) (v.nodes i) now op ops there in
      same_started _ _ refl node
        (AllBound-append s.wire _ v.bound (λ e. to_here.0 (e ∙ to_here.1), inr refl))
        (λ x n apart. send_reply-Balance s i x n codec now op ops there to_here)

  pub reply-Inv :
      (id : ℕ) (y : Identifier) (payload : List ℕ)
      → find id (s.node i).received_request_id_to_identifier ≡ some y
      → Inv (record {
        node =
            with_node s.node i
              (replied id (record { identifier = y; payload = payload }) (s.node i));
        wire = s.wire;
        started = s.started;
      })
  reply-Inv id y payload there =
      same_started _ _ refl (replied-NodeInv (s.node i) (v.nodes i) id y payload there) v.bound
        (λ x n apart. reply-Balance s i x n id y payload (v.nodes i) there)
