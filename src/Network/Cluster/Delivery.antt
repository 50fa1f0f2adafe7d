-- ===== src/Network/Cluster/Delivery.antt =====
-- What callers rely on in a cluster of brokers, however their threads and the network interleave.
use ncaf.Common.{
  ℕ, ◌+◌, ◌≤◌, ◌<◌, ◌≡◌, ◌≢◌, ◌⊎◌, inl, inr, sym, ap, ◌∙◌, subst, List, [], ◌∷◌, ◌++◌, Bool, ok,
  nat_eq, arith,
}
use ncaf.Common.Totals.{sum_of}
use ncaf.Common.Dict.{find, find-empty}
use ncaf.Common.Dict.Keys.{HasUniqueKeys, AllIn, sum_in}
use ncaf.Serde.Codec.{Codec}
use ncaf.Network.{normal, Identifier, Operation, Broker, u64_mod, push_operation}
use ncaf.Network.Loops.{complete_sent, handle_received_message}
use ncaf.Network.Requests.{request_operation}
use ncaf.Network.Cluster.{
  Cluster, with_node, parts, Step, request, send, send_reply, receive, reply, IsFresh, Reach, begin,
  later,
}
use ncaf.Network.Cluster.Count.{
  one_for, op_for, message_for, open_in, answers_in, opens, answers, starts,
}
use ncaf.Network.Cluster.Places.{All, To, NodeInv}
use ncaf.Network.Cluster.Counts.{
  transmit-handed, send_request-counted, reply_request-replied, other_flags,
}
use ncaf.Network.Cluster.Conserved.{AllBound, AllHandedOut, Inv}
use ncaf.Network.Cluster.Preserved.{
  flag_cases, ok_unique, request-Inv, send-Inv, send_reply-Inv, reply-Inv,
}
use ncaf.Network.Cluster.Received.{receive_other-Inv, handles_any, receive-Inv}

-- The invariant of a cluster, from that of its three members.
module _ (t : Cluster) {node : ℕ → Broker} {wire : List (ℕ × Operation)} {started : List Identifier}
    (p : t.node ≡ node) (q : t.wire ≡ wire) (r : t.started ≡ started) where
  made_of : Inv (record { node = node; wire = wire; started = started }) → Inv t
  made_of = subst Inv (λ k. record { node = sym p k; wire = sym q k; started = sym r k })

module _ (codec : Codec Identifier) (accepts : ℕ → Bool) where
  receive_any-Inv :
      (s : Cluster) (before after : List (ℕ × Operation)) (j now : ℕ) (op : Operation) {b : Broker}
      → Inv s
      → s.wire ≡ before ++ ((j, op) ∷ after)
      → (s.node j).received_request_id_counter + 1 < u64_mod
      → handle_received_message codec now (parts codec op) (s.node j) ≡ ok b
      → Inv (record { node = with_node s.node j b; wire = before ++ after; started = s.started })
  receive_any-Inv s before after j now op {b} v there small handled =
      let after_it : Broker → Type 0 = λ c.
        Inv (record { node = with_node s.node j c; wire = before ++ after; started = s.started }) in
      elim (flag_cases op.identifier.flag) [
        | inl n ↦
            let (c, ok_c, inv) = receive-Inv s v j codec before after now op there small n in
            subst after_it (ok_unique ok_c handled) inv
        | inr other ↦
            subst after_it (sym (other_flags codec now op (s.node j) other handled)) (
              receive_other-Inv s v j codec before after now op there b.last_seen b.quit_latch
                other)
      ]

  Step-Inv : {s t : Cluster} → Inv s → Step codec accepts s t → Inv t
  Step-Inv {s} {t} v (request i to payload flag {op} {b} small sent p q r) =
      let (is_op, is_b, other) = send_request-counted to payload flag (s.node i) sent in
      made_of t p q r (
        subst
          (λ o. Inv (record {
            node = with_node s.node i (push_operation o b);
            wire = s.wire;
            started = s.started ++ (o.identifier ∷ []);
          }))
          (sym is_op)
          (subst
            (λ c.
              let o = request_operation (s.node i) to payload flag in
              Inv (record {
                node = with_node s.node i (push_operation o c);
                wire = s.wire;
                started = s.started ++ (o.identifier ∷ []);
              }))
            (sym is_b) (request-Inv s v i to payload flag other small)))
  Step-Inv {s} {t} v (send i now {op} {ops} there transmitted p q r) =
      let is = transmit-handed codec accepts now op.identifier.response_node_id op _ transmitted in
      made_of t p q r (
        subst
          (λ c. Inv (record {
            node = with_node s.node i (complete_sent op c);
            wire = s.wire ++ ((op.identifier.response_node_id, op) ∷ []);
            started = s.started;
          }))
          (sym is) (send-Inv s v i codec now op ops there))
  Step-Inv {s} {t} v (send_reply i now {op} {ops} there transmitted p q r) =
      let is = transmit-handed codec accepts now op.identifier.request_node_id op _ transmitted in
      made_of t p q r (
        subst
          (λ c. Inv (record {
            node = with_node s.node i c;
            wire = s.wire ++ ((op.identifier.request_node_id, op) ∷ []);
            started = s.started;
          }))
          (sym is) (send_reply-Inv s v i codec now op ops there))
  Step-Inv {s} {t} v (receive before after j now op there small handled p q r) =
      made_of t p q r (receive_any-Inv s before after j now op v there small handled)
  Step-Inv {s} {t} v (reply j id payload replied_to p q r) =
      let (y, there, is) = reply_request-replied id payload (s.node j) replied_to in
      made_of t p q r (
        subst
          (λ c. Inv (record { node = with_node s.node j c; wire = s.wire; started = s.started }))
          (sym is) (reply-Inv s v j id y payload there))

  IsFresh-NodeInv : (i : ℕ) (b : Broker) → IsFresh i b → NodeInv i b
  IsFresh-NodeInv i b f = record {
    this = f.this;
    ahead = record {
      send_ahead = λ k h. ap (find k) f.no_operations ∙ find-empty k;
      receive_ahead = λ k h. ap (find k) f.no_identifiers ∙ find-empty k;
    };
    unique = subst (λ d. HasUniqueKeys d.entries) (sym f.no_identifiers) tt;
    sends_here = subst (All _) (sym f.no_sends) tt;
    waits_here = subst (λ d. AllIn (To i) d.entries) (sym f.no_identifiers) tt;
    replies_here = subst (All _) (sym f.no_replies) tt;
  }

  fresh_counts :
      (x : Identifier) (i : ℕ) (b : Broker) → IsFresh i b → (open_in x b ≡ 0) × (answers_in x b ≡ 0)
  fresh_counts x i b f = (
    omega (
      arith,
      ap (sum_of (op_for x)) f.no_sends,
      ap (λ d. sum_in (one_for x) d.entries) f.no_identifiers,
      ap (sum_of (op_for x)) f.no_replies,
    ),
    ap (sum_of _) f.none_completed,
  )

  pub Reach-Inv : {s : Cluster} → Reach codec accepts s → Inv s
  Reach-Inv {s} (begin fresh no_wire none_started) = record {
    nodes = λ i. IsFresh-NodeInv i (s.node i) (fresh i);
    bound = subst AllBound (sym no_wire) tt;
    handed_out = subst (AllHandedOut s.node) (sym none_started) tt;
    once = λ x n. omega (arith, ap (sum_of (one_for x)) none_started);
    conserved = λ x n apart. omega (
      arith,
      ap (sum_of (one_for x)) none_started,
      ap (sum_of (message_for x)) no_wire,
      fresh_counts x x.request_node_id (s.node x.request_node_id) (fresh x.request_node_id),
      fresh_counts x x.response_node_id (s.node x.response_node_id) (fresh x.response_node_id),
    );
    registered = λ x n apart still_open. absurd (
        omega (
          arith,
          still_open,
          ap (sum_of (message_for x)) no_wire,
          fresh_counts x x.request_node_id (s.node x.request_node_id) (fresh x.request_node_id),
          fresh_counts x x.response_node_id (s.node x.response_node_id) (fresh x.response_node_id),
        ));
  }
  Reach-Inv (later before step) = Step-Inv (Reach-Inv before) step

  -- In a cluster of brokers, after any sequence of requests, sends, receipts and replies of its
  -- nodes in which no counter of requests wraps: a request, with flag kNormal and between two
  -- nodes, that was started stands in just one place or was answered just once. The places are the
  -- queues and the map of received requests at its two nodes and the network; a request that was
  -- not started stands nowhere and has no answer.
  pub each_request_in_one_place :
      {s : Cluster}
      → Reach codec accepts s
      → (x : Identifier) → x.flag ≡ normal
      → x.request_node_id ≢ x.response_node_id
      → (starts x s ≡ opens x s + answers x s) × (starts x s ≤ 1)
  each_request_in_one_place {s} reach x n apart =
      let v = Reach-Inv reach in (v.conserved x n apart, v.once x n)

  -- In a cluster of brokers, after any sequence of requests, sends, receipts and replies of its
  -- nodes in which no counter of requests wraps: the node that a message of flag kNormal goes to
  -- handles it without an error. If it was asked, it calls its request handler with the payload
  -- under its next id; else it asked, and it completes the operation with the message's
  -- identifier, with the payload as the answer.
  pub every_message_is_handled :
      {s : Cluster}
      → Reach codec accepts s
      → (before after : List (ℕ × Operation)) (j now : ℕ) (op : Operation)
      → s.wire ≡ before ++ ((j, op) ∷ after)
      → op.identifier.flag ≡ normal
      → let a = s.node j in
        (b : Broker) × (handle_received_message codec now (parts codec op) a ≡ ok b)
        × (((j ≡ op.identifier.response_node_id)
              × (b.handled ≡ a.handled ++ ((a.received_request_id_counter, op.payload) ∷ [])))
            ⊎ ((j ≡ op.identifier.request_node_id)
                × (o : Operation) × (o.identifier ≡ op.identifier)
                × (b.completed ≡ a.completed ++ ((o, op.payload) ∷ []))))
  every_message_is_handled {s} reach before after j now op there n =
      let (b, ok_b, done) = handles_any s (Reach-Inv reach) j codec before after now op there n in
      (
        b,
        ok_b,
        elim done [
          | inl (mine, is_b) ↦ inl (mine, ap (λ c. c.handled) is_b)
          | inr (mine, o, found, is, is_b) ↦ inr (mine, o, is, ap (λ c. c.completed) is_b)
        ],
      )
