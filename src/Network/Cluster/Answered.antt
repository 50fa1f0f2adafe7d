-- ===== src/Network/Cluster/Answered.antt =====
-- A request that was received in a cluster of brokers can be answered, and its answer arrives.
use ncaf.Common.{
  ℕ, ◌+◌, ◌<◌, ◌≡◌, ◌≢◌, refl, sym, ap, ◌∙◌, subst, [], ◌∷◌, ◌++◌, Bool, true, inl, inr, some,
  nat_eq, arith,
}
use ncaf.Common.Totals.{sum_of, sum_of-append}
use ncaf.Common.Dict.{find}
use ncaf.Serde.Codec.{Codec}
use ncaf.Network.{normal, Identifier, Operation, Broker, u64_mod}
use ncaf.Network.Requests.{replied, reply_found}
use ncaf.Network.Sockets.{HasSocket, RepliesTo}
use ncaf.Network.Cluster.{Cluster, with_node, receive, reply, Reach}
use ncaf.Network.Cluster.Count.{one_for, op_for, answers_in, answers, one_for_self}
use ncaf.Network.Cluster.Places.{All, All-append}
use ncaf.Network.Cluster.Counts.{answers_in-answered}
use ncaf.Network.Cluster.Received.{handles_any}
use ncaf.Network.Cluster.Delivery.{Reach-Inv}
use ncaf.Network.Cluster.Sendings.{
  Run, stay, goes, Run-trans, Reach-Run, with_node_at, with_node_other, IsOnItsWay, reply_up_to,
}

-- The node that is asked can send its replies, also to the one that asked, and that can receive one.
pub record CanReply (x : Identifier) (s : Cluster) : Type 0 where
  pub replies :
      All
        (RepliesTo (s.node x.response_node_id).node_id_to_send_socket)
        (s.node x.response_node_id).pending_reply_operations
  pub back : HasSocket (s.node x.response_node_id).node_id_to_send_socket x.request_node_id
  pub room : (s.node x.request_node_id).received_request_id_counter + 1 < u64_mod

abbrev pub CanBeAnswered :
    (codec : Codec Identifier) (accepts : ℕ → Bool) → Identifier → Cluster → Type 0
CanBeAnswered codec accepts x s = (t : Cluster) × Run codec accepts s t × (0 < answers x t)

-- The asked node's broker is `b`.
pub asked_at :
    (x : Identifier) (t : Cluster) (b : Broker)
    → t.node x.response_node_id ≡ b
    → All (RepliesTo b.node_id_to_send_socket) b.pending_reply_operations
    → HasSocket b.node_id_to_send_socket x.request_node_id
    → (t.node x.request_node_id).received_request_id_counter + 1 < u64_mod
    → CanReply x t
asked_at x t b at_j replies back room = record {
  replies =
      subst (λ k. All (RepliesTo k.node_id_to_send_socket) k.pending_reply_operations) (sym at_j)
        replies;
  back = subst (λ k. HasSocket k.node_id_to_send_socket x.request_node_id) (sym at_j) back;
  room = room;
}

module _ (codec : Codec Identifier) (accepts : ℕ → Bool)
    (all_accepted : (node : ℕ) → accepts node ≡ true) (x : Identifier) (n : x.flag ≡ normal)
    (apart : x.request_node_id ≢ x.response_node_id) where
  -- The reply arrives.
  pub reply_arrives :
      (s : Cluster)
      → Reach codec accepts s
      → (s.node x.request_node_id).received_request_id_counter + 1 < u64_mod
      → IsOnItsWay x x.request_node_id s
      → CanBeAnswered codec accepts x s
  reply_arrives s r room way =
      let i = x.request_node_id in
      let (b, ok_b, done) =
        handles_any s (Reach-Inv codec accepts r) i codec way.before way.after 0 way.op way.wire
          (ap (λ y. y.flag) way.is ∙ n) in
      elim done [
        | inl (mine, is_b) ↦ absurd (apart (mine ∙ ap (λ y. y.response_node_id) way.is))
        | inr (mine, o, found, is, is_b) ↦ (
          record {
            node = with_node s.node i b;
            wire = way.before ++ way.after;
            started = s.started;
          },
          goes stay (receive way.before way.after i 0 way.op way.wire room ok_b refl refl refl),
          omega (
            arith,
            ap (answers_in x) (with_node_at s.node i b ∙ is_b),
            answers_in-answered x (s.node i) 0 o way.op.payload,
            ap (one_for x) (is ∙ way.is),
            one_for_self x n,
          ),
        )
      ]

  -- The reply is queued.
  pub reply_sent :
      (s : Cluster)
      → Reach codec accepts s
      → CanReply x s
      → 0 < sum_of (op_for x) (s.node x.response_node_id).pending_reply_operations
      → CanBeAnswered codec accepts x s
  reply_sent s r c pos =
      let (t, sent, way) =
        reply_up_to codec accepts all_accepted x n x.response_node_id _ s _ refl refl c.replies
          pos in
      let (u, rest, done) =
        reply_arrives t (Reach-Run r sent.run)
          (subst (λ b. b.received_request_id_counter + 1 < u64_mod)
            (sym (sent.others x.request_node_id (λ e. apart (sym e)))) c.room)
          way in
      (u, Run-trans sent.run rest, done)

  -- The request waits for its answer.
  pub answer_given :
      (s : Cluster) (id : ℕ)
      → Reach codec accepts s
      → CanReply x s
      → find id (s.node x.response_node_id).received_request_id_to_identifier ≡ some x
      → CanBeAnswered codec accepts x s
  answer_given s id r c there =
      let j = x.response_node_id in
      let op : Operation = record { identifier = x; payload = [] } in
      let b = replied id op (s.node j) in
      let at_j = with_node_at s.node j b in
      let t : Cluster = record s { node = with_node s.node j b } in
      let step : Run codec accepts s t =
        goes stay (reply j id [] (reply_found id x [] (s.node j) there) refl refl refl) in
      let (u, rest, done) =
        reply_sent t (Reach-Run r step)
          (asked_at x t b at_j
            (All-append (RepliesTo (s.node j).node_id_to_send_socket)
              (s.node j).pending_reply_operations op c.replies c.back)
            c.back
            (subst (λ k. k.received_request_id_counter + 1 < u64_mod)
              (sym (with_node_other s.node j x.request_node_id b (λ e. apart (sym e)))) c.room))
          (omega (
            arith,
            ap (λ k. sum_of (op_for x) k.pending_reply_operations) at_j,
            sum_of-append (op_for x) (s.node j).pending_reply_operations (op ∷ []),
            one_for_self x n,
          )) in
      (u, Run-trans step rest, done)
