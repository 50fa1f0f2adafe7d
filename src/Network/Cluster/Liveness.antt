-- ===== src/Network/Cluster/Liveness.antt =====
-- Every request that is started in a cluster of brokers can be answered.
use ncaf.Common.{
  ℕ, ◌+◌, ◌<◌, ◌≡◌, ◌≢◌, refl, sym, ap, ◌∙◌, subst, ◌∷◌, ◌++◌, Bool, true, inl, inr, some, nat_eq,
  arith,
}
use native.Mathlib.Decide.{ℕ_discrete}
use ncaf.Common.Totals.{sum_of}
use ncaf.Common.Dict.{find}
use ncaf.Common.Dict.Keys.{find_positive}
use ncaf.Serde.Codec.{Codec}
use ncaf.Network.{normal, Identifier, u64_mod}
use ncaf.Network.Requests.{received_there}
use ncaf.Network.Sockets.{HasSocket, SendsTo, RepliesTo}
use ncaf.Network.Cluster.{Cluster, with_node, receive, Reach}
use ncaf.Network.Cluster.Count.{one_for, op_for, message_for, opens, answers, starts}
use ncaf.Network.Cluster.Places.{All, From, To}
use ncaf.Network.Cluster.Received.{handles_any}
use ncaf.Network.Cluster.Found.{none_for, for_some, none_waits, on_the_wire}
use ncaf.Network.Cluster.Delivery.{Reach-Inv, each_request_in_one_place}
use ncaf.Network.Cluster.Sendings.{
  Run, stay, goes, Run-trans, Reach-Run, with_node_at, with_node_other, IsOnItsWay, send_up_to,
}
use ncaf.Network.Cluster.Answered.{
  CanReply, CanBeAnswered, asked_at, reply_arrives, reply_sent, answer_given,
}

module _ (codec : Codec Identifier) (accepts : ℕ → Bool)
    (all_accepted : (node : ℕ) → accepts node ≡ true) (x : Identifier) (n : x.flag ≡ normal)
    (apart : x.request_node_id ≢ x.response_node_id) where
  -- The request is on its way.
  request_arrives :
      (s : Cluster)
      → Reach codec accepts s
      → CanReply x s
      → (s.node x.response_node_id).received_request_id_counter + 1 < u64_mod
      → IsOnItsWay x x.response_node_id s
      → CanBeAnswered codec accepts x s
  request_arrives s r c room way =
      let j = x.response_node_id in
      let v = Reach-Inv codec accepts r in
      let (b, ok_b, done) =
        handles_any s v j codec way.before way.after 0 way.op way.wire
          (ap (λ y. y.flag) way.is ∙ n) in
      elim done [
        | inr (mine, o, found, is, is_b) ↦
            absurd (apart (sym (ap (λ y. y.request_node_id) way.is) ∙ sym mine))
        | inl (mine, is_b) ↦
            let at_j = with_node_at s.node j b ∙ is_b in
            let t : Cluster = record {
              node = with_node s.node j b;
              wire = way.before ++ way.after;
              started = s.started;
            } in
            let step : Run codec accepts s t =
              goes stay
                (receive way.before way.after j 0 way.op way.wire room ok_b refl refl refl) in
            let k = (s.node j).received_request_id_counter in
            let (u, rest, answer) =
              answer_given codec accepts all_accepted x n apart t k (Reach-Run r step)
                (asked_at x t _ at_j c.replies c.back (
                  subst (λ e. e.received_request_id_counter + 1 < u64_mod)
                    (sym (with_node_other s.node j x.request_node_id b (λ e. apart (sym e))))
                    c.room))
                (ap (λ e. find k e.received_request_id_to_identifier) at_j
                  ∙ received_there 0 way.op.identifier way.op.payload (s.node j) (v.nodes j).ahead
                  ∙ ap some way.is) in
            (u, Run-trans step rest, answer)
      ]

  -- The request is queued.
  request_sent :
      (s : Cluster)
      → Reach codec accepts s
      → CanReply x s
      → All
          (SendsTo (s.node x.request_node_id).node_id_to_send_socket)
          (s.node x.request_node_id).pending_send_operations
      → (s.node x.response_node_id).received_request_id_counter + 1 < u64_mod
      → 0 < sum_of (op_for x) (s.node x.request_node_id).pending_send_operations
      → CanBeAnswered codec accepts x s
  request_sent s r c sends room pos =
      let (t, sent, way) =
        send_up_to codec accepts all_accepted x n x.request_node_id _ s _ refl refl sends pos in
      let same = sym (sent.others x.response_node_id apart) in
      let (u, rest, done) =
        request_arrives t (Reach-Run r sent.run)
          (asked_at x t _ (sym same) c.replies c.back
            (subst (λ k. k + 1 < u64_mod) (sym sent.counter) c.room))
          (subst (λ k. k.received_request_id_counter + 1 < u64_mod) same room) way in
      (u, Run-trans sent.run rest, done)

  wire_goes :
      (s : Cluster)
      → Reach codec accepts s
      → CanReply x s
      → (s.node x.response_node_id).received_request_id_counter + 1 < u64_mod
      → 0 < sum_of (message_for x) s.wire
      → CanBeAnswered codec accepts x s
  wire_goes s r c room pos =
      let (before, after, to, op, split, is, goes_to) =
        on_the_wire x n s.wire (Reach-Inv codec accepts r).bound pos in
      let way : (k : ℕ) → to ≡ k → IsOnItsWay x k s = λ k e. record {
        before = before;
        after = after;
        op = op;
        wire = split ∙ ap (λ m. before ++ ((m, op) ∷ after)) e;
        is = is;
      } in
      elim goes_to [
        | inl e ↦ request_arrives s r c room (way x.response_node_id e)
        | inr e ↦
            reply_arrives codec accepts all_accepted x n apart s r c.room (way x.request_node_id e)
      ]

  -- Wherever it stands.
  open_goes :
      (s : Cluster)
      → Reach codec accepts s
      → CanReply x s
      → All
          (SendsTo (s.node x.request_node_id).node_id_to_send_socket)
          (s.node x.request_node_id).pending_send_operations
      → (s.node x.response_node_id).received_request_id_counter + 1 < u64_mod
      → 0 < opens x s
      → CanBeAnswered codec accepts x s
  open_goes s r c sends room pos =
      let i = x.request_node_id in
      let j = x.response_node_id in
      let v = Reach-Inv codec accepts r in
      let at_i = v.nodes i in
      let at_j = v.nodes j in
      let not_to : To i x → ⊥ = λ h. h.0 refl in
      let not_from : From j x → ⊥ = λ h. h.1 refl in
      let no_waits =
        none_waits x n (To i) (s.node i).received_request_id_to_identifier not_to at_i.unique
          at_i.waits_here in
      let no_replies =
        none_for x n (To i) (s.node i).pending_reply_operations not_to at_i.replies_here in
      let no_sends =
        none_for x n (From j) (s.node j).pending_send_operations not_from at_j.sends_here in
      elim (ℕ_discrete 0 (sum_of (op_for x) (s.node i).pending_send_operations)) [
        | no queued ↦ request_sent s r c sends room (omega (arith, queued))
        | yes none_queued ↦ elim (ℕ_discrete 0 (sum_of (message_for x) s.wire)) [
          | no wired ↦ wire_goes s r c room (omega (arith, wired))
          | yes none_wired ↦
              elim (ℕ_discrete 0 (sum_of (op_for x) (s.node j).pending_reply_operations)) [
                | no replying ↦
                    reply_sent codec accepts all_accepted x n apart s r c (omega (arith, replying))
                | yes none_replying ↦
                    let (k, y, there, one) =
                      find_positive (one_for x) (s.node j).received_request_id_to_identifier
                        at_j.unique
                        (omega (
                          arith, pos, none_queued, none_wired, none_replying, no_waits, no_replies,
                          no_sends,
                        )) in
                    answer_given codec accepts all_accepted x n apart s k r c
                      (there ∙ ap some (for_some x y n one))
              ]
        ]
      ]

  -- From every reachable state of a cluster, a request of flag kNormal between two nodes that was
  -- started can come to its answer, exactly one: when zmq takes every message, what the asking node
  -- has queued and the replies that the asked node has queued have sockets, as has the way back, and
  -- neither node's counter of received requests wraps at its next one.
  pub can_be_answered :
      {s : Cluster}
      → Reach codec accepts s
      → 0 < starts x s
      → All
          (SendsTo (s.node x.request_node_id).node_id_to_send_socket)
          (s.node x.request_node_id).pending_send_operations
      → All
          (RepliesTo (s.node x.response_node_id).node_id_to_send_socket)
          (s.node x.response_node_id).pending_reply_operations
      → HasSocket (s.node x.response_node_id).node_id_to_send_socket x.request_node_id
      → (s.node x.request_node_id).received_request_id_counter + 1 < u64_mod
      → (s.node x.response_node_id).received_request_id_counter + 1 < u64_mod
      → (t : Cluster) × Run codec accepts s t × (answers x t ≡ 1)
  can_be_answered {s} r started sends replies back room_i room_j =
      let (one, few) = each_request_in_one_place codec accepts r x n apart in
      let c : CanReply x s = record { replies = replies; back = back; room = room_i } in
      let (t, run, done) : CanBeAnswered codec accepts x s = elim (ℕ_discrete 0 (opens x s)) [
        | yes none_open ↦ (s, stay, omega (arith, one, started, none_open))
        | no still_open ↦ open_goes s r c sends room_j (omega (arith, still_open))
      ] in
      (
        t,
        run,
        omega (arith, done, each_request_in_one_place codec accepts (Reach-Run r run) x n apart),
      )
