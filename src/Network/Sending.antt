-- ===== src/Network/Sending.antt =====
-- What a round of SendProcessLoop puts on the sockets, and what it completes.
use ncaf.Common.{
  ℕ, ◌-◌, ◌<◌, ◌>>=◌, ◌≡◌, refl, sym, ap, ◌∙◌, List, [], ◌∷◌, ◌++◌, map, append-nil, append_assoc,
  true, Bool, ◌||◌, if◌then◌else◌, ok, nat_eq, arith,
}
use ncaf.Common.Dict.{Dict, contains}
use ncaf.Util.LockGuarded.{at}
use ncaf.Serde.Codec.{Codec}
use ncaf.Network.{is_quit, is_heartbeat, Identifier, Operation, Broker}
use ncaf.Network.Loops.{
  transmit, complete_sent, drain_sends, drain_replies, send_round, send_heartbeat,
}

module _ (codec : Codec Identifier) where
  abbrev pub wire : ℕ → Operation → ℕ × List (List ℕ)
  wire node op = (node, codec.serialize op.identifier ∷ op.payload ∷ [])

  -- The messages of requests, and of replies, each to the other node of its identifier.
  abbrev pub send_wires : List Operation → List (ℕ × List (List ℕ))
  send_wires = map (λ op. wire op.identifier.response_node_id op)

  abbrev pub reply_wires : List Operation → List (ℕ × List (List ℕ))
  reply_wires = map (λ op. wire op.identifier.request_node_id op)

abbrev pub completed_by : List Operation → List (Operation × List ℕ)
completed_by [] = []
completed_by (op ∷ ops) =
    if is_quit op.identifier.flag || is_heartbeat op.identifier.flag
    then (op, []) ∷ completed_by ops
    else completed_by ops

-- Every operation goes to a node with a socket that takes its message.
abbrev pub Deliverable : (ℕ → Bool) → (Operation → ℕ) → Dict ℕ (List ℕ) → List Operation → Type 0
Deliverable accepts to sockets [] = Unit {0}
Deliverable accepts to sockets (op ∷ ops) =
    (contains (to op) sockets ≡ true)
    × (accepts (to op) ≡ true)
    × Deliverable accepts to sockets ops

abbrev pub to_response : Operation → ℕ
to_response op = op.identifier.response_node_id

abbrev pub to_request : Operation → ℕ
to_request op = op.identifier.request_node_id

-- The members that draining the queues changes.
abbrev drained : ℕ → List (ℕ × List (List ℕ)) → List (Operation × List ℕ) → Broker → Broker
drained now wires done b = record b {
  last_heartbeat = now;
  sent = b.sent ++ wires;
  completed = b.completed ++ done;
}

module _ (codec : Codec Identifier) (accepts : ℕ → Bool) where
  transmit_ok :
      (now node : ℕ) (op : Operation) (b : Broker)
      → contains node b.node_id_to_send_socket ≡ true
      → accepts node ≡ true
      → transmit codec accepts now node op b
        ≡ ok (record b { last_heartbeat = now; sent = b.sent ++ (wire codec node op ∷ []) })
  unfolding transmit at
  transmit_ok now node op b there yes' = ground arith

regrouped :
    (last : ℕ) (w : ℕ × List (List ℕ)) (ws : List (ℕ × List (List ℕ)))
    (d ds : List (Operation × List ℕ)) (b : Broker)
    → drained last ws ds (drained last (w ∷ []) d b) ≡ drained last (w ∷ ws) (d ++ ds) b
regrouped last w ws d ds b = λ i. record b {
  last_heartbeat = last;
  sent = append_assoc b.sent (w ∷ []) ws i;
  completed = append_assoc b.completed d ds i;
}

nothing_drained : (b : Broker) → b ≡ drained b.last_heartbeat [] [] b
nothing_drained b =
    λ i. record b { sent = sym (append-nil b.sent) i; completed = sym (append-nil b.completed) i }

-- The time of the last message: that of the round, if it sent any.
abbrev pub last_message : List Operation → ℕ → ℕ → ℕ
last_message [] now last = last
last_message (op ∷ ops) now last = now

last_message_same : (ops : List Operation) (now : ℕ) → last_message ops now now ≡ now
last_message_same [] now = refl
last_message_same (op ∷ ops) now = refl

completed_by_one :
    (op : Operation) (ops : List Operation)
    → completed_by (op ∷ ops) ≡ completed_by (op ∷ []) ++ completed_by ops
completed_by_one op ops = ground arith

complete_sent_lem :
    (op : Operation) (b : Broker)
    → complete_sent op b ≡ record b { completed = b.completed ++ completed_by (op ∷ []) }
unfolding complete_sent
complete_sent_lem op b = ground (arith, append-nil b.completed)

module _ (codec : Codec Identifier) (accepts : ℕ → Bool) where
  -- Requests leave in the order of the queue, each as its identifier and its payload, to the node
  -- that is to respond, and those that are quits or heartbeats are completed with no data.
  drain_sends_lem :
      (now : ℕ) (ops : List Operation) (b : Broker)
      → Deliverable accepts to_response b.node_id_to_send_socket ops
      → drain_sends codec accepts now ops b
        ≡ ok (
            drained
              (last_message ops now b.last_heartbeat)
              (send_wires codec ops)
              (completed_by ops)
              b)
  unfolding drain_sends
  drain_sends_lem now [] b fits = ap ok (nothing_drained b)
  drain_sends_lem now (op ∷ ops) b (there, taken, fits) =
      let first = wire codec op.identifier.response_node_id op in
      rw (transmit_ok codec accepts now op.identifier.response_node_id op b there taken) (
        ap (drain_sends codec accepts now ops)
          (complete_sent_lem op (record b { last_heartbeat = now; sent = b.sent ++ (first ∷ []) }))
        ∙ drain_sends_lem now ops (drained now (first ∷ []) (completed_by (op ∷ [])) b) fits
        ∙ ap
            (λ last. ok (
              drained last (send_wires codec ops) (completed_by ops)
                (drained now (first ∷ []) (completed_by (op ∷ [])) b)))
            (last_message_same ops now)
        ∙ ap ok (
            regrouped now first (send_wires codec ops) (completed_by (op ∷ [])) (completed_by ops)
              b)
        ∙ ap (λ done. ok (drained now (send_wires codec (op ∷ ops)) done b))
            (sym (completed_by_one op ops)))

  -- Replies leave in the order of the queue, each to the node that requested.
  drain_replies_lem :
      (now : ℕ) (ops : List Operation) (b : Broker)
      → Deliverable accepts to_request b.node_id_to_send_socket ops
      → drain_replies codec accepts now ops b
        ≡ ok (drained (last_message ops now b.last_heartbeat) (reply_wires codec ops) [] b)
  unfolding drain_replies
  drain_replies_lem now [] b fits = ap ok (nothing_drained b)
  drain_replies_lem now (op ∷ ops) b (there, taken, fits) =
      let first = wire codec op.identifier.request_node_id op in
      rw (transmit_ok codec accepts now op.identifier.request_node_id op b there taken) (
        drain_replies_lem now ops (record b { last_heartbeat = now; sent = b.sent ++ (first ∷ []) })
          fits
        ∙ ap
            (λ last. ok (
              drained last (reply_wires codec ops) []
                (record b { last_heartbeat = now; sent = b.sent ++ (first ∷ []) })))
            (last_message_same ops now)
        ∙ ap (λ sent. ok (record (drained now [] [] b) { sent = sent }))
            (append_assoc b.sent (first ∷ []) (reply_wires codec ops)))

not_due :
    (now : ℕ) (b : Broker)
    → now - b.last_heartbeat < b.config.heartbeat_interval
    → send_heartbeat now b ≡ ok b
unfolding send_heartbeat
not_due now b h = ground arith

last_message_recent :
    (ops : List Operation) (now last interval : ℕ)
    → now - last < interval
    → now - last_message ops now last < interval
last_message_recent [] now last interval h = h
last_message_recent (op ∷ ops) now last interval h = omega arith

-- A round on `b` in parts: after the first queue, and after the second.
abbrev requests_sent : Codec Identifier → ℕ → Broker → Broker
requests_sent codec now b =
    drained (last_message b.pending_send_operations now b.last_heartbeat)
      (send_wires codec b.pending_send_operations) (completed_by b.pending_send_operations)
      (record b { pending_send_operations = [] })

abbrev replies_sent : Codec Identifier → ℕ → Broker → Broker
replies_sent codec now b =
    drained (last_message b.pending_reply_operations now b.last_heartbeat)
      (reply_wires codec b.pending_reply_operations) [] (record b { pending_reply_operations = [] })

-- When every queued operation is for a node with a socket that takes its message, and no heartbeat
-- is due, a round of SendProcessLoop sends the requests in the order of their queue, each to the
-- node that is to respond, then the replies in theirs, each to the node that requested; it empties
-- both queues and completes, with no data, exactly the quits and the heartbeats, in order. No entry
-- of send_request_id_to_operation_ is erased, theirs neither.
pub send_round_lem :
    (codec : Codec Identifier) (accepts : ℕ → Bool) (now : ℕ) (b : Broker)
    → Deliverable accepts to_response b.node_id_to_send_socket b.pending_send_operations
    → Deliverable accepts to_request b.node_id_to_send_socket b.pending_reply_operations
    → now - b.last_heartbeat < b.config.heartbeat_interval
    → (b' : Broker) × (send_round codec accepts now b ≡ ok b')
      × (b'.sent
          ≡ (b.sent ++ send_wires codec b.pending_send_operations)
            ++ reply_wires codec b.pending_reply_operations)
      × (b'.pending_send_operations ≡ [])
      × (b'.pending_reply_operations ≡ [])
      × (b'.completed ≡ b.completed ++ completed_by b.pending_send_operations)
      × (b'.send_request_id_to_operation ≡ b.send_request_id_to_operation)
send_round_lem codec accepts now b sends replies early = (
  b₂,
  sends_both,
  refl,
  refl,
  refl,
  append-nil (b.completed ++ completed_by b.pending_send_operations),
  refl,
)
  where
    b₁ : Broker
    b₁ = requests_sent codec now b

    b₂ : Broker
    b₂ = replies_sent codec now b₁

    in_parts : send_round codec accepts now b ≡ (
        drain_sends codec accepts now b.pending_send_operations
          (record b { pending_send_operations = [] })
        >>= λ b'.
            drain_replies codec accepts now b'.pending_reply_operations
              (record b' { pending_reply_operations = [] })
            >>= λ b''. send_heartbeat now b'')
    in_parts = unfold send_round in refl

    sends_both : send_round codec accepts now b ≡ ok b₂
    sends_both =
        in_parts
        ∙ rw
            (drain_sends_lem codec accepts now b.pending_send_operations
              (record b { pending_send_operations = [] }) sends)
            (rw
              (drain_replies_lem codec accepts now b.pending_reply_operations
                (record b₁ { pending_reply_operations = [] }) replies)
              (not_due now b₂ (
                last_message_recent b.pending_reply_operations now b₁.last_heartbeat _
                  (last_message_recent b.pending_send_operations now b.last_heartbeat _ early))))
