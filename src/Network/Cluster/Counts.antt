-- ===== src/Network/Cluster/Counts.antt =====
-- How each operation of a broker changes the number of places where a request stands.
use ncaf.Common.{
  ℕ, ◌+◌, ◌≡◌, ◌≢◌, refl, sym, ap, subst, List, [], ◌∷◌, ◌++◌, Bool, some, Option-cases, inl, inr,
  ok, nat_eq, arith,
}
use ncaf.Common.Totals.{sum_of-append}
use ncaf.Common.Dict.{Dict, find}
use ncaf.Common.Dict.Keys.{sum_in, value_of, sum_in-put, sum_in-erase}
use ncaf.Serde.Codec.{Codec}
use ncaf.Util.LockGuarded.{insert-absent, at}
use ncaf.Network.{
  MessageFlag, normal, Identifier, Operation, Broker, send_request, push_operation, reply_request,
}
use ncaf.Network.Loops.{complete_sent, transmit, handle_received_message}
use ncaf.Network.Requests.{request_operation, counted, received, answered, replied, decodes}
use ncaf.Network.Cluster.Count.{one_for, op_for, open_in, answered_for, answers_in}
use ncaf.Network.Cluster.Places.{All, From, To, NodeInv}

-- The broker after it handed `op` to zmq.
abbrev pub handed : Codec Identifier → ℕ → ℕ → Operation → Broker → Broker
handed codec now node op b = record b {
  last_heartbeat = now;
  sent = b.sent ++ ((node, codec.serialize op.identifier ∷ op.payload ∷ []) ∷ []);
}

pub transmit-handed :
    (codec : Codec Identifier) (accepts : ℕ → Bool) (now node : ℕ) (op : Operation) (b : Broker)
    {b' : Broker}
    → transmit codec accepts now node op b ≡ ok b'
    → b' ≡ handed codec now node op b
unfolding transmit at
transmit-handed codec accepts now node op b h = ground arith

pub send_request-counted :
    (to : ℕ) (payload : List ℕ) (flag : MessageFlag) (b : Broker) {op : Operation} {b' : Broker}
    → send_request to payload flag b ≡ ok (op, b')
    → (op ≡ request_operation b to payload flag) × (b' ≡ counted b) × (to ≢ b.this_node_id)
unfolding send_request
send_request-counted to payload flag b h = ground arith

pub reply_request-replied :
    (id : ℕ) (payload : List ℕ) (b : Broker) {b' : Broker}
    → reply_request id payload b ≡ ok b'
    → (x : Identifier) × (find id b.received_request_id_to_identifier ≡ some x)
      × (b' ≡ replied id (record { identifier = x; payload = payload }) b)
unfolding reply_request at
reply_request-replied id payload b h =
    elim (Option-cases (find id b.received_request_id_to_identifier)) [
      | inl missing ↦ absurd (ground arith)
      | inr (x, there) ↦ (x, there, ground arith)
    ]

-- A quit or a heartbeat changes nothing but `last_seen` and the latch.
pub other_flags :
    (codec : Codec Identifier) (now : ℕ) (op : Operation) (b : Broker) {b' : Broker}
    → op.identifier.flag ≢ normal
    → handle_received_message codec now (codec.serialize op.identifier ∷ op.payload ∷ []) b ≡ ok b'
    → b' ≡ record b { last_seen = b'.last_seen; quit_latch = b'.quit_latch }
unfolding handle_received_message
other_flags codec now op b other h = ground (arith, decodes codec op.identifier)

module _ (x : Identifier) (b : Broker) where
  pub open_in-request :
      (op : Operation) → open_in x (push_operation op (counted b)) ≡ open_in x b + op_for x op
  unfolding push_operation
  open_in-request op = omega (arith, sum_of-append (op_for x) b.pending_send_operations (op ∷ []))

  pub answers_in-request :
      (op : Operation) → answers_in x (push_operation op (counted b)) ≡ answers_in x b
  unfolding push_operation
  answers_in-request op = refl

  pub open_in-sent :
      (op : Operation)
      → (open_in x (complete_sent op b) ≡ open_in x b)
        × (answers_in x (complete_sent op b) ≡ answers_in x b)
  unfolding complete_sent
  open_in-sent op = ground (arith, sum_of-append (answered_for x) b.completed ((op, []) ∷ []))

  pub open_in-received :
      {i : ℕ} (now : ℕ) (y : Identifier) (payload : List ℕ)
      → NodeInv i b
      → open_in x (received now y payload b) ≡ open_in x b + one_for x y
  open_in-received now y payload v =
      let free = v.ahead.receive_ahead b.received_request_id_counter (omega arith) in
      omega (
        arith,
        ap (λ d. sum_in (one_for x) d.entries)
            (insert-absent b.received_request_id_counter y b.received_request_id_to_identifier
              free),
        sum_in-put (one_for x) b.received_request_id_counter y b.received_request_id_to_identifier
            free,
      )

  pub answers_in-answered :
      (now : ℕ) (op : Operation) (answer : List ℕ)
      → answers_in x (answered now op answer b) ≡ answers_in x b + op_for x op
  answers_in-answered now op answer =
      omega (arith, sum_of-append (answered_for x) b.completed ((op, answer) ∷ []))

  pub open_in-replied :
      {i : ℕ} (id : ℕ) (y : Identifier) (payload : List ℕ)
      → NodeInv i b
      → find id b.received_request_id_to_identifier ≡ some y
      → open_in x (replied id (record { identifier = y; payload = payload }) b) ≡ open_in x b
  open_in-replied id y payload v there = omega (
    arith,
    ap (value_of (one_for x)) there,
    sum_in-erase (one_for x) id b.received_request_id_to_identifier v.unique,
    sum_of-append (op_for x) b.pending_reply_operations
        (record { identifier = y; payload = payload } ∷ []),
  )

pub complete_sent_keeps :
    (op : Operation) (b : Broker)
    → complete_sent op b ≡ record b { completed = (complete_sent op b).completed }
unfolding complete_sent
complete_sent_keeps op b = ground arith

module _ {i : ℕ} (codec : Codec Identifier) (b : Broker) (v : NodeInv i b) where
  pub sent-NodeInv :
      (now : ℕ) (op : Operation) (ops : List Operation)
      → b.pending_send_operations ≡ op ∷ ops
      → From i op.identifier
        × NodeInv i (
            complete_sent op (
              handed codec now op.identifier.response_node_id op
                (record b { pending_send_operations = ops })))
  sent-NodeInv now op ops there =
      let here = subst (All (λ o. From i o.identifier)) there v.sends_here in
      (
        here.0,
        subst (NodeInv i) (sym (complete_sent_keeps op _)) (record {
          this = v.this;
          ahead = record { send_ahead = v.ahead.send_ahead; receive_ahead = v.ahead.receive_ahead };
          unique = v.unique;
          sends_here = here.1;
          waits_here = v.waits_here;
          replies_here = v.replies_here;
        }),
      )

  pub sent_reply-NodeInv :
      (now : ℕ) (op : Operation) (ops : List Operation)
      → b.pending_reply_operations ≡ op ∷ ops
      → To i op.identifier
        × NodeInv i (
            handed codec now op.identifier.request_node_id op
              (record b { pending_reply_operations = ops }))
  sent_reply-NodeInv now op ops there =
      let here = subst (All (λ o. To i o.identifier)) there v.replies_here in
      (
        here.0,
        record {
          this = v.this;
          ahead = record { send_ahead = v.ahead.send_ahead; receive_ahead = v.ahead.receive_ahead };
          unique = v.unique;
          sends_here = v.sends_here;
          waits_here = v.waits_here;
          replies_here = here.1;
        },
      )

  pub seen-NodeInv :
      (last_seen : Dict ℕ ℕ) (quit_latch : ℕ)
      → NodeInv i (record b { last_seen = last_seen; quit_latch = quit_latch })
  seen-NodeInv last_seen quit_latch = record {
    this = v.this;
    ahead = record { send_ahead = v.ahead.send_ahead; receive_ahead = v.ahead.receive_ahead };
    unique = v.unique;
    sends_here = v.sends_here;
    waits_here = v.waits_here;
    replies_here = v.replies_here;
  }
