-- ===== src/Network/Ending/Asked.antt =====
-- Where the quit messages of ClusterAlignedStop are.
use ncaf.Common.{
  ℕ, ◌+◌, ◌≤◌, ◌≡◌, ap, ◌∙◌, List, [], ◌∷◌, ◌++◌, Bool, not, ◌&&◌, nat_beq, if◌then◌else◌, nat_eq,
  arith,
}
use ncaf.Common.Totals.{sum_of, sum_of-append}
use ncaf.Serde.Codec.{Codec}
use ncaf.Network.{NodeInfo, quit, heartbeat, normal, is_quit, Identifier, Operation, push_operation}
use ncaf.Network.Ending.{
  Main, running, quitting, Sender, sending, System, in_scope, Step, call, spawn_quit, skip_this,
  all_asked, count, wake, store, on_empty, stop_send, stop_recv, join_send, join_recv, call_again,
  end_send, go_on_send, pop, send, drained, pop_reply, send_reply, replied, no_beat, beat,
  skip_beat, spawn_heartbeat, all_beaten, end_recv, go_on_recv, time_out, handle, request, reply,
}
use ncaf.Network.Ending.Kept.{
  count_down-KeptQueue, handle_received_message-KeptQueue, check_heartbeat-KeptQueue,
  transmit-KeptQueue, complete_sent-KeptQueue, reply_request-KeptQueue, send_request-KeptQueue,
}
use ncaf.Network.Ending.Invariant.{stage, IsPhased}

-- A quit message to node `j`.
abbrev pub quit_to : ℕ → Operation → ℕ
quit_to j op =
    if is_quit op.identifier.flag && nat_beq op.identifier.response_node_id j then 1 else 0

-- How often the list has node `j`, this node aside.
abbrev pub other_node : ℕ → ℕ → NodeInfo → ℕ
other_node this j node = if not (nat_beq node.node_id this) && nat_beq node.node_id j then 1 else 0

abbrev pub others : ℕ → ℕ → List NodeInfo → ℕ
others this j = sum_of (other_node this j)

-- What SendProcessLoop has in its hands, and what ClusterAlignedStop has not asked yet.
abbrev pub in_hand : (Operation → ℕ) → Sender → ℕ
in_hand f (sending op) = f op
in_hand f _ = 0

abbrev pub not_asked : ℕ → ℕ → List NodeInfo → Main → ℕ
not_asked this j nodes running = others this j nodes
not_asked this j nodes (quitting left) = others this j left
not_asked this j nodes _ = 0

abbrev pub queued : (Operation → ℕ) → System → ℕ
queued f s = sum_of f s.broker.pending_send_operations + in_hand f s.sender

pub record IsCounted (nodes : List NodeInfo) (this j : ℕ) (s : System) : Type 0 where
  pub spawned : s.scope ≡ queued in_scope s
  pub asked :
      queued (quit_to j) s + sum_of (quit_to j) s.transmitted + not_asked this j nodes s.main
      ≡ others this j nodes
  pub none_left : 6 ≤ stage s.main → queued (quit_to j) s ≡ 0

quit_to-le : (j : ℕ) (op : Operation) → quit_to j op ≤ in_scope op
quit_to-le j op = ground arith

sum-quit_to-le : (j : ℕ) (ops : List Operation) → sum_of (quit_to j) ops ≤ sum_of in_scope ops
sum-quit_to-le j [] = omega arith
sum-quit_to-le j (op ∷ ops) = omega (arith, quit_to-le j op, sum-quit_to-le j ops)

in_hand-le : (j : ℕ) (p : Sender) → in_hand (quit_to j) p ≤ in_hand in_scope p
in_hand-le j (sending op) = quit_to-le j op
in_hand-le j Sender.at_top = omega arith
in_hand-le j p = omega arith

sent_off :
    (f : Operation → ℕ) (s : List Operation) (op : Operation)
    → sum_of f (s ++ (op ∷ [])) ≡ sum_of f s + f op
sent_off f s op = omega (arith, sum_of-append f s (op ∷ []))

quit_to_asked :
    (j to this : ℕ) (op : Operation)
    → op.identifier.flag ≡ quit
    → op.identifier.response_node_id ≡ to
    → (in_scope op ≡ 1) × (quit_to j op ≡ (if nat_beq to j then 1 else 0))
quit_to_asked j to this op f r = ground arith

heartbeat_asked :
    (j : ℕ) (op : Operation)
    → op.identifier.flag ≡ heartbeat
    → (in_scope op ≡ 1) × (quit_to j op ≡ 0)
heartbeat_asked j op f = ground arith

normal_asked :
    (j : ℕ) (op : Operation) → op.identifier.flag ≡ normal → (in_scope op ≡ 0) × (quit_to j op ≡ 0)
normal_asked j op f = ground arith

module _ (nodes : List NodeInfo) (this j : ℕ) (codec : Codec Identifier) (accepts : ℕ → Bool) where
  pub Step-IsCounted :
      {s t : System}
      → IsPhased nodes this s
      → IsCounted nodes this j s
      → Step codec accepts s t
      → IsCounted nodes this j t
  unfolding push_operation
  Step-IsCounted v c (call m) = ground (arith, ap (others this j) v.nodes_same)
  Step-IsCounted {s} v c (spawn_quit {node} {op} {b} m other asked) =
      let ((k, q), f, r) = send_request-KeptQueue node.node_id [] quit s.broker asked in
      ground (
        arith,
        ap (sum_of in_scope) q,
        ap (sum_of (quit_to j)) q,
        sent_off in_scope b.pending_send_operations op,
        sent_off (quit_to j) b.pending_send_operations op,
        quit_to_asked j node.node_id this op f r,
      )
  Step-IsCounted v c (skip_this m same) = ground arith
  Step-IsCounted v c (all_asked m) = ground arith
  Step-IsCounted {s} v c (count m h) =
      let (k, q) = count_down-KeptQueue s.broker h in
      ground (arith, ap (sum_of in_scope) q, ap (sum_of (quit_to j)) q)
  Step-IsCounted v c (wake m zero) = ground arith
  Step-IsCounted v c (store m) = ground arith
  Step-IsCounted {s} v c (on_empty m none) =
      ground (arith, sum-quit_to-le j s.broker.pending_send_operations, in_hand-le j s.sender)
  Step-IsCounted v c (stop_send m) = ground arith
  Step-IsCounted v c (stop_recv m) = ground arith
  Step-IsCounted v c (join_send m e) = ground arith
  Step-IsCounted v c (join_recv m e) = ground arith
  Step-IsCounted v c (call_again m e) = ground arith
  Step-IsCounted v c (end_send m e) = ground arith
  Step-IsCounted v c (go_on_send m e) = ground arith
  Step-IsCounted v c (pop m e) = ground (arith, ap (sum_of in_scope) e, ap (sum_of (quit_to j)) e)
  Step-IsCounted {s} v c (send now {op} {b} m h) =
      let (k, q) =
        transmit-KeptQueue codec accepts now op.identifier.response_node_id op s.broker h in
      let (l, r) = complete_sent-KeptQueue op b in
      ground (
        arith,
        ap (sum_of in_scope) (r ∙ q),
        ap (sum_of (quit_to j)) (r ∙ q),
        sent_off (quit_to j) s.transmitted op,
      )
  Step-IsCounted v c (drained m) = ground arith
  Step-IsCounted v c (pop_reply m e) = ground arith
  Step-IsCounted {s} v c (send_reply now {op} m h) =
      let (k, q) =
        transmit-KeptQueue codec accepts now op.identifier.request_node_id op s.broker h in
      ground (arith, ap (sum_of in_scope) q, ap (sum_of (quit_to j)) q)
  Step-IsCounted v c (replied m) = ground arith
  Step-IsCounted v c (no_beat now m d) = ground arith
  Step-IsCounted v c (beat now m d) = ground arith
  Step-IsCounted v c (skip_beat m same) = ground arith
  Step-IsCounted {s} v c (spawn_heartbeat now {node} {op} {b} m other asked) =
      let ((k, q), f, r) = send_request-KeptQueue node.node_id [] heartbeat s.broker asked in
      ground (
        arith,
        ap (sum_of in_scope) q,
        ap (sum_of (quit_to j)) q,
        sent_off in_scope b.pending_send_operations op,
        sent_off (quit_to j) b.pending_send_operations op,
        heartbeat_asked j op f,
      )
  Step-IsCounted v c (all_beaten m) = ground arith
  Step-IsCounted v c (end_recv m e) = ground arith
  Step-IsCounted {s} v c (go_on_recv now m e h) =
      let (k, q) = check_heartbeat-KeptQueue now s.broker.node_list s.broker h in
      ground (arith, ap (sum_of in_scope) q, ap (sum_of (quit_to j)) q)
  Step-IsCounted v c (time_out m) = ground arith
  Step-IsCounted {s} v c (handle now parts m h) =
      let (k, q) = handle_received_message-KeptQueue codec now parts s.broker h in
      ground (arith, ap (sum_of in_scope) q, ap (sum_of (quit_to j)) q)
  Step-IsCounted {s} v c (request to payload {op} {b} asked) =
      let ((k, q), f, r) = send_request-KeptQueue to payload normal s.broker asked in
      ground (
        arith,
        ap (sum_of in_scope) q,
        ap (sum_of (quit_to j)) q,
        sent_off in_scope b.pending_send_operations op,
        sent_off (quit_to j) b.pending_send_operations op,
        normal_asked j op f,
      )
  Step-IsCounted {s} v c (reply id payload h) =
      let (k, q) = reply_request-KeptQueue id payload s.broker h in
      ground (arith, ap (sum_of in_scope) q, ap (sum_of (quit_to j)) q)
