-- ===== src/Network/Ending/Kept.antt =====
-- What the operations of a broker leave alone while its threads are ended.
use ncaf.Common.{
  ℕ, ◌≡◌, refl, sym, ap, ◌∙◌, subst, List, [], ◌∷◌, Bool, false, Option-cases, inl, inr, ok, nat_eq,
  arith,
}
use ncaf.Common.Dict.{put}
use ncaf.Util.LockGuarded.{at}
use ncaf.Serde.Codec.{Codec}
use ncaf.Network.{
  NodeInfo, MessageFlag, normal, quit, heartbeat, Identifier, Operation, Broker, send_request,
  reply_request,
}
use ncaf.Network.Loops.{
  count_down, check_heartbeat, handle_normal, dispatch, complete_sent, transmit,
  handle_received_message,
}
use ncaf.Network.Receiving.{check_keeps}
use ncaf.Network.Cluster.Counts.{
  transmit-handed, send_request-counted, reply_request-replied, complete_sent_keeps,
}

pub record Kept (b b' : Broker) : Type 0 where
  pub same_nodes : b'.node_list ≡ b.node_list
  pub same_id : b'.this_node_id ≡ b.this_node_id
  pub same_stopped : b'.stopped ≡ b.stopped
  pub still_zero : b.quit_latch ≡ 0 → b'.quit_latch ≡ 0

-- Nothing of what the first queue holds, either.
abbrev pub KeptQueue : Broker → Broker → Type 0
KeptQueue b b' = Kept b b' × (b'.pending_send_operations ≡ b.pending_send_operations)

unmoved :
    {b b' : Broker}
    → b'.node_list ≡ b.node_list
    → b'.this_node_id ≡ b.this_node_id
    → b'.stopped ≡ b.stopped
    → b'.quit_latch ≡ b.quit_latch
    → b'.pending_send_operations ≡ b.pending_send_operations
    → KeptQueue b b'
unmoved n i s l q =
    (record { same_nodes = n; same_id = i; same_stopped = s; still_zero = λ z. l ∙ z }, q)

pub KeptQueue-trans : {a b c : Broker} → KeptQueue a b → KeptQueue b c → KeptQueue a c
KeptQueue-trans (k, q) (l, r) = (
  record {
    same_nodes = l.same_nodes ∙ k.same_nodes;
    same_id = l.same_id ∙ k.same_id;
    same_stopped = l.same_stopped ∙ k.same_stopped;
    still_zero = λ h. l.still_zero (k.still_zero h);
  },
  r ∙ q,
)

pub count_down-KeptQueue : (b : Broker) {b' : Broker} → count_down b ≡ ok b' → KeptQueue b b'
unfolding count_down
count_down-KeptQueue b h = (
  record {
    same_nodes = ground arith;
    same_id = ground arith;
    same_stopped = ground arith;
    still_zero = λ zero. ground arith;
  },
  ground arith,
)

dispatch-KeptQueue :
    (codec : Codec Identifier) (flag : MessageFlag) (i : Identifier) (payload : List ℕ) (b : Broker)
    {b' : Broker}
    → dispatch codec flag i payload b ≡ ok b'
    → KeptQueue b b'
unfolding dispatch handle_normal at count_down
dispatch-KeptQueue codec quit i payload b h = (
  record {
    same_nodes = ground arith;
    same_id = ground arith;
    same_stopped = ground arith;
    still_zero = λ zero. ground arith;
  },
  ground arith,
)
dispatch-KeptQueue codec heartbeat i payload b h = (
  record {
    same_nodes = ground arith;
    same_id = ground arith;
    same_stopped = ground arith;
    still_zero = λ zero. ground arith;
  },
  ground arith,
)
dispatch-KeptQueue codec normal i payload b h = (
  record {
    same_nodes = ground arith;
    same_id = ground arith;
    same_stopped = ground arith;
    still_zero = λ zero. ground arith;
  },
  ground arith,
)

pub handle_received_message-KeptQueue :
    (codec : Codec Identifier) (now : ℕ) (parts : List (List ℕ)) (b : Broker) {b' : Broker}
    → handle_received_message codec now parts b ≡ ok b'
    → KeptQueue b b'
unfolding handle_received_message
handle_received_message-KeptQueue codec now [] b h = absurd (ground arith)
handle_received_message-KeptQueue codec now (bytes ∷ []) b h = absurd (ground arith)
handle_received_message-KeptQueue codec now (bytes ∷ payload ∷ []) b {b'} h =
    elim (Option-cases (codec.deserialize bytes)) [
      | inl unread ↦ absurd (ground arith)
      | inr (i, read) ↦
          let (k, q) =
            dispatch-KeptQueue codec i.flag i payload
              (record b { last_seen = put i.request_node_id now b.last_seen }) {b' = b'}
              (ground arith) in
          (
            record {
              same_nodes = k.same_nodes;
              same_id = k.same_id;
              same_stopped = k.same_stopped;
              still_zero = k.still_zero;
            },
            q,
          )
    ]
handle_received_message-KeptQueue codec now (a ∷ b' ∷ c ∷ ds) b h = absurd (ground arith)

pub check_heartbeat-KeptQueue :
    (now : ℕ) (nodes : List NodeInfo) (b : Broker) {b' : Broker}
    → check_heartbeat now nodes b ≡ (b', false)
    → KeptQueue b b'
check_heartbeat-KeptQueue now nodes b h =
    subst (KeptQueue b) (sym (check_keeps now nodes b) ∙ ap (λ r. r.0) h)
      (unmoved refl refl refl refl refl)

pub transmit-KeptQueue :
    (codec : Codec Identifier) (accepts : ℕ → Bool) (now node : ℕ) (op : Operation) (b : Broker)
    {b' : Broker}
    → transmit codec accepts now node op b ≡ ok b'
    → KeptQueue b b'
transmit-KeptQueue codec accepts now node op b h =
    subst (KeptQueue b) (sym (transmit-handed codec accepts now node op b h))
      (unmoved refl refl refl refl refl)

pub complete_sent-KeptQueue : (op : Operation) (b : Broker) → KeptQueue b (complete_sent op b)
complete_sent-KeptQueue op b =
    subst (KeptQueue b) (sym (complete_sent_keeps op b)) (unmoved refl refl refl refl refl)

pub reply_request-KeptQueue :
    (id : ℕ) (payload : List ℕ) (b : Broker) {b' : Broker}
    → reply_request id payload b ≡ ok b'
    → KeptQueue b b'
reply_request-KeptQueue id payload b h =
    let (x, there, is) = reply_request-replied id payload b h in
    subst (KeptQueue b) (sym is) (unmoved refl refl refl refl refl)

pub send_request-KeptQueue :
    (to : ℕ) (payload : List ℕ) (flag : MessageFlag) (b : Broker) {op : Operation} {b' : Broker}
    → send_request to payload flag b ≡ ok (op, b')
    → KeptQueue b b' × (op.identifier.flag ≡ flag) × (op.identifier.response_node_id ≡ to)
send_request-KeptQueue to payload flag b h =
    let (is_op, is_b, other) = send_request-counted to payload flag b h in
    (
      subst (KeptQueue b) (sym is_b) (unmoved refl refl refl refl refl),
      ap (λ o. o.identifier.flag) is_op,
      ap (λ o. o.identifier.response_node_id) is_op,
    )
