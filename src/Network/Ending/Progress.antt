-- ===== src/Network/Ending/Progress.antt =====
-- SendProcessLoop comes to its top, whatever it is at, once the broker is stopped.
use ncaf.Common.{
  ℕ, ◌+◌, ◌≡◌, refl, sym, ap, ◌∙◌, ◌≢◌, subst, List, [], ◌∷◌, Bool, true, false, Bool-cases, inl,
  inr, nat_beq, ok, nat_eq, arith,
}
use ncaf.Common.Dict.{Dict}
use ncaf.Serde.Codec.{Codec}
use ncaf.Network.{NodeInfo, heartbeat, Identifier, Operation, Broker, send_request, push_operation}
use ncaf.Network.Requests.{request_operation, counted}
use ncaf.Network.Cluster.Places.{All, All-append}
use ncaf.Network.Cluster.Counts.{handed, complete_sent_keeps}
use ncaf.Network.Sockets.{HasSocket, SendsTo, RepliesTo, transmit_ok}
use ncaf.Network.Ending.{
  Sender, at_top, draining, sending, replying, sending_reply, checking, beating, System, Step,
  go_on_send, pop, send, drained, pop_reply, send_reply, replied, no_beat, skip_beat,
  spawn_heartbeat, all_beaten,
}
use ncaf.Network.Ending.Ready.{
  Run, stay, goes, Run-trans, BeatsTo, HandReady, Setting, IsKept, IsReady,
}

module _ (codec : Codec Identifier) (accepts : ℕ → Bool)
    (all_accepted : (node : ℕ) → accepts node ≡ true) (d : Dict ℕ (List ℕ)) (x : Setting) where
  -- The thread can come to the place `p`.
  abbrev pub CanReach : System → Sender → Type 0
  CanReach s p = (t : System) × Run codec accepts s t × IsReady d x t × (t.sender ≡ p)

  one_send :
      (s : System) (op : Operation)
      → IsReady d x s
      → s.sender ≡ sending op
      → SendsTo d op
      → (t : System) × Step codec accepts s t
        × IsReady d x t
        × (t.sender ≡ draining)
        × (t.broker.pending_send_operations ≡ s.broker.pending_send_operations)
  one_send s op v p to =
      let sent =
        transmit_ok codec accepts 0 op.identifier.response_node_id op s.broker (all_accepted _)
          (subst (λ e. HasSocket e op.identifier.response_node_id) (sym v.kept.2) to) in
      let same =
        complete_sent_keeps op (handed codec 0 op.identifier.response_node_id op s.broker) in
      (
        _,
        send 0 p sent,
        record {
          placed = v.placed;
          kept = subst (IsKept d x) (sym same) v.kept;
          sends = subst (λ b. All (SendsTo d) b.pending_send_operations) (sym same) v.sends;
          replies = subst (λ b. All (RepliesTo d) b.pending_reply_operations) (sym same) v.replies;
        },
        refl,
        ap (λ b. b.pending_send_operations) same,
      )

  -- It sends all that is queued.
  drain :
      (s : System) (ops : List Operation)
      → IsReady d x s
      → s.sender ≡ draining
      → s.broker.pending_send_operations ≡ ops
      → (t : System) × Run codec accepts s t
        × IsReady d x t
        × (t.sender ≡ draining)
        × (t.broker.pending_send_operations ≡ [])
  drain s [] v p q = (s, stay, v, p, q)
  drain s (op ∷ ops) v p q =
      let here = subst (All (SendsTo d)) q v.sends in
      let popped : System = record s {
        broker = record (s.broker) { pending_send_operations = ops };
        sender = sending op;
      } in
      let (t, sent, w, at_t, left) =
        one_send popped op
          (record { placed = v.placed; kept = v.kept; sends = here.1; replies = v.replies }) refl
          here.0 in
      let (u, run, z, at_u, empty) = drain t ops w at_t left in
      (u, Run-trans (goes (goes stay (pop p q)) sent) run, z, at_u, empty)

  one_reply :
      (s : System) (op : Operation)
      → IsReady d x s
      → s.sender ≡ sending_reply op
      → RepliesTo d op
      → (t : System) × Step codec accepts s t
        × IsReady d x t
        × (t.sender ≡ replying)
        × (t.broker.pending_reply_operations ≡ s.broker.pending_reply_operations)
  one_reply s op v p to = (
    _,
    send_reply 0 p (
        transmit_ok codec accepts 0 op.identifier.request_node_id op s.broker (all_accepted _)
          (subst (λ e. HasSocket e op.identifier.request_node_id) (sym v.kept.2) to)),
    record { placed = v.placed; kept = v.kept; sends = v.sends; replies = v.replies },
    refl,
    refl,
  )

  moved : (s : System) (p : Sender) → IsReady d x s → IsReady d x (record s { sender = p })
  moved s p v = record { placed = v.placed; kept = v.kept; sends = v.sends; replies = v.replies }

  reply_all :
      (s : System) (ops : List Operation)
      → IsReady d x s
      → s.sender ≡ replying
      → s.broker.pending_reply_operations ≡ ops
      → CanReach s at_top
  reply_all s [] v p q = (
    record s { sender = at_top },
    goes (goes stay (replied p)) (no_beat 0 refl (ground (arith, v.kept.1))),
    moved s at_top v,
    refl,
  )
  reply_all s (op ∷ ops) v p q =
      let here = subst (All (RepliesTo d)) q v.replies in
      let popped : System = record s {
        broker = record (s.broker) { pending_reply_operations = ops };
        sender = sending_reply op;
      } in
      let (t, sent, w, at_t, left) =
        one_reply popped op
          (record { placed = v.placed; kept = v.kept; sends = v.sends; replies = here.1 }) refl
          here.0 in
      let (u, run, z, at_u) = reply_all t ops w at_t left in
      (u, Run-trans (goes (goes stay (pop_reply p q)) sent) run, z, at_u)

  finish_round : (s : System) → IsReady d x s → s.sender ≡ draining → CanReach s at_top
  finish_round s v p =
      let (t, run, w, at_t, empty) = drain s s.broker.pending_send_operations v p refl in
      let (u, rest, z, at_u) =
        reply_all (record t { sender = replying }) t.broker.pending_reply_operations
          (moved t replying w) refl refl in
      (u, Run-trans (goes run (drained at_t)) rest, z, at_u)

  finish_beat :
      (s : System) (left : List NodeInfo)
      → IsReady d x s
      → s.sender ≡ beating left
      → BeatsTo d x.this left
      → CanReach s at_top
  unfolding push_operation send_request
  finish_beat s [] v p to =
      (record s { sender = at_top }, goes stay (all_beaten p), moved s at_top v, refl)
  finish_beat s (node ∷ nodes) v p to =
      elim (Bool-cases (nat_beq node.node_id s.broker.this_node_id)) [
        | inl mine ↦
            let (u, rest, z, at_u) =
              finish_beat (record s { sender = beating nodes }) nodes (moved s (beating nodes) v)
                refl to.1 in
            (u, Run-trans (goes stay (skip_beat p mine)) rest, z, at_u)
        | inr other ↦
            let op = request_operation s.broker node.node_id [] heartbeat in
            let b : Broker = push_operation op (record (counted s.broker) { last_heartbeat = 0 }) in
            let asked : send_request node.node_id [] heartbeat s.broker
                ≡ ok (op, counted s.broker) =
              ground arith in
            let w : IsReady d x
                (record s { broker = b; scope = s.scope + 1; sender = beating nodes }) =
              record {
                placed = v.placed;
                kept = v.kept;
                sends =
                    All-append (SendsTo d) s.broker.pending_send_operations op v.sends
                      (to.0 (ap (nat_beq node.node_id) (sym v.kept.0) ∙ other));
                replies = v.replies;
              } in
            let (u, rest, z, at_u) = finish_beat _ nodes w refl to.1 in
            (u, Run-trans (goes stay (spawn_heartbeat 0 p other asked)) rest, z, at_u)
      ]

  -- From wherever it is, the thread can come to the top of its loop.
  pub to_top :
      (s : System) (p : Sender)
      → IsReady d x s
      → s.sender ≡ p
      → p ≢ Sender.ended
      → HandReady d x.this p
      → CanReach s at_top
  to_top s at_top v p on to = (s, stay, v, p)
  to_top s draining v p on to = finish_round s v p
  to_top s (sending op) v p on to =
      let (t, sent, w, at_t, left) = one_send s op v p to in
      let (u, rest, z, at_u) = finish_round t w at_t in
      (u, Run-trans (goes stay sent) rest, z, at_u)
  to_top s replying v p on to = reply_all s s.broker.pending_reply_operations v p refl
  to_top s (sending_reply op) v p on to =
      let (t, sent, w, at_t, left) = one_reply s op v p to in
      let (u, rest, z, at_u) = reply_all t t.broker.pending_reply_operations w at_t refl in
      (u, Run-trans (goes stay sent) rest, z, at_u)
  to_top s checking v p on to = (
    record s { sender = at_top },
    goes stay (no_beat 0 p (ground (arith, v.kept.1))),
    moved s at_top v,
    refl,
  )
  to_top s (beating left) v p on to = finish_beat s left v p to
  to_top s Sender.ended v p on to = absurd (on refl)

  -- From the top it can come to the test of its first queue when that is empty.
  pub to_drained :
      (s : System)
      → IsReady d x s
      → s.sender ≡ at_top
      → s.send_stop ≡ false
      → (t : System) × Run codec accepts s t
        × IsReady d x t
        × (t.sender ≡ draining)
        × (t.broker.pending_send_operations ≡ [])
  to_drained s v p on =
      let (t, run, w, at_t, empty) =
        drain (record s { sender = draining }) s.broker.pending_send_operations (moved s draining v)
          refl refl in
      (t, Run-trans (goes stay (go_on_send p on)) run, w, at_t, empty)
