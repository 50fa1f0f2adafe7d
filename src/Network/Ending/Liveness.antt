-- ===== src/Network/Ending/Liveness.antt =====
-- ClusterAlignedStop can return once every node has asked to quit.
use ncaf.Common.{ℕ, ◌≡◌, ◌≢◌, refl, ap, ◌∙◌, List, Bool, true, false, nat_eq, arith}
use ncaf.Common.Dict.{Dict}
use ncaf.Common.Totals.{sum_of}
use ncaf.Serde.Codec.{Codec}
use ncaf.Network.{NodeInfo, Identifier}
use ncaf.Network.Cluster.Places.{All}
use ncaf.Network.Sockets.{SendsTo, RepliesTo}
use ncaf.Network.Ending.{
  waiting, emptying, joining_send, returned, Sender, draining, Receiver, receiving, System,
  in_scope, wake, store, on_empty, stop_send, stop_recv, join_send, join_recv, end_send, end_recv,
  time_out, Reach, later,
}
use ncaf.Network.Ending.Invariant.{IsPhased}
use ncaf.Network.Ending.Returned.{Reach-IsPhased, Reach-IsCounted}
use ncaf.Network.Ending.Ready.{Run, stay, goes, Run-trans, HandReady, Setting, IsReady}
use ncaf.Network.Ending.Progress.{to_top, to_drained}

module _ (codec : Codec Identifier) (accepts : ℕ → Bool) (nodes : List NodeInfo) (this : ℕ) where
  Reach-Run :
      {s t : System}
      → Reach codec accepts nodes this s
      → Run codec accepts s t
      → Reach codec accepts nodes this t
  Reach-Run r stay = r
  Reach-Run r (goes run st) = later (Reach-Run r run) st

  -- The sending thread has ended and both were asked to: the rest is the receiving thread's.
  last_steps :
      (s : System) (p : Receiver)
      → s.main ≡ joining_send
      → s.sender ≡ Sender.ended
      → s.recv_stop ≡ true
      → s.receiver ≡ p
      → (t : System) × Run codec accepts s t × (t.main ≡ returned)
  last_steps s Receiver.at_top m e f p =
      (_, goes (goes (goes stay (end_recv p f)) (join_send m e)) (join_recv refl refl), refl)
  last_steps s receiving m e f p = (
    _,
    goes (goes (goes (goes stay (time_out p)) (end_recv refl f)) (join_send m e))
        (join_recv refl refl),
    refl,
  )
  last_steps s Receiver.ended m e f p =
      (_, goes (goes stay (join_send m e)) (join_recv refl p), refl)

  not_over :
      (s : System)
      → IsPhased nodes this s
      → s.main ≡ waiting
      → (s.send_stop ≡ false) × (s.sender ≢ Sender.ended)
  not_over s v m = (ground arith, λ e. ground arith)

  module _ (all_accepted : (node : ℕ) → accepts node ≡ true) (d : Dict ℕ (List ℕ))
      (x : Setting) where
    -- A stopped broker whose sending thread goes on can empty its scope.
    flush :
        {s : System} (p : Sender)
        → Reach codec accepts nodes this s
        → IsReady d x s
        → x.send_stop ≡ false
        → s.sender ≡ p
        → p ≢ Sender.ended
        → HandReady d x.this p
        → (u : System) × Run codec accepts s u
          × IsReady d x u
          × (u.sender ≡ draining)
          × (u.scope ≡ 0)
    flush {s} p r w on at_p going hand =
        let (t, run, v, top) = to_top codec accepts all_accepted d x s p w at_p going hand in
        let (u, run', z, at_u, empty) =
          to_drained codec accepts all_accepted d x t v top (v.placed.1 ∙ on) in
        let here = Run-trans run run' in
        let c = Reach-IsCounted codec accepts nodes this 0 (Reach-Run r here) in
        (u, here, z, at_u, ground (arith, c.spawned, ap (sum_of in_scope) empty))

    -- From there the call can return.
    leave :
        (u : System)
        → IsReady d x u
        → x.main ≡ emptying
        → u.sender ≡ draining
        → u.scope ≡ 0
        → (t : System) × Run codec accepts u t × (t.main ≡ returned)
    leave u z m at_u none =
        let asked : System = record u { main = joining_send; send_stop = true; recv_stop = true } in
        let (q, run, y, at_q) =
          to_top codec accepts all_accepted d
            (record x { main = joining_send; send_stop = true; recv_stop = true }) asked draining
            (record {
              placed = (refl, refl, refl, z.placed.3);
              kept = z.kept;
              sends = z.sends;
              replies = z.replies;
            })
            at_u (λ e. cc) tt in
        let (e, last, done) =
          last_steps (record q { sender = Sender.ended }) q.receiver y.placed.0 refl y.placed.2
            refl in
        (
          e,
          Run-trans
              (goes (goes (goes stay (on_empty (z.placed.0 ∙ m) none)) (stop_send refl))
                (stop_recv refl))
              (Run-trans (goes run (end_send at_q y.placed.1)) last),
          done,
        )

  -- From every reachable state in which ClusterAlignedStop waits and every node has asked to quit, when
  -- zmq takes every message and all that waits to be sent has a socket, steps lead to its return.
  pub stop_can_return :
      ((node : ℕ) → accepts node ≡ true)
      → {s : System} → Reach codec accepts nodes this s
      → s.main ≡ waiting
      → s.broker.quit_latch ≡ 0
      → let d = s.broker.node_id_to_send_socket in
        All (SendsTo d) s.broker.pending_send_operations
        → All (RepliesTo d) s.broker.pending_reply_operations
        → HandReady d this s.sender
        → (t : System) × Run codec accepts s t × (t.main ≡ returned)
  stop_can_return all_accepted {s} r m zero sends replies hand =
      let v = Reach-IsPhased codec accepts nodes this r in
      let (on, going) = not_over s v m in
      let d = s.broker.node_id_to_send_socket in
      let x : Setting = record {
        main = emptying;
        send_stop = s.send_stop;
        recv_stop = s.recv_stop;
        receiver = s.receiver;
        this = this;
      } in
      let first : Run codec accepts s
          (record s { broker = record (s.broker) { stopped = true }; main = emptying }) =
        goes (goes stay (wake m zero)) (store refl) in
      let (u, run, z, at_u, none) =
        flush all_accepted d x s.sender (Reach-Run r first)
          (record {
            placed = (refl, refl, refl, refl);
            kept = (v.this_same, refl, refl);
            sends = sends;
            replies = replies;
          })
          on refl going hand in
      let (t, rest, done) = leave all_accepted d x u z refl at_u none in
      (t, Run-trans first (Run-trans run rest), done)
