-- ===== src/Network/Ending/Returned.antt =====
-- What a caller of ClusterAlignedStop, and the destructor after it, rely on.
use ncaf.Common.{ℕ, ◌≡◌, ap, List, [], Bool, true, Result-cases, inl, inr, ok, nat_eq, arith}
use ncaf.Common.Totals.{sum_of}
use ncaf.Serde.Codec.{Codec}
use ncaf.Network.{
  NodeInfo, Zmq, HeartbeatConfig, Broker, Identifier, establish_connections, make_broker,
}
use ncaf.Network.Ending.{returned, Sender, Receiver, System, in_scope, Reach, start, later}
use ncaf.Network.Ending.Invariant.{IsPhased, Step-IsPhased}
use ncaf.Network.Ending.Asked.{quit_to, others, IsCounted, Step-IsCounted}

made :
    (zmq : Zmq) (nodes : List NodeInfo) (this : ℕ) (config : HeartbeatConfig) (now : ℕ) {b : Broker}
    → make_broker zmq nodes this config now ≡ ok b
    → (b.node_list ≡ nodes) × (b.this_node_id ≡ this) × (b.pending_send_operations ≡ [])
unfolding make_broker
made zmq nodes this config now {b} h = elim (Result-cases (establish_connections zmq this nodes)) [
  | inr (e, failed) ↦ absurd (ground arith)
  | inl (sockets, done) ↦ (ground arith, ground arith, ground arith)
]

module _ (codec : Codec Identifier) (accepts : ℕ → Bool) (nodes : List NodeInfo) (this : ℕ) where
  pub Reach-IsPhased : {s : System} → Reach codec accepts nodes this s → IsPhased nodes this s
  Reach-IsPhased (start zmq config now h) = ground (arith, made zmq nodes this config now h)
  Reach-IsPhased (later r st) = Step-IsPhased nodes this codec accepts (Reach-IsPhased r) st

  pub Reach-IsCounted :
      {s : System} (j : ℕ) → Reach codec accepts nodes this s → IsCounted nodes this j s
  Reach-IsCounted j (start zmq config now {b} h) =
      let (same, id, empty) = made zmq nodes this config now h in
      ground (arith, ap (sum_of in_scope) empty, ap (sum_of (quit_to j)) empty)
  Reach-IsCounted j (later r st) =
      Step-IsCounted nodes this j codec accepts (Reach-IsPhased r) (Reach-IsCounted j r) st

  -- When ClusterAlignedStop has returned, beside any steps of the broker's threads and of threads that
  -- ask and reply: both threads have ended, the latch is at zero, the destructor does not call it
  -- again, and each other node of the list was sent a quit as often as it is listed; async_scope_
  -- has as many operations left as quits and heartbeats wait in the queue, no quit among them.
  pub stop_returns_clean :
      {s : System}
      → Reach codec accepts nodes this s
      → s.main ≡ returned
      → (s.sender ≡ Sender.ended)
        × (s.receiver ≡ Receiver.ended)
        × (s.broker.quit_latch ≡ 0)
        × (s.broker.stopped ≡ true)
        × ((j : ℕ) → sum_of (quit_to j) s.transmitted ≡ others this j nodes)
        × (s.scope ≡ sum_of in_scope s.broker.pending_send_operations)
        × ((j : ℕ) → sum_of (quit_to j) s.broker.pending_send_operations ≡ 0)
  stop_returns_clean {s} r m =
      let v = Reach-IsPhased r in
      (
        ground arith,
        ground arith,
        ground arith,
        ground arith,
        λ j. ground (arith, Reach-IsCounted j r),
        ground (arith, Reach-IsCounted 0 r),
        λ j. ground (arith, Reach-IsCounted j r),
      )
