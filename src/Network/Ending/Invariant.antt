-- ===== src/Network/Ending/Invariant.antt =====
-- What holds of a broker's threads at each stage of ClusterAlignedStop.
use ncaf.Common.{ℕ, ◌≤◌, ◌≡◌, List, [], Bool, true, nat_eq, arith}
use ncaf.Serde.Codec.{Codec}
use ncaf.Network.{NodeInfo, Operation, Broker, push_operation}
use ncaf.Network.Ending.{
  Main, running, quitting, counting, waiting, storing, emptying, stopping_send, stopping_recv,
  joining_send, joining_recv, returned, Sender, Receiver, System, Step, call, spawn_quit, skip_this,
  all_asked, count, wake, store, on_empty, stop_send, stop_recv, join_send, join_recv, call_again,
  end_send, go_on_send, pop, send, drained, pop_reply, send_reply, replied, no_beat, beat,
  skip_beat, spawn_heartbeat, all_beaten, end_recv, go_on_recv, time_out, handle, request, reply,
}
use ncaf.Network.Ending.Kept.{
  count_down-KeptQueue, handle_received_message-KeptQueue, check_heartbeat-KeptQueue,
  transmit-KeptQueue, complete_sent-KeptQueue, reply_request-KeptQueue, send_request-KeptQueue,
}

abbrev pub stage : Main → ℕ
stage running = 0
stage (quitting left) = 1
stage counting = 2
stage waiting = 3
stage storing = 4
stage emptying = 5
stage stopping_send = 6
stage stopping_recv = 7
stage joining_send = 8
stage joining_recv = 9
stage returned = 10

pub record IsPhased (nodes : List NodeInfo) (this : ℕ) (s : System) : Type 0 where
  pub nodes_same : s.broker.node_list ≡ nodes
  pub this_same : s.broker.this_node_id ≡ this
  pub woken : 4 ≤ stage s.main → s.broker.quit_latch ≡ 0
  pub stored : 5 ≤ stage s.main → s.broker.stopped ≡ true
  pub send_late : s.send_stop ≡ true → 7 ≤ stage s.main
  pub recv_late : s.recv_stop ≡ true → 8 ≤ stage s.main
  pub send_over : s.sender ≡ Sender.ended → s.send_stop ≡ true
  pub recv_over : s.receiver ≡ Receiver.ended → s.recv_stop ≡ true
  pub joined_send : 9 ≤ stage s.main → s.sender ≡ Sender.ended
  pub joined_recv : 10 ≤ stage s.main → s.receiver ≡ Receiver.ended

module _ (nodes : List NodeInfo) (this : ℕ) (codec : Codec ncaf.Network.Identifier)
    (accepts : ℕ → Bool) where
  pub Step-IsPhased :
      {s t : System} → IsPhased nodes this s → Step codec accepts s t → IsPhased nodes this t
  unfolding push_operation
  Step-IsPhased v (call m) = ground arith
  Step-IsPhased {s} v (spawn_quit {node} m other asked) =
      ground (arith, send_request-KeptQueue node.node_id [] ncaf.Network.quit s.broker asked)
  Step-IsPhased v (skip_this m this) = ground arith
  Step-IsPhased v (all_asked m) = ground arith
  Step-IsPhased {s} v (count m h) = ground (arith, count_down-KeptQueue s.broker h)
  Step-IsPhased v (wake m zero) = ground arith
  Step-IsPhased v (store m) = ground arith
  Step-IsPhased v (on_empty m none) = ground arith
  Step-IsPhased v (stop_send m) = ground arith
  Step-IsPhased v (stop_recv m) = ground arith
  Step-IsPhased v (join_send m e) = ground arith
  Step-IsPhased v (join_recv m e) = ground arith
  Step-IsPhased v (call_again m e) = ground arith
  Step-IsPhased v (end_send m e) = ground arith
  Step-IsPhased v (go_on_send m e) = ground arith
  Step-IsPhased v (pop m e) = ground arith
  Step-IsPhased {s} v (send now {op} {b} m h) = ground (
    arith,
    transmit-KeptQueue codec accepts now op.identifier.response_node_id op s.broker h,
    complete_sent-KeptQueue op b,
  )
  Step-IsPhased v (drained m) = ground arith
  Step-IsPhased v (pop_reply m e) = ground arith
  Step-IsPhased {s} v (send_reply now {op} m h) =
      ground
        (arith, transmit-KeptQueue codec accepts now op.identifier.request_node_id op s.broker h)
  Step-IsPhased v (replied m) = ground arith
  Step-IsPhased v (no_beat now m d) = ground arith
  Step-IsPhased v (beat now m d) = ground arith
  Step-IsPhased v (skip_beat m this) = ground arith
  Step-IsPhased {s} v (spawn_heartbeat now {node} m other asked) =
      ground (arith, send_request-KeptQueue node.node_id [] ncaf.Network.heartbeat s.broker asked)
  Step-IsPhased v (all_beaten m) = ground arith
  Step-IsPhased v (end_recv m e) = ground arith
  Step-IsPhased {s} v (go_on_recv now m e h) =
      ground (arith, check_heartbeat-KeptQueue now s.broker.node_list s.broker h)
  Step-IsPhased v (time_out m) = ground arith
  Step-IsPhased {s} v (handle now parts m h) =
      ground (arith, handle_received_message-KeptQueue codec now parts s.broker h)
  Step-IsPhased {s} v (request to payload asked) =
      ground (arith, send_request-KeptQueue to payload ncaf.Network.normal s.broker asked)
  Step-IsPhased {s} v (reply id payload h) =
      ground (arith, reply_request-KeptQueue id payload s.broker h)
