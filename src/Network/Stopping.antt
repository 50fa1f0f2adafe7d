-- ===== src/Network/Stopping.antt =====
-- ClusterAlignedStop counts the quit messages that arrive, whoever sent them.
use ncaf.Common.{
  ℕ, ◌+◌, ◌-◌, ◌%◌, ◌≤◌, ◌<◌, ◌≡◌, refl, sym, ◌∙◌, List, [], ◌∷◌, ◌++◌, append_assoc, append-nil,
  length, true, Bool-cases, inl, inr, nat_beq, if◌then◌else◌, none, some, Result, ok, ◌>>=◌, nat_eq,
  arith,
}
use ncaf.Common.Dict.{put}
use ncaf.Serde.Codec.{Codec}
use ncaf.Network.{
  NodeInfo, Identifier, quit, Operation, Broker, u64_mod, send_request, push_operation,
}
use ncaf.Network.Loops.{quit_all, begin_stop, finish_stop, handle_received_message}
use ncaf.Network.Requests.{decodes}
use ncaf.Network.Heartbeats.{ops_to}

quit_all_lem :
    (nodes : List NodeInfo) (b : Broker)
    → (b' : Broker) × (quit_all nodes b ≡ ok b')
      × (b'.pending_send_operations
          ≡ b.pending_send_operations ++ ops_to quit b.this_node_id b.send_request_id_counter nodes)
      × (b'.quit_latch ≡ b.quit_latch)
unfolding quit_all send_request push_operation
quit_all_lem [] b = (b, refl, sym (append-nil b.pending_send_operations), refl)
quit_all_lem (node ∷ nodes) b = elim (Bool-cases (nat_beq node.node_id b.this_node_id)) [
  | inl mine ↦ rw (mine, quit_all, ops_to) (quit_all_lem nodes b)
  | inr other ↦
      let op : Operation = record {
        identifier = record {
          request_node_id = b.this_node_id;
          response_node_id = node.node_id;
          request_id_in_node = b.send_request_id_counter;
          flag = quit;
        };
        payload = [];
      } in
      let next : Broker =
        push_operation op
          (record b { send_request_id_counter = (b.send_request_id_counter + 1) % u64_mod }) in
      let (b', sent, queued, latch) = quit_all_lem nodes next in
      rw (other, quit_all, ops_to)
        (b', rw other sent, queued ∙ append_assoc b.pending_send_operations (op ∷ []) _, latch)
]

-- ClusterAlignedStop up to its wait queues one quit message to every other node, in the list's
-- order, and counts the latch down once, when the latch is not at zero.
pub begin_stop_lem :
    (b : Broker)
    → 0 < b.quit_latch
    → (b' : Broker) × (begin_stop b ≡ ok b')
      × (b'.pending_send_operations
          ≡ b.pending_send_operations
            ++ ops_to quit b.this_node_id b.send_request_id_counter b.node_list)
      × (b'.quit_latch + 1 ≡ b.quit_latch)
unfolding begin_stop
begin_stop_lem b h =
    let (b', sent, queued, latch) = quit_all_lem b.node_list b in
    (record b' { quit_latch = b'.quit_latch - 1 }, rw sent (ground arith), queued, omega arith)

-- The messages of a list, one after another.
abbrev pub receive_all : Codec Identifier → ℕ → List (List (List ℕ)) → Broker → Result Broker
receive_all codec now [] b = ok b
receive_all codec now (parts ∷ messages) b = do
  b' ← handle_received_message codec now parts b
  receive_all codec now messages b'

abbrev pub quit_messages : Codec Identifier → List Identifier → List (List (List ℕ))
quit_messages codec [] = []
quit_messages codec (i ∷ is) = (codec.serialize i ∷ [] ∷ []) ∷ quit_messages codec is

abbrev AllQuit : List Identifier → Type 0
AllQuit [] = Unit {0}
AllQuit (i ∷ is) = (i.flag ≡ quit) × AllQuit is

one_quit :
    (codec : Codec Identifier) (now : ℕ) (i : Identifier) (b : Broker)
    → i.flag ≡ quit
    → 0 < b.quit_latch
    → handle_received_message codec now (codec.serialize i ∷ [] ∷ []) b
      ≡ ok (record b {
        last_seen = put i.request_node_id now b.last_seen;
        quit_latch = b.quit_latch - 1;
      })
unfolding handle_received_message
one_quit codec now i b flag h = ground (arith, decodes codec i)

all_quit :
    (codec : Codec Identifier) (now : ℕ) (is : List Identifier) (b : Broker)
    → AllQuit is
    → length is ≤ b.quit_latch
    → (b' : Broker) × (receive_all codec now (quit_messages codec is) b ≡ ok b')
      × (b'.quit_latch + length is ≡ b.quit_latch)
all_quit codec now [] b quits h = (b, refl, omega arith)
all_quit codec now (i ∷ is) b (q, quits) h =
    let next : Broker = record b {
      last_seen = put i.request_node_id now b.last_seen;
      quit_latch = b.quit_latch - 1;
    } in
    let (b', got, latch) = all_quit codec now is next quits (omega arith) in
    (b', rw (one_quit codec now i b q (omega arith)) got, omega arith)

-- A broker whose latch stands at `n` (its constructor sets it to the number of nodes) and that begins
-- to stop can stop after `k` quit messages, k + 1 ≤ n, exactly when k + 1 is n, whoever sent them.
stops_with_the_last_quit :
    (codec : Codec Identifier) (now : ℕ) (is : List Identifier) (b : Broker)
    → AllQuit is
    → length is + 1 ≤ b.quit_latch
    → (b₁ b₂ : Broker) × (begin_stop b ≡ ok b₁)
      × (receive_all codec now (quit_messages codec is) b₁ ≡ ok b₂)
      × (finish_stop b₂ ≡ (
          if nat_beq (length is + 1) b.quit_latch
          then some (record b₂ { stopped = true })
          else none))
unfolding finish_stop
stops_with_the_last_quit codec now is b quits h =
    let (b₁, begun, _, latch₁) = begin_stop_lem b (omega arith) in
    let (b₂, got, latch₂) = all_quit codec now is b₁ quits (omega arith) in
    (b₁, b₂, begun, got, ground arith)
