-- ===== src/Network/Heartbeats.antt =====
-- CheckHeartbeat and SendHeartbeat.
use ncaf.Common.{
  if◌then◌else◌, ℕ, ◌+◌, ◌-◌, ◌%◌, ◌≡◌, refl, sym, ap, ◌∙◌, fun_ext, List, [], ◌∷◌, ◌++◌,
  append_assoc, append-nil, true, false, Bool, not, ◌&&◌, ◌||◌, Bool-cases, inl, inr, nat_beq, leb,
  Option, none, some, ok, nat_eq, nat_beq_iff, arith,
}
use ncaf.Common.Dict.{find}
use ncaf.Util.LockGuarded.{insert, find-insert}
use ncaf.Network.{
  NodeInfo, MessageFlag, heartbeat, Operation, Broker, u64_mod, send_request, push_operation,
}
use ncaf.Network.Loops.{heartbeat_all, send_heartbeat, check_heartbeat}

abbrev pub or_epoch : Option ℕ → ℕ
or_epoch none = 0
or_epoch (some t) = t

-- When a node was last seen; the clock's epoch if never.
abbrev pub seen_at : Broker → ℕ → ℕ
seen_at b id = or_epoch (find id b.last_seen)

-- Some other node was last seen `timeout` or longer ago.
abbrev pub any_dead : ℕ → ℕ → ℕ → (ℕ → ℕ) → List NodeInfo → Bool
any_dead this timeout now seen [] = false
any_dead this timeout now seen (node ∷ nodes) =
    (not (nat_beq node.node_id this) && leb timeout (now - seen node.node_id))
    || any_dead this timeout now seen nodes

abbrev pub touched : Broker → ℕ → Broker
touched b id = record b { last_seen = (insert id 0 b.last_seen).0 }

pub seen_at-touched : (b : Broker) (id j : ℕ) → seen_at (touched b id) j ≡ seen_at b j
seen_at-touched b id j = ground (arith, (find-insert id j 0 b.last_seen).0, nat_beq_iff id j)

-- CheckHeartbeat ends the process exactly when another node of the list was last seen
-- heartbeat_timeout or longer ago, a node that was never seen counting from the clock's epoch.
pub check_heartbeat_lem :
    (now : ℕ) (nodes : List NodeInfo) (b : Broker)
    → (check_heartbeat now nodes b).1
      ≡ any_dead b.this_node_id b.config.heartbeat_timeout now (seen_at b) nodes
unfolding check_heartbeat
check_heartbeat_lem now [] b = refl
check_heartbeat_lem now (node ∷ nodes) b = ground (
  arith,
  check_heartbeat_lem now nodes b,
  check_heartbeat_lem now nodes (touched b node.node_id)
      ∙ ap (λ seen. any_dead b.this_node_id b.config.heartbeat_timeout now seen nodes)
          (fun_ext (seen_at-touched b node.node_id)),
  seen_at-touched b node.node_id node.node_id,
)

-- Messages with one flag and no data, to every other node, under consecutive ids.
abbrev pub ops_to : MessageFlag → ℕ → ℕ → List NodeInfo → List Operation
ops_to flag this counter [] = []
ops_to flag this counter (node ∷ nodes) = elim (nat_beq node.node_id this) [
  | true ↦ ops_to flag this counter nodes
  | false ↦
      record {
        identifier = record {
          request_node_id = this;
          response_node_id = node.node_id;
          request_id_in_node = counter;
          flag = flag;
        };
        payload = [];
      }
      ∷ ops_to flag this ((counter + 1) % u64_mod) nodes
]

heartbeat_all_lem :
    (now : ℕ) (nodes : List NodeInfo) (b : Broker)
    → (b' : Broker) × (heartbeat_all now nodes b ≡ ok b')
      × (b'.pending_send_operations
          ≡ b.pending_send_operations
            ++ ops_to heartbeat b.this_node_id b.send_request_id_counter nodes)
unfolding heartbeat_all send_request push_operation
heartbeat_all_lem now [] b = (b, refl, sym (append-nil b.pending_send_operations))
heartbeat_all_lem now (node ∷ nodes) b = elim (Bool-cases (nat_beq node.node_id b.this_node_id)) [
  | inl mine ↦ rw (mine, heartbeat_all, ops_to) (heartbeat_all_lem now nodes b)
  | inr other ↦
      let op : Operation = record {
        identifier = record {
          request_node_id = b.this_node_id;
          response_node_id = node.node_id;
          request_id_in_node = b.send_request_id_counter;
          flag = heartbeat;
        };
        payload = [];
      } in
      let next : Broker = push_operation op (record b {
        send_request_id_counter = (b.send_request_id_counter + 1) % u64_mod;
        last_heartbeat = now;
      }) in
      let (b', sent, queued) = heartbeat_all_lem now nodes next in
      rw (other, heartbeat_all, ops_to)
        (b', rw other sent, queued ∙ append_assoc b.pending_send_operations (op ∷ []) _)
]

abbrev pub is_due : ℕ → Broker → Bool
is_due now b = not b.stopped && leb b.config.heartbeat_interval (now - b.last_heartbeat)

-- SendHeartbeat never throws. When the broker is not stopped and its last message is
-- heartbeat_interval or longer ago, it queues one heartbeat with no data to every other node of the
-- list, in the list's order, under consecutive ids; else it queues nothing.
send_heartbeat_lem :
    (now : ℕ) (b : Broker)
    → (b' : Broker) × (send_heartbeat now b ≡ ok b')
      × (b'.pending_send_operations
          ≡ b.pending_send_operations
            ++ (if is_due now b
                then ops_to heartbeat b.this_node_id b.send_request_id_counter b.node_list
                else []))
send_heartbeat_lem now b = elim (Bool-cases (is_due now b)) [
  | inl due ↦ rw due (unfold send_heartbeat in (rw due (heartbeat_all_lem now b.node_list b)))
  | inr early ↦
      rw early (b, unfold send_heartbeat in (rw early), sym (append-nil b.pending_send_operations))
]
