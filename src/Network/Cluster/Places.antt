-- ===== src/Network/Cluster/Places.antt =====
-- What each operation of a broker does to the places where requests stand.
use ncaf.Common.{ℕ, ◌+◌, ◌<◌, ◌≡◌, ◌≢◌, sym, subst, List, [], ◌∷◌, ◌++◌, some, nat_eq, arith}
use ncaf.Common.Dict.{find, find-erase}
use ncaf.Common.Dict.Keys.{
  HasUniqueKeys, AllIn, HasUniqueKeys-put, HasUniqueKeys-erase, AllIn-put, AllIn-erase, AllIn-find,
}
use ncaf.Util.LockGuarded.{find-insert, insert-absent}
use ncaf.Network.{MessageFlag, Identifier, Operation, Broker, u64_mod, push_operation}
use ncaf.Network.Requests.{
  CountersAhead, request_operation, counted, request_is_registered, received, answered, replied,
}

abbrev pub All : (Operation → Type 0) → List Operation → Type 0
All P [] = Unit {0}
All P (op ∷ ops) = P op × All P ops

pub All-append :
    (P : Operation → Type 0) (ops : List Operation) (op : Operation)
    → All P ops
    → P op
    → All P (ops ++ (op ∷ []))
All-append P [] op h p = (p, tt)
All-append P (o ∷ ops) op h p = (h.0, All-append P ops op h.1 p)

-- A request of node `i` to another, and one of another to node `i`.
abbrev pub From : ℕ → Identifier → Type 0
From i x = (x.request_node_id ≡ i) × (x.response_node_id ≢ i)

abbrev pub To : ℕ → Identifier → Type 0
To i x = (x.request_node_id ≢ i) × (x.response_node_id ≡ i)

pub record NodeInv (i : ℕ) (b : Broker) : Type 0 where
  pub this : b.this_node_id ≡ i
  pub ahead : CountersAhead b
  pub unique : HasUniqueKeys b.received_request_id_to_identifier.entries
  pub sends_here : All (λ op. From i op.identifier) b.pending_send_operations
  pub waits_here : AllIn (To i) b.received_request_id_to_identifier.entries
  pub replies_here : All (λ op. To i op.identifier) b.pending_reply_operations

module _ {i : ℕ} (b : Broker) (v : NodeInv i b) where
  pub request-NodeInv :
      (to : ℕ) (payload : List ℕ) (flag : MessageFlag)
      → to ≢ i
      → b.send_request_id_counter + 1 < u64_mod
      → NodeInv i (push_operation (request_operation b to payload flag) (counted b))
  unfolding push_operation
  request-NodeInv to payload flag other small =
      let other' : to ≢ b.this_node_id = subst (λ j. to ≢ j) (sym v.this) other in
      record {
        this = v.this;
        ahead = (request_is_registered b to payload flag v.ahead other' small).3;
        unique = v.unique;
        sends_here =
            All-append (λ op. From i op.identifier) b.pending_send_operations
              (request_operation b to payload flag) v.sends_here (v.this, other);
        waits_here = v.waits_here;
        replies_here = v.replies_here;
      }

  pub received-NodeInv :
      (now : ℕ) (x : Identifier) (payload : List ℕ)
      → To i x
      → b.received_request_id_counter + 1 < u64_mod
      → NodeInv i (received now x payload b)
  received-NodeInv now x payload to small =
      let d = b.received_request_id_to_identifier in
      let k = b.received_request_id_counter in
      let free = v.ahead.receive_ahead k (omega arith) in
      record {
        this = v.this;
        ahead = record {
          send_ahead = v.ahead.send_ahead;
          receive_ahead = λ j h. ground (arith, v.ahead.receive_ahead j, (find-insert k j x d).0);
        };
        unique = rw (insert-absent k x d free) (HasUniqueKeys-put k x d free v.unique);
        sends_here = v.sends_here;
        waits_here = rw (insert-absent k x d free) (AllIn-put (To i) k x d to v.waits_here);
        replies_here = v.replies_here;
      }

  pub answered-NodeInv :
      (now : ℕ) (op : Operation) (answer : List ℕ) → NodeInv i (answered now op answer b)
  answered-NodeInv now op answer = record {
    this = v.this;
    ahead = record {
      send_ahead = λ k h. ground (
        arith,
        v.ahead.send_ahead k,
        find-erase op.identifier.request_id_in_node k b.send_request_id_to_operation,
      );
      receive_ahead = v.ahead.receive_ahead;
    };
    unique = v.unique;
    sends_here = v.sends_here;
    waits_here = v.waits_here;
    replies_here = v.replies_here;
  }

  pub replied-NodeInv :
      (id : ℕ) (x : Identifier) (payload : List ℕ)
      → find id b.received_request_id_to_identifier ≡ some x
      → NodeInv i (replied id (record { identifier = x; payload = payload }) b)
  replied-NodeInv id x payload there = record {
    this = v.this;
    ahead = record {
      send_ahead = v.ahead.send_ahead;
      receive_ahead = λ k h.
          ground
            (arith, v.ahead.receive_ahead k, find-erase id k b.received_request_id_to_identifier);
    };
    unique = HasUniqueKeys-erase id b.received_request_id_to_identifier v.unique;
    sends_here = v.sends_here;
    waits_here = AllIn-erase (To i) id b.received_request_id_to_identifier v.waits_here;
    replies_here =
        All-append (λ op. To i op.identifier) b.pending_reply_operations
          (record { identifier = x; payload = payload }) v.replies_here
          (AllIn-find (To i) id b.received_request_id_to_identifier v.waits_here there);
  }
