-- ===== src/Network/Requests.antt =====
-- A request, from SendRequest to the completion of its operation.
use ncaf.Common.{
  ℕ, ◌+◌, ◌%◌, ◌≤◌, ◌<◌, ◌≡◌, ◌≢◌, refl, sym, ap, ◌∙◌, List, [], ◌∷◌, ◌++◌, append-nil, nat_beq,
  none, some, ok, err, key_not_found, nat_eq, if◌then◌else◌, arith,
}
use ncaf.Common.Dict.{find, put, erase, find-erase}
use ncaf.Util.LockGuarded.{insert, at, find-insert}
use ncaf.Serde.Codec.{Codec}
use ncaf.Network.{
  MessageFlag, normal, Identifier, Operation, Broker, u64_mod, send_request, push_operation,
  reply_request,
}
use ncaf.Network.Loops.{handle_received_message}

-- Every key of the two maps was handed out by its counter.
pub record CountersAhead (b : Broker) : Type 0 where
  pub send_ahead :
      (k : ℕ) → b.send_request_id_counter ≤ k → find k b.send_request_id_to_operation ≡ none
  pub receive_ahead :
      (k : ℕ)
      → b.received_request_id_counter ≤ k
      → find k b.received_request_id_to_identifier ≡ none

abbrev pub request_operation : Broker → ℕ → List ℕ → MessageFlag → Operation
request_operation b to payload flag = record {
  identifier = record {
    request_node_id = b.this_node_id;
    response_node_id = to;
    request_id_in_node = b.send_request_id_counter;
    flag = flag;
  };
  payload = payload;
}

abbrev pub counted : Broker → Broker
counted b = record b { send_request_id_counter = (b.send_request_id_counter + 1) % u64_mod }

-- A request to another node, started, is registered under its own id and waits to be sent last; the
-- entries of all other ids stay, and the counter stays ahead of the keys, while it does not wrap.
pub request_is_registered :
    (b : Broker) (to : ℕ) (payload : List ℕ) (flag : MessageFlag)
    → CountersAhead b
    → to ≢ b.this_node_id
    → b.send_request_id_counter + 1 < u64_mod
    → let op = request_operation b to payload flag in
      let b' = push_operation op (counted b) in
      (send_request to payload flag b ≡ ok (op, counted b))
      × ((k : ℕ)
          → find k b'.send_request_id_to_operation ≡ (
              if nat_beq b.send_request_id_counter k
              then some op
              else find k b.send_request_id_to_operation))
      × (b'.pending_send_operations ≡ b.pending_send_operations ++ (op ∷ []))
      × CountersAhead b'
unfolding send_request push_operation
request_is_registered b to payload flag v other small = (
  ground arith,
  registered,
  refl,
  record {
    send_ahead = λ k h. registered k ∙ ground (arith, v.send_ahead k);
    receive_ahead = v.receive_ahead;
  },
)
  where
    op : Operation
    op = request_operation b to payload flag

    registered :
        (k : ℕ)
        → find k (push_operation op (counted b)).send_request_id_to_operation ≡ (
            if nat_beq b.send_request_id_counter k
            then some op
            else find k b.send_request_id_to_operation)
    registered k = ground (
      arith,
      v.send_ahead b.send_request_id_counter,
      (find-insert b.send_request_id_counter k op b.send_request_id_to_operation).0,
    )

-- What HandleReceivedMessage does with a request, and with a response.
abbrev pub received : ℕ → Identifier → List ℕ → Broker → Broker
received now identifier payload b = record b {
  last_seen = put identifier.request_node_id now b.last_seen;
  received_request_id_counter = (b.received_request_id_counter + 1) % u64_mod;
  received_request_id_to_identifier =
      (insert b.received_request_id_counter identifier b.received_request_id_to_identifier).0;
  handled = b.handled ++ ((b.received_request_id_counter, payload) ∷ []);
}

abbrev pub answered : ℕ → Operation → List ℕ → Broker → Broker
answered now op answer b = record b {
  last_seen = put op.identifier.request_node_id now b.last_seen;
  send_request_id_to_operation =
      erase op.identifier.request_id_in_node b.send_request_id_to_operation;
  completed = b.completed ++ ((op, answer) ∷ []);
}

module _ (codec : Codec Identifier) where
  pub decodes : (i : Identifier) → codec.deserialize (codec.serialize i) ≡ some i
  decodes i =
      ap codec.deserialize (sym (append-nil (codec.serialize i))) ∙ codec.deserialize-serialize i []

  pub handles_request :
      (now : ℕ) (i : Identifier) (payload : List ℕ) (b : Broker)
      → i.flag ≡ normal
      → i.request_node_id ≢ b.this_node_id
      → i.response_node_id ≡ b.this_node_id
      → handle_received_message codec now (codec.serialize i ∷ payload ∷ []) b
        ≡ ok (received now i payload b)
  unfolding handle_received_message
  handles_request now i payload b flag other mine = ground (arith, decodes i)

  pub handles_response :
      (now : ℕ) (op : Operation) (answer : List ℕ) (b : Broker)
      → op.identifier.flag ≡ normal
      → op.identifier.request_node_id ≡ b.this_node_id
      → find op.identifier.request_id_in_node b.send_request_id_to_operation ≡ some op
      → handle_received_message codec now (codec.serialize op.identifier ∷ answer ∷ []) b
        ≡ ok (answered now op answer b)
  unfolding handle_received_message at
  handles_response now op answer b flag mine there = ground (arith, decodes op.identifier)

abbrev pub replied : ℕ → Operation → Broker → Broker
replied id reply b = record b {
  received_request_id_to_identifier = erase id b.received_request_id_to_identifier;
  pending_reply_operations = b.pending_reply_operations ++ (reply ∷ []);
}

pub reply_found :
    (id : ℕ) (i : Identifier) (answer : List ℕ) (b : Broker)
    → find id b.received_request_id_to_identifier ≡ some i
    → reply_request id answer b ≡ ok (replied id (record { identifier = i; payload = answer }) b)
unfolding reply_request at
reply_found id i answer b there = ground arith

pub reply_missing :
    (id : ℕ) (answer : List ℕ) (b : Broker)
    → find id b.received_request_id_to_identifier ≡ none
    → reply_request id answer b ≡ err key_not_found
unfolding reply_request at
reply_missing id answer b missing = ground arith

pub received_there :
    (now : ℕ) (i : Identifier) (payload : List ℕ) (b : Broker)
    → CountersAhead b
    → find b.received_request_id_counter
        (received now i payload b).received_request_id_to_identifier
      ≡ some i
received_there now i payload b v = ground (
  arith,
  v.receive_ahead b.received_request_id_counter,
  (find-insert b.received_request_id_counter b.received_request_id_counter i
      b.received_request_id_to_identifier).0,
)

-- A remote call, over brokers `a` and `b` of two nodes: `a` has the operation `op` registered, for
-- node `b` and with flag kNormal, and its message reaches `b`. Then `b` calls its request handler
-- with the payload under a new id; a reply under that id is queued for the node of `a` with the
-- identifier of the request; a second reply under it throws; and when the reply reaches `a`, `op`
-- is completed with the answer, its entry is gone, and all other entries of `a` stay.
pub remote_call :
    (codec : Codec Identifier) (a b : Broker) (op : Operation) (answer : List ℕ) (now later : ℕ)
    → CountersAhead b
    → a.this_node_id ≢ b.this_node_id
    → op.identifier.flag ≡ normal
    → op.identifier.request_node_id ≡ a.this_node_id
    → op.identifier.response_node_id ≡ b.this_node_id
    → find op.identifier.request_id_in_node a.send_request_id_to_operation ≡ some op
    → (b₁ b₂ a₁ : Broker) × (handle_received_message codec now
          (codec.serialize op.identifier ∷ op.payload ∷ [])
          b
        ≡ ok b₁)
      × (b₁.handled ≡ b.handled ++ ((b.received_request_id_counter, op.payload) ∷ []))
      × (reply_request b.received_request_id_counter answer b₁ ≡ ok b₂)
      × (b₂.pending_reply_operations
          ≡ b.pending_reply_operations
            ++ (record { identifier = op.identifier; payload = answer } ∷ []))
      × (reply_request b.received_request_id_counter answer b₂ ≡ err key_not_found)
      × (handle_received_message codec later (codec.serialize op.identifier ∷ answer ∷ []) a
          ≡ ok a₁)
      × (a₁.completed ≡ a.completed ++ ((op, answer) ∷ []))
      × ((k : ℕ)
          → find k a₁.send_request_id_to_operation ≡ (
              if nat_beq op.identifier.request_id_in_node k
              then none
              else find k a.send_request_id_to_operation))
remote_call codec a b op answer now later v apart flag from to there = (
  received now op.identifier op.payload b,
  replied b.received_request_id_counter (record { identifier = op.identifier; payload = answer })
      (received now op.identifier op.payload b),
  answered later op answer a,
  handles_request codec now op.identifier op.payload b flag (ground arith) to,
  refl,
  reply_found _ op.identifier answer _ (received_there now op.identifier op.payload b v),
  refl,
  reply_missing _ answer _ gone,
  handles_response codec later op answer a flag from there,
  refl,
  λ k. find-erase op.identifier.request_id_in_node k a.send_request_id_to_operation,
)
  where
    id : ℕ
    id = b.received_request_id_counter

    gone :
        find id
          (erase id (received now op.identifier op.payload b).received_request_id_to_identifier)
        ≡ none
    gone = ground (
      arith,
      find-erase id id (received now op.identifier op.payload b).received_request_id_to_identifier,
    )

-- A response whose operation is not registered, as a second response is, throws.
unknown_response_throws :
    (codec : Codec Identifier) (now : ℕ) (i : Identifier) (answer : List ℕ) (b : Broker)
    → i.flag ≡ normal
    → i.request_node_id ≡ b.this_node_id
    → find i.request_id_in_node b.send_request_id_to_operation ≡ none
    → handle_received_message codec now (codec.serialize i ∷ answer ∷ []) b ≡ err key_not_found
unfolding handle_received_message at
unknown_response_throws codec now i answer b flag mine gone = ground (arith, decodes codec i)
