-- ===== src/Registry/Asking.antt =====
-- include/ncaf/internal/actor_registry.h: CreateActor and GetActorRefByName with a node id, up to
-- their `co_await` of another node's reply, and from there on. The node has a broker, as it does in
-- distributed mode.
pub mod Sends
pub mod Made
pub mod Named
use ncaf.Common.{
  ℕ, List, Bool, not, ◌||◌, nat_beq, true, Option, none, some, Result, ok, err, ◌>>=◌, ◌>>◌, check,
  or_throw, nat_eq, invalid_node_id, remote_create_needs_function, decode_error, remote, false,
}
use ncaf.Common.Dict.{contains}
use ncaf.Serde.Buffer.{open_reader, next_primitive, rest_bytes}
use ncaf.Serde.Codec.{Codec, ArgsCodec}
use ncaf.Serde.Message.{
  reply_byte, actor_creation_error, actor_look_up_return, creation_request, look_up_request,
}
use ncaf.Network.{Operation, Broker, normal, send_request, push_operation}
use ncaf.Registry.{ActorConfig, ActorRef, Processor, create_local, get_actor_ref_by_name}
use ncaf.Registry.Serving.{Wire, Node}

-- How a call ends: here, or at its `co_await` of the reply to an operation that was started.
pub data Asked (A : Type 0) : Type 0 where
  here : (value : A) (node : Node) → Asked A
  asking : (operation : Operation) (node : Node) → Asked A

-- `co_await message_broker_->SendRequest(to, payload)` up to the wait.
unfoldable pub ask : {A : Type 0} → ℕ → List ℕ → Node → Result (Asked A)
ask to payload node = do
  (operation, b) ← send_request to payload normal node.broker
  ok (asking operation (record node { broker = push_operation operation b }))

-- A reference to an actor of another node.
abbrev pub remote_ref : ℕ → ℕ → ℕ → ActorRef
remote_ref this node_id actor_id = record {
  is_empty = false;
  this_node_id = this;
  node_id = node_id;
  actor_id = actor_id;
  actor = none;
}

module _ (wire : Wire) where
  -- CreateActor. `create_fn` is the name of kCreateFn with what writes its arguments, if there is one.
  unfoldable pub create_actor :
      ℕ → Option (List ℕ × List ℕ) → ActorConfig → Result ℕ → Node → Result (Asked ActorRef)
  unfolding ask
  create_actor fuel create_fn config make node = do
    check
        (not node.processor.is_distributed_mode
          || contains config.node_id node.processor.node_id_to_address)
        invalid_node_id
    elim (nat_beq config.node_id node.processor.this_node_id) [
      | true ↦ do
        (ref, p) ← create_local fuel config make node.processor
        ok (here ref (record node { processor = p }))
      | false ↦ do
        (key, serialized) ← or_throw create_fn remote_create_needs_function
        buffer ← creation_request wire.alloc key serialized
        ask config.node_id buffer node
    ]

  -- CreateActor from the reply on. ActorCreationError has the one field of ActorMethodReturnError.
  unfoldable pub finish_create_actor : (this node_id : ℕ) → List ℕ → Result ActorRef
  finish_create_actor this node_id response = do
    (type, r) ← next_primitive 1 (open_reader response)
    elim (nat_beq type (reply_byte actor_creation_error)) [
      | true ↦ do
        text ← or_throw (wire.error_codec.deserialize (rest_bytes r)) decode_error
        err (remote text)
      | false ↦ do (actor_id, r') ← next_primitive 8 r; ok (remote_ref this node_id actor_id)
    ]

  -- GetActorRefByName with a node id.
  unfoldable pub look_up_actor : ℕ → List ℕ → Node → Result (Asked (Option ActorRef))
  unfolding ask
  look_up_actor node_id name node = elim (nat_beq node_id node.processor.this_node_id) [
    | true ↦ do ref ← get_actor_ref_by_name name node.processor; ok (here ref node)
    | false ↦ do
      buffer ← look_up_request wire.alloc (wire.name_codec.serialize name)
      ask node_id buffer node
  ]

  -- GetActorRefByName from the reply on.
  unfoldable pub finish_look_up_actor : (this node_id : ℕ) → List ℕ → Result (Option ActorRef)
  finish_look_up_actor this node_id response = do
    (type, r) ← next_primitive 1 (open_reader response)
    elim (nat_beq type (reply_byte actor_look_up_return)) [
      | true ↦ do (actor_id, r') ← next_primitive 8 r; ok (some (remote_ref this node_id actor_id))
      | false ↦ ok none
    ]
