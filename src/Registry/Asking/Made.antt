-- ===== src/Registry/Asking/Made.antt =====
-- An actor that another node is asked to create.
use ncaf.Common.{
  ℕ, suc, ◌+◌, ◌^◌, ◌<◌, ◌≤◌, ◌≡◌, ◌∙◌, refl, sym, ap, List, [], ◌∷◌, ◌++◌, append-nil, length,
  length-append, inl, inr, true, false, some, Option-cases, Result, ok, nat_beq, if◌then◌else◌,
  nat_eq, text_eq, arith, not, ◌||◌, Bool,
}
use ncaf.Common.Dict.{find, contains, put, find-put}
use ncaf.Serde.Bytes.{encode_le, length-encode_le}
use ncaf.Serde.Buffer.{size_t_mod, max_string, open_reader, rest_bytes}
use ncaf.Serde.Codec.{ArgsCodec}
use ncaf.Serde.Message.{reply_byte, actor_creation_return, actor_creation_error, creation_request}
use ncaf.Serde.Message.RoundTrip.{creation_round_trip}
use ncaf.Serde.Message.Replies.{id_reply_lem, reply_type_read, id_read}
use ncaf.Network.{Identifier}
use ncaf.Registry.{ActorConfig, Processor}
use ncaf.Registry.Ids.{generate_random_actor_id_lem, skip}
use ncaf.Registry.Creation.{is_free}
use ncaf.Remote.{CreateActorResult, HandlerRegistry, get_creation, deserialize_and_create}
use ncaf.Registry.Serving.{
  Wire, Node, answered, info_of, make_for_request, record_made, register_created,
  create_for_request, handle_creation, handle_request, handle_network_request,
}
use ncaf.Registry.Serving.Answers.{with_reply, reply_or_error_ok}
use ncaf.Network.{normal, Operation, push_operation}
use ncaf.Network.Requests.{request_operation}
use ncaf.Registry.Asking.{asking, create_actor, finish_create_actor, remote_ref}
use ncaf.Registry.Asking.Sends.{asked, asks}

registers :
    (id : ℕ) (result : CreateActorResult) (p : Processor)
    → is_free result.actor_name p.actor_name_to_id ≡ true
    → (p' : Processor) × (register_created id result p ≡ ok p')
      × (p'.actor_id_to_actor ≡ put id result.actor p.actor_id_to_actor)
unfolding register_created
registers id result p free = elim (Option-cases result.actor_name) [
  | inl no_name ↦
      (record p { actor_id_to_actor = put id result.actor p.actor_id_to_actor }, rw no_name, refl)
  | inr (name, has_name) ↦ (
    record p {
      actor_name_to_id = put name id p.actor_name_to_id;
      actor_id_to_actor = put id result.actor p.actor_id_to_actor;
    },
    ground arith,
    refl,
  )
]

abbrev made_of : ActorConfig → ℕ → CreateActorResult
made_of config address = record {
  actor = record { address = address; config = config };
  actor_name = config.actor_name;
}

-- The handler of a create function makes the actor from the arguments as they arrive.
makes :
    {A : Type 0} (codec : ArgsCodec (ActorConfig × A)) (create : A → Result ℕ)
    (handlers : HandlerRegistry) (key : List ℕ) (sent : ActorConfig × A) (p : Processor)
    (address : ℕ)
    → find key handlers.creation ≡ some (deserialize_and_create codec create)
    → create (codec.arrive (info_of p) sent).1 ≡ ok address
    → make_for_request handlers key (open_reader (codec.serialize sent)) p
      ≡ ok (made_of (codec.arrive (info_of p) sent).0 address)
unfolding make_for_request get_creation deserialize_and_create rest_bytes open_reader
makes codec create handlers key sent p address known created = rw known (rw (read, created))
  where
    read :
        codec.deserialize (info_of p) (codec.serialize sent) ≡ some (codec.arrive (info_of p) sent)
    read =
        ap (codec.deserialize (info_of p)) (sym (append-nil (codec.serialize sent)))
        ∙ codec.deserialize-serialize (info_of p) sent []

-- The reply that carries the new actor's id becomes a reference to it.
finished :
    (wire : Wire) (this node_id actor_id : ℕ)
    → actor_id < 2 ^ 64
    → finish_create_actor wire this node_id
        (encode_le 1 (reply_byte actor_creation_return) ++ (encode_le 8 actor_id ++ []))
      ≡ ok (remote_ref this node_id actor_id)
unfolding finish_create_actor
finished wire this node_id actor_id fits =
    rw (reply_type_read actor_creation_return (encode_le 8 actor_id ++ []) small)
      (rw (id_read actor_creation_return actor_id fits))
  where
    small : 1 + length (encode_le 8 actor_id ++ []) < size_t_mod
    small = omega (arith, length-append (encode_le 8 actor_id) [], length-encode_le 8 actor_id)

-- HandleActorCreationRequest with a handler that made an actor whose name is free.
module _ (wire : Wire) (handlers : HandlerRegistry) (request_id : ℕ) (i : Identifier) (node : Node)
    (there : find request_id node.broker.received_request_id_to_identifier ≡ some i) (fuel k : ℕ)
    (enough : k < fuel)
    (fresh : contains (node.processor.random_num_generator k) node.processor.actor_id_to_actor
      ≡ false)
    (key args : List ℕ) (result : CreateActorResult)
    (made : make_for_request handlers key (open_reader args) node.processor ≡ ok result)
    (free : is_free result.actor_name node.processor.actor_name_to_id ≡ true) where
  creation_handled :
      (j : ℕ) × (p : Processor) × (handle_creation wire fuel handlers request_id key
          (open_reader args)
          node
        ≡ ok (record {
          processor = p;
          broker =
              with_reply wire request_id i
                (encode_le 1 (reply_byte actor_creation_return)
                  ++ (encode_le 8 (node.processor.random_num_generator j) ++ []))
                node.broker;
        }))
      × (contains (node.processor.random_num_generator j) node.processor.actor_id_to_actor ≡ false)
      × (p.actor_id_to_actor
          ≡ put
              (node.processor.random_num_generator j)
              result.actor
              node.processor.actor_id_to_actor)
  unfolding handle_creation create_for_request record_made
  creation_handled =
      let (j, _, generated, new, _) =
        generate_random_actor_id_lem fuel k node.processor enough fresh in
      let id = node.processor.random_num_generator j in
      let (p, registered, maps) = registers id result (skip (suc j) node.processor) free in
      (
        j,
        p,
        rw (made, generated)
            (rw registered (
              rw (id_reply_lem wire.alloc wire.sized actor_creation_return id) (
                rw (
                  reply_or_error_ok wire request_id i node.broker there actor_creation_error
                    (encode_le 1 (reply_byte actor_creation_return) ++ (encode_le 8 id ++ [])))))),
        new,
        maps,
      )

starts :
    (wire : Wire) (fuel : ℕ) (key bytes : List ℕ) (config : ActorConfig) (make : Result ℕ)
    (origin : Node) (buffer : List ℕ)
    → contains config.node_id origin.processor.node_id_to_address ≡ true
    → nat_beq config.node_id origin.processor.this_node_id ≡ false
    → nat_beq config.node_id origin.broker.this_node_id ≡ false
    → creation_request wire.alloc key bytes ≡ ok buffer
    → create_actor wire fuel (some (key, bytes)) config make origin
      ≡ ok (
          asking
            (request_operation origin.broker config.node_id buffer normal)
            (asked origin config.node_id buffer))
unfolding create_actor
starts wire fuel key bytes config make origin buffer listed elsewhere apart written =
    rw (or_listed origin.processor.is_distributed_mode _ listed)
      (rw (elsewhere, create_actor) (rw written (asks config.node_id buffer origin apart)))
  where
    or_listed : (d c : Bool) → c ≡ true → (not d || c) ≡ true
    or_listed false c h = refl
    or_listed true c h = h

-- CreateActor on `origin` for another node of its list, from end to end: it starts one operation, to
-- the node that the config names; its payload makes that node, which has a handler for the create
-- function under its name, construct the actor from the arguments as they arrive and record it under
-- an id that no actor had, and queue one reply; from that reply CreateActor gives a reference to that
-- node which carries that id. The name must be free, the user's function return, ids be of 64 bits
-- and one of the next `fuel` be of no actor; the request must fit the address space.
pub remote_creation :
    (wire : Wire) (handlers : HandlerRegistry) (request_id : ℕ) (i : Identifier) (node : Node)
    (origin : Node) (make : Result ℕ) (fuel k address : ℕ) {A : Type 0}
    (codec : ArgsCodec (ActorConfig × A)) (create : A → Result ℕ) (key : List ℕ)
    (config : ActorConfig) (args : A)
    → contains config.node_id origin.processor.node_id_to_address ≡ true
    → nat_beq config.node_id origin.processor.this_node_id ≡ false
    → nat_beq config.node_id origin.broker.this_node_id ≡ false
    → config.node_id ≡ node.processor.this_node_id
    → find request_id node.broker.received_request_id_to_identifier ≡ some i
    → find key handlers.creation ≡ some (deserialize_and_create codec create)
    → create (codec.arrive (info_of node.processor) (config, args)).1 ≡ ok address
    → is_free
        (codec.arrive (info_of node.processor) (config, args)).0.actor_name
        node.processor.actor_name_to_id
      ≡ true
    → k < fuel
    → contains (node.processor.random_num_generator k) node.processor.actor_id_to_actor ≡ false
    → ((n : ℕ) → node.processor.random_num_generator n < 2 ^ 64)
    → length key ≤ max_string
    → length (codec.serialize (config, args)) + 8 + length key + 1 < size_t_mod
    → (op : Operation) × (payload : List ℕ) × (origin' node' : Node) × (actor_id : ℕ)
      × (create_actor wire fuel (some (key, codec.serialize (config, args))) config make origin
          ≡ ok (asking op origin'))
      × (op.identifier.response_node_id ≡ node.processor.this_node_id)
      × (op.identifier.flag ≡ normal)
      × (origin'.broker.pending_send_operations
          ≡ origin.broker.pending_send_operations ++ (op ∷ []))
      × (handle_network_request wire fuel handlers request_id op.payload node ≡ ok (answered node'))
      × (node'.broker.pending_reply_operations
          ≡ node.broker.pending_reply_operations
            ++ (record { identifier = i; payload = payload } ∷ []))
      × (finish_create_actor wire origin.processor.this_node_id config.node_id payload
          ≡ ok (remote_ref origin.processor.this_node_id config.node_id actor_id))
      × (contains actor_id node.processor.actor_id_to_actor ≡ false)
      × ((id : ℕ)
          → find id node'.processor.actor_id_to_actor ≡ (
              if nat_beq actor_id id
              then some (record {
                address = address;
                config = (codec.arrive (info_of node.processor) (config, args)).0;
              })
              else find id node.processor.actor_id_to_actor))
unfolding handle_network_request handle_request push_operation
remote_creation wire handlers request_id i node origin make fuel k address codec create key config
      args listed elsewhere apart to there known created free enough fresh ids short small =
    let bytes = codec.serialize (config, args) in
    let (buffer, written, _, parsed) =
      creation_round_trip wire.alloc key bytes wire.sized short small in
    let made =
      makes codec create handlers key (config, args) node.processor address known created in
    let result = made_of (codec.arrive (info_of node.processor) (config, args)).0 address in
    let (j, p, handled, new, maps) =
      creation_handled wire handlers request_id i node there fuel k enough fresh key bytes result
        made free in
    let id = node.processor.random_num_generator j in
    let payload = encode_le 1 (reply_byte actor_creation_return) ++ (encode_le 8 id ++ []) in
    (
      request_operation origin.broker config.node_id buffer normal,
      payload,
      asked origin config.node_id buffer,
      record { processor = p; broker = with_reply wire request_id i payload node.broker },
      id,
      starts wire fuel key bytes config make origin buffer listed elsewhere apart written,
      to,
      refl,
      refl,
      rw parsed (rw handled),
      refl,
      finished wire origin.processor.this_node_id config.node_id id (ids j),
      new,
      λ n. rw maps (find-put id n result.actor node.processor.actor_id_to_actor),
    )
