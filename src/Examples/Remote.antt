-- ===== src/Examples/Remote.antt =====
-- Node 1 asks node 2, which has one actor, named `ab`, under the id 4.
use ncaf.Common.{
  ℕ, zero, suc, ◌+◌, ◌^◌, ◌<◌, ◌≡◌, refl, ap, List, [], ◌∷◌, ◌++◌, length, take, take-length-append,
  true, false, Option, none, some, Result, ok, if◌then◌else◌, nat_beq, nat_eq, text_eq, arith,
}
use ncaf.Common.Dict.{find, contains, put, empty}
use ncaf.Serde.Buffer.{next_primitive, open_reader, rest_bytes}
use ncaf.Serde.Bytes.{decode_le}
use ncaf.Serde.Codec.{Codec, ArgsCodec}
use ncaf.Serde.Message.{parse_request, look_up}
use ncaf.Network.{Broker, Operation, normal}
use ncaf.Registry.{ActorConfig, ActorEntry, ActorRef, Processor}
use ncaf.Registry.Serving.{
  Wire, Node, answered, awaiting, info_of, handle_network_request, finish_method_call,
}
use ncaf.Registry.Serving.Answers.{Settled, every_request_answered}
use ncaf.Registry.Asking.{
  here, asking, create_actor, look_up_actor, remote_ref, finish_create_actor, finish_look_up_actor,
}
use ncaf.Registry.Asking.Made.{remote_creation}
use ncaf.Registry.Asking.Named.{remote_look_up, looked_up}
use ncaf.Registry.Creation.{is_free}
use ncaf.Remote.{HandlerRegistry, no_handlers, deserialize_and_create}
use ncaf.Ref.{from_ref, read_ref, send_internal, finish_send}
use ncaf.Ref.Call.{handler_of, remote_method_call}
use ncaf.Examples.Serde.{zeros, length-zeros}
use ncaf.Examples.Network.{op, broker}
use ncaf.Examples.Registry.{name, config, with_actor, five_is_free}

abbrev read_text : List ℕ → Option (List ℕ)
read_text [] = none
read_text (n ∷ bytes) = some (take n bytes)

abbrev text_codec : Codec (List ℕ)
text_codec = record {
  serialize = λ t. length t ∷ t;
  deserialize = read_text;
  deserialize-serialize = λ t behind. ap some (take-length-append t behind);
}

fits : (n : ℕ) → n < 3 → 1 + n < 2 ^ 64
fits n h = omega arith

abbrev wire : Wire
wire = record {
  alloc = zeros;
  sized = length-zeros;
  error_codec = text_codec;
  name_codec = text_codec;
  error_text = λ e. 101 ∷ [];
  not_found_text = λ actor_id node_id. 102 ∷ [];
  error_fits = λ e. fits 2 (omega arith);
  not_found_fits = λ actor_id node_id. fits 2 (omega arith);
}

abbrev waiting_broker : Broker
waiting_broker = record (broker 2 1) {
  received_request_id_to_identifier = put 7 op.identifier empty;
}

abbrev asked_processor : Processor
asked_processor = record with_actor { this_node_id = 2 }

abbrev node : Node
node = record { processor = asked_processor; broker = waiting_broker }

-- Node 1, which knows node 2.
abbrev origin : Node
origin = record {
  processor = record with_actor { this_node_id = 1; node_id_to_address = put 2 (20 ∷ []) empty };
  broker = broker 1 2;
}

knows_2 : contains 2 origin.processor.node_id_to_address ≡ true
unfolding find put
knows_2 = refl

waits : find 7 waiting_broker.received_request_id_to_identifier ≡ some op.identifier
unfolding find put
waits = refl

abbrev buffer : List ℕ
buffer = 2 ∷ 2 ∷ 97 ∷ 98 ∷ []

buffer_parsed : parse_request buffer ≡ ok (look_up (2 ∷ 97 ∷ 98 ∷ []))
unfolding parse_request next_primitive open_reader rest_bytes decode_le
buffer_parsed = refl

every_request_answered_example :
    Settled wire 7 op.identifier node waiting_broker
      (handle_network_request wire 3 no_handlers 7 buffer node)
every_request_answered_example =
    every_request_answered wire no_handlers 7 op.identifier node waiting_broker 3 1 buffer
      (look_up (2 ∷ 97 ∷ 98 ∷ [])) waits waits buffer_parsed (name, refl) (omega arith) five_is_free

abbrev write_name : Option (List ℕ) → List ℕ
write_name none = 0 ∷ []
write_name (some n) = 1 ∷ length n ∷ n

abbrev read_name : List ℕ → Option (List ℕ)
read_name (suc k ∷ n ∷ bytes) = some (take n bytes)
read_name bytes = none

read_name-write_name :
    (o : Option (List ℕ)) (behind : List ℕ) → read_name (write_name o ++ behind) ≡ o
read_name-write_name none behind = refl
read_name-write_name (some n) behind = ap some (take-length-append n behind)

abbrev read_config : List ℕ → Option (ActorConfig × ℕ)
read_config (max ∷ node_id ∷ index ∷ priority ∷ arg ∷ bytes) = some (
  record {
    max_message_executed_per_activation = max;
    node_id = node_id;
    actor_name = read_name bytes;
    scheduler_index = index;
    priority = priority;
  },
  arg,
)
read_config bytes = none

abbrev creation_codec : ArgsCodec (ActorConfig × ℕ)
creation_codec = record {
  serialize = λ sent.
      sent.0.max_message_executed_per_activation
      ∷ sent.0.node_id
      ∷ sent.0.scheduler_index
      ∷ sent.0.priority
      ∷ sent.1
      ∷ write_name sent.0.actor_name;
  deserialize = λ info. read_config;
  arrive = λ info sent. sent;
  deserialize-serialize = λ info sent behind.
      ap (λ o. some (record (sent.0) { actor_name = o }, sent.1))
        (read_name-write_name sent.0.actor_name behind);
}

abbrev create : ℕ → Result ℕ
create arg = ok (2000 + arg)

abbrev there : ActorConfig
there = record config { node_id = 2; actor_name = some (99 ∷ []) }

abbrev creators : HandlerRegistry
creators = record no_handlers {
  creation = put (102 ∷ []) (deserialize_and_create creation_codec create) empty;
}

creator_known :
    find (102 ∷ []) creators.creation ≡ some (deserialize_and_create creation_codec create)
unfolding find put
creator_known = refl

c_is_free : is_free (some (99 ∷ [])) with_actor.actor_name_to_id ≡ true
unfolding find put
c_is_free = refl

small_ids : (n : ℕ) → with_actor.random_num_generator n < 2 ^ 64
small_ids zero = omega arith
small_ids (suc n) = omega arith

remote_creation_example :
    (request : Operation) × (payload : List ℕ) × (origin' node' : Node) × (actor_id : ℕ)
    × (create_actor wire 3
          (some (102 ∷ [], creation_codec.serialize (there, 5)))
          there
          (ok 0)
          origin
        ≡ ok (asking request origin'))
    × (request.identifier.response_node_id ≡ 2)
    × (request.identifier.flag ≡ normal)
    × (origin'.broker.pending_send_operations ≡ [] ++ (request ∷ []))
    × (handle_network_request wire 3 creators 7 request.payload node ≡ ok (answered node'))
    × (node'.broker.pending_reply_operations
        ≡ [] ++ (record { identifier = op.identifier; payload = payload } ∷ []))
    × (finish_create_actor wire 1 2 payload ≡ ok (remote_ref 1 2 actor_id))
    × (contains actor_id asked_processor.actor_id_to_actor ≡ false)
    × ((id : ℕ)
        → find id node'.processor.actor_id_to_actor ≡ (
            if nat_beq actor_id id
            then some (record { address = 2005; config = there })
            else find id asked_processor.actor_id_to_actor))
remote_creation_example =
    remote_creation wire creators 7 op.identifier node origin (ok 0) 3 1 2005 creation_codec create
      (102 ∷ []) there 5 knows_2 refl refl refl waits creator_known refl c_is_free (omega arith)
      five_is_free small_ids (omega arith) (omega arith)

name_id : (id : ℕ) → find name with_actor.actor_name_to_id ≡ some id → id < 2 ^ 64
unfolding find put
name_id id h = ground arith

remote_look_up_example :
    (request : Operation) × (payload : List ℕ) × (origin' node' : Node) × (look_up_actor wire 2 name
        origin
      ≡ ok (asking request origin'))
    × (request.identifier.response_node_id ≡ 2)
    × (request.identifier.flag ≡ normal)
    × (origin'.broker.pending_send_operations ≡ [] ++ (request ∷ []))
    × (handle_network_request wire 3 no_handlers 7 request.payload node ≡ ok (answered node'))
    × (node'.processor ≡ asked_processor)
    × (node'.broker.pending_reply_operations
        ≡ [] ++ (record { identifier = op.identifier; payload = payload } ∷ []))
    × (finish_look_up_actor wire 1 2 payload
        ≡ ok (looked_up 1 2 (find name asked_processor.actor_name_to_id)))
remote_look_up_example =
    remote_look_up wire no_handlers 7 op.identifier node origin 3 2 name refl refl refl waits
      name_id (omega arith)

abbrev read_number : List ℕ → Option ℕ
read_number [] = none
read_number (n ∷ bytes) = some n

abbrev number_codec : ArgsCodec ℕ
number_codec = record {
  serialize = λ n. n ∷ [];
  deserialize = λ info. read_number;
  arrive = λ info n. n;
  deserialize-serialize = λ info n behind. refl;
}

abbrev returns : Codec ℕ
returns = record {
  serialize = λ n. n ∷ [];
  deserialize = read_number;
  deserialize-serialize = λ n behind. refl;
}

abbrev invoke : ℕ → ℕ → Result ℕ
invoke actor n = ok (actor + n)

abbrev methods : HandlerRegistry
methods = record no_handlers {
  method_call = put (109 ∷ []) (handler_of wire number_codec returns invoke) empty;
}

method_known :
    find (109 ∷ []) methods.method_call ≡ some (handler_of wire number_codec returns invoke)
unfolding find put
method_known = refl

abbrev entry : ActorEntry
entry = record { address = 1000; config = config }

four_is_there : find 4 with_actor.actor_id_to_actor ≡ some entry
unfolding find put
four_is_there = refl

-- Node 1's reference to the actor 4 of node 2.
abbrev far : ActorRef
far = remote_ref 1 2 4

remote_method_call_example :
    let here_ref = read_ref (info_of asked_processor) (from_ref far) in
    (request : Operation) × (origin' : Node) × (answer : Result (List ℕ)) × (send_internal wire true
        (109 ∷ [])
        (5 ∷ [])
        far
        origin
      ≡ ok (asking request origin'))
    × (request.identifier.response_node_id ≡ 2)
    × (request.identifier.flag ≡ normal)
    × (origin'.broker.pending_send_operations ≡ [] ++ (request ∷ []))
    × (send_internal wire true (109 ∷ []) (5 ∷ []) here_ref node ≡ ok (here 1000 node))
    × (handle_network_request wire 3 methods 7 request.payload node ≡ ok (awaiting answer node))
    × (later' : Broker) × (payload : List ℕ) × (finish_method_call wire 7 answer waiting_broker
        ≡ ok later')
    × (later'.pending_reply_operations
        ≡ [] ++ (record { identifier = op.identifier; payload = payload } ∷ []))
    × (finish_send wire returns.deserialize payload ≡ ok 1005)
remote_method_call_example =
    remote_method_call wire number_codec returns invoke methods 7 op.identifier node origin 3
      (109 ∷ []) far entry 5 waiting_broker refl refl refl refl four_is_there method_known
      (omega arith) (omega arith) (omega arith) (omega arith) waits
