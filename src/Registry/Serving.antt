-- ===== src/Registry/Serving.antt =====
-- src/ncaf/internal/actor_registry.cc: HandleNetworkRequest and its handlers. A handler of a method
-- call ends at its `co_await`, after which other messages may run, and goes on in
-- `finish_method_call`.
pub mod Answers
use ncaf.Common.{
  ℕ, ◌+◌, ◌<◌, ◌≡◌, List, ◌++◌, Bool, true, false, not, length, Option, none, some, Exception,
  Result, ok, err, catch_std, ◌>>=◌, ◌>>◌, check, or_throw, if◌then◌else◌, nat_eq, text_eq,
  duplicate_actor_name, key_not_found, decode_error,
}
use ncaf.Common.Dict.{Dict, find, contains, put}
use ncaf.Serde.Buffer.{BufferReader, size_t_mod, open_reader}
use ncaf.Serde.Codec.{Codec, DeserializationInfo}
use ncaf.Serde.Message.{
  Alloc, NetworkReplyType, actor_creation_return, actor_creation_error, actor_method_call_error,
  actor_look_up_return, actor_look_up_error, id_reply, bytes_reply, error_reply, Request, creation,
  method_call, look_up, parse_request,
}
use ncaf.Network.{Broker, reply_request}
use ncaf.Registry.{ActorEntry, Processor, generate_random_actor_id}
use ncaf.Remote.{
  CreateActorResult, MethodCallContext, HandlerRegistry, get_method_call, get_creation,
}

-- What the handlers use of zmq, fmt and reflect-cpp: buffers of the size asked for, the texts of
-- errors, and the codecs of ActorMethodReturnError and ActorLookUpRequest.
pub record Wire : Type 0 where
  pub alloc : Alloc
  pub sized : (n : ℕ) → length (alloc n) ≡ n
  pub error_codec : Codec (List ℕ)
  pub name_codec : Codec (List ℕ)
  pub error_text : Exception → List ℕ
  pub not_found_text : (actor_id node_id : ℕ) → List ℕ
  pub error_fits : (e : Exception) → 1 + length (error_codec.serialize (error_text e)) < size_t_mod
  pub not_found_fits :
      (actor_id node_id : ℕ)
      → 1 + length (error_codec.serialize (not_found_text actor_id node_id)) < size_t_mod

pub record Node : Type 0 where
  pub processor : Processor
  pub broker : Broker

abbrev pub entry_address : Option ActorEntry → Option ℕ
entry_address none = none
entry_address (some actor) = some actor.address

abbrev pub info_of : Processor → DeserializationInfo
info_of p = record {
  this_node_id = p.this_node_id;
  actor_look_up_fn = λ id. entry_address (find id p.actor_id_to_actor);
}

-- HandleActorCreationRequest, what it records.
unfoldable pub register_created : ℕ → CreateActorResult → Processor → Result Processor
register_created id result p = elim result.actor_name [
  | none ↦ ok (record p { actor_id_to_actor = put id result.actor p.actor_id_to_actor })
  | some name ↦ do
    check (not (contains name p.actor_name_to_id)) duplicate_actor_name
    ok (record p {
      actor_name_to_id = put name id p.actor_name_to_id;
      actor_id_to_actor = put id result.actor p.actor_id_to_actor;
    })
]

-- The actor that the handler makes for a creation request.
unfoldable pub make_for_request :
    HandlerRegistry → List ℕ → BufferReader → Processor → Result CreateActorResult
make_for_request handlers key reader p = do
  handler ← get_creation key handlers
  handler (record { request_buffer = reader; info = info_of p })

-- What the `catch` sees of an exception: the members as they were before the actor was recorded.
abbrev pub recorded : ℕ → Processor → Result Processor → Processor × Result ℕ
recorded id p (err e) = (p, err e)
recorded id p (ok p') = (p', ok id)

unfoldable pub record_made :
    ℕ → Result CreateActorResult → Processor → Result (Processor × Result ℕ)
record_made fuel (err e) p = ok (p, err e)
record_made fuel (ok result) p = do
  (id, p₁) ← generate_random_actor_id fuel p
  ok (recorded id p₁ (register_created id result p₁))

-- HandleActorCreationRequest up to its reply: the members as they are left, with the new actor's id
-- or the exception that the `catch` sees. Only the fuel of the id's generation ends it otherwise.
unfoldable pub create_for_request :
    ℕ → HandlerRegistry → List ℕ → BufferReader → Processor → Result (Processor × Result ℕ)
unfolding record_made make_for_request
create_for_request fuel handlers key reader p =
    record_made fuel (make_for_request handlers key reader p) p

-- How a request ends: answered, or at a `co_await` with what the task will give.
pub data Outcome : Type 0 where
  answered : Node → Outcome
  awaiting : Result (List ℕ) → Node → Outcome

abbrev pub call_context : ℕ → BufferReader → Processor → MethodCallContext
call_context actor_id reader p = record {
  actor = entry_address (find actor_id p.actor_id_to_actor);
  request_buffer = reader;
  info = info_of p;
}

module _ (wire : Wire) where
  -- ReplyError
  unfoldable pub reply_error : ℕ → NetworkReplyType → List ℕ → Broker → Result Broker
  reply_error request_id type text b = do
    buffer ← bytes_reply wire.alloc type (wire.error_codec.serialize text)
    reply_request request_id buffer b

  -- A reply in a `try` whose `catch` replies with a std::exception.
  unfoldable pub reply_or_error : ℕ → NetworkReplyType → Result (List ℕ) → Broker → Result Broker
  unfolding reply_error
  reply_or_error request_id type answer b =
      elim (answer >>= λ buffer. reply_request request_id buffer b) [
        | ok b' ↦ ok b'
        | err e ↦ catch_std e (reply_error request_id type (wire.error_text e) b)
      ]

  -- HandleActorCreationRequest, after its reader.
  unfoldable pub handle_creation :
      ℕ → HandlerRegistry → ℕ → List ℕ → BufferReader → Node → Result Node
  unfolding create_for_request reply_or_error
  handle_creation fuel handlers request_id key reader node = do
    (p, created) ← create_for_request fuel handlers key reader node.processor
    b ←
        reply_or_error request_id actor_creation_error
          (created >>= λ id. id_reply wire.alloc actor_creation_return id) node.broker
    ok (record { processor = p; broker = b })

  -- HandleActorMethodCallRequest, after its reader, up to its co_await.
  unfoldable pub handle_method_call :
      HandlerRegistry → ℕ → List ℕ → ℕ → BufferReader → Node → Result Outcome
  unfolding reply_error
  handle_method_call handlers request_id key actor_id reader node =
      let p = node.processor in
      elim (contains actor_id p.actor_id_to_actor) [
        | false ↦ do
          b ←
              reply_error request_id actor_method_call_error
                (wire.not_found_text actor_id p.this_node_id) node.broker
          ok (answered (record node { broker = b }))
        | true ↦ elim (get_method_call key handlers) [
          | err e ↦ catch_std e (do
            b ← reply_error request_id actor_method_call_error (wire.error_text e) node.broker
            ok (answered (record node { broker = b })))
          | ok handler ↦ ok (awaiting (handler (call_context actor_id reader p)) node)
        ]
      ]

  -- HandleActorMethodCallRequest, after its co_await.
  unfoldable pub finish_method_call : ℕ → Result (List ℕ) → Broker → Result Broker
  unfolding reply_or_error
  finish_method_call request_id answer b =
      reply_or_error request_id actor_method_call_error answer b

  -- HandleNetworkRequest, its last branch.
  unfoldable pub handle_look_up : ℕ → List ℕ → Node → Result Node
  handle_look_up request_id bytes node = do
    name ← or_throw (wire.name_codec.deserialize bytes) decode_error
    buffer ← elim (find name node.processor.actor_name_to_id) [
      | some id ↦ id_reply wire.alloc actor_look_up_return id
      | none ↦ error_reply wire.alloc actor_look_up_error
    ]
    b ← reply_request request_id buffer node.broker
    ok (record node { broker = b })

  -- The branches of HandleNetworkRequest. A handler goes on reading where the parser stopped.
  unfoldable pub handle_request : ℕ → HandlerRegistry → ℕ → Request → Node → Result Outcome
  unfolding handle_creation handle_method_call handle_look_up
  handle_request fuel handlers request_id (creation key args) node = do
    node' ← handle_creation fuel handlers request_id key (open_reader args) node
    ok (answered node')
  handle_request fuel handlers request_id (method_call key actor_id args) node =
      handle_method_call handlers request_id key actor_id (open_reader args) node
  handle_request fuel handlers request_id (look_up bytes) node = do
    node' ← handle_look_up request_id bytes node
    ok (answered node')

  unfoldable pub handle_network_request : ℕ → HandlerRegistry → ℕ → List ℕ → Node → Result Outcome
  unfolding handle_request
  handle_network_request fuel handlers request_id buffer node = do
    request ← parse_request buffer
    handle_request fuel handlers request_id request node
