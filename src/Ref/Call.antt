-- ===== src/Ref/Call.antt =====
-- A method call through a reference to an actor of another node, from end to end.
use ncaf.Common.{
  ℕ, ◌+◌, ◌^◌, ◌<◌, ◌≤◌, ◌≡◌, ◌∙◌, refl, sym, ap, List, [], ◌∷◌, ◌++◌, append-nil, drop, length,
  true, false, nat_beq, nat_beq_iff, is_std, some, Result, ok, err, remote, nat_eq, text_eq, ◌>>=◌,
}
use ncaf.Common.Dict.{find, contains, is_some}
use ncaf.Serde.Bytes.{encode_le}
use ncaf.Serde.Buffer.{BufferReader, size_t_mod, max_string, open_reader, rest_bytes}
use ncaf.Serde.Codec.{Codec, ArgsCodec}
use ncaf.Serde.Message.{
  reply_byte, actor_method_call_return, actor_method_call_error, method_call_request, bytes_reply,
}
use ncaf.Serde.Message.MethodCall.{request_size, method_call_arrives}
use ncaf.Serde.Message.Replies.{bytes_reply_lem, reply_type_read, bytes_read}
use ncaf.Network.{Identifier, Broker}
use ncaf.Registry.{ActorEntry}
use ncaf.Remote.{HandlerRegistry, MethodCallHandler, get_method_call, deserialize_and_invoke}
use ncaf.Registry.Serving.{
  Wire, Node, awaiting, info_of, call_context, handle_method_call, finish_method_call,
  handle_request, handle_network_request,
}
use ncaf.Registry.Serving.Answers.{with_reply, reply_or_error_ok, reply_or_error_err}
use ncaf.Network.{normal, Operation, push_operation}
use ncaf.Network.Requests.{request_operation}
use ncaf.Registry.{ActorRef}
use ncaf.Registry.Asking.{here, asking}
use ncaf.Registry.Asking.Sends.{asked, asks}
use ncaf.Ref.{
  finish_send, send_internal, send_local, read_ref, from_ref, to_ref, set_local_runtime_info,
}

-- What a caller at another node sees of a result: its value, or its exception's text, thrown again.
abbrev pub seen_remotely : {R : Type 0} → Wire → Result R → Result R
seen_remotely wire (ok value) = ok value
seen_remotely wire (err e) = err (remote (wire.error_text e))

-- A reply can be made of it: a value that fits, or a std::exception.
abbrev pub Fits : {R : Type 0} → (R → List ℕ) → Result R → Type 0
Fits serialize (ok value) = 1 + length (serialize value) < size_t_mod
Fits serialize (err e) = is_std e ≡ true

-- The reply of a handler to a result of the method.
abbrev answer_of : {R : Type 0} → (R → List ℕ) → Result R → Result (List ℕ)
answer_of serialize (ok value) =
    ok (encode_le 1 (reply_byte actor_method_call_return) ++ serialize value)
answer_of serialize (err e) = err e

module _ {A R : Type 0} (wire : Wire) (codec : ArgsCodec A) (returns : Codec R)
    (invoke : ℕ → A → Result R) where
  abbrev pub handler_of : MethodCallHandler
  handler_of = deserialize_and_invoke wire.alloc codec returns.serialize invoke

  handler_answers :
      (actor_id : ℕ) (entry : ActorEntry) (node : Node) (args : A) (behind : List ℕ)
      → find actor_id node.processor.actor_id_to_actor ≡ some entry
      → Fits returns.serialize (invoke entry.address (codec.arrive (info_of node.processor) args))
      → handler_of
          (call_context actor_id (open_reader (codec.serialize args ++ behind)) node.processor)
        ≡ answer_of returns.serialize
            (invoke entry.address (codec.arrive (info_of node.processor) args))
  unfolding deserialize_and_invoke rest_bytes open_reader
  handler_answers actor_id entry node args behind there fits =
      rw (there, codec.deserialize-serialize (info_of node.processor) args behind)
        (answer (invoke entry.address (codec.arrive (info_of node.processor) args)) fits)
    where
      answer :
          (r : Result R)
          → Fits returns.serialize r
          → (r >>= λ value.
              bytes_reply wire.alloc actor_method_call_return (returns.serialize value))
            ≡ answer_of returns.serialize r
      answer (ok value) h =
          bytes_reply_lem wire.alloc wire.sized actor_method_call_return (returns.serialize value) h
      answer (err e) h = refl

  -- The reply to an answer, and what the caller makes of it.
  module _ (request_id : ℕ) (i : Identifier) (b : Broker)
      (there : find request_id b.received_request_id_to_identifier ≡ some i) where
    answer_seen :
        (result : Result R)
        → Fits returns.serialize result
        → (payload : List ℕ) × (finish_method_call wire request_id
              (answer_of returns.serialize result)
              b
            ≡ ok (with_reply wire request_id i payload b))
          × (finish_send wire returns.deserialize payload ≡ seen_remotely wire result)
    unfolding finish_method_call finish_send
    answer_seen (ok value) fits = (
      encode_le 1 (reply_byte actor_method_call_return) ++ returns.serialize value,
      reply_or_error_ok wire request_id i b there actor_method_call_error _,
      rw (reply_type_read actor_method_call_return (returns.serialize value) fits)
          (rw (bytes_read actor_method_call_return (returns.serialize value)) (rw (read value))),
    )
      where
        read : (value : R) → returns.deserialize (returns.serialize value) ≡ some value
        read value =
            ap returns.deserialize (sym (append-nil (returns.serialize value)))
            ∙ returns.deserialize-serialize value []
    answer_seen (err e) fits = (
      encode_le 1 (reply_byte actor_method_call_error)
          ++ wire.error_codec.serialize (wire.error_text e),
      reply_or_error_err wire request_id i b there actor_method_call_error e fits,
      rw
          (reply_type_read actor_method_call_error (wire.error_codec.serialize (wire.error_text e))
            (wire.error_fits e))
          (rw (bytes_read actor_method_call_error (wire.error_codec.serialize (wire.error_text e)))
            (rw read_error)),
    )
      where
        read_error :
            wire.error_codec.deserialize (wire.error_codec.serialize (wire.error_text e))
            ≡ some (wire.error_text e)
        read_error =
            ap wire.error_codec.deserialize
              (sym (append-nil (wire.error_codec.serialize (wire.error_text e))))
            ∙ wire.error_codec.deserialize-serialize (wire.error_text e) []

call_started :
    (wire : Wire) (handlers : HandlerRegistry) (handler : MethodCallHandler) (request_id : ℕ)
    (key : List ℕ) (actor_id : ℕ) (reader : BufferReader) (node : Node)
    → contains actor_id node.processor.actor_id_to_actor ≡ true
    → get_method_call key handlers ≡ ok handler
    → handle_method_call wire handlers request_id key actor_id reader node
      ≡ ok (awaiting (handler (call_context actor_id reader node.processor)) node)
unfolding handle_method_call
call_started wire handlers handler request_id key actor_id reader node there known =
    rw (there, handle_method_call) (rw (known, handle_method_call))

handler_known :
    (handlers : HandlerRegistry) (key : List ℕ) (handler : MethodCallHandler)
    → find key handlers.method_call ≡ some handler
    → get_method_call key handlers ≡ ok handler
unfolding get_method_call
handler_known handlers key handler known = rw known

starts :
    (wire : Wire) (key bytes : List ℕ) (ref : ActorRef) (origin : Node) (buffer : List ℕ)
    → ref.is_empty ≡ false
    → nat_beq ref.node_id ref.this_node_id ≡ false
    → nat_beq ref.node_id origin.broker.this_node_id ≡ false
    → method_call_request wire.alloc key ref.actor_id bytes ≡ ok buffer
    → send_internal wire true key bytes ref origin
      ≡ ok (
          asking
            (request_operation origin.broker ref.node_id buffer normal)
            (asked origin ref.node_id buffer))
unfolding send_internal
starts wire key bytes ref origin buffer valid elsewhere apart written =
    rw valid (rw (elsewhere, send_internal) (rw written (asks ref.node_id buffer origin apart)))

-- The reference, serialized and read at the actor's node, calls the actor there.
calls_here :
    (wire : Wire) (key bytes : List ℕ) (ref : ActorRef) (node : Node) (entry : ActorEntry)
    → ref.node_id ≡ node.processor.this_node_id
    → find ref.actor_id node.processor.actor_id_to_actor ≡ some entry
    → send_internal wire true key bytes (read_ref (info_of node.processor) (from_ref ref)) node
      ≡ ok (here entry.address node)
unfolding send_internal send_local read_ref from_ref to_ref set_local_runtime_info
calls_here wire key bytes ref node entry to there =
    let same = (nat_beq_iff ref.node_id node.processor.this_node_id).1 to in
    rw (same, send_internal) (rw there (rw same refl))

-- Send through a reference to an actor of another node, from end to end: on `origin` it starts one
-- operation, to the node of the reference; its payload makes that node, which has the actor and a
-- handler for the method under its name, start the method, on the same actor that the reference,
-- serialized and read there, calls directly, with the arguments as they arrive; when the method ends,
-- with the broker `later` by then, in which the request is not answered yet, one reply is queued, and
-- from that reply the caller gets the value that the method returned, or the text of the
-- std::exception that it threw, thrown again. The request and the value returned must fit the
-- address space.
pub remote_method_call :
    {A R : Type 0} (wire : Wire) (codec : ArgsCodec A) (returns : Codec R)
    (invoke : ℕ → A → Result R) (handlers : HandlerRegistry) (request_id : ℕ) (i : Identifier)
    (node origin : Node) (fuel : ℕ) (key : List ℕ) (ref : ActorRef) (entry : ActorEntry) (args : A)
    (later : Broker)
    → ref.is_empty ≡ false
    → nat_beq ref.node_id ref.this_node_id ≡ false
    → nat_beq ref.node_id origin.broker.this_node_id ≡ false
    → ref.node_id ≡ node.processor.this_node_id
    → find ref.actor_id node.processor.actor_id_to_actor ≡ some entry
    → find key handlers.method_call ≡ some (handler_of wire codec returns invoke)
    → Fits returns.serialize (invoke entry.address (codec.arrive (info_of node.processor) args))
    → length key ≤ max_string
    → ref.actor_id < 2 ^ 64
    → request_size key (codec.serialize args) < size_t_mod
    → find request_id later.received_request_id_to_identifier ≡ some i
    → let here_ref = read_ref (info_of node.processor) (from_ref ref) in
      (op : Operation) × (origin' : Node) × (answer : Result (List ℕ)) × (send_internal wire true
          key
          (codec.serialize args)
          ref
          origin
        ≡ ok (asking op origin'))
      × (op.identifier.response_node_id ≡ node.processor.this_node_id)
      × (op.identifier.flag ≡ normal)
      × (origin'.broker.pending_send_operations
          ≡ origin.broker.pending_send_operations ++ (op ∷ []))
      × (send_internal wire true key (codec.serialize args) here_ref node
          ≡ ok (here entry.address node))
      × (handle_network_request wire fuel handlers request_id op.payload node
          ≡ ok (awaiting answer node))
      × (later' : Broker) × (payload : List ℕ) × (finish_method_call wire request_id answer later
          ≡ ok later')
      × (later'.pending_reply_operations
          ≡ later.pending_reply_operations ++ (record { identifier = i; payload = payload } ∷ []))
      × (finish_send wire returns.deserialize payload
          ≡ seen_remotely wire (invoke entry.address (codec.arrive (info_of node.processor) args)))
unfolding handle_network_request handle_request push_operation
remote_method_call wire codec returns invoke handlers request_id i node origin fuel key ref entry
      args later valid elsewhere apart to there known fits short id_fits small waiting =
    let actor_id = ref.actor_id in
    let bytes = codec.serialize args in
    let (buffer, written, _, parsed) =
      method_call_arrives wire.alloc key bytes actor_id wire.sized short id_fits small in
    let unwritten = drop (17 + length key + length bytes) (wire.alloc (request_size key bytes)) in
    let result = invoke entry.address (codec.arrive (info_of node.processor) args) in
    let seen = answer_seen wire codec returns invoke request_id i later waiting result fits in
    (
      request_operation origin.broker ref.node_id buffer normal,
      asked origin ref.node_id buffer,
      answer_of returns.serialize result,
      starts wire key bytes ref origin buffer valid elsewhere apart written,
      to,
      refl,
      refl,
      calls_here wire key bytes ref node entry to there,
      rw parsed (
          call_started wire handlers (handler_of wire codec returns invoke) request_id key actor_id
            (open_reader (bytes ++ unwritten)) node (ap is_some there)
            (handler_known handlers key (handler_of wire codec returns invoke) known)
          ∙ ap (λ answer. ok (awaiting answer node))
              (handler_answers wire codec returns invoke actor_id entry node args unwritten there
                fits)),
      with_reply wire request_id i seen.0 later,
      seen.0,
      seen.1,
      refl,
      seen.2,
    )
