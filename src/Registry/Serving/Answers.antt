-- ===== src/Registry/Serving/Answers.antt =====
-- actor_registry.cc, HandleNetworkRequest: what becomes of a request.
use ncaf.Common.{
  ℕ, suc, ◌+◌, ◌<◌, ◌≡◌, ◌⊎◌, refl, inl, inr, List, [], ◌∷◌, ◌++◌, false, Bool-cases, none, some,
  Option-cases, Exception, is_std, catch_std-is_std, catch_std-other, true, ap, ◌∙◌, Result,
  Result-cases, ok, err, ◌>>=◌, length, nat_beq, if◌then◌else◌, nat_eq, text_eq,
}
use ncaf.Common.Dict.{find, contains, find-erase}
use ncaf.Serde.Bytes.{encode_le}
use ncaf.Serde.Buffer.{size_t_mod, open_reader}
use ncaf.Serde.Message.{
  NetworkReplyType, reply_byte, id_reply, Request, creation, method_call, look_up, parse_request,
  actor_creation_return, actor_look_up_return, actor_look_up_error, actor_creation_error,
  actor_method_call_error,
}
use ncaf.Serde.Message.Replies.{bytes_reply_lem, id_reply_lem, error_reply_lem}
use ncaf.Network.{Identifier, Broker}
use ncaf.Network.Requests.{replied, reply_found}
use ncaf.Registry.{Processor}
use ncaf.Registry.Ids.{generate_random_actor_id_lem, skip}
use ncaf.Remote.{HandlerRegistry, get_method_call, CreateActorResult}
use ncaf.Registry.Serving.{
  Wire, Node, call_context, make_for_request, record_made, recorded, Outcome, answered, awaiting,
  reply_error, reply_or_error, register_created, create_for_request, handle_creation,
  handle_method_call, finish_method_call, handle_look_up, handle_request, handle_network_request,
}

-- `b'` is `b` with one reply more, to the request `request_id` with identifier `i`, whose entry is
-- erased.
abbrev pub AnsweredOnce : ℕ → Identifier → Broker → Broker → Type 0
AnsweredOnce request_id i b b' =
    (payload : List ℕ) × (b'.pending_reply_operations
      ≡ b.pending_reply_operations ++ (record { identifier = i; payload = payload } ∷ []))
    × ((j : ℕ)
        → find j b'.received_request_id_to_identifier
          ≡ (if nat_beq request_id j then none else find j b.received_request_id_to_identifier))

-- What user code threw, and no std::exception, is thrown on.
abbrev pub Escapes : {A : Type 0} → Result A → Type 0
Escapes outcome = (e : Exception) × (is_std e ≡ false) × (outcome ≡ err e)

-- The name in a look-up can be read.
abbrev pub Readable : Wire → Request → Type 0
Readable wire (look_up bytes) = (name : List ℕ) × (wire.name_codec.deserialize bytes ≡ some name)
Readable wire _ = Unit {0}

module _ (wire : Wire) (request_id : ℕ) (i : Identifier) where
  -- The broker after one reply with `payload`.
  abbrev pub with_reply : List ℕ → Broker → Broker
  with_reply payload b = replied request_id (record { identifier = i; payload = payload }) b

  with_reply-AnsweredOnce :
      (payload : List ℕ) (b : Broker) → AnsweredOnce request_id i b (with_reply payload b)
  with_reply-AnsweredOnce payload b =
      (payload, refl, λ j. find-erase request_id j b.received_request_id_to_identifier)

  module _ (b : Broker) (there : find request_id b.received_request_id_to_identifier ≡ some i) where
    error_replied :
        (type : NetworkReplyType) (text : List ℕ)
        → 1 + length (wire.error_codec.serialize text) < size_t_mod
        → reply_error wire request_id type text b
          ≡ ok (with_reply (encode_le 1 (reply_byte type) ++ wire.error_codec.serialize text) b)
    unfolding reply_error
    error_replied type text small =
        rw (bytes_reply_lem wire.alloc wire.sized type (wire.error_codec.serialize text) small)
          (reply_found request_id i _ b there)

    pub reply_or_error_ok :
        (type : NetworkReplyType) (payload : List ℕ)
        → reply_or_error wire request_id type (ok payload) b ≡ ok (with_reply payload b)
    unfolding reply_or_error
    reply_or_error_ok type payload = rw (reply_found request_id i payload b there, reply_or_error)

    pub reply_or_error_err :
        (type : NetworkReplyType) (e : Exception)
        → is_std e ≡ true
        → reply_or_error wire request_id type (err e) b
          ≡ ok (
              with_reply
                (encode_le 1 (reply_byte type) ++ wire.error_codec.serialize (wire.error_text e))
                b)
    unfolding reply_or_error
    reply_or_error_err type e std =
        catch_std-is_std e (reply_error wire request_id type (wire.error_text e) b) std
        ∙ error_replied type (wire.error_text e) (wire.error_fits e)

    reply_or_error_answers :
        (type : NetworkReplyType) (answer : Result (List ℕ))
        → ((b' : Broker) × (reply_or_error wire request_id type answer b ≡ ok b')
            × AnsweredOnce request_id i b b')
          ⊎ Escapes (reply_or_error wire request_id type answer b)
    unfolding reply_or_error
    reply_or_error_answers type (ok payload) =
        inl
          (with_reply payload b, reply_or_error_ok type payload, with_reply-AnsweredOnce payload b)
    reply_or_error_answers type (err e) = elim (Bool-cases (is_std e)) [
      | inl std ↦ inl (_, reply_or_error_err type e std, with_reply-AnsweredOnce _ b)
      | inr other ↦ inr (e, other, catch_std-other e _ other)
    ]

-- A creation leaves the members and an id, or an exception for the reply, unless the fuel ran out.
made_recorded :
    (fuel k : ℕ) (made : Result CreateActorResult) (p : Processor)
    → k < fuel
    → contains (p.random_num_generator k) p.actor_id_to_actor ≡ false
    → (p' : Processor) × (created : Result ℕ) × (record_made fuel made p ≡ ok (p', created))
unfolding record_made
made_recorded fuel k (err e) p enough fresh = (p, err e, refl)
made_recorded fuel k (ok result) p enough fresh =
    let (j, _, generated, _, _) = generate_random_actor_id_lem fuel k p enough fresh in
    let id = p.random_num_generator j in
    let after : Processor × Result ℕ =
      recorded id (skip (suc j) p) (register_created id result (skip (suc j) p)) in
    (after.0, after.1, rw generated)

-- What a request comes to: an answer now, or an answer when the method that it called has ended; the
-- broker is `later` by then. Or an exception that is no std::exception leaves the handler.
abbrev pub Settled : Wire → ℕ → Identifier → Node → Broker → Result Outcome → Type 0
Settled wire request_id i node later outcome =
    ((node' : Node) × (outcome ≡ ok (answered node'))
      × AnsweredOnce request_id i node.broker node'.broker)
    ⊎ ((answer : Result (List ℕ)) × (outcome ≡ ok (awaiting answer node))
        × (((later' : Broker) × (finish_method_call wire request_id answer later ≡ ok later')
              × AnsweredOnce request_id i later later')
            ⊎ Escapes (finish_method_call wire request_id answer later)))
    ⊎ Escapes outcome

module _ (wire : Wire) (handlers : HandlerRegistry) (request_id : ℕ) (i : Identifier) (node : Node)
    (there : find request_id node.broker.received_request_id_to_identifier ≡ some i)
    (later : Broker)
    (waiting : find request_id later.received_request_id_to_identifier ≡ some i) where
  call_answered :
      (key args : List ℕ) (actor_id : ℕ)
      → Settled wire request_id i node later
          (handle_method_call wire handlers request_id key actor_id (open_reader args) node)
  unfolding handle_method_call finish_method_call
  call_answered key args actor_id =
      elim (Bool-cases (contains actor_id node.processor.actor_id_to_actor)) [
        | inr missing ↦
            let text = wire.not_found_text actor_id node.processor.this_node_id in
            inl (
              record node {
                broker =
                    with_reply wire request_id i
                      (encode_le 1 (reply_byte actor_method_call_error)
                        ++ wire.error_codec.serialize text)
                      node.broker;
              },
              rw (missing, handle_method_call)
                  (rw (
                    error_replied wire request_id i node.broker there actor_method_call_error text
                      (wire.not_found_fits actor_id node.processor.this_node_id))),
              with_reply-AnsweredOnce wire request_id i _ node.broker,
            )
        | inl found ↦ elim (Result-cases (get_method_call key handlers)) [
          | inr (e, unknown) ↦ elim (Bool-cases (is_std e)) [
            | inr other ↦ inr (
                inr (
                  e,
                  other,
                  rw (found, handle_method_call)
                      (rw (unknown, handle_method_call) (catch_std-other e _ other)),
                ))
            | inl std ↦ inl (
              record node {
                broker =
                    with_reply wire request_id i
                      (encode_le 1 (reply_byte actor_method_call_error)
                        ++ wire.error_codec.serialize (wire.error_text e))
                      node.broker;
              },
              rw (found, handle_method_call)
                  (rw (unknown, handle_method_call)
                    (catch_std-is_std e _ std
                      ∙ ap (λ m. m >>= λ b. ok (answered (record node { broker = b })))
                          (error_replied wire request_id i node.broker there actor_method_call_error
                            (wire.error_text e) (wire.error_fits e)))),
              with_reply-AnsweredOnce wire request_id i _ node.broker,
            )
          ]
          | inl (handler, known) ↦ inr (
              inl (
                handler (call_context actor_id (open_reader args) node.processor),
                rw (found, handle_method_call) (rw (known, handle_method_call)),
                reply_or_error_answers wire request_id i later waiting actor_method_call_error
                    (handler (call_context actor_id (open_reader args) node.processor)),
              ))
        ]
      ]

  creation_answered :
      (fuel k : ℕ) (key args : List ℕ)
      → k < fuel
      → contains (node.processor.random_num_generator k) node.processor.actor_id_to_actor ≡ false
      → ((node' : Node) × (handle_creation wire fuel handlers request_id key (open_reader args) node
            ≡ ok node')
          × AnsweredOnce request_id i node.broker node'.broker)
        ⊎ Escapes (handle_creation wire fuel handlers request_id key (open_reader args) node)
  unfolding handle_creation create_for_request
  creation_answered fuel k key args enough fresh =
      let (p', created, made) =
        made_recorded fuel k (make_for_request handlers key (open_reader args) node.processor)
          node.processor enough fresh in
      elim (reply_or_error_answers wire request_id i node.broker there actor_creation_error
        (created >>= λ id. id_reply wire.alloc actor_creation_return id)) [
          | inl (b', replied', once) ↦
              inl (record { processor = p'; broker = b' }, rw made (rw replied'), once)
          | inr (e, other, thrown) ↦ inr (e, other, rw made (rw thrown))
        ]

  look_up_answered :
      (bytes name : List ℕ)
      → wire.name_codec.deserialize bytes ≡ some name
      → (node' : Node) × (handle_look_up wire request_id bytes node ≡ ok node')
        × AnsweredOnce request_id i node.broker node'.broker
  unfolding handle_look_up
  look_up_answered bytes name read =
      elim (Option-cases (find name node.processor.actor_name_to_id)) [
        | inl missing ↦ (
          record node {
            broker =
                with_reply wire request_id i (encode_le 1 (reply_byte actor_look_up_error) ++ [])
                  node.broker;
          },
          rw read (
              rw (missing, handle_look_up)
                (rw (error_reply_lem wire.alloc wire.sized actor_look_up_error) (
                  rw (
                    reply_found request_id i (encode_le 1 (reply_byte actor_look_up_error) ++ [])
                      node.broker there)))),
          with_reply-AnsweredOnce wire request_id i _ node.broker,
        )
        | inr (id, found) ↦ (
          record node {
            broker =
                with_reply wire request_id i
                  (encode_le 1 (reply_byte actor_look_up_return) ++ (encode_le 8 id ++ []))
                  node.broker;
          },
          rw read (
              rw (found, handle_look_up)
                (rw (id_reply_lem wire.alloc wire.sized actor_look_up_return id) (
                  rw (
                    reply_found request_id i
                      (encode_le 1 (reply_byte actor_look_up_return) ++ (encode_le 8 id ++ []))
                      node.broker there)))),
          with_reply-AnsweredOnce wire request_id i _ node.broker,
        )
      ]

  request_answered :
      (fuel k : ℕ) (request : Request)
      → k < fuel
      → contains (node.processor.random_num_generator k) node.processor.actor_id_to_actor ≡ false
      → Readable wire request
      → Settled wire request_id i node later
          (handle_request wire fuel handlers request_id request node)
  unfolding handle_request
  request_answered fuel k (creation key args) enough fresh readable =
      elim (creation_answered fuel k key args enough fresh) [
        | inl (node', made, once) ↦ inl (node', rw made, once)
        | inr (e, other, thrown) ↦ inr (inr (e, other, rw thrown))
      ]
  request_answered fuel k (method_call key actor_id args) enough fresh readable =
      call_answered key args actor_id
  request_answered fuel k (look_up bytes) enough fresh (name, read) =
      let (node', found, once) = look_up_answered bytes name read in inl (node', rw found, once)

-- A request that waits for its answer, whose bytes are a request of the protocol, with a name that can
-- be read if it is a look-up, is answered exactly once by HandleNetworkRequest, also when the handler
-- is unknown, the actor is missing or user code throws a std::exception: one reply with the request's
-- identifier is queued and its entry is erased, at once, or for a method call that was started, when
-- it ends, with the broker `later` by then, in which the request is not answered yet. Or an exception
-- that is no std::exception was thrown, and leaves the handler without a reply. One of the next
-- `fuel` outputs of the generator is the id of no actor.
pub every_request_answered :
    (wire : Wire) (handlers : HandlerRegistry) (request_id : ℕ) (i : Identifier) (node : Node)
    (later : Broker) (fuel k : ℕ) (buffer : List ℕ) (request : Request)
    → find request_id node.broker.received_request_id_to_identifier ≡ some i
    → find request_id later.received_request_id_to_identifier ≡ some i
    → parse_request buffer ≡ ok request
    → Readable wire request
    → k < fuel
    → contains (node.processor.random_num_generator k) node.processor.actor_id_to_actor ≡ false
    → Settled wire request_id i node later
        (handle_network_request wire fuel handlers request_id buffer node)
unfolding handle_network_request
every_request_answered wire handlers request_id i node later fuel k buffer request there waiting
      parsed readable enough fresh =
    rw parsed (
      request_answered wire handlers request_id i node there later waiting fuel k request enough
        fresh readable)
