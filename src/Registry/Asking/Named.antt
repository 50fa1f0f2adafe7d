-- ===== src/Registry/Asking/Named.antt =====
-- An actor that another node is asked for by name.
use ncaf.Common.{
  ℕ, ◌+◌, ◌^◌, ◌<◌, ◌≡◌, ◌∙◌, refl, sym, ap, inl, inr, List, [], ◌∷◌, ◌++◌, append-nil, length,
  length-append, length-drop, nil_of_length, drop, drop-length-append, Option, none, some,
  Option-cases, ok, nat_eq, text_eq, arith, false, nat_beq,
}
use ncaf.Common.Dict.{find}
use ncaf.Serde.Bytes.{encode_le, length-encode_le}
use ncaf.Serde.Buffer.{size_t_mod, open_reader, open_writer, rest_bytes}
use ncaf.Serde.Buffer.Filling.{copy_from-filled, write_primitive-filled, next_primitive-reading}
use ncaf.Serde.Message.{
  Alloc, reply_byte, actor_look_up_return, actor_look_up_error, look_up, look_up_request,
  parse_request,
}
use ncaf.Serde.Message.Replies.{id_reply_lem, error_reply_lem, reply_type_read, id_read}
use ncaf.Network.{Identifier}
use ncaf.Network.Requests.{reply_found}
use ncaf.Registry.{ActorRef}
use ncaf.Remote.{HandlerRegistry}
use ncaf.Registry.Serving.{
  Wire, Node, answered, handle_look_up, handle_request, handle_network_request,
}
use ncaf.Registry.Serving.Answers.{with_reply}
use ncaf.Network.{normal, Operation, push_operation}
use ncaf.Network.Requests.{request_operation}
use ncaf.Registry.Asking.{asking, look_up_actor, finish_look_up_actor, remote_ref}
use ncaf.Registry.Asking.Sends.{asked, asks}

module _ (alloc : Alloc) (sized : (n : ℕ) → length (alloc n) ≡ n) (bytes : List ℕ)
    (small : 1 + length bytes < size_t_mod) where
  requested : look_up_request alloc bytes ≡ ok (encode_le 1 2 ++ bytes)
  unfolding look_up_request open_writer
  requested =
      rw (write_primitive-filled 1 2 [] room (omega (arith, sized n)) (omega (arith, sized n))) (
        rw
          (copy_from-filled (encode_le 1 2) (drop 1 room) bytes
            (omega (arith, sized n, length-drop 1 room))
            (omega (arith, sized n, length-drop 1 room, length-encode_le 1 2)))
          (rw full (ap ok (append-nil (encode_le 1 2 ++ bytes)))))
    where
      n : ℕ
      n = 1 + length bytes

      room : List ℕ
      room = alloc n

      full : drop (length bytes) (drop 1 room) ≡ []
      full =
          nil_of_length (drop (length bytes) (drop 1 room))
            (omega (arith, sized n, length-drop 1 room, length-drop (length bytes) (drop 1 room)))

parsed :
    (bytes : List ℕ)
    → 1 + length bytes < size_t_mod
    → parse_request (encode_le 1 2 ++ bytes) ≡ ok (look_up bytes)
unfolding parse_request open_reader rest_bytes
parsed bytes small =
    rw
      (next_primitive-reading 1 2 [] bytes (omega arith)
        (omega (arith, length-append (encode_le 1 2) bytes, length-encode_le 1 2)))
      (ap (λ b. ok (look_up b)) (drop-length-append (encode_le 1 2) bytes))

found_finished :
    (wire : Wire) (this node_id actor_id : ℕ)
    → actor_id < 2 ^ 64
    → finish_look_up_actor wire this node_id
        (encode_le 1 (reply_byte actor_look_up_return) ++ (encode_le 8 actor_id ++ []))
      ≡ ok (some (remote_ref this node_id actor_id))
unfolding finish_look_up_actor
found_finished wire this node_id actor_id fits =
    rw (reply_type_read actor_look_up_return (encode_le 8 actor_id ++ []) small)
      (rw (id_read actor_look_up_return actor_id fits))
  where
    small : 1 + length (encode_le 8 actor_id ++ []) < size_t_mod
    small = omega (arith, length-append (encode_le 8 actor_id) [], length-encode_le 8 actor_id)

missing_finished :
    (wire : Wire) (this node_id : ℕ)
    → finish_look_up_actor wire this node_id (encode_le 1 (reply_byte actor_look_up_error) ++ [])
      ≡ ok none
unfolding finish_look_up_actor
missing_finished wire this node_id = rw (reply_type_read actor_look_up_error [] (omega arith))

-- What GetActorRefByName for another node returns: a reference that carries the id which that node has
-- recorded for the name, or nothing if it has none.
abbrev pub looked_up : ℕ → ℕ → Option ℕ → Option ActorRef
looked_up this node_id none = none
looked_up this node_id (some actor_id) = some (remote_ref this node_id actor_id)

abbrev look_up_payload : Option ℕ → List ℕ
look_up_payload none = encode_le 1 (reply_byte actor_look_up_error) ++ []
look_up_payload (some id) = encode_le 1 (reply_byte actor_look_up_return) ++ (encode_le 8 id ++ [])

-- What the other node does with the name, once it is read.
module _ (wire : Wire) (request_id : ℕ) (i : Identifier) (node : Node) (name : List ℕ)
    (there : find request_id node.broker.received_request_id_to_identifier ≡ some i) where
  look_up_handled :
      handle_look_up wire request_id (wire.name_codec.serialize name) node
      ≡ ok (record node {
        broker =
            with_reply wire request_id i
              (look_up_payload (find name node.processor.actor_name_to_id))
              node.broker;
      })
  unfolding handle_look_up
  look_up_handled = elim (Option-cases (find name node.processor.actor_name_to_id)) [
    | inl missing ↦
        rw (read, missing, handle_look_up)
          (rw (error_reply_lem wire.alloc wire.sized actor_look_up_error)
            (rw (reply_found request_id i (look_up_payload none) node.broker there)))
    | inr (id, found) ↦
        rw (read, found, handle_look_up)
          (rw (id_reply_lem wire.alloc wire.sized actor_look_up_return id)
            (rw (reply_found request_id i (look_up_payload (some id)) node.broker there)))
  ]
    where
      read : wire.name_codec.deserialize (wire.name_codec.serialize name) ≡ some name
      read =
          ap wire.name_codec.deserialize (sym (append-nil (wire.name_codec.serialize name)))
          ∙ wire.name_codec.deserialize-serialize name []

starts :
    (wire : Wire) (node_id : ℕ) (name : List ℕ) (origin : Node) (buffer : List ℕ)
    → nat_beq node_id origin.processor.this_node_id ≡ false
    → nat_beq node_id origin.broker.this_node_id ≡ false
    → look_up_request wire.alloc (wire.name_codec.serialize name) ≡ ok buffer
    → look_up_actor wire node_id name origin
      ≡ ok (
          asking
            (request_operation origin.broker node_id buffer normal)
            (asked origin node_id buffer))
unfolding look_up_actor
starts wire node_id name origin buffer elsewhere apart written =
    rw (elsewhere, look_up_actor) (rw written (asks node_id buffer origin apart))

-- GetActorRefByName on `origin` for another node, from end to end: it starts one operation, to that
-- node; its payload makes that node queue one reply and keep its actors and names, and from that
-- reply GetActorRefByName gives a reference to that node with the id that it has recorded for the
-- name, or nothing if it has recorded none. Recorded ids are of 64 bits, and the request fits the
-- address space.
pub remote_look_up :
    (wire : Wire) (handlers : HandlerRegistry) (request_id : ℕ) (i : Identifier) (node : Node)
    (origin : Node) (fuel node_id : ℕ) (name : List ℕ)
    → nat_beq node_id origin.processor.this_node_id ≡ false
    → nat_beq node_id origin.broker.this_node_id ≡ false
    → node_id ≡ node.processor.this_node_id
    → find request_id node.broker.received_request_id_to_identifier ≡ some i
    → ((id : ℕ) → find name node.processor.actor_name_to_id ≡ some id → id < 2 ^ 64)
    → 1 + length (wire.name_codec.serialize name) < size_t_mod
    → (op : Operation) × (payload : List ℕ) × (origin' node' : Node) × (look_up_actor wire node_id
          name origin
        ≡ ok (asking op origin'))
      × (op.identifier.response_node_id ≡ node.processor.this_node_id)
      × (op.identifier.flag ≡ normal)
      × (origin'.broker.pending_send_operations
          ≡ origin.broker.pending_send_operations ++ (op ∷ []))
      × (handle_network_request wire fuel handlers request_id op.payload node ≡ ok (answered node'))
      × (node'.processor ≡ node.processor)
      × (node'.broker.pending_reply_operations
          ≡ node.broker.pending_reply_operations
            ++ (record { identifier = i; payload = payload } ∷ []))
      × (finish_look_up_actor wire origin.processor.this_node_id node_id payload
          ≡ ok (
              looked_up origin.processor.this_node_id node_id
                (find name node.processor.actor_name_to_id)))
unfolding handle_network_request handle_request push_operation
remote_look_up wire handlers request_id i node origin fuel node_id name elsewhere apart to there ids
      small =
    let bytes = wire.name_codec.serialize name in
    let payload = look_up_payload (find name node.processor.actor_name_to_id) in
    (
      request_operation origin.broker node_id (encode_le 1 2 ++ bytes) normal,
      payload,
      asked origin node_id (encode_le 1 2 ++ bytes),
      record node { broker = with_reply wire request_id i payload node.broker },
      starts wire node_id name origin (encode_le 1 2 ++ bytes) elsewhere apart
          (requested wire.alloc wire.sized bytes small),
      to,
      refl,
      refl,
      rw (parsed bytes small) (rw (look_up_handled wire request_id i node name there)),
      refl,
      refl,
      finish (find name node.processor.actor_name_to_id) refl,
    )
  where
    finish :
        (o : Option ℕ)
        → find name node.processor.actor_name_to_id ≡ o
        → finish_look_up_actor wire origin.processor.this_node_id node_id (look_up_payload o)
          ≡ ok (looked_up origin.processor.this_node_id node_id o)
    finish none e = missing_finished wire origin.processor.this_node_id node_id
    finish (some id) e = found_finished wire origin.processor.this_node_id node_id id (ids id e)
