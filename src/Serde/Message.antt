-- ===== src/Serde/Message.antt =====
-- The messages of the protocol: serialization.h's enums, and the buffers that actor_registry.h,
-- actor_registry.cc, actor_ref.h and remote_handler_registry.h fill and read. `alloc n` stands for
-- the bytes that zmq::message_t(n) comes with, which are not initialised.
pub mod RoundTrip
pub mod MethodCall
pub mod Replies
use ncaf.Common.{
  ℕ, ◌+◌, List, [], ◌∷◌, ◌++◌, Bool, length, nat_beq, if◌then◌else◌, Result, ok, err, ◌>>=◌, ◌>>◌,
  check, writer_not_ended, invalid_message_type,
}
use ncaf.Serde.Buffer.{
  BufferReader, BufferWriter, open_reader, open_writer, next_primitive, pull_string, rest_bytes,
  copy_from, write_primitive, end_reached,
}

pub data NetworkRequestType : Type 0 where
  actor_creation_request actor_method_call_request actor_look_up_request : NetworkRequestType

pub data NetworkReplyType : Type 0 where
  actor_creation_return actor_creation_error : NetworkReplyType
  actor_method_call_return actor_method_call_error : NetworkReplyType
  actor_look_up_return actor_look_up_error : NetworkReplyType

abbrev pub request_byte : NetworkRequestType → ℕ
request_byte actor_creation_request = 0
request_byte actor_method_call_request = 1
request_byte actor_look_up_request = 2

abbrev pub reply_byte : NetworkReplyType → ℕ
reply_byte actor_creation_return = 0
reply_byte actor_creation_error = 1
reply_byte actor_method_call_return = 2
reply_byte actor_method_call_error = 3
reply_byte actor_look_up_return = 4
reply_byte actor_look_up_error = 5

abbrev pub Alloc : Type 0
Alloc = ℕ → List ℕ

-- CreateActor: [message_type][handler_key_len][handler_key][ActorCreationArgs]
unfoldable pub creation_request : Alloc → List ℕ → List ℕ → Result (List ℕ)
creation_request alloc key args = do
  w₁ ←
      write_primitive 1 (request_byte actor_creation_request)
        (open_writer (alloc (length args + 8 + length key + 1)))
  w₂ ← write_primitive 8 (length key) w₁
  w₃ ← copy_from key w₂
  w₄ ← copy_from args w₃
  check (end_reached w₄) writer_not_ended
  ok w₄.buffer

-- ActorRef::SendInternal: [request_type][handler_key_len][handler_key][actor_id][args]. The size
-- counts sizeof(uint64_t), sizeof(handler_key.size()) and sizeof(actor_id_).
unfoldable pub method_call_request : Alloc → List ℕ → ℕ → List ℕ → Result (List ℕ)
method_call_request alloc key actor_id args = do
  w₁ ←
      write_primitive 1 (request_byte actor_method_call_request)
        (open_writer (alloc (1 + 8 + 8 + length key + 8 + length args)))
  w₂ ← write_primitive 8 (length key) w₁
  w₃ ← copy_from key w₂
  w₄ ← write_primitive 8 actor_id w₃
  w₅ ← copy_from args w₄
  ok w₅.buffer

-- GetActorRefByName: [request_type][ActorLookUpRequest]
unfoldable pub look_up_request : Alloc → List ℕ → Result (List ℕ)
look_up_request alloc name = do
  w₁ ←
      write_primitive 1 (request_byte actor_look_up_request) (open_writer (alloc (1 + length name)))
  w₂ ← copy_from name w₁
  ok w₂.buffer

-- The replies that carry an actor's id, and those that carry a serialized value or error.
unfoldable pub id_reply : Alloc → NetworkReplyType → ℕ → Result (List ℕ)
id_reply alloc type actor_id = do
  w₁ ← write_primitive 1 (reply_byte type) (open_writer (alloc (1 + 8)))
  w₂ ← write_primitive 8 actor_id w₁
  ok w₂.buffer

-- HandleNetworkRequest: a name that is not there.
unfoldable pub error_reply : Alloc → NetworkReplyType → Result (List ℕ)
error_reply alloc type = do
  w₁ ← write_primitive 1 (reply_byte type) (open_writer (alloc 1))
  ok w₁.buffer

unfoldable pub bytes_reply : Alloc → NetworkReplyType → List ℕ → Result (List ℕ)
bytes_reply alloc type serialized = do
  w₁ ← write_primitive 1 (reply_byte type) (open_writer (alloc (1 + length serialized)))
  w₂ ← copy_from serialized w₁
  ok w₂.buffer

-- HandleNetworkRequest and the two handlers, up to the bytes that are deserialized.
pub data Request : Type 0 where
  creation : (handler_key args : List ℕ) → Request
  method_call : (handler_key : List ℕ) (actor_id : ℕ) (args : List ℕ) → Request
  look_up : (name : List ℕ) → Request

unfoldable pub read_handler_key : BufferReader → Result (List ℕ × BufferReader)
read_handler_key r = do (len, r₁) ← next_primitive 8 r; pull_string len r₁

parse_creation : BufferReader → Result Request
unfolding read_handler_key
parse_creation r = do (key, r₁) ← read_handler_key r; ok (creation key (rest_bytes r₁))

parse_method_call : BufferReader → Result Request
unfolding read_handler_key
parse_method_call r = do
  (key, r₁) ← read_handler_key r
  (actor_id, r₂) ← next_primitive 8 r₁
  ok (method_call key actor_id (rest_bytes r₂))

parse_as : ℕ → BufferReader → Result Request
unfolding parse_creation parse_method_call
parse_as type r =
    if nat_beq type (request_byte actor_creation_request)
    then parse_creation r
    else if nat_beq type (request_byte actor_method_call_request)
    then parse_method_call r
    else if nat_beq type (request_byte actor_look_up_request)
    then ok (look_up (rest_bytes r))
    else err invalid_message_type

unfoldable pub parse_request : List ℕ → Result Request
unfolding parse_as
parse_request buffer = do (type, r) ← next_primitive 1 (open_reader buffer); parse_as type r
