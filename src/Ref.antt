-- ===== src/Ref.antt =====
-- include/ncaf/internal/actor_ref.h, the methods of `ActorRef`, and the Reflector and Parser of
-- include/ncaf/internal/actor_ref_serialization/actor_ref_serialization.h.
pub mod Same
pub mod Call
pub mod Union
use Prim.Native.Nat.{bit_xor}
use ncaf.Common.{
  ℕ, List, Bool, true, false, not, ◌&&◌, nat_beq, if◌then◌else◌, Option, none, some, Result, ok,
  err, ◌>>=◌, ◌>>◌, check, or_throw, empty_ref, not_local, null_actor, broker_not_set, decode_error,
  remote,
}
use ncaf.Serde.Buffer.{open_reader, next_primitive, rest_bytes}
use ncaf.Serde.Codec.{DeserializationInfo}
use ncaf.Serde.Message.{reply_byte, actor_method_call_error, method_call_request}
use ncaf.Registry.{ActorRef}
use ncaf.Registry.Serving.{Wire, Node}
use ncaf.Registry.Asking.{Asked, here, ask}

-- ActorRef()
abbrev pub no_ref : ActorRef
no_ref = record { is_empty = true; this_node_id = 0; node_id = 0; actor_id = 0; actor = none }

-- operator==
unfoldable pub ref_eq : ActorRef → ActorRef → Bool
ref_eq lhs rhs =
    if lhs.is_empty && rhs.is_empty
    then true
    else nat_beq lhs.node_id rhs.node_id && nat_beq lhs.actor_id rhs.actor_id

-- constants.h
abbrev pub empty_actor_ref_hash_val : ℕ
empty_actor_ref_hash_val = 10086

-- std::hash<ActorRef>, from those of uint64_t and uint32_t.
unfoldable pub hash_ref : (hash64 hash32 : ℕ → ℕ) → ActorRef → ℕ
hash_ref hash64 hash32 ref =
    if ref.is_empty
    then empty_actor_ref_hash_val
    else bit_xor (hash64 ref.actor_id) (hash32 ref.node_id)

unfoldable pub set_local_runtime_info : ℕ → Option ℕ → ActorRef → ActorRef
set_local_runtime_info this actor ref = record ref { this_node_id = this; actor = actor }

-- Reflector<ActorRef>::ReflType
pub record ReflType : Type 0 where
  pub is_valid : Bool
  pub node_id : ℕ
  pub actor_id : ℕ

-- Reflector<ActorRef>::to and from
unfoldable pub to_ref : ReflType → ActorRef
to_ref r = record {
  is_empty = false;
  this_node_id = 0;
  node_id = r.node_id;
  actor_id = r.actor_id;
  actor = none;
}

unfoldable pub from_ref : ActorRef → ReflType
from_ref ref = record { is_valid = ref.is_empty; node_id = ref.node_id; actor_id = ref.actor_id }

-- Parser::read, from what rfl's own parser reads.
unfoldable pub read_ref : DeserializationInfo → ReflType → ActorRef
unfolding set_local_runtime_info to_ref
read_ref info r =
    let ref = to_ref r in
    set_local_runtime_info info.this_node_id (info.actor_look_up_fn ref.actor_id) ref

-- SendLocal up to the call of the method: the actor that is called. A call through a null pointer is
-- undefined behaviour.
unfoldable pub send_local : ActorRef → Result ℕ
send_local ref = do
  check (not ref.is_empty) empty_ref
  check (nat_beq ref.node_id ref.this_node_id) not_local
  or_throw ref.actor null_actor

-- SendInternal up to its co_await. `has_broker` tells that message_broker_ is not null; `key` is the
-- method's name and `args` what its arguments are serialized to.
unfoldable pub send_internal :
    Wire → Bool → (key args : List ℕ) → ActorRef → Node → Result (Asked ℕ)
unfolding send_local
send_internal wire has_broker key args ref node = do
  check (not ref.is_empty) empty_ref
  elim (nat_beq ref.node_id ref.this_node_id) [
    | true ↦ do actor ← send_local ref; ok (here actor node)
    | false ↦ do
      check has_broker broker_not_set
      buffer ← method_call_request wire.alloc key ref.actor_id args
      ask ref.node_id buffer node
  ]

-- SendInternal from the reply on. A method that returns void reads nothing.
unfoldable pub finish_send : {R : Type 0} → Wire → (List ℕ → Option R) → List ℕ → Result R
finish_send wire deserialize response = do
  (type, r) ← next_primitive 1 (open_reader response)
  elim (nat_beq type (reply_byte actor_method_call_error)) [
    | true ↦ do
      text ← or_throw (wire.error_codec.deserialize (rest_bytes r)) decode_error
      err (remote text)
    | false ↦ or_throw (deserialize (rest_bytes r)) decode_error
  ]
