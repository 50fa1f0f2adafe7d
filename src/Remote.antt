-- ===== src/Remote.antt =====
-- include/ncaf/internal/remote_handler_registry.h: the handlers of a node for remote requests, and
-- the two that `RemoteFuncHandlerRegistrar` makes of a user's function. A handler that returns a task
-- gives what the task ends with.
pub mod Handlers
use ncaf.Common.{
  ℕ, List, [], ◌∷◌, not, Option, none, some, Result, ok, err, ◌>>=◌, ◌>>◌, check, or_throw, text_eq,
  duplicate_handler, handler_not_found, key_not_found, null_actor, decode_error,
}
use ncaf.Common.Dict.{Dict, find, contains, put, empty}
use ncaf.Serde.Buffer.{BufferReader, rest_bytes}
use ncaf.Serde.Codec.{Codec, ArgsCodec, DeserializationInfo}
use ncaf.Serde.Message.{Alloc, bytes_reply, actor_method_call_return}
use ncaf.Registry.{ActorConfig, ActorEntry}

pub record MethodCallContext : Type 0 where
  pub actor : Option ℕ
  pub request_buffer : BufferReader
  pub info : DeserializationInfo

pub record CreationContext : Type 0 where
  pub request_buffer : BufferReader
  pub info : DeserializationInfo

pub record CreateActorResult : Type 0 where
  pub actor : ActorEntry
  pub actor_name : Option (List ℕ)

abbrev pub MethodCallHandler : Type 0
MethodCallHandler = MethodCallContext → Result (List ℕ)

abbrev pub CreationHandler : Type 0
CreationHandler = CreationContext → Result CreateActorResult

pub record HandlerRegistry : Type 0 where
  pub creation : Dict (List ℕ) CreationHandler
  pub method_call : Dict (List ℕ) MethodCallHandler

abbrev pub no_handlers : HandlerRegistry
no_handlers = record { creation = empty; method_call = empty }

-- RegisterRemoteActorMethodCallHandler
unfoldable pub register_method_call :
    List ℕ → MethodCallHandler → HandlerRegistry → Result HandlerRegistry
register_method_call key func r = do
  check (not (contains key r.method_call)) duplicate_handler
  ok (record r { method_call = put key func r.method_call })

-- GetRemoteActorMethodCallHandler
unfoldable pub get_method_call : List ℕ → HandlerRegistry → Result MethodCallHandler
get_method_call key r = do
  check (contains key r.method_call) handler_not_found
  or_throw (find key r.method_call) key_not_found

-- RegisterRemoteActorCreationHandler
unfoldable pub register_creation :
    List ℕ → CreationHandler → HandlerRegistry → Result HandlerRegistry
register_creation key func r = do
  check (not (contains key r.creation)) duplicate_handler
  ok (record r { creation = put key func r.creation })

-- GetRemoteActorCreationHandler
unfoldable pub get_creation : List ℕ → HandlerRegistry → Result CreationHandler
get_creation key r = do
  check (contains key r.creation) handler_not_found
  or_throw (find key r.creation) key_not_found

-- DeserializeAndCreateActor. `create` constructs the actor with the user's function.
unfoldable pub deserialize_and_create :
    {A : Type 0} → ArgsCodec (ActorConfig × A) → (A → Result ℕ) → CreationHandler
deserialize_and_create codec create context = do
  (config, args) ←
      or_throw (codec.deserialize context.info (rest_bytes context.request_buffer)) decode_error
  address ← create args
  ok (record {
    actor = record { address = address; config = config };
    actor_name = config.actor_name;
  })

-- DeserializeAndInvokeActorMethod. `invoke` is what the method gives, `serialize` writes what it
-- returns, nothing for void.
unfoldable pub deserialize_and_invoke :
    {A R : Type 0} → Alloc → ArgsCodec A → (R → List ℕ) → (ℕ → A → Result R) → MethodCallHandler
deserialize_and_invoke alloc codec serialize invoke context = do
  actor ← or_throw context.actor null_actor
  args ← or_throw (codec.deserialize context.info (rest_bytes context.request_buffer)) decode_error
  value ← invoke actor args
  bytes_reply alloc actor_method_call_return (serialize value)

-- A function that a registrar is given, under the name of its type.
pub data RemoteFunc : Type 0 where
  create_fn : (name : List ℕ) (func : CreationHandler) → RemoteFunc
  method : (name : List ℕ) (func : MethodCallHandler) → RemoteFunc

unfoldable pub register_handler : RemoteFunc → HandlerRegistry → Result HandlerRegistry
unfolding register_creation register_method_call
register_handler (create_fn name func) r = register_creation name func r
register_handler (method name func) r = register_method_call name func r

-- The constructor of RemoteFuncHandlerRegistrar: the create function, then the methods.
unfoldable pub register_all : List RemoteFunc → HandlerRegistry → Result HandlerRegistry
unfolding register_handler
register_all [] r = ok r
register_all (f ∷ fs) r = do r' ← register_handler f r; register_all fs r'
