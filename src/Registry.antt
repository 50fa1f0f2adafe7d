-- ===== src/Registry.antt =====
-- include/ncaf/internal/actor_registry.h and src/ncaf/internal/actor_registry.cc,
-- `ActorRegistryRequestProcessor`: the actors of a node, by id and by name. It runs as an actor, so
-- its operations come one at a time.
pub mod Teardown
pub mod Ids
pub mod Names
pub mod Creation
pub mod Serving
pub mod Asking
use ncaf.Common.{
  ℕ, zero, suc, List, [], ◌∷◌, Bool, true, false, not, ◌&&◌, ◌||◌, nat_beq, if◌then◌else◌, Option,
  none, some, Result, ok, err, ◌>>=◌, ◌>>◌, check, or_throw, nat_eq, text_eq, invalid_node_id,
  duplicate_node_id, duplicate_actor_name, actor_not_found, key_not_found, out_of_fuel,
}
use ncaf.Common.Dict.{Dict, find, contains, put, erase, empty, is_some}
use ncaf.Network.{NodeInfo}

-- actor_config.h
pub record ActorConfig : Type 0 where
  pub max_message_executed_per_activation : ℕ
  pub node_id : ℕ
  pub actor_name : Option (List ℕ)
  pub scheduler_index : ℕ
  pub priority : ℕ

-- An actor, by its address and its configuration.
pub record ActorEntry : Type 0 where
  pub address : ℕ
  pub config : ActorConfig

-- actor_ref.h, `ActorRef`; `actor` is type_erased_actor_, `none` for null.
pub record ActorRef : Type 0 where
  pub is_empty : Bool
  pub this_node_id : ℕ
  pub node_id : ℕ
  pub actor_id : ℕ
  pub actor : Option ℕ

-- `random_num_generator` is what the generator will return, from the next call on.
pub record Processor : Type 0 where
  pub is_distributed_mode : Bool
  pub random_num_generator : ℕ → ℕ
  pub this_node_id : ℕ
  pub node_id_to_address : Dict ℕ (List ℕ)
  pub actor_id_to_actor : Dict ℕ ActorEntry
  pub actor_name_to_id : Dict (List ℕ) ℕ

-- ValidateNodeInfo
unfoldable pub validate_node_info : List NodeInfo → Dict ℕ (List ℕ) → Result (Dict ℕ (List ℕ))
validate_node_info [] known = ok known
validate_node_info (node ∷ nodes) known = do
  check (not (contains node.node_id known)) duplicate_node_id
  validate_node_info nodes (put node.node_id node.address known)

abbrev pub is_empty_list : List NodeInfo → Bool
is_empty_list [] = true
is_empty_list (node ∷ nodes) = false

-- The constructor, with what the seeded generator will return.
unfoldable pub make_processor : (ℕ → ℕ) → ℕ → List NodeInfo → Result Processor
unfolding validate_node_info
make_processor random this nodes = do
  known ← validate_node_info nodes empty
  ok (record {
    is_distributed_mode = not (is_empty_list nodes);
    random_num_generator = random;
    this_node_id = this;
    node_id_to_address = known;
    actor_id_to_actor = empty;
    actor_name_to_id = empty;
  })

-- GenerateRandomActorId, with a bound on its rounds.
unfoldable pub generate_random_actor_id : ℕ → Processor → Result (ℕ × Processor)
generate_random_actor_id zero p = err out_of_fuel
generate_random_actor_id (suc fuel) p =
    let id = p.random_num_generator 0 in
    let p' : Processor = record p { random_num_generator = λ n. p.random_num_generator (suc n) } in
    elim (contains id p.actor_id_to_actor) [
      | true ↦ generate_random_actor_id fuel p'
      | false ↦ ok (id, p')
    ]

-- Both creations: the name, if there is one, is checked and recorded, then the actor.
unfoldable pub register_actor : ℕ → ActorEntry → Processor → Result Processor
register_actor id actor p = elim actor.config.actor_name [
  | none ↦ ok (record p { actor_id_to_actor = put id actor p.actor_id_to_actor })
  | some name ↦ do
    check (not (contains name p.actor_name_to_id)) duplicate_actor_name
    ok (record p {
      actor_name_to_id = put name id p.actor_name_to_id;
      actor_id_to_actor = put id actor p.actor_id_to_actor;
    })
]

-- CreateActor for this node. `make` constructs the actor with the user's function, which may throw.
unfoldable pub create_local : ℕ → ActorConfig → Result ℕ → Processor → Result (ActorRef × Processor)
create_local fuel config make p = do
  check (not p.is_distributed_mode || contains config.node_id p.node_id_to_address) invalid_node_id
  (id, p₁) ← generate_random_actor_id fuel p
  address ← make
  p₂ ← register_actor id (record { address = address; config = config }) p₁
  ok (
    record {
      is_empty = false;
      this_node_id = p.this_node_id;
      node_id = config.node_id;
      actor_id = id;
      actor = some address;
    },
    p₂,
  )

unfoldable pub erase_name : Option (List ℕ) → Dict (List ℕ) ℕ → Dict (List ℕ) ℕ
erase_name none names = names
erase_name (some name) names = erase name names

-- DestroyActor up to AsyncDestroy of the actor, which is returned.
unfoldable pub destroy_actor : ActorRef → Processor → Result (ActorEntry × Processor)
unfolding erase_name
destroy_actor ref p = do
  actor ← or_throw (find ref.actor_id p.actor_id_to_actor) actor_not_found
  ok (
    actor,
    record p {
      actor_id_to_actor = erase ref.actor_id p.actor_id_to_actor;
      actor_name_to_id = erase_name actor.config.actor_name p.actor_name_to_id;
    },
  )

-- GetActorRefByName on this node; std::unordered_map::at throws on a missing id.
unfoldable pub get_actor_ref_by_name : List ℕ → Processor → Result (Option ActorRef)
get_actor_ref_by_name name p = elim (find name p.actor_name_to_id) [
  | none ↦ ok none
  | some id ↦ do
    actor ← or_throw (find id p.actor_id_to_actor) key_not_found
    ok (
        some (record {
          is_empty = false;
          this_node_id = p.this_node_id;
          node_id = p.this_node_id;
          actor_id = id;
          actor = some actor.address;
        }))
]
