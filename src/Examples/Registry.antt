-- ===== src/Examples/Registry.antt =====
-- A node with one named actor, under the id 4.
use ncaf.Common.{
  ℕ, zero, suc, ◌≡◌, ◌⊎◌, ◌<◌, ◌≤◌, refl, List, [], ◌∷◌, true, false, none, some, ok, err,
  if◌then◌else◌, nat_beq, actor_not_found, nat_eq, text_eq, arith,
}
use ncaf.Common.Dict.{find, put, empty, contains}
use ncaf.Registry.{
  ActorConfig, ActorEntry, ActorRef, Processor, register_actor, create_local, destroy_actor,
  generate_random_actor_id,
}
use ncaf.Registry.Ids.{generate_random_actor_id_lem, skip}
use ncaf.Registry.Creation.{create_local_returns, is_free}
use ncaf.Registry.Names.{Agree, is_name, create_local_lem, destroy_actor_lem}

abbrev pub name : List ℕ
name = 97 ∷ 98 ∷ []

abbrev pub config : ActorConfig
config = record {
  max_message_executed_per_activation = 100;
  node_id = 0;
  actor_name = some name;
  scheduler_index = 0;
  priority = 0;
}

-- The generator returns 4 twice, then 5 forever.
abbrev pub random : ℕ → ℕ
random zero = 4
random (suc zero) = 4
random (suc (suc n)) = 5

abbrev pub fresh_node : Processor
fresh_node = record {
  is_distributed_mode = false;
  random_num_generator = random;
  this_node_id = 0;
  node_id_to_address = empty;
  actor_id_to_actor = empty;
  actor_name_to_id = empty;
}

fresh_node-Agree : Agree fresh_node
unfolding find
fresh_node-Agree = record { named = λ n id h. absurd (cc); listed = λ id a n h. absurd (cc) }

abbrev pub ref : ActorRef
ref = record { is_empty = false; this_node_id = 0; node_id = 0; actor_id = 4; actor = some 1000 }

abbrev pub with_actor : Processor
with_actor = record fresh_node {
  random_num_generator = λ n. random (suc n);
  actor_id_to_actor = put 4 (record { address = 1000; config = config }) empty;
  actor_name_to_id = put name 4 empty;
}

created : create_local 3 config (ok 1000) fresh_node ≡ ok (ref, with_actor)
unfolding create_local generate_random_actor_id register_actor find
created = refl

create_local_lem_example : (find 4 fresh_node.actor_id_to_actor ≡ none) × Agree with_actor
create_local_lem_example = create_local_lem 3 config (ok 1000) fresh_node fresh_node-Agree created

pub with_actor-Agree : Agree with_actor
with_actor-Agree = (create_local_lem 3 config (ok 1000) fresh_node fresh_node-Agree created).1

pub five_is_free : contains 5 with_actor.actor_id_to_actor ≡ false
unfolding find put
five_is_free = refl

generate_random_actor_id_lem_example :
    (j : ℕ) × (j ≤ 1)
    × (generate_random_actor_id 3 with_actor ≡ ok (random (suc j), skip (suc j) with_actor))
    × (contains (random (suc j)) with_actor.actor_id_to_actor ≡ false)
    × ((i : ℕ) → i < j → contains (random (suc i)) with_actor.actor_id_to_actor ≡ true)
generate_random_actor_id_lem_example =
    generate_random_actor_id_lem 3 1 with_actor (omega arith) five_is_free

destroy_actor_lem_example :
    ((find 4 with_actor.actor_id_to_actor ≡ none)
      × (destroy_actor ref with_actor ≡ err actor_not_found))
    ⊎ ((actor : ActorEntry) × (p' : Processor) × (find 4 with_actor.actor_id_to_actor ≡ some actor)
        × (destroy_actor ref with_actor ≡ ok (actor, p'))
        × Agree p'
        × ((id : ℕ)
            → find id p'.actor_id_to_actor
              ≡ (if nat_beq 4 id then none else find id with_actor.actor_id_to_actor))
        × ((n : List ℕ)
            → find n p'.actor_name_to_id ≡ (
                if is_name actor.config.actor_name n
                then none
                else find n with_actor.actor_name_to_id)))
destroy_actor_lem_example = destroy_actor_lem ref with_actor with_actor-Agree

pub four_is_free : contains 4 fresh_node.actor_id_to_actor ≡ false
unfolding find
four_is_free = refl

name_is_free : is_free config.actor_name fresh_node.actor_name_to_id ≡ true
unfolding find
name_is_free = refl

create_local_returns_example :
    (r : ActorRef) × (p' : Processor) × (create_local 3 config (ok 2000) fresh_node ≡ ok (r, p'))
    × (r.actor ≡ some 2000)
    × ((id : ℕ)
        → find id p'.actor_id_to_actor ≡ (
            if nat_beq r.actor_id id
            then some (record { address = 2000; config = config })
            else find id fresh_node.actor_id_to_actor))
create_local_returns_example =
    create_local_returns 3 0 config 2000 fresh_node refl (omega arith) four_is_free name_is_free
