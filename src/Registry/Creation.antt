-- ===== src/Registry/Creation.antt =====
-- When CreateActor on this node returns.
use ncaf.Common.{
  ℕ, suc, ◌≡◌, ◌<◌, refl, List, Bool, true, false, not, ◌||◌, nat_beq, Option, none, some,
  Option-cases, inl, inr, ok, nat_eq, text_eq, if◌then◌else◌, arith,
}
use ncaf.Common.Dict.{Dict, contains, find, put, find-put}
use ncaf.Registry.{ActorConfig, ActorEntry, ActorRef, Processor, create_local, register_actor}
use ncaf.Registry.Ids.{generate_random_actor_id_lem, skip}

abbrev pub is_free : Option (List ℕ) → Dict (List ℕ) ℕ → Bool
is_free none names = true
is_free (some name) names = not (contains name names)

registers :
    (id : ℕ) (actor : ActorEntry) (p : Processor)
    → is_free actor.config.actor_name p.actor_name_to_id ≡ true
    → (p' : Processor) × (register_actor id actor p ≡ ok p')
      × (p'.actor_id_to_actor ≡ put id actor p.actor_id_to_actor)
unfolding register_actor
registers id actor p free = elim (Option-cases actor.config.actor_name) [
  | inl no_name ↦
      (record p { actor_id_to_actor = put id actor p.actor_id_to_actor }, rw no_name, refl)
  | inr (name, has_name) ↦ (
    record p {
      actor_name_to_id = put name id p.actor_name_to_id;
      actor_id_to_actor = put id actor p.actor_id_to_actor;
    },
    ground arith,
    refl,
  )
]

-- CreateActor on this node returns when the node is known or there is no cluster, one of the next
-- `fuel` outputs of the generator is the id of no actor, the user's constructor returns and the name,
-- if there is one, is free. The reference then leads to the new actor, and every other id to the
-- actor that it led to.
pub create_local_returns :
    (fuel k : ℕ) (config : ActorConfig) (address : ℕ) (p : Processor)
    → (not p.is_distributed_mode || contains config.node_id p.node_id_to_address) ≡ true
    → k < fuel
    → contains (p.random_num_generator k) p.actor_id_to_actor ≡ false
    → is_free config.actor_name p.actor_name_to_id ≡ true
    → (ref : ActorRef) × (p' : Processor) × (create_local fuel config (ok address) p ≡ ok (ref, p'))
      × (ref.actor ≡ some address)
      × ((id : ℕ)
          → find id p'.actor_id_to_actor ≡ (
              if nat_beq ref.actor_id id
              then some (record { address = address; config = config })
              else find id p.actor_id_to_actor))
unfolding create_local
create_local_returns fuel k config address p known enough fresh free =
    let actor : ActorEntry = record { address = address; config = config } in
    let (j, _, generated, _, _) = generate_random_actor_id_lem fuel k p enough fresh in
    let id = p.random_num_generator j in
    let (p', registered, maps) = registers id actor (skip (suc j) p) free in
    (
      record {
        is_empty = false;
        this_node_id = p.this_node_id;
        node_id = config.node_id;
        actor_id = id;
        actor = some address;
      },
      p',
      rw (known, generated) (rw registered),
      refl,
      λ i. rw maps (find-put id i actor p.actor_id_to_actor),
    )
