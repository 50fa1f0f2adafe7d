-- ===== src/Registry/Names.antt =====
-- The two maps of a node agree: what is found by name is the actor that was created with the name.
use ncaf.Common.{
  ℕ, ◌≡◌, ◌⊎◌, Result-cases, refl, sym, subst, List, Bool, true, false, Bool-cases, inl, inr,
  if◌then◌else◌, Option, none, some, Option-cases, Result, ok, err, nat_eq, text_eq, nat_beq,
  text_beq, text_beq_iff, actor_not_found, arith,
}
use ncaf.Common.Dict.{Dict, find, put, erase, find-put, find-erase}
use ncaf.Registry.Ids.{generated_is_new}
use ncaf.Registry.{
  ActorConfig, ActorEntry, ActorRef, Processor, register_actor, destroy_actor, create_local,
  get_actor_ref_by_name, generate_random_actor_id, erase_name,
}

pub record Agree (p : Processor) : Type 0 where
  -- A name leads to an actor that has it.
  pub named :
      (name : List ℕ) (id : ℕ)
      → find name p.actor_name_to_id ≡ some id
      → (actor : ActorEntry) × (find id p.actor_id_to_actor ≡ some actor)
        × (actor.config.actor_name ≡ some name)
  -- An actor with a name is found by it.
  pub listed :
      (id : ℕ) (actor : ActorEntry) (name : List ℕ)
      → find id p.actor_id_to_actor ≡ some actor
      → actor.config.actor_name ≡ some name
      → find name p.actor_name_to_id ≡ some id

-- Registering an actor under an id that no actor has, by a name that is free if it has one.
module _ (id : ℕ) (actor : ActorEntry) (p : Processor) (v : Agree p)
    (fresh : find id p.actor_id_to_actor ≡ none) where
  unnamed-Agree :
      actor.config.actor_name ≡ none
      → Agree (record p { actor_id_to_actor = put id actor p.actor_id_to_actor })
  unnamed-Agree no_name = record {
    named = λ n i there.
        let (a, found, has) = v.named n i there in
        (a, ground (arith, find-put id i actor p.actor_id_to_actor), has);
    listed =
        λ i a n found has. ground (arith, find-put id i actor p.actor_id_to_actor, v.listed i a n);
  }

  named-Agree :
      (name : List ℕ)
      → actor.config.actor_name ≡ some name
      → find name p.actor_name_to_id ≡ none
      → Agree (record p {
        actor_name_to_id = put name id p.actor_name_to_id;
        actor_id_to_actor = put id actor p.actor_id_to_actor;
      })
  named-Agree name has_name free = record {
    named = λ n i there. elim (Bool-cases (text_beq name n)) [
      | inl same ↦ (
        actor,
        ground
            (arith, find-put id i actor p.actor_id_to_actor, find-put name n id p.actor_name_to_id),
        ground (arith, text_beq_iff name n),
      )
      | inr other ↦
          let (a, found, has) =
            v.named n i (ground (arith, find-put name n id p.actor_name_to_id)) in
          (a, ground (arith, find-put id i actor p.actor_id_to_actor), has)
    ];
    listed = λ i a n found has. ground (
      arith,
      find-put id i actor p.actor_id_to_actor,
      find-put name n id p.actor_name_to_id,
      text_beq_iff name n,
      v.listed i a n,
    );
  }

  registered-Agree : {p' : Processor} → register_actor id actor p ≡ ok p' → Agree p'
  unfolding register_actor
  registered-Agree {p'} done = elim (Option-cases actor.config.actor_name) [
    | inl no_name ↦ subst Agree (registered no_name) (unnamed-Agree no_name)
    | inr (name, has_name) ↦
        subst Agree (registered_as name has_name) (named-Agree name has_name (ground arith))
  ]
    where
      registered :
          actor.config.actor_name ≡ none
          → record p { actor_id_to_actor = put id actor p.actor_id_to_actor } ≡ p'
      registered e = ground arith

      registered_as :
          (name : List ℕ)
          → actor.config.actor_name ≡ some name
          → record p {
            actor_name_to_id = put name id p.actor_name_to_id;
            actor_id_to_actor = put id actor p.actor_id_to_actor;
          }
            ≡ p'
      registered_as name e = ground arith

abbrev pub is_name : Option (List ℕ) → List ℕ → Bool
is_name none n = false
is_name (some m) n = text_beq m n

find-erase_name :
    (o : Option (List ℕ)) (n : List ℕ) (names : Dict (List ℕ) ℕ)
    → find n (erase_name o names) ≡ (if is_name o n then none else find n names)
unfolding erase_name
find-erase_name none n names = refl
find-erase_name (some m) n names = find-erase m n names

-- Destroying the actor that an id leads to.
module _ (id : ℕ) (actor : ActorEntry) (p : Processor) (v : Agree p)
    (there : find id p.actor_id_to_actor ≡ some actor) where
  abbrev without : Processor
  without = record p {
    actor_id_to_actor = erase id p.actor_id_to_actor;
    actor_name_to_id = erase_name actor.config.actor_name p.actor_name_to_id;
  }

  is_name_eq :
      (n : List ℕ) → actor.config.actor_name ≡ some n → is_name actor.config.actor_name n ≡ true
  is_name_eq n e = rw e ((text_beq_iff n n).1 refl)

  eq_of_is_name :
      (n : List ℕ) → is_name actor.config.actor_name n ≡ true → actor.config.actor_name ≡ some n
  eq_of_is_name n h = elim (Option-cases actor.config.actor_name) [
    | inl e ↦ ground arith
    | inr (m, e) ↦ ground (arith, text_beq_iff m n)
  ]

  without-Agree : Agree without
  without-Agree = record {
    named = λ n i found_name.
        let (a, found, has) =
          v.named n i
            (ground (arith, find-erase_name actor.config.actor_name n p.actor_name_to_id)) in
        (
          a,
          ground (
            arith,
            find-erase id i p.actor_id_to_actor,
            find-erase_name actor.config.actor_name n p.actor_name_to_id,
            is_name_eq n,
          ),
          has,
        );
    listed = λ i a n found has. ground (
      arith,
      find-erase id i p.actor_id_to_actor,
      find-erase_name actor.config.actor_name n p.actor_name_to_id,
      v.listed i a n,
      v.listed id actor n there,
      eq_of_is_name n,
    );
  }

same_maps :
    (p p' : Processor)
    → p' ≡ record p { random_num_generator = p'.random_num_generator }
    → Agree p
    → Agree p'
same_maps p p' e v = subst Agree (sym e) (record { named = v.named; listed = v.listed })

-- When CreateActor on this node returns, its id was the id of no actor, and the maps of names and ids
-- agree as they did, whatever the generator, the configuration and the user's constructor.
pub create_local_lem :
    (fuel : ℕ) (config : ActorConfig) (make : Result ℕ) (p : Processor) {ref : ActorRef}
    {p' : Processor}
    → Agree p
    → create_local fuel config make p ≡ ok (ref, p')
    → (find ref.actor_id p.actor_id_to_actor ≡ none) × Agree p'
unfolding create_local
create_local_lem fuel config make p {ref} {p'} v done =
    elim (Result-cases (generate_random_actor_id fuel p)) [
      | inr (e, failed) ↦ absurd (ground arith)
      | inl ((id, p₁), generated) ↦ elim (Result-cases make) [
        | inr (e, failed) ↦ absurd (ground arith)
        | inl (address, made) ↦
            let actor : ActorEntry = record { address = address; config = config } in
            elim (Result-cases (register_actor id actor p₁)) [
              | inr (e, failed) ↦ absurd (ground arith)
              | inl (p₂, registered) ↦
                  let (fresh, same) = generated_is_new fuel p {p' = p₁} generated in
                  let v₁ = same_maps p p₁ same v in
                  let fresh₁ : find id p₁.actor_id_to_actor ≡ none = rw same fresh in
                  let v₂ = registered-Agree id actor p₁ v₁ fresh₁ registered in
                  let (same_id, same_p) : (id ≡ ref.actor_id) × (p₂ ≡ p') =
                    (ground arith, ground arith) in
                  (rw (sym same_id) fresh, rw (sym same_p) v₂)
            ]
      ]
    ]

-- DestroyActor throws exactly when no actor has the reference's id; else it keeps the maps of names
-- and ids in agreement, returns the actor, and neither the id nor the actor's name is found any
-- more, while all other ids and names are found as before.
pub destroy_actor_lem :
    (ref : ActorRef) (p : Processor)
    → Agree p
    → ((find ref.actor_id p.actor_id_to_actor ≡ none) × (destroy_actor ref p ≡ err actor_not_found))
      ⊎ ((actor : ActorEntry) × (p' : Processor) × (find ref.actor_id p.actor_id_to_actor
            ≡ some actor)
          × (destroy_actor ref p ≡ ok (actor, p'))
          × Agree p'
          × ((id : ℕ)
              → find id p'.actor_id_to_actor
                ≡ (if nat_beq ref.actor_id id then none else find id p.actor_id_to_actor))
          × ((name : List ℕ)
              → find name p'.actor_name_to_id ≡ (
                  if is_name actor.config.actor_name name
                  then none
                  else find name p.actor_name_to_id)))
unfolding destroy_actor
destroy_actor_lem ref p v = elim (Option-cases (find ref.actor_id p.actor_id_to_actor)) [
  | inl missing ↦ inl (missing, rw missing)
  | inr (actor, there) ↦ inr (
    actor,
    without ref.actor_id actor p v there,
    there,
    rw there,
    without-Agree ref.actor_id actor p v there,
    λ id. find-erase ref.actor_id id p.actor_id_to_actor,
    λ name. find-erase_name actor.config.actor_name name p.actor_name_to_id,
  )
]

-- While the maps agree, GetActorRefByName on this node never throws: it returns nothing for a name
-- that is not recorded, and else a reference to an actor of this node that has the name.
get_actor_ref_by_name_lem :
    (name : List ℕ) (p : Processor)
    → Agree p
    → ((find name p.actor_name_to_id ≡ none) × (get_actor_ref_by_name name p ≡ ok none))
      ⊎ ((ref : ActorRef) × (actor : ActorEntry) × (get_actor_ref_by_name name p ≡ ok (some ref))
          × (find ref.actor_id p.actor_id_to_actor ≡ some actor)
          × (actor.config.actor_name ≡ some name)
          × (ref.actor ≡ some actor.address)
          × (ref.node_id ≡ p.this_node_id))
unfolding get_actor_ref_by_name
get_actor_ref_by_name_lem name p v = elim (Option-cases (find name p.actor_name_to_id)) [
  | inl missing ↦ inl (missing, rw (missing, get_actor_ref_by_name))
  | inr (id, there) ↦
      let (actor, found, has) = v.named name id there in
      inr (
        record {
          is_empty = false;
          this_node_id = p.this_node_id;
          node_id = p.this_node_id;
          actor_id = id;
          actor = some actor.address;
        },
        actor,
        ground arith,
        found,
        has,
        refl,
        refl,
      )
]
