-- ===== src/Registry/Ids.antt =====
-- GenerateRandomActorId.
use ncaf.Common.{
  ℕ, zero, suc, ◌<◌, ◌≤◌, ◌≡◌, true, false, Bool-cases, inl, inr, none, ok, nat_eq, arith,
}
use ncaf.Common.Dict.{contains, find}
use ncaf.Registry.{Processor, generate_random_actor_id}

-- What is left of the generator after `k` calls.
abbrev after_calls : ℕ → (ℕ → ℕ) → ℕ → ℕ
after_calls zero random = random
after_calls (suc k) random = after_calls k (λ n. random (suc n))

abbrev pub skip : ℕ → Processor → Processor
skip k p = record p { random_num_generator = after_calls k p.random_num_generator }

-- When one of the next `fuel` outputs of the generator is the id of no actor, `fuel` rounds are
-- enough: GenerateRandomActorId returns an output that is the id of no actor, all outputs before it
-- are ids of actors, and only the generator changes.
pub generate_random_actor_id_lem :
    (fuel k : ℕ) (p : Processor)
    → k < fuel
    → contains (p.random_num_generator k) p.actor_id_to_actor ≡ false
    → (j : ℕ) × (j ≤ k)
      × (generate_random_actor_id fuel p ≡ ok (p.random_num_generator j, skip (suc j) p))
      × (contains (p.random_num_generator j) p.actor_id_to_actor ≡ false)
      × ((i : ℕ) → i < j → contains (p.random_num_generator i) p.actor_id_to_actor ≡ true)
unfolding generate_random_actor_id
generate_random_actor_id_lem zero k p h fresh = absurd (omega arith)
generate_random_actor_id_lem (suc fuel) zero p h fresh = (
  zero,
  omega arith,
  rw (fresh, generate_random_actor_id),
  fresh,
  λ i below. absurd (omega arith),
)
generate_random_actor_id_lem (suc fuel) (suc k) p h fresh =
    elim (Bool-cases (contains (p.random_num_generator 0) p.actor_id_to_actor)) [
      | inr free ↦ (
        zero,
        omega arith,
        rw (free, generate_random_actor_id),
        free,
        λ i below. absurd (omega arith),
      )
      | inl used ↦
          let (j, le, found, free, used_before) =
            generate_random_actor_id_lem fuel k (skip 1 p) (omega arith) fresh in
          (
            suc j,
            omega arith,
            rw (used, generate_random_actor_id) found,
            free,
            used_up_to j used used_before,
          )
    ]
  where
    used_up_to :
        (j : ℕ)
        → contains (p.random_num_generator 0) p.actor_id_to_actor ≡ true
        → ((i : ℕ) → i < j → contains (p.random_num_generator (suc i)) p.actor_id_to_actor ≡ true)
        → (i : ℕ) → i < suc j
        → contains (p.random_num_generator i) p.actor_id_to_actor ≡ true
    used_up_to j first rest zero below = first
    used_up_to j first rest (suc i) below = rest i (omega arith)

-- The id that GenerateRandomActorId returns is the id of no actor, and only the generator changes.
pub generated_is_new :
    (fuel : ℕ) (p : Processor) {id : ℕ} {p' : Processor}
    → generate_random_actor_id fuel p ≡ ok (id, p')
    → (find id p.actor_id_to_actor ≡ none)
      × (p' ≡ record p { random_num_generator = p'.random_num_generator })
unfolding generate_random_actor_id
generated_is_new zero p h = cc
generated_is_new (suc fuel) p {id} {p'} h =
    elim (Bool-cases (contains (p.random_num_generator 0) p.actor_id_to_actor)) [
      | inr free ↦
          let e = (rw (free, generate_random_actor_id) at h) in (ground arith, ground arith)
      | inl used ↦
          let (new, same) =
            generated_is_new fuel (skip 1 p) {p' = p'} (rw (used, generate_random_actor_id) at h) in
          (new, same)
    ]
