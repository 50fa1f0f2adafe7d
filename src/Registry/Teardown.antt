-- ===== src/Registry/Teardown.antt =====
-- src/ncaf/internal/actor_registry.cc, AsyncDestroyAllActors up to its wait. The actors stand in a
-- store, by their addresses.
use ncaf.Common.{ℕ, ◌≡◌, refl, List, [], ◌∷◌, Bool, false, ◌||◌, nat_beq, if◌then◌else◌, arith}
use ncaf.Common.Dict.{values}
use ncaf.Actor.{Cells}
use ncaf.Actor.Activation.{try_activate, async_destroy}
use ncaf.Registry.{ActorEntry, Processor}

abbrev pub destroy_at : ℕ → (ℕ → Cells) → ℕ → Cells
destroy_at address store j = if nat_beq address j then (async_destroy (store j)).0 else store j

unfoldable pub destroy_each : List ActorEntry → (ℕ → Cells) → ℕ → Cells
destroy_each [] store = store
destroy_each (actor ∷ actors) store = destroy_each actors (destroy_at actor.address store)

unfoldable pub async_destroy_all_actors : Processor → (ℕ → Cells) → ℕ → Cells
unfolding destroy_each
async_destroy_all_actors p store = destroy_each (values p.actor_id_to_actor) store

abbrev pub any_at : ℕ → List ActorEntry → Bool
any_at j [] = false
any_at j (actor ∷ actors) = nat_beq actor.address j || any_at j actors

async_destroy_twice : (c : Cells) → (async_destroy (async_destroy c).0).0 ≡ (async_destroy c).0
unfolding async_destroy try_activate
async_destroy_twice c = ground arith

destroy_each_lem :
    (actors : List ActorEntry) (store : ℕ → Cells) (j : ℕ)
    → destroy_each actors store j
      ≡ (if any_at j actors then (async_destroy (store j)).0 else store j)
unfolding destroy_each
destroy_each_lem [] store j = refl
destroy_each_lem (actor ∷ actors) store j = ground (
  arith,
  destroy_each_lem actors (destroy_at actor.address store) j,
  async_destroy_twice (store j),
)

-- AsyncDestroyAllActors calls AsyncDestroy on each actor of the registry, to the same effect whatever
-- the order of the map, and on no other actor.
pub async_destroy_all_actors_lem :
    (p : Processor) (store : ℕ → Cells) (j : ℕ)
    → async_destroy_all_actors p store j
      ≡ (if any_at j (values p.actor_id_to_actor) then (async_destroy (store j)).0 else store j)
unfolding async_destroy_all_actors
async_destroy_all_actors_lem p store j = destroy_each_lem (values p.actor_id_to_actor) store j
