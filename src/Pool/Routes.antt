-- ===== src/Pool/Routes.antt =====
-- Where an actor's activation goes.
use ncaf.Common.{
  ℕ, zero, suc, ◌<◌, ◌≤◌, ◌≡◌, refl, List, [], ◌∷◌, length, get_elem?, true, Option, none, some,
  Result, ok, err, scheduler_index_out_of_range, arith,
}
use native.Mathlib.Decide.{dec_lt}
use ncaf.Registry.{ActorConfig}
use ncaf.Pool.{Env, schedule_env, connect_union, start_element}

abbrev pub or_out_of_range : {S : Type 0} → Option S → Result S
or_out_of_range none = err scheduler_index_out_of_range
or_out_of_range (some s) = ok s

elem-in_range :
    {S : Type 0} (xs : List S) (i : ℕ) → i < length xs → (x : S) × (get_elem? xs i ≡ some x)
elem-in_range [] i h = absurd (omega arith)
elem-in_range (x ∷ xs) zero h = (x, refl)
elem-in_range (x ∷ xs) (suc i) h = elem-in_range xs i (omega arith)

elem-out_of_range : {S : Type 0} (xs : List S) (i : ℕ) → length xs ≤ i → get_elem? xs i ≡ none
elem-out_of_range [] i h = refl
elem-out_of_range (x ∷ xs) zero h = absurd (omega arith)
elem-out_of_range (x ∷ xs) (suc i) h = elem-out_of_range xs i (omega arith)

-- An activation that is scheduled on a SchedulerUnion goes to the scheduler at the actor's
-- scheduler_index, and throws when there is none; on a PriorityThreadPool it is queued with the
-- actor's priority, whatever the environment was before.
pub schedule_routes :
    {S : Type 0} (schedulers : List S) (config : ActorConfig) (env : Env) (operation : ℕ)
    → (connect_union schedulers (schedule_env config env)
        ≡ or_out_of_range (get_elem? schedulers config.scheduler_index))
      × (start_element true operation (schedule_env config env)
          ≡ record { operation = operation; priority = config.priority })
unfolding connect_union schedule_env start_element
schedule_routes schedulers config env operation = (
  elim (dec_lt config.scheduler_index (length schedulers)) [
    | yes inside ↦
        let (s, there) = elem-in_range schedulers config.scheduler_index inside in ground arith
    | no outside ↦
        let missing = elem-out_of_range schedulers config.scheduler_index (omega arith) in
        ground arith
  ],
  refl,
)
