-- ===== src/Lifecycle/Calls.antt =====
-- include/ncaf/internal/actor_registry.h: the methods of `ActorRegistry` that leave the work to its
-- processor, and the functions that call them on the global registry. Each calls one method of the
-- processor by SendLocal, and gives what that method gives.
use ncaf.Common.{
  ℕ, ◌≡◌, sym, ◌∙◌, ap, List, Option, some, Result, Result-cases, inl, inr, ok, err, ◌>>=◌, nat_eq,
  arith, not_initialized,
}
use ncaf.Network.{NodeInfo, Zmq, HeartbeatConfig}
use ncaf.Registry.{make_processor}
use ncaf.Ref.{send_local}
use ncaf.Lifecycle.{
  ActorRegistry, make_registry, make_message_broker, Globals, init, register_at_exit_cleanup,
  shutdown, get_global, is_initialized,
}

-- CreateActor, DestroyActor and GetActorRefByName of ActorRegistry, up to the call of the processor:
-- the actor that is called.
unfoldable pub call_processor : ActorRegistry → Result ℕ
call_processor r = send_local r.processor_actor_ref

-- Spawn, DestroyActor and GetActorRefByName.
unfoldable pub call_global : Globals → Result ℕ
unfolding call_processor
call_global g = do r ← get_global g; call_processor r

-- A registry that was constructed, on a single node or in a cluster, reaches its own processor.
pub call_processor-make_registry :
    (zmq : Zmq) (thread_pool_size : ℕ) (scheduler : Option ℕ) (this : ℕ) (nodes : List NodeInfo)
    (config : HeartbeatConfig) (now : ℕ) (random : ℕ → ℕ) (processor_address : ℕ)
    (r : ActorRegistry)
    → make_registry zmq thread_pool_size scheduler this nodes config now random processor_address
      ≡ ok r
    → call_processor r ≡ ok processor_address
unfolding make_registry call_processor send_local
call_processor-make_registry zmq thread_pool_size scheduler this nodes config now random
      processor_address r made =
    elim (Result-cases (make_message_broker zmq this nodes config now)) [
      | inr (e, failed) ↦ absurd (ground arith)
      | inl (b, done) ↦ elim (Result-cases (make_processor random this nodes)) [
        | inr (e, failed) ↦ absurd (ground arith)
        | inl (p, built) ↦ ground arith
      ]
    ]

init_keeps :
    (r : ActorRegistry) (g : Globals) {g' : Globals}
    → init (ok r) g ≡ ok g'
    → g'.global_default_registry ≡ some r
unfolding init is_initialized register_at_exit_cleanup
init_keeps r g h = ground arith

pub call_global_there :
    (g : Globals) (r : ActorRegistry)
    → g.global_default_registry ≡ some r
    → call_global g ≡ call_processor r
unfolding call_global get_global
call_global_there g r h = ground arith

call_global-shutdown :
    (g : Globals) {g' : Globals} → shutdown g ≡ ok g' → call_global g' ≡ err not_initialized
unfolding call_global get_global shutdown
call_global-shutdown g h = ground arith

-- Once Init has returned, the global functions reach the processor of the registry that it made; once
-- Shutdown has returned after it, they throw.
calls_reach_processor :
    (zmq : Zmq) (thread_pool_size : ℕ) (scheduler : Option ℕ) (this : ℕ) (nodes : List NodeInfo)
    (config : HeartbeatConfig) (now : ℕ) (random : ℕ → ℕ) (processor_address : ℕ) (g g' : Globals)
    → init
        (make_registry zmq thread_pool_size scheduler this nodes config now random
          processor_address)
        g
      ≡ ok g'
    → (call_global g' ≡ ok processor_address)
      × ((g'' : Globals) → shutdown g' ≡ ok g'' → call_global g'' ≡ err not_initialized)
unfolding init
calls_reach_processor zmq thread_pool_size scheduler this nodes config now random processor_address
      g g' started =
    elim (Result-cases (
      make_registry zmq thread_pool_size scheduler this nodes config now random
        processor_address)) [
          | inr (e, failed) ↦ absurd (ground arith)
          | inl (r, made) ↦ (
            call_global_there g' r
                  (init_keeps r g {g' = g'} (ap (λ m. init m g) (sym made) ∙ started))
                ∙ call_processor-make_registry zmq thread_pool_size scheduler this nodes config now
                    random processor_address r made,
            λ g'' stopped. call_global-shutdown g' stopped,
          )
        ]
