-- ===== src/Lifecycle/Global.antt =====
-- The global registry over a program's calls.
use ncaf.Common.{
  ℕ, ◌+◌, ◌≤◌, ◌≡◌, List, [], ◌∷◌, ◌++◌, append_assoc, append-nil, Bool, true, bit, ok, err, arith,
}
use ncaf.Common.Dict.{is_some}
use ncaf.Lifecycle.{
  Globals, at_start, at_exit, Call, call_init, call_hold_resource, call_shutdown, perform,
}

-- A program: what it calls, and what is seen of it. `inits` and `shutdowns` count the calls that
-- returned.
pub record Trace : Type 0 where
  pub globals : Globals
  pub inits : ℕ
  pub shutdowns : ℕ
  pub held : List ℕ  -- every resource that was handed to HoldResource

abbrev pub no_calls : Trace
no_calls = record { globals = at_start; inits = 0; shutdowns = 0; held = [] }

abbrev counted : Call → Bool → Trace → Trace
counted (call_init made) returned t = record t { inits = t.inits + bit returned }
counted (call_hold_resource resource) returned t = record t { held = t.held ++ (resource ∷ []) }
counted call_shutdown returned t = record t { shutdowns = t.shutdowns + bit returned }

abbrev pub next : Call → Trace → Trace
next call t =
    let (g, returned) = perform call t.globals in counted call returned (record t { globals = g })

abbrev pub run : List Call → Trace → Trace
run [] t = t
run (call ∷ calls) t = run calls (next call t)

record Inv (t : Trace) : Type 0 where
  pub balanced : t.inits ≡ t.shutdowns + bit (is_some t.globals.global_default_registry)
  pub kept : t.globals.released ++ t.globals.resource_holder ≡ t.held
  pub registered : t.globals.at_exit_handlers ≡ bit t.globals.at_exit_cleanup_registered
  pub cleans_up :
      is_some t.globals.global_default_registry ≡ true → t.globals.at_exit_cleanup_registered ≡ true

next-Inv : (call : Call) (t : Trace) → Inv t → Inv (next call t)
unfolding perform
next-Inv (call_init (err e)) t v = ground arith
next-Inv (call_init (ok r)) t v = ground arith
next-Inv (call_hold_resource resource) t v =
    ground (arith, append_assoc t.globals.released t.globals.resource_holder (resource ∷ []))
next-Inv call_shutdown t v =
    ground (arith, append-nil (t.globals.released ++ t.globals.resource_holder))

run-Inv : (calls : List Call) (t : Trace) → Inv t → Inv (run calls t)
run-Inv [] t v = v
run-Inv (call ∷ calls) t v = run-Inv calls (next call t) (next-Inv call t v)

-- After any calls of Init, HoldResource and Shutdown, the global registry exists, and the exit handler
-- would end the process at once, exactly when one more Init than Shutdown returned, which are never
-- more apart; no resource that was held is lost: each is still held or was released, in the order of
-- the calls; and the exit handler is registered at most once, and is while the registry exists.
pub lifecycle :
    (calls : List Call)
    → let t = run calls no_calls in
      (t.inits ≡ t.shutdowns + bit (at_exit t.globals))
      × (t.globals.released ++ t.globals.resource_holder ≡ t.held)
      × (t.globals.at_exit_handlers ≤ 1)
      × (bit (at_exit t.globals) ≤ t.globals.at_exit_handlers)
unfolding at_exit
lifecycle calls =
    let v = run-Inv calls no_calls (ground arith) in
    (v.balanced, v.kept, ground (arith, v.registered), ground (arith, v.registered, v.cleans_up))
