-- ===== src/Remote/Handlers.antt =====
-- What registrars leave in the registry of handlers.
use ncaf.Common.{
  ℕ, ◌≡◌, List, [], ◌∷◌, text_beq, text_beq_iff, text_eq, Option, none, some, ok, if◌then◌else◌,
  arith,
}
use ncaf.Common.Dict.{find, put, find-put}
use ncaf.Remote.{
  MethodCallHandler, CreationHandler, HandlerRegistry, RemoteFunc, create_fn, method, register_all,
}

-- The first function of its kind in the list with this name.
abbrev pub create_fn_named : List ℕ → List RemoteFunc → Option CreationHandler
create_fn_named key [] = none
create_fn_named key (create_fn name func ∷ fs) =
    if text_beq name key then some func else create_fn_named key fs
create_fn_named key (method name func ∷ fs) = create_fn_named key fs

abbrev pub method_named : List ℕ → List RemoteFunc → Option MethodCallHandler
method_named key [] = none
method_named key (create_fn name func ∷ fs) = method_named key fs
method_named key (method name func ∷ fs) =
    if text_beq name key then some func else method_named key fs

abbrev pub or_later : {A : Type 0} → Option A → Option A → Option A
or_later none o = o
or_later (some a) o = some a

-- After a registrar, a name leads to the handler that it led to, and else to the function of the
-- registrar with that name, creations and method calls apart: nothing registered is replaced.
pub register_all_lem :
    (fs : List RemoteFunc) (r : HandlerRegistry) {r' : HandlerRegistry} (key : List ℕ)
    → register_all fs r ≡ ok r'
    → (find key r'.creation ≡ or_later (find key r.creation) (create_fn_named key fs))
      × (find key r'.method_call ≡ or_later (find key r.method_call) (method_named key fs))
unfolding register_all
register_all_lem [] r key h = (ground arith, ground arith)
register_all_lem (create_fn name func ∷ fs) r {r'} key h =
    let next : HandlerRegistry = record r { creation = put name func r.creation } in
    let (created, called) = register_all_lem fs next {r' = r'} key (ground arith) in
    (
      ground (arith, find-put name key func r.creation, created, text_beq_iff name key),
      ground (arith, called),
    )
register_all_lem (method name func ∷ fs) r {r'} key h =
    let next : HandlerRegistry = record r { method_call = put name func r.method_call } in
    let (created, called) = register_all_lem fs next {r' = r'} key (ground arith) in
    (
      ground (arith, created),
      ground (arith, find-put name key func r.method_call, called, text_beq_iff name key),
    )
