-- ===== src/Common/Throw.antt =====
-- C++ exceptions as values: a constructor stands for a throw, under the check that fails. The texts
-- that the macros write are in Logging/Throwing.
use mathlib.Core.Bool.{Bool, true, false}
use mathlib.Core.List.{List}
use mathlib.Core.Path.{◌≡◌, refl, ap}
use mathlib.Core.Logic.{◌⊎◌, inl, inr}
use mathlib.Core.Option.{Option, none, some}
use Prim.Native.Nat.{ℕ}

pub data Exception : Type 0 where
  -- serialization.h
  buffer_overflow length_error decode_error : Exception
  -- No exception of C++: a loop of the model ran out of fuel.
  out_of_fuel : Exception
  -- A read or write outside the buffer: no exception of C++, but undefined behaviour.
  out_of_bounds : Exception
  -- util.h, scheduler.h, logging
  key_not_found no_scheduler scheduler_index_out_of_range invalid_log_level : Exception
  -- spdlog, of a log file
  file_not_opened : Exception
  -- zmq
  bind_failed connect_failed : Exception
  -- network
  send_failed latch_underflow self_send no_local_address socket_exists not_two_parts
        quit_with_data :
      Exception
  invalid_identifier complete_not_called : Exception
  -- the registries
  invalid_node_id duplicate_node_id duplicate_actor_name actor_not_found : Exception
  invalid_message_type invalid_buffer_size remote_create_needs_function : Exception
  duplicate_handler handler_not_found : Exception
  already_initialized not_initialized : Exception
  -- references
  writer_not_ended empty_ref not_local broker_not_set : Exception
  -- A call through a null pointer: no exception of C++, but undefined behaviour.
  null_actor : Exception
  -- the text of a remote error, thrown again
  remote : List ℕ → Exception
  -- what a user's function or method throws: a std::exception, or something else
  user foreign : List ℕ → Exception

-- Derived from std::exception, as what NCAF_THROW throws is.
abbrev pub is_std : Exception → Bool
is_std (foreign value) = false
is_std e = true

pub data Result {ℓ} (A : Type ℓ) : Type ℓ where
  err : (thrown : Exception) → Result A
  ok : (value : A) → Result A

-- NCAF_THROW_CHECK.
abbrev pub check : (condition : Bool) (otherwise : Exception) → Result (Unit {0})
check false e = err e
check true e = ok tt

infixl 5 ◌>>=◌
abbrev pub ◌>>=◌ {ℓ κ} :
    {A : Type ℓ} {B : Type κ} (first : Result A) (next : A → Result B) → Result B
err e >>= next = err e
ok a >>= next = next a

infixl 5 ◌>>◌
abbrev pub ◌>>◌ {ℓ} : {B : Type ℓ} (first : Result (Unit {0})) (next : Result B) → Result B
first >> next = first >>= λ done. next

abbrev pub or_throw {ℓ} : {A : Type ℓ} → Option A → Exception → Result A
or_throw none e = err e
or_throw (some a) e = ok a

-- `catch (std::exception&)`: other exceptions go on.
abbrev pub catch_if {ℓ} : {A : Type ℓ} → (std : Bool) → Exception → Result A → Result A
catch_if true e handled = handled
catch_if false e handled = err e

abbrev pub catch_std {ℓ} : {A : Type ℓ} → Exception → Result A → Result A
catch_std e handled = catch_if (is_std e) e handled

pub catch_std-is_std {ℓ} :
    {A : Type ℓ} (e : Exception) (handled : Result A)
    → is_std e ≡ true
    → catch_std e handled ≡ handled
catch_std-is_std e handled std = ap (λ t. catch_if t e handled) std

pub catch_std-other {ℓ} :
    {A : Type ℓ} (e : Exception) (handled : Result A)
    → is_std e ≡ false
    → catch_std e handled ≡ err e
catch_std-other e handled other = ap (λ t. catch_if t e handled) other

-- A result is a value or an exception.
pub Result-cases {ℓ} :
    {A : Type ℓ} (m : Result A) → ((a : A) × (m ≡ ok a)) ⊎ ((e : Exception) × (m ≡ err e))
Result-cases (ok a) = inl (a, refl)
Result-cases (err e) = inr (e, refl)
