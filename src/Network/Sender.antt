-- ===== src/Network/Sender.antt =====
-- include/ncaf/internal/network.h: SendRequestSender::connect and SendRequestOperation::start. The
-- compare_exchange of `started` is one step, so that calls of start from any threads come one after
-- the other.
use ncaf.Common.{ℕ, zero, suc, ◌≡◌, refl, Bool, true, false, Option, none, some, if◌then◌else◌}
use ncaf.Network.{Operation, Broker, push_operation}

pub record SendRequestOperation : Type 0 where
  pub operation : Operation
  pub started : Bool

abbrev pub connect : Operation → SendRequestOperation
connect op = record { operation = op; started = false }

-- start; none where it calls std::terminate.
unfoldable pub start : SendRequestOperation → Broker → Option (SendRequestOperation × Broker)
start o b =
    if o.started then none else some (record o { started = true }, push_operation o.operation b)

abbrev start_times : ℕ → SendRequestOperation → Broker → Option (SendRequestOperation × Broker)
start_times zero o b = some (o, b)
start_times (suc n) o b = elim (start o b) [ none ↦ none | some (o', b') ↦ start_times n o' b' ]

-- Of the calls of start on a connected operation the first one calls PushOperation, and a second one
-- ends the process.
pushed_once :
    (op : Operation) (b : Broker) (n : ℕ)
    → (start_times 1 (connect op) b
        ≡ some (record { operation = op; started = true }, push_operation op b))
      × (start_times (suc (suc n)) (connect op) b ≡ none)
unfolding start
pushed_once op b n = (refl, refl)
