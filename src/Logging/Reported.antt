-- ===== src/Logging/Reported.antt =====
-- What a program's calls of the logging functions write.
use ncaf.Common.{List, [], ◌∷◌, ◌++◌, Option, none, some, Result, ok, err, ℕ, ◌≡◌}
use ncaf.Logging.{SpdlogLevel, info, LogConfig, stdout_color, Logger, create_logger_using_config}
use ncaf.Logging.Global.{Spdlog, Line, State, written, log, configure_logging}

pub data LogCall : Type 0 where
  call_log : SpdlogLevel → (text : List ℕ) → LogCall
  call_configure : LogConfig → LogCall

abbrev pub or_keep : {A : Type 0} → A → Result A → A
or_keep a (ok b) = b
or_keep a (err e) = a

-- A call that throws is caught by the program.
abbrev pub make_call : (spdlog : Spdlog) → LogCall → State → State
make_call spdlog (call_log severity text) s = or_keep s (log spdlog severity text s)
make_call spdlog (call_configure config) s = or_keep s (configure_logging spdlog config s)

abbrev pub run : (spdlog : Spdlog) → List LogCall → State → State
run spdlog [] s = s
run spdlog (call ∷ calls) s = run spdlog calls (make_call spdlog call s)

-- The description: a logger in use, the default one at first, and what it lets through.
abbrev pub default_logger : Logger
default_logger = record { sink = stdout_color; level = info }

abbrev pub in_use : (spdlog : Spdlog) → Logger → List LogCall → Logger
in_use spdlog l [] = l
in_use spdlog l (call_log severity text ∷ calls) = in_use spdlog l calls
in_use spdlog l (call_configure config ∷ calls) =
    in_use spdlog (or_keep l (create_logger_using_config spdlog.opens config)) calls

abbrev pub expected : (spdlog : Spdlog) → Logger → List LogCall → List Line
expected spdlog l [] = []
expected spdlog l (call_log severity text ∷ calls) =
    written spdlog l severity text ++ expected spdlog l calls
expected spdlog l (call_configure config ∷ calls) =
    expected spdlog (or_keep l (create_logger_using_config spdlog.opens config)) calls

-- The logger that the next use of GlobalLogger gives.
abbrev current : Option Logger → Logger
current none = default_logger
current (some l) = l

record Keeps (spdlog : Spdlog) (calls : List LogCall) (s t : State) : Type 0 where
  uses : current t.global_logger ≡ in_use spdlog (current s.global_logger) calls
  wrote : t.lines ≡ s.lines ++ expected spdlog (current s.global_logger) calls
