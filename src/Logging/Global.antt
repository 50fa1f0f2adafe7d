-- ===== src/Logging/Global.antt =====
-- src/ncaf/internal/logging.cc, include/ncaf/internal/logging.h and src/ncaf/internal/actor_registry.cc:
-- GlobalLogger, the functions that log to it, ConfigureLogging, and the handler that
-- InstallFallbackExceptionHandler sets.
use ncaf.Common.{List, [], ◌∷◌, ◌++◌, Bool, if◌then◌else◌, Option, none, some, Result, ok, ◌>>=◌, ℕ}
use ncaf.Logging.{
  SpdlogLevel, critical, LogConfig, default_log_config, Sink, Logger, create_logger_using_config,
}
use ncaf.Logging.Throwing.{codes}

-- spdlog: whether it can open the file of a path, and whether a logger of a level lets a message
-- through.
pub record Spdlog : Type 0 where
  pub opens : List ℕ → Bool
  pub should_log : SpdlogLevel → SpdlogLevel → Bool

-- A message that was handed to a sink. A file's sink buffers: what is handed to it reaches the file
-- when the buffer is full or flushed.
pub record Line : Type 0 where
  pub sink : Sink
  pub severity : SpdlogLevel
  pub text : List ℕ

-- `global_logger` is the local static of GlobalLogger, none before its first use. `lines` is no
-- member: it records what was handed to a sink, oldest first.
pub record State : Type 0 where
  pub global_logger : Option Logger
  pub lines : List Line

abbrev pub fresh_state : State
fresh_state = record { global_logger = none; lines = [] }

-- GlobalLogger
unfoldable pub get_global_logger : (spdlog : Spdlog) → State → Result (Logger × State)
get_global_logger spdlog s = elim s.global_logger [
  | some logger ↦ ok (logger, s)
  | none ↦ do
    logger ← create_logger_using_config spdlog.opens default_log_config
    ok (logger, record s { global_logger = some logger })
]

abbrev pub written : (spdlog : Spdlog) → Logger → SpdlogLevel → List ℕ → List Line
written spdlog logger severity text =
    if spdlog.should_log logger.level severity
    then record { sink = logger.sink; severity = severity; text = text } ∷ []
    else []

-- Info, Warn, Error and Critical; the text is formatted.
unfoldable pub log : (spdlog : Spdlog) → SpdlogLevel → List ℕ → State → Result State
unfolding get_global_logger
log spdlog severity text s = do
  (logger, s') ← get_global_logger spdlog s
  ok (record s' { lines = s'.lines ++ written spdlog logger severity text })

-- ConfigureLogging: the right side of the assignment comes first.
unfoldable pub configure_logging : (spdlog : Spdlog) → LogConfig → State → Result State
unfolding get_global_logger
configure_logging spdlog config s = do
  logger ← create_logger_using_config spdlog.opens config
  (old, s') ← get_global_logger spdlog s
  ok (record s' { global_logger = some logger })

-- What std::current_exception() holds when the handler runs: a std::exception with the name of its
-- type and its what(), another one, or nothing.
pub data Active : Type 0 where
  standard : (name what : List ℕ) → Active
  unknown no_exception : Active

abbrev pub report : Active → List ℕ
report (standard name what) =
    codes "terminate called with an active exception, type: "
    ++ (name ++ (codes ", what: " ++ what))
report unknown = codes "terminate called with an unknown exception"
report no_exception = codes "terminate called without an active exception"

-- The handler, up to std::abort.
unfoldable pub on_terminate : (spdlog : Spdlog) → Active → State → Result State
unfolding log
on_terminate spdlog active s = log spdlog critical (report active) s
