-- ===== src/Logging.antt =====
-- include/ncaf/internal/logging.h and src/ncaf/internal/logging.cc: levels, the loggers that are made,
-- and NCAF_DUMP_VARS. A text is its list of bytes.
pub mod Dump
pub mod Throwing
pub mod Global
pub mod Reported
use ncaf.Common.{
  ℕ, List, [], ◌∷◌, ◌++◌, Bool, true, false, nat_beq, if◌then◌else◌, Result, ok, err, ◌>>=◌,
  invalid_log_level, file_not_opened, check, ◌>>◌,
}

-- LogLevel, by its underlying number: a cast gives it any uint8_t.
abbrev pub debug_level : ℕ
debug_level = 0

abbrev pub info_level : ℕ
info_level = 1

abbrev pub warn_level : ℕ
warn_level = 2

abbrev pub error_level : ℕ
error_level = 3

abbrev pub fatal_level : ℕ
fatal_level = 4

-- spdlog's levels that are used
pub data SpdlogLevel : Type 0 where
  debug info warn error critical : SpdlogLevel

-- ToSpdlogLevel
unfoldable pub to_spdlog_level : ℕ → Result SpdlogLevel
to_spdlog_level level =
    if nat_beq level debug_level
    then ok debug
    else if nat_beq level info_level
    then ok info
    else if nat_beq level warn_level
    then ok warn
    else if nat_beq level error_level
    then ok error
    else if nat_beq level fatal_level
    then ok critical
    else err invalid_log_level

pub record LogConfig : Type 0 where
  pub level : ℕ
  pub log_file_path : List ℕ

abbrev pub default_log_config : LogConfig
default_log_config = record { level = info_level; log_file_path = [] }

pub data Sink : Type 0 where
  stdout_color : Sink
  basic_file : (path : List ℕ) → Sink

pub record Logger : Type 0 where
  pub sink : Sink
  pub level : SpdlogLevel

-- `opens` tells whether spdlog can open the file of a path; if not, its sink's constructor throws.
abbrev sink_of : (opens : List ℕ → Bool) → List ℕ → Result Sink
sink_of opens [] = ok stdout_color
sink_of opens (c ∷ path) = do check (opens (c ∷ path)) file_not_opened; ok (basic_file (c ∷ path))

-- CreateLoggerUsingConfig
unfoldable pub create_logger_using_config : (opens : List ℕ → Bool) → LogConfig → Result Logger
unfolding to_spdlog_level
create_logger_using_config opens config = do
  sink ← sink_of opens config.log_file_path
  level ← to_spdlog_level config.level
  ok (record { sink = sink; level = level })

-- JoinVarsNameValue: what is before the first comma, and `names.substr(end + 1)`, which is all of it
-- where there is no comma, since std::string::npos + 1 is 0.
abbrev pub comma : ℕ
comma = 44

unfoldable pub before_comma : List ℕ → List ℕ
before_comma [] = []
before_comma (c ∷ names) = let rest = before_comma names in if nat_beq c comma then [] else c ∷ rest

unfoldable pub past_comma : List ℕ → List ℕ → List ℕ
past_comma all [] = all
past_comma all (c ∷ names) =
    let rest = past_comma all names in if nat_beq c comma then names else rest

-- The values as they are printed: the first, and the remaining.
unfoldable pub join_vars_name_value : List ℕ → List ℕ → List (List ℕ) → List ℕ
unfolding before_comma past_comma
join_vars_name_value names first [] = before_comma names ++ (61 ∷ first)
join_vars_name_value names first (second ∷ remaining) =
    before_comma names
    ++ (61 ∷ (first ++ (comma ∷ join_vars_name_value (past_comma names names) second remaining)))
