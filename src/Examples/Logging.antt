-- ===== src/Examples/Logging.antt =====
-- A check that fails, and a program that configures its logger and ends by an exception.
use ncaf.Common.{Bool, true, leb, ℕ, ◌+◌, ◌≡◌, ◌⊎◌, List, [], ◌∷◌, ◌++◌, none, some}
use ncaf.Logging.Throwing.{
  Location, ThrowStream, Holds, ge_check, throw_check_comparison, what, copy_stream, sign, concat,
  codes, throws_exactly_when,
}
use ncaf.Logging.{SpdlogLevel, debug, info, warn, error, critical, error_level}
use ncaf.Logging.Global.{Spdlog, Active, standard}
use ncaf.Logging.Reported.{LogCall, call_log, call_configure}

abbrev print : ℕ → List ℕ
print n = (48 + n) ∷ []

abbrev place : Location
place = record { file = codes "a.h"; line = codes "7" }

throws_exactly_when_example :
    (Holds ge_check 2 3
      × (throw_check_comparison ge_check print 2 3 (codes "a") (codes "b") place [] ≡ none))
    ⊎ ((Holds ge_check 2 3 → ⊥)
        × (t : ThrowStream) × (throw_check_comparison ge_check print 2 3
              (codes "a")
              (codes "b")
              place
              []
            ≡ some t)
        × ((what t).1
            ≡ place.file
              ++ (codes ":"
                  ++ (place.line
                      ++ (codes " Check failed, expected `"
                          ++ (codes "a"
                              ++ (sign ge_check
                                  ++ (codes "b"
                                      ++ (codes "`, got "
                                          ++ (print 2
                                              ++ (codes " vs "
                                                  ++ (print 3
                                                      ++ (codes ". " ++ concat []))))))))))))
        × ((what (copy_stream t)).1 ≡ (what t).1))
throws_exactly_when_example =
    throws_exactly_when ge_check print 2 3 (codes "a") (codes "b") place []

abbrev rank : SpdlogLevel → ℕ
rank debug = 1
rank info = 2
rank warn = 3
rank error = 4
rank critical = 5

abbrev should_log : SpdlogLevel → SpdlogLevel → Bool
should_log level severity = leb (rank level) (rank severity)

abbrev spdlog : Spdlog
spdlog = record { opens = λ path. true; should_log = should_log }

abbrev calls : List LogCall
calls =
    call_log debug (codes "a")
    ∷ call_log info (codes "b")
    ∷ call_configure (record { level = error_level; log_file_path = codes "f" })
    ∷ call_configure (record { level = 9; log_file_path = [] })
    ∷ call_log warn (codes "c")
    ∷ []

abbrev active : Active
active = standard (codes "E") (codes "w")
