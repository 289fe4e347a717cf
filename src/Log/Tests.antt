-- ===== src/Log/Tests.antt =====
-- Runs of the theorems about gudov/log.cpp at concrete inputs.
use gudov.Common.{ℕ, ◌≡◌, refl, arith, true, false, List, [], ◌∷◌, ◌++◌, length}
use gudov.Common.Text.{Bytes, codes, bytes_eq}
use gudov.Log.Level
use gudov.Log.Pattern.{Piece, literal, directive, init_loop}
use gudov.Log.Parsed.{written, init_loop_lem, init_loop-written}
use gudov.Log.Event.{LogEvent}
use gudov.Log.Logger.{stdout_appender, new_appender, Logger, new_logger, add_appender}
use gudov.Log.Laws.{present}
use gudov.Log.Config.{LogConfig, find_config, on_change}
use gudov.Log.Changes.{accepted, on_change-accepted, on_change-same_config}

abbrev pieces : List Piece
pieces = directive (codes "d") (codes "%Y") ∷ literal (codes " ") ∷ directive (codes "m") [] ∷ []

init_loop-written_example :
    init_loop (length (written pieces)) [] (written pieces) ≡ (pieces, false)
init_loop-written_example =
    init_loop-written pieces
      ((refl, tt), (refl, (refl, tt)), (refl, (refl, tt), refl, ((refl, tt), tt, tt)))

init_loop_lem_example :
    init_loop 100 [] (codes "%d{%Y}%m")
    ≡ init_loop (length (codes "%d{%Y}%m")) [] (codes "%d{%Y}%m")
init_loop_lem_example = init_loop_lem 100 [] (codes "%d{%Y}%m") (omega arith)

abbrev root : Logger
root = add_appender (new_appender 1 stdout_appender) (new_logger (codes "root"))

abbrev app : Logger
app = record (new_logger (codes "app")) { has_root = true }

abbrev event : LogEvent
event = record {
  file = codes "main.cpp";
  line = 3;
  elapse = 0;
  thread_id = 1;
  fiber_id = 2;
  time = 0;
  content = codes "hello";
  logger = codes "app";
  level = Level.warn;
}

abbrev no_time : Bytes → ℕ → Bytes
no_time format time = []

abbrev config : LogConfig
config = record { name = codes "app"; level = Level.info; formatter = []; appenders = [] }

abbrev changed : LogConfig
changed = record config {
  appenders = record { type = 2; level = Level.info; formatter = []; file = [] } ∷ [];
}

on_change-accepted_example : present (on_change [] (changed ∷ []) 0 []) ≡ accepted [] (changed ∷ [])
on_change-accepted_example = on_change-accepted [] (changed ∷ []) 0 []

on_change-same_config_example : present (on_change (config ∷ []) ([] ++ changed ∷ []) 0 []) ≡ false
unfolding find_config bytes_eq
on_change-same_config_example =
    on_change-same_config (config ∷ []) [] [] changed config 0 [] refl refl refl refl
