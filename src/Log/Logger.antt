-- ===== src/Log/Logger.antt =====
-- gudov/log.h, gudov/log.cpp: appenders, Logger and LoggerManager. The locks are left out: an operation
-- holds its lock to its end. An appender is named by the number of its object; it stands in the list of the
-- logger it was added to, and one that two loggers share is not modelled.
use gudov.Common.{
  ℕ, ◌==◌, Bool, true, false, if◌then◌else◌, Option, none, some, List, [], ◌∷◌, ◌++◌, map,
}
use gudov.Common.Text.{Bytes, codes}
use gudov.Common.Dict.{exact, Dict, find, put}
use gudov.Log.Level.{Level, debug, at_least}
use gudov.Log.Pattern.{LogFormatter, new_formatter}
use gudov.Log.Event.{LogEvent, format}

-- FileLogAppender and StdoutLogAppender
pub data Kind : Type 0 where
  file_appender : Bytes → Kind
  stdout_appender : Kind

-- LogAppender; a formatter that is `none` is the null pointer.
pub record Appender : Type 0 where
  pub name : ℕ
  pub kind : Kind
  pub level : Level
  pub formatter : Option LogFormatter

unfoldable pub new_appender : ℕ → Kind → Appender
new_appender name kind = record { name = name; kind = kind; level = debug; formatter = none }

pub record Logger : Type 0 where
  pub name : Bytes
  pub level : Level
  pub appenders : List Appender
  pub formatter : Option LogFormatter
  pub has_root : Bool

unfoldable pub new_logger : Bytes → Logger
new_logger name = record {
  name = name;
  level = debug;
  appenders = [];
  formatter = some (new_formatter (codes "%d{%Y-%m-%d %H:%M:%S}%T%t%T%F%T[%p]%T[%c]%T%f:%l%T%m%n"));
  has_root = false;
}

abbrev pub kept_or {ℓ} : {A : Type ℓ} → Option A → Option A → Option A
kept_or none f = f
kept_or (some g) f = some g

-- `if (!i->formatter_) i->formatter_ = formatter_;`
unfoldable pub fill_formatter : Option LogFormatter → Appender → Appender
fill_formatter formatter a = record a { formatter = kept_or a.formatter formatter }

-- SetFormatter of a formatter
unfoldable pub set_formatter : LogFormatter → Logger → Logger
set_formatter val l = record l {
  formatter = some val;
  appenders = map (fill_formatter (some val)) l.appenders;
}

-- SetFormatter of a pattern
unfoldable pub set_pattern : Bytes → Logger → Logger
set_pattern val l = let f = new_formatter val in if f.error then l else set_formatter f l

unfoldable pub add_appender : Appender → Logger → Logger
add_appender a l = record l { appenders = l.appenders ++ fill_formatter l.formatter a ∷ [] }

unfoldable pub erase_appender : ℕ → List Appender → List Appender
erase_appender name [] = []
erase_appender name (a ∷ appenders) =
    if a.name == name then appenders else a ∷ erase_appender name appenders

unfoldable pub del_appender : ℕ → Logger → Logger
del_appender name l = record l { appenders = erase_appender name l.appenders }

unfoldable pub clear_appenders : Logger → Logger
clear_appenders l = record l { appenders = [] }

-- Whether output of the class writes the event: only StdoutLogAppender's looks at its level.
unfoldable pub writes : Kind → Level → Level → Bool
writes (file_appender f) level own = true
writes stdout_appender level own = at_least level own

-- The text an appender writes; the outer `none` is the use of a null formatter, the inner one is silence.
abbrev pub text_by : (LogFormatter → Bytes) → Bool → Option LogFormatter → Option (Option Bytes)
text_by f false m = some none
text_by f true none = none
text_by f true (some m) = some (some (f m))

abbrev pub then_rest :
    ℕ → Option (Option Bytes) → Option (List (ℕ × Option Bytes)) → Option (List (ℕ × Option Bytes))
then_rest n none r = none
then_rest n (some x) none = none
then_rest n (some x) (some xs) = some ((n, x) ∷ xs)

module _ (strftime : Bytes → ℕ → Bytes) where
  -- output of either class
  unfoldable pub output : LogEvent → Appender → Option (Option Bytes)
  output e a = text_by (λ m. format strftime m e) (writes a.kind e.level a.level) a.formatter

  -- The loop over the appenders: each with the text it writes
  unfoldable pub outputs : LogEvent → List Appender → Option (List (ℕ × Option Bytes))
  outputs e [] = some []
  outputs e (a ∷ appenders) = then_rest a.name (output e a) (outputs e appenders)

  -- Logger::log of a logger that has no root
  unfoldable pub log_root : Logger → LogEvent → Option (List (ℕ × Option Bytes))
  log_root l e = if at_least e.level l.level then outputs e l.appenders else some []

  -- Logger::log, `root` being what root_ points to when it is not null
  unfoldable pub log : Logger → Logger → LogEvent → Option (List (ℕ × Option Bytes))
  log root l e =
      if at_least e.level l.level
      then elim l.appenders [
        | [] ↦ (if l.has_root then log_root root e else some [])
        | a ∷ appenders ↦ outputs e (a ∷ appenders)
      ]
      else some []

-- LoggerManager: loggers_ by name, the root among them
abbrev pub LoggerManager : Type 0
LoggerManager = Dict Logger

unfoldable pub new_manager : ℕ → LoggerManager
new_manager name =
    put exact (codes "root")
      (add_appender (new_appender name stdout_appender) (new_logger (codes "root"))) []

-- GetLogger: the logger, and the manager
unfoldable pub get_logger : Bytes → LoggerManager → Logger × LoggerManager
get_logger name m = elim (find exact name m) [
  | some l ↦ (l, m)
  | none ↦ (
    record (new_logger name) { has_root = true },
    put exact name (record (new_logger name) { has_root = true }) m,
  )
]
